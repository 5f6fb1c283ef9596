-- ===== src/Tests/Cycles.antt =====
-- Reports and rounds of a whole cluster at concrete inputs.
use rpi_hadoop.Prelude.{
  ℕ, ◌≡◌, ◌/◌, refl, [], ◌∷◌, none, pos, done, ◌>>=◌, ◌==◌, if◌then◌else◌, arith,
}
use rpi_hadoop.CArray.{zeros, update}
use rpi_hadoop.Report.{Tables}
use rpi_hadoop.Report.Buffers.{row}
use rpi_hadoop.Report.RoundTrip.{reported, total, busy}
use rpi_hadoop.Report.Server.{process_reports}
use rpi_hadoop.Scheduler.{next_node}
use rpi_hadoop.Scheduler.RoundRobin.{FirstAhead}
use rpi_hadoop.Cluster.{Cluster, Reporting, cycle}
use rpi_hadoop.Cluster.Cycle.{IsReport, slot_after, cycle_serves}
use rpi_hadoop.Cluster.Latest.{messages, process_reports-Latest}

abbrev small_cluster : Cluster
small_cluster = record {
  tables = record { p = update zeros 7 (pos 20); sp = zeros; reducer = zeros };
  scheduler = record { pri = 7; t_alloc = zeros; slot = pos 0 };
  nodes = record {
    slot_of = λ k. record { slot = pos 0; est = pos 0; priority_reducer = pos 0 };
    answers = λ k. none;
  };
}

abbrev report_of_three : Reporting
report_of_three = record {
  id = 3;
  size = pos 1500;
  reduce = pos 0;
  rates = update zeros 2 (pos 900);
}

cycle_serves_example :
    (k : ℕ) × (c' : Cluster) × (cycle 20_001 report_of_three none small_cluster ≡ done c')
    × FirstAhead
        (reported 3 (pos 1500) (pos 0) report_of_three.rates small_cluster.tables).p
        (next_node 7)
        8
        k
    × (c'.tables ≡ reported 3 (pos 1500) (pos 0) report_of_three.rates small_cluster.tables)
    × (c'.scheduler.pri ≡ k)
    × ((j : ℕ) → c'.nodes.slot_of j ≡ slot_after k small_cluster.nodes.slot_of j)
cycle_serves_example =
    cycle_serves 20_001 report_of_three none small_cluster
      (record { node = omega arith; size = omega arith; reduce = omega arith; rates = omega arith })
      (omega arith) refl (omega arith) (omega arith)

abbrev report_of_five : Reporting
report_of_five = record { id = 5; size = pos 300; reduce = pos 1; rates = update zeros 1 (pos 40) }

abbrev second_of_three : Reporting
second_of_three = record {
  id = 3;
  size = pos 0;
  reduce = pos 2;
  rates = update (update zeros 1 (pos 100)) 4 (pos 300);
}

three-IsReport : IsReport report_of_three
three-IsReport = record {
  node = omega arith;
  size = omega arith;
  reduce = omega arith;
  rates = omega arith;
}

five-IsReport : IsReport report_of_five
five-IsReport = record {
  node = omega arith;
  size = omega arith;
  reduce = omega arith;
  rates = omega arith;
}

second-IsReport : IsReport second_of_three
second-IsReport = record {
  node = omega arith;
  size = omega arith;
  reduce = omega arith;
  rates = omega arith;
}

-- The second report of node 3 comes between two of node 5.
process_reports-Latest_example :
    (t1 : Tables) × (t' : Tables) × ((messages (report_of_three ∷ report_of_five ∷ [])
        >>= λ contents. process_reports contents small_cluster.tables)
      ≡ done t1)
    × ((messages (report_of_three ∷ report_of_five ∷ second_of_three ∷ report_of_five ∷ [])
          >>= λ contents. process_reports contents small_cluster.tables)
        ≡ done t')
    × (t'.p 3 ≡ pos 0)
    × (t'.reducer 3 ≡ pos 2)
    × (t'.sp 3 ≡ (
        if busy (row 9 0 second_of_three.rates) == 0
        then t1.sp 3
        else pos (total (row 9 0 second_of_three.rates) / busy (row 9 0 second_of_three.rates))))
process_reports-Latest_example =
    process_reports-Latest (report_of_three ∷ report_of_five ∷ []) (report_of_five ∷ [])
      second_of_three small_cluster.tables (three-IsReport, (five-IsReport, tt)) second-IsReport
      (five-IsReport, tt) ((λ e. omega arith), tt)
