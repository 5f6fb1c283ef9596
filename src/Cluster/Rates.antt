-- ===== src/Cluster/Rates.antt =====
-- From a node's sniffer to the master: the counts that packet_rate.c writes to speed_log.txt come to the
-- master's table of speeds with the node's report.
use rpi_hadoop.Prelude.{
  ℕ, ◌≤◌, ◌<◌, ◌≡◌, refl, sym, ◌∙◌, List, [], false, true, arith, ap, ◌/◌, fault, out_of_fuel, ◌==◌,
  if◌then◌else◌, All, Run, done, ◌>>=◌, ℤ, pos, InInt, is_zero,
}
use mathlib.Core.Path.{subst}
use rpi_hadoop.CArray.{IntArray, update}
use rpi_hadoop.PacketRate.{write_log, sum_loop}
use rpi_hadoop.LinkQuality.{get_link_quality}
use rpi_hadoop.LinkQuality.Log.{get_link_quality-write_log}
use rpi_hadoop.Report.{Tables, nodes, compose_report, process_report}
use rpi_hadoop.Report.Buffers.{IsSpeed, row}
use rpi_hadoop.Report.RoundTrip.{total, busy, reported, process_report-compose_report}

-- The rates that a node knows when it has read the counts: node 1's entry is never read.
abbrev pub known : IntArray → IntArray → IntArray
known speed a i = if i == 0 then speed 0 else a i

-- The counts on their way: to the file, to the node, into its report, and into the master's tables.
abbrev pub pass_on : IntArray → IntArray → ℕ → ℤ → ℤ → Tables → Run Tables
pass_on a speed id size reduce t = do
  heard ← write_log [] true a
  rates ← get_link_quality heard.speed_log speed
  content ← compose_report (pos id) size reduce rates
  process_report content t

row-known :
    (rates speed a : IntArray)
    → rates 0 ≡ speed 0
    → ((i : ℕ) → 1 ≤ i → i < 9 → rates i ≡ a i)
    → row 9 0 rates ≡ row 9 0 (known speed a)
row-known rates speed a first rest =
    rw
      (
        first,
        rest 1 (omega arith) (omega arith),
        rest 2 (omega arith) (omega arith),
        rest 3 (omega arith) (omega arith),
        rest 4 (omega arith) (omega arith),
        rest 5 (omega arith) (omega arith),
        rest 6 (omega arith) (omega arith),
        rest 7 (omega arith) (omega arith),
        rest 8 (omega arith) (omega arith),
      )
      refl

reported-row :
    (id : ℕ) (size reduce : ℤ) (p q : IntArray) (t : Tables)
    → row 9 0 p ≡ row 9 0 q
    → reported id size reduce p t ≡ reported id size reduce q t
reported-row id size reduce p q t e = ap tables e
  where
    tables : List ℤ → Tables
    tables l = record {
      p = update t.p id size;
      sp = if busy l == 0 then t.sp else update t.sp id (pos (total l / busy l));
      reducer = update t.reducer id reduce;
    }

bind-done :
    {A B : Type 0} (m : Run A) (f : A → Run B) (b : B)
    → (m >>= f) ≡ done b
    → (a : A) × (m ≡ done a) × (f a ≡ done b)
bind-done (done a) f b e = (a, refl, e)
bind-done fault f b e = absurd cc
bind-done out_of_fuel f b e = absurd cc

-- The counts that a sniffer hears, of at most four digits and not all 0, come to the master: behind the
-- node's report its tables hold the node's size and job, and as its speed the average of the rates that are
-- not 0: entries 1 to 8 are the counts as written, entry 0, which is never read, is what the node had before.
-- If all these are 0 the speed is the old one. The file can be opened, and the memory of `malloc`
-- starts with a 0 byte.
pub counts_reach_master :
    (a speed : IntArray) (id : ℕ) (size reduce : ℤ) (t : Tables)
    → All IsSpeed (row 9 0 a)
    → IsSpeed (speed 0)
    → is_zero (sum_loop 9 0 a (pos 0)) ≡ false
    → id < nodes
    → InInt size
    → InInt reduce
    → pass_on a speed id size reduce t ≡ done (reported id size reduce (known speed a) t)
counts_reach_master a speed id size reduce t h first some_count hi hs hr =
    let (rates, run, same, rest) = get_link_quality-write_log a speed h some_count in
    let e = row-known rates speed a same rest in
    let small : All IsSpeed (row 9 0 rates) = subst (All IsSpeed) (sym e) (first, h.1) in
    let (heard, wrote, read) = bind-done (write_log [] true a) _ rates run in
    rw (wrote, read)
      (process_report-compose_report id size reduce rates t hi hs hr small
        ∙ ap done (reported-row id size reduce rates (known speed a) t e))
