-- ===== src/Cluster/Latest.antt =====
-- What the master knows of a node after reports of several nodes.
use rpi_hadoop.Prelude.{
  ℕ, ◌/◌, ◌≡◌, ◌≢◌, refl, ap, ◌∙◌, List, [], ◌∷◌, ◌++◌, map, All, arith, Text, Run, done, ◌>>=◌,
  pos, ◌==◌, true, false, if◌then◌else◌, Bool-cases, inl, inr,
}
use rpi_hadoop.Report.{Tables, compose_report, process_report}
use rpi_hadoop.Report.Buffers.{row, report_text, compose_report-done}
use rpi_hadoop.Report.RoundTrip.{total, busy, reported, process_report-compose_report}
use rpi_hadoop.Report.Server.{process_reports}
use rpi_hadoop.Cluster.{Reporting}
use rpi_hadoop.Cluster.Cycle.{IsReport}

-- The messages of the nodes, in the order of their reports.
unfoldable pub messages : List Reporting → Run (List Text)
messages [] = done []
messages (r ∷ later) = do
  content ← compose_report (pos r.id) r.size r.reduce r.rates
  contents ← messages later
  done (content ∷ contents)

abbrev text_of : Reporting → Text
text_of r = report_text (pos r.id) r.size r.reduce r.rates

abbrev after_one : Reporting → Tables → Tables
after_one r t = reported r.id r.size r.reduce r.rates t

composed :
    (r : Reporting)
    → IsReport r
    → compose_report (pos r.id) r.size r.reduce r.rates ≡ done (text_of r)
composed r h =
    compose_report-done (pos r.id) r.size r.reduce r.rates (omega (arith, h.node)) h.size h.reduce
      h.rates

processed :
    (r : Reporting) (t : Tables) → IsReport r → process_report (text_of r) t ≡ done (after_one r t)
processed r t h =
    rw (composed r h) at
      (process_report-compose_report r.id r.size r.reduce r.rates t h.node h.size h.reduce h.rates)

unfoldable after_all : List Reporting → Tables → Tables
after_all [] t = t
after_all (r ∷ later) t = after_all later (after_one r t)

messages-done : (l : List Reporting) → All IsReport l → messages l ≡ done (map text_of l)
unfolding messages
messages-done [] h = refl
messages-done (r ∷ l) (hr, h) = rw (composed r hr, messages-done l h) refl

process_reports-after_all :
    (l : List Reporting) (t : Tables)
    → All IsReport l
    → process_reports (map text_of l) t ≡ done (after_all l t)
unfolding process_reports after_all
process_reports-after_all [] t h = refl
process_reports-after_all (r ∷ l) t (hr, h) =
    rw (processed r t hr) (process_reports-after_all l (after_one r t) h)

served :
    (l : List Reporting) (t : Tables)
    → All IsReport l
    → (messages l >>= λ contents. process_reports contents t) ≡ done (after_all l t)
served l t h = rw (messages-done l h) (process_reports-after_all l t h)

after_all-append :
    (l later : List Reporting) (t : Tables)
    → after_all (l ++ later) t ≡ after_all later (after_all l t)
unfolding after_all
after_all-append [] later t = refl
after_all-append (r ∷ l) later t = after_all-append l later (after_one r t)

All-append :
    (l later : List Reporting) → All IsReport l → All IsReport later → All IsReport (l ++ later)
All-append [] later h h' = h'
All-append (r ∷ l) later (hr, h) h' = (hr, All-append l later h h')

-- The entries of node `id` are the same.
abbrev SameEntries : ℕ → Tables → Tables → Type 0
SameEntries id t t' = (t'.p id ≡ t.p id) × (t'.reducer id ≡ t.reducer id) × (t'.sp id ≡ t.sp id)

other_entry : (id j : ℕ) → j ≢ id → (id == j) ≡ false
other_entry id j h = ground arith

after_one-SameEntries :
    (r : Reporting) (id : ℕ) (t : Tables) → r.id ≢ id → SameEntries id t (after_one r t)
after_one-SameEntries r id t ne =
    let other = other_entry id r.id ne in
    (
      rw other refl,
      rw other refl,
      elim (Bool-cases (busy (row 9 0 r.rates) == 0)) [
        | inl idle ↦ rw idle refl
        | inr some_busy ↦ rw (some_busy, other) refl
      ],
    )

after_all-SameEntries :
    (l : List Reporting) (id : ℕ) (t : Tables)
    → All (λ (r : Reporting). r.id ≢ id) l
    → SameEntries id t (after_all l t)
unfolding after_all
after_all-SameEntries [] id t h = (refl, refl, refl)
after_all-SameEntries (r ∷ l) id t (ne, h) =
    let one = after_one-SameEntries r id t ne in
    let rest = after_all-SameEntries l id (after_one r t) h in
    (rest.0 ∙ one.0, rest.1 ∙ one.1, rest.2 ∙ one.2)

same_id : (id : ℕ) → (id == id) ≡ true
same_id id = ground arith

-- Whatever reports of nodes 0 to 9, of `int` sizes and jobs and rates of at most four digits, the report
-- thread is sent, none makes it fault, and the entries of a node are those of its last report: the size,
-- the job, and the average of the rates that are not 0. If all these are 0 its speed is as it was when the
-- last report came.
pub process_reports-Latest :
    (earlier later : List Reporting) (r : Reporting) (t : Tables)
    → All IsReport earlier
    → IsReport r
    → All IsReport later
    → All (λ (q : Reporting). q.id ≢ r.id) later
    → (t1 : Tables) × (t' : Tables) × ((messages earlier >>= λ contents. process_reports contents t)
        ≡ done t1)
      × ((messages (earlier ++ r ∷ later) >>= λ contents. process_reports contents t) ≡ done t')
      × (t'.p r.id ≡ r.size)
      × (t'.reducer r.id ≡ r.reduce)
      × (t'.sp r.id ≡ (
          if busy (row 9 0 r.rates) == 0
          then t1.sp r.id
          else pos (total (row 9 0 r.rates) / busy (row 9 0 r.rates))))
unfolding after_all
process_reports-Latest earlier later r t he hr hl last =
    let t1 = after_all earlier t in
    let same = after_all-SameEntries later r.id (after_one r t1) last in
    (
      t1,
      after_all later (after_one r t1),
      served earlier t he,
      served (earlier ++ r ∷ later) t (All-append earlier (r ∷ later) he (hr, hl))
          ∙ ap done (after_all-append earlier (r ∷ later) t),
      same.0 ∙ rw (same_id r.id) refl,
      same.1 ∙ rw (same_id r.id) refl,
      same.2 ∙ elim (Bool-cases (busy (row 9 0 r.rates) == 0)) [
        | inl idle ↦ rw idle refl
        | inr some_busy ↦ rw (some_busy, same_id r.id) refl
      ],
    )
