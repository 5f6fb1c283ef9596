-- ===== src/Copying/Conserved.antt =====
-- No packet is lost, doubled or put out of order on its way between the devices.
use rpi_hadoop.Prelude.{
  false, ℕ, zero, suc, ◌%◌, ◌^◌, ◌≤◌, ◌≡◌, ◌≢◌, refl, sym, ap, ◌∙◌, Bool, true, List, [], ◌∷◌, ◌++◌,
  map, append_assoc, append-nil, Option, some, Text, length, take, take_of_length-le, done, ℤ,
  arith,
}
use rpi_hadoop.Devices.{cread-some, cwrite-some}
use rpi_hadoop.SlotWindow.{Config}
use rpi_hadoop.Copying.{
  Tunnel, copy_bytes, state_of, copy_packet, Selected, can_read, interrupted, failed, copy_selected,
  first_selected, copy_turn, continue_copying, copy_loop, copy_if, may_send, window_turn,
  first_turn,
}

-- The documented behaviour of the devices, over the packets that wait in the one and those that came out
-- of the other: packets arrive until `select` returns, which does not fail; `read` takes one, and drops what the buffer does
-- not hold of it; `write` sends one.
pub record IsTunnel {S : Type 0} (tunnel : Tunnel S) : Type 0 where
  pub waiting : S → List Text
  pub sent : S → List Text
  pub selects :
      (s : S)
      → (new : List Text) × (waiting (tunnel.select s).1 ≡ waiting s ++ new)
        × (sent (tunnel.select s).1 ≡ sent s)
        × ((tunnel.select s).0 ≡ can_read → waiting (tunnel.select s).1 ≢ [])
        × ((tunnel.select s).0 ≢ failed)
  pub reads :
      (n : ℕ) (s : S) (packet : Text) (rest : List Text)
      → waiting s ≡ packet ∷ rest
      → (s' : S) × (tunnel.from.read n s ≡ (some (take n packet), s'))
        × (waiting s' ≡ rest)
        × (sent s' ≡ sent s)
  pub writes :
      (packet : Text) (s : S)
      → (n : ℕ) × (s' : S) × (tunnel.to.write packet s ≡ (some n, s'))
        × (waiting s' ≡ waiting s)
        × (sent s' ≡ sent s ++ packet ∷ [])
  pub tells_time :
      (s : S) → (waiting (tunnel.usec s).1 ≡ waiting s) × (sent (tunnel.usec s).1 ≡ sent s)

-- What the buffer holds of each packet.
abbrev pub cut_all : List Text → List Text
cut_all = map (take 1500)

length-take-le : (n : ℕ) (s : Text) → length (take n s) ≤ n
length-take-le zero s = omega arith
length-take-le (suc n) [] = omega arith
length-take-le (suc n) (c ∷ s) = omega (arith, length-take-le n s)

-- A packet's length fits into 16 bits.
whole : (s : Text) → length s ≤ 1500 → take (length s % 2 ^ 16) s ≡ s
whole s h =
    let small : length s % 2 ^ 16 ≡ length s = omega arith in
    rw small (take_of_length-le (length s) s (omega arith))

cut_all-append : (xs ys : List Text) → cut_all (xs ++ ys) ≡ cut_all xs ++ cut_all ys
cut_all-append [] ys = refl
cut_all-append (x ∷ xs) ys = ap (λ l. take 1500 x ∷ l) (cut_all-append xs ys)

module _ {S : Type 0} (tunnel : Tunnel S) (laws : IsTunnel tunnel) where
  -- What came out, and what will of the packets that wait.
  abbrev pub all_packets : S → List Text → List Text
  all_packets s new = laws.sent s ++ cut_all (laws.waiting s ++ new)

  -- The program has gone on, and every packet is where it belongs, those that arrived included.
  abbrev pub Conserves : S → Option S → Type 0
  Conserves s r =
      (s' : S) × (new : List Text) × (r ≡ some s') × (all_packets s' [] ≡ all_packets s new)

  copy_packet-Conserves :
      (s : S)
      → laws.waiting s ≢ []
      → (s' : S) × (copy_packet tunnel s ≡ some s') × (all_packets s' [] ≡ all_packets s [])
  unfolding copy_packet copy_bytes state_of
  copy_packet-Conserves s ne = go (laws.waiting s) refl
    where
      go :
          (l : List Text)
          → laws.waiting s ≡ l
          → (s' : S) × (copy_packet tunnel s ≡ some s') × (all_packets s' [] ≡ all_packets s [])
      go [] e = absurd (ne e)
      go (packet ∷ rest) e =
          let (s1, read, left, same) = laws.reads 1500 s packet rest e in
          let bytes : Text = take 1500 packet in
          let (n, s2, wrote, kept, out) = laws.writes bytes s1 in
          (
            s2,
            rw
                (
                  cread-some tunnel.from 1500 s bytes s1 read,
                  whole bytes (length-take-le 1500 packet),
                  cwrite-some tunnel.to bytes n s1 s2 wrote,
                )
                refl,
            rw (out, kept, left, same, e, append-nil) (append_assoc (laws.sent s) (bytes ∷ []) _),
          )

  -- What arrived until `select` returned belongs to the packets that wait.
  with_arrived :
      (s s1 : S) (r : Option S) (new : List Text)
      → laws.waiting s1 ≡ laws.waiting s ++ new
      → laws.sent s1 ≡ laws.sent s
      → (s' : S) × (r ≡ some s') × (all_packets s' [] ≡ all_packets s1 [])
      → Conserves s r
  with_arrived s s1 r new arrived same (s', run, e) =
      (s', new, run, e ∙ rw (arrived, same, append-nil) refl)

  copy_selected-Conserves :
      (s : S) (selected : Selected × S) (new : List Text)
      → laws.waiting selected.1 ≡ laws.waiting s ++ new
      → laws.sent selected.1 ≡ laws.sent s
      → (selected.0 ≡ can_read → laws.waiting selected.1 ≢ [])
      → selected.0 ≢ failed
      → Conserves s (copy_selected tunnel selected)
  unfolding copy_selected
  copy_selected-Conserves s (can_read, s1) new arrived same ready fine =
      with_arrived s s1 _ new arrived same (copy_packet-Conserves s1 (ready refl))
  copy_selected-Conserves s (interrupted, s1) new arrived same ready fine =
      with_arrived s s1 _ new arrived same (s1, refl, refl)
  copy_selected-Conserves s (failed, s1) new arrived same ready fine = absurd (fine refl)

  copy_turn-Conserves : (s : S) → Conserves s (copy_turn tunnel s)
  unfolding copy_turn
  copy_turn-Conserves s =
      let (new, arrived, same, ready, fine) = laws.selects s in
      copy_selected-Conserves s (tunnel.select s) new arrived same ready fine

  all_packets-append :
      (s : S) (xs ys : List Text) → all_packets s (xs ++ ys) ≡ all_packets s xs ++ cut_all ys
  all_packets-append s xs ys =
      ap (λ l. laws.sent s ++ cut_all l) (sym (append_assoc (laws.waiting s) xs ys))
      ∙ ap (λ l. laws.sent s ++ l) (cut_all-append (laws.waiting s ++ xs) ys)
      ∙ sym (append_assoc (laws.sent s) (cut_all (laws.waiting s ++ xs)) (cut_all ys))

  -- However often the master's loop is interrupted, and whatever arrives, the program goes on, and
  -- what it has sent, followed by what waits, is what it had sent, followed by what waited and what arrived:
  -- no packet is lost, doubled or overtaken. Of each packet the first 1500 bytes count.
  pub copy_loop-Conserves : (turns : ℕ) (s : S) → Conserves s (copy_loop tunnel turns s)
  unfolding copy_loop continue_copying
  copy_loop-Conserves zero s = (s, [], refl, refl)
  copy_loop-Conserves (suc turns) s =
      let (s1, new1, run1, e1) = copy_turn-Conserves s in
      let (s2, new2, run2, e2) = copy_loop-Conserves turns s1 in
      (
        s2,
        new1 ++ new2,
        rw run1 run2,
        e2
            ∙ all_packets-append s1 [] new2
            ∙ ap (λ l. l ++ cut_all new2) e1
            ∙ sym (all_packets-append s new1 new2),
      )

  window_turn-Conserves :
      (config : Config) (my_t_alloc : ℤ) (sending : Bool) (usec : ℕ) (s : S)
      → may_send config my_t_alloc usec ≡ done sending
      → laws.waiting s ≢ []
      → (s' : S) × (window_turn tunnel config my_t_alloc (usec, s) ≡ done (some s'))
        × (all_packets s' [] ≡ all_packets s [])
  unfolding window_turn copy_if
  window_turn-Conserves config my_t_alloc true usec s decided ne =
      let (s', run, e) = copy_packet-Conserves s ne in (s', rw (decided, run) refl, e)
  window_turn-Conserves config my_t_alloc false usec s decided ne = (s, rw decided refl, refl)

  -- The first forwarder keeps its packets too, whatever the time, under a table by which it can be
  -- decided whether it may send.
  pub first_turn-Conserves :
      (config : Config) (my_t_alloc : ℤ) (s : S)
      → ((usec : ℕ) → (sending : Bool) × (may_send config my_t_alloc usec ≡ done sending))
      → (r : Option S) × (first_turn tunnel config my_t_alloc s ≡ done r) × Conserves s r
  unfolding first_turn
  first_turn-Conserves config my_t_alloc s decides =
      let (new, arrived, same, ready, fine) = laws.selects s in
      go (tunnel.select s) new arrived same ready fine
    where
      go :
          (selected : Selected × S) (new : List Text)
          → laws.waiting selected.1 ≡ laws.waiting s ++ new
          → laws.sent selected.1 ≡ laws.sent s
          → (selected.0 ≡ can_read → laws.waiting selected.1 ≢ [])
          → selected.0 ≢ failed
          → (r : Option S) × (first_selected tunnel config my_t_alloc selected ≡ done r)
            × Conserves s r
      go (interrupted, s1) new arrived same ready fine =
          (some s1, refl, with_arrived s s1 _ new arrived same (s1, refl, refl))
      go (failed, s1) new arrived same ready fine = absurd (fine refl)
      go (can_read, s1) new arrived same ready fine =
          let (kept, out) = laws.tells_time s1 in
          let (sending, decided) = decides (tunnel.usec s1).0 in
          let (s', run, e) =
            window_turn-Conserves config my_t_alloc sending (tunnel.usec s1).0 (tunnel.usec s1).1
              decided (λ e. ready refl (sym kept ∙ e)) in
          (some s', run, with_arrived s s1 _ new arrived same (s', refl, e ∙ rw (kept, out) refl))
