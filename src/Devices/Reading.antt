-- ===== src/Devices/Reading.antt =====
-- `read_n` reads exactly what is wanted, however few bytes each `read` returns.
use rpi_hadoop.Prelude.{
  ℕ, zero, suc, ◌-◌, ◌≤◌, ◌<◌, ◌≡◌, refl, sym, ap, ◌∙◌, [], ◌∷◌, ◌++◌, append_assoc, append-nil,
  arith, Option, some, ltb, if◌then◌else◌, Text, length, length-append, take, drop, Run, done, pos,
}
use rpi_hadoop.Devices.{Reader, cread-some, read_loop, read_n}

-- A descriptor that can be read without error, over the bytes that are still to come: each `read` returns
-- the first of them, at most as many as wanted, and none only if there are none.
pub record IsFile {S : Type 0} (file : Reader S) : Type 0 where
  pub contents : S → Text
  pub reads :
      (n : ℕ) (s : S)
      → (bytes : Text) × (s' : S) × (file.read n s ≡ (some bytes, s'))
        × (contents s ≡ bytes ++ contents s')
        × (length bytes ≤ n)
        × (1 ≤ n → bytes ≡ [] → contents s ≡ [])

take-append :
    (n : ℕ) (xs ys : Text) → length xs ≤ n → take n (xs ++ ys) ≡ xs ++ take (n - length xs) ys
take-append n [] ys h = ap (λ k. take k ys) (omega arith)
take-append zero (x ∷ xs) ys h = absurd (omega arith)
take-append (suc n) (x ∷ xs) ys h =
    ap (λ l. x ∷ l) (take-append n xs ys (omega arith) ∙ ap (λ k. xs ++ take k ys) (omega arith))

drop-append : (n : ℕ) (xs ys : Text) → length xs ≤ n → drop n (xs ++ ys) ≡ drop (n - length xs) ys
drop-append n [] ys h = ap (λ k. drop k ys) (omega arith)
drop-append zero (x ∷ xs) ys h = absurd (omega arith)
drop-append (suc n) (x ∷ xs) ys h =
    drop-append n xs ys (omega arith) ∙ ap (λ k. drop k ys) (omega arith)

zero_sub : (n : ℕ) → 0 - n ≡ 0
zero_sub n = omega arith

sub_zero : (n : ℕ) → suc n - 0 ≡ suc n
sub_zero n = omega arith

left_over : (n m : ℕ) → ltb 0 (n - m) ≡ ltb m n
left_over n m = ground arith

module _ {S : Type 0} (file : Reader S) (laws : IsFile file) where
  -- What is left, and the buffer, after a chunk and the rest of it.
  joined :
      (left : ℕ) (buf bytes ys : Text) (s : S)
      → length bytes ≤ left
      → ◌≡◌ {A = Run (Option (ℕ × Text × S))}
          (done (
            some (
              left - length bytes - length ys,
              (buf ++ bytes) ++ take (left - length bytes) ys,
              s,
            )))
          (done (some (left - length (bytes ++ ys), buf ++ take left (bytes ++ ys), s)))
  joined left buf bytes ys s few =
      ap (λ k. done (some (k, (buf ++ bytes) ++ take (left - length bytes) ys, s)))
        (omega (arith, length-append bytes ys))
      ∙ ap (λ t. done (some (left - length (bytes ++ ys), t, s)))
          (simp append_assoc (ap (λ t. buf ++ t) (sym (take-append left bytes ys few))))

  -- One round of the loop, which reads `bytes`, before the others.
  chunk :
      (fuel more : ℕ) (buf : Text) (s : S) (bytes : Text) (s1 : S)
      → file.read (suc more) s ≡ (some bytes, s1)
      → laws.contents s ≡ bytes ++ laws.contents s1
      → length bytes ≤ suc more
      → (bytes ≡ [] → laws.contents s ≡ [])
      → (suc more - length bytes < fuel
          → (s' : S) × (read_loop file fuel (suc more - length bytes) (buf ++ bytes) s1
              ≡ done (
                  some (
                    suc more - length bytes - length (laws.contents s1),
                    (buf ++ bytes) ++ take (suc more - length bytes) (laws.contents s1),
                    s',
                  )))
            × (laws.contents s' ≡ drop (suc more - length bytes) (laws.contents s1)))
      → suc more < suc fuel
      → (s' : S) × (read_loop file (suc fuel) (suc more) buf s
          ≡ done (
              some (
                suc more - length (laws.contents s),
                buf ++ take (suc more) (laws.contents s),
                s',
              )))
        × (laws.contents s' ≡ drop (suc more) (laws.contents s))
  unfolding read_loop
  chunk fuel more buf s [] s1 run split few empty others h = (
    s1,
    rw (cread-some file (suc more) s [] s1 run, read_loop)
        (rw (empty refl, append-nil, sub_zero more) refl),
    sym split ∙ rw (empty refl) refl,
  )
  chunk fuel more buf s (c ∷ rest) s1 run split few empty others h =
      let (s', run', end) = others (omega arith) in
      (
        s',
        rw (cread-some file (suc more) s (c ∷ rest) s1 run, read_loop)
            (run'
              ∙ joined (suc more) buf (c ∷ rest) (laws.contents s1) s' few
              ∙ ap (λ cs. done (some (suc more - length cs, buf ++ take (suc more) cs, s')))
                  (sym split)),
        end
            ∙ sym (
                ap (drop (suc more)) split
                ∙ drop-append (suc more) (c ∷ rest) (laws.contents s1) few),
      )

  read_loop-take :
      (fuel left : ℕ) (buf : Text) (s : S)
      → left < fuel
      → (s' : S) × (read_loop file fuel left buf s
          ≡ done (some (left - length (laws.contents s), buf ++ take left (laws.contents s), s')))
        × (laws.contents s' ≡ drop left (laws.contents s))
  unfolding read_loop
  read_loop-take zero left buf s h = absurd (omega arith)
  read_loop-take (suc fuel) zero buf s h =
      (s, rw (append-nil, zero_sub (length (laws.contents s))) refl, refl)
  read_loop-take (suc fuel) (suc more) buf s h =
      let (bytes, s1, run, split, few, empty) = laws.reads (suc more) s in
      chunk fuel more buf s bytes s1 run split few (empty (omega arith))
        (λ h'. read_loop-take fuel (suc more - length bytes) (buf ++ bytes) s1 h') h

  -- `read_n` reads the next `n` bytes, if there are as many, and returns `n`; otherwise it reads all that
  -- there are, and returns 0. This does not depend on how many bytes each `read` returns, and more than
  -- `n` steps of fuel are always enough.
  pub read_n-take :
      (fuel n : ℕ) (s : S)
      → n < fuel
      → (s' : S) × (read_n file fuel (pos n) s
          ≡ done (
              some (
                if ltb (length (laws.contents s)) n then pos 0 else pos n,
                take n (laws.contents s),
                s',
              )))
        × (laws.contents s' ≡ drop n (laws.contents s))
  unfolding read_n
  read_n-take fuel n s h =
      let (s', run, rest) = read_loop-take fuel n [] s h in
      (s', rw (run, left_over n (length (laws.contents s))) refl, rest)
