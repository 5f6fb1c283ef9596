-- ===== src/CText/Tokens.antt =====
-- Laws of `tokens`: the tokens of a text that is put together from parts without the separator.
use rpi_hadoop.Prelude.{ℕ, ◌≡◌, ◌≢◌, refl, [], ◌∷◌, ◌++◌, arith, append-nil, Text, All}
use rpi_hadoop.CText.{split, tokens}

abbrev pub Lacks : ℕ → Text → Type 0
Lacks sep = All (λ c. c ≢ sep)

module _ (sep : ℕ) where
  split-append :
      (t rest : Text)
      → Lacks sep t
      → split sep (t ++ rest) ≡ (t ++ (split sep rest).0, (split sep rest).1)
  unfolding split
  split-append [] rest h = refl
  split-append (c ∷ t) rest (ne, h) = ground (arith, split-append t rest h)

  split_sep : (rest : Text) → split sep (sep ∷ rest) ≡ ([], tokens sep rest)
  unfolding split tokens
  split_sep rest = ground arith

  -- A non-empty part in front of a separator is the first token.
  pub tokens-cons :
      (t rest : Text) → t ≢ [] → Lacks sep t → tokens sep (t ++ sep ∷ rest) ≡ t ∷ tokens sep rest
  unfolding tokens
  tokens-cons [] rest ne h = absurd (ne refl)
  tokens-cons (c ∷ t) rest ne h =
      ground (arith, split-append (c ∷ t) (sep ∷ rest) h, split_sep rest, append-nil t)

  split_whole : (t : Text) → Lacks sep t → split sep t ≡ (t, [])
  unfolding split
  split_whole [] h = refl
  split_whole (c ∷ t) (ne, h) = ground (arith, split_whole t h)

  -- A non-empty text without the separator is one token.
  pub tokens_one : (t : Text) → t ≢ [] → Lacks sep t → tokens sep t ≡ t ∷ []
  unfolding tokens
  tokens_one [] ne h = absurd (ne refl)
  tokens_one (c ∷ t) ne h = rw (split_whole (c ∷ t) h)
