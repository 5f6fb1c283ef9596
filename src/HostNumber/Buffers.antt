-- ===== src/HostNumber/Buffers.antt =====
-- Which addresses fit into `lastdigit`, and what is read from them.
use rpi_hadoop.Prelude.{
  ℕ, ◌+◌, ◌≤◌, ◌<◌, ◌≡◌, ◌≢◌, refl, sym, [], ◌∷◌, ◌++◌, append_assoc, append-nil, arith, none, some,
  Text, length, length-append, All-append, Run, done, fault, ◌>>=◌, ℤ, pos, inl, inr, ◌∙◌, ap,
}
use rpi_hadoop.CText.{tokens, atoi, sprintf, decimal}
use rpi_hadoop.CText.Decimal.{
  atoi-decimal, decimal-ne-nil, decimal-IsDigit, length-decimal-le, le-length-decimal,
  Lacks-of_IsDigit,
}
use rpi_hadoop.CText.Tokens.{Lacks, tokens-cons, tokens_one}
use rpi_hadoop.Report.Buffers.{sprintf-done, sprintf_overrun, sprintf-cases}
use rpi_hadoop.HostNumber.{
  last_loop, get_last_digit, get_last_ip_digit, Interfaces, address_of, node_number,
}

-- The dotted address of four numbers, with `rest` behind it.
abbrev pub ip_text : ℕ → ℕ → ℕ → ℕ → Text → Text
ip_text a b c d rest =
    decimal a ++ b'.' ∷ (decimal b ++ b'.' ∷ (decimal c ++ b'.' ∷ (decimal d ++ rest)))

decimal-Lacks : (n : ℕ) → Lacks b'.' (decimal n)
decimal-Lacks n = Lacks-of_IsDigit b'.' (decimal n) (omega arith) (decimal-IsDigit n)

tokens-decimal :
    (n : ℕ) (rest : Text) → tokens b'.' (decimal n ++ b'.' ∷ rest) ≡ decimal n ∷ tokens b'.' rest
tokens-decimal n rest = tokens-cons b'.' (decimal n) rest (decimal-ne-nil n) (decimal-Lacks n)

append-ne-nil : (s t : Text) → s ≢ [] → s ++ t ≢ []
append-ne-nil [] t h = absurd (h refl)
append-ne-nil (c ∷ s) t h = λ e. cc

tokens-ip_text :
    (a b c d : ℕ) (rest : Text)
    → Lacks b'.' rest
    → tokens b'.' (ip_text a b c d rest)
      ≡ decimal a ∷ decimal b ∷ decimal c ∷ (decimal d ++ rest) ∷ []
tokens-ip_text a b c d rest h =
    rw
      (
        tokens-decimal a _,
        tokens-decimal b _,
        tokens-decimal c _,
        tokens_one b'.' (decimal d ++ rest) (append-ne-nil (decimal d) rest (decimal-ne-nil d))
            (All-append (λ x. x ≢ b'.') (decimal d) rest (decimal-Lacks d) h),
      )
      refl

part-done : (n : ℕ) → n < 1000 → sprintf 4 (decimal n) ≡ done (decimal n)
part-done n h = sprintf-done 4 (decimal n) (omega (arith, length-decimal-le n 2 h))

last_loop-ip :
    (a b c : ℕ) (last : Text)
    → a < 1000
    → b < 1000
    → c < 1000
    → last_loop (decimal a ∷ decimal b ∷ decimal c ∷ last ∷ []) none
      ≡ (sprintf 4 last >>= λ copied. done (some copied))
unfolding last_loop
last_loop-ip a b c last ha hb hc = rw (part-done a ha, part-done b hb, part-done c hc) refl

-- The host number of a dotted address is the address's last number.
pub get_last_digit_lem :
    (a b c d : ℕ)
    → a < 1000
    → b < 1000
    → c < 1000
    → d < 1000
    → get_last_digit (ip_text a b c d []) ≡ done (pos d)
unfolding get_last_digit
get_last_digit_lem a b c d ha hb hc hd =
    rw
      (
        tokens-ip_text a b c d [] tt,
        last_loop-ip a b c (decimal d ++ []) ha hb hc,
        append-nil,
        part-done d hd,
        ← append-nil (decimal d),
        atoi-decimal d [] tt (omega arith),
      )
      refl

pub length-ip_text :
    (a b c d : ℕ)
    → a < 1000
    → b < 1000
    → c < 1000
    → d < 1000
    → length (ip_text a b c d (10 ∷ [])) < 17
length-ip_text a b c d ha hb hc hd = omega (
  arith,
  length-decimal-le a 2 ha,
  length-decimal-le b 2 hb,
  length-decimal-le c 2 hc,
  length-decimal-le d 2 hd,
  length-append (decimal a)
      (b'.' ∷ (decimal b ++ b'.' ∷ (decimal c ++ b'.' ∷ (decimal d ++ 10 ∷ [])))),
  length-append (decimal b) (b'.' ∷ (decimal c ++ b'.' ∷ (decimal d ++ 10 ∷ []))),
  length-append (decimal c) (b'.' ∷ (decimal d ++ 10 ∷ [])),
  length-append (decimal d) (10 ∷ []),
)

line_feed : (a b c d : ℕ) → ip_text a b c d [] ++ 10 ∷ [] ≡ ip_text a b c d (10 ∷ [])
line_feed a b c d = simp (append_assoc, append-nil)

pub line_feed_length :
    (a b c d : ℕ) → length (ip_text a b c d []) + 1 ≡ length (ip_text a b c d (10 ∷ []))
line_feed_length a b c d =
    sym (length-append (ip_text a b c d []) (10 ∷ [])) ∙ ap length (line_feed a b c d)

-- The last part, with the line feed that the interface's address is printed with.
last_part : Text → Run ℤ
last_part last = sprintf 4 last >>= λ copied. done (atoi copied)

get_last_ip_digit-last_part :
    (net : Interfaces) (code : ℤ) (a b c d : ℕ)
    → address_of net code ≡ done (ip_text a b c d [])
    → a < 1000
    → b < 1000
    → c < 1000
    → d < 1000
    → get_last_ip_digit net code ≡ last_part (decimal d ++ 10 ∷ [])
unfolding get_last_ip_digit last_part
get_last_ip_digit-last_part net code a b c d e ha hb hc hd =
    rw
      (
        e,
        line_feed a b c d,
        sprintf-done 17 (ip_text a b c d (10 ∷ [])) (length-ip_text a b c d ha hb hc hd),
        tokens-ip_text a b c d (10 ∷ []) ((λ h. omega arith), tt),
        last_loop-ip a b c (decimal d ++ 10 ∷ []) ha hb hc,
      )
      (elim (sprintf-cases 4 (decimal d ++ 10 ∷ [])) [ inl fits ↦ rw fits | inr over ↦ rw over ])

-- The program reads its own host number from an interface's dotted address if the number has at most
-- two digits.
pub get_last_ip_digit_lem :
    (net : Interfaces) (code : ℤ) (a b c d : ℕ)
    → address_of net code ≡ done (ip_text a b c d [])
    → a < 1000
    → b < 1000
    → c < 1000
    → d < 100
    → get_last_ip_digit net code ≡ done (pos d)
unfolding last_part
get_last_ip_digit_lem net code a b c d e ha hb hc hd =
    rw
      (
        get_last_ip_digit-last_part net code a b c d e ha hb hc (omega arith),
        sprintf-done 4 (decimal d ++ 10 ∷ [])
            (omega (arith, length-append (decimal d) (10 ∷ []), length-decimal-le d 1 hd)),
        atoi-decimal d (10 ∷ []) refl (omega arith),
      )
      refl

-- A host number of three digits, as the addresses 10.0.0.101 to 10.0.0.109 of the program's own
-- network have, makes `get_Last_IP_Digit` write behind the end of `lastdigit`: the line feed that is
-- printed behind the address is a fourth byte of the last part.
pub get_last_ip_digit_overrun :
    (net : Interfaces) (code : ℤ) (a b c d : ℕ)
    → address_of net code ≡ done (ip_text a b c d [])
    → a < 1000
    → b < 1000
    → c < 1000
    → 100 ≤ d
    → d < 1000
    → get_last_ip_digit net code ≡ fault
unfolding last_part
get_last_ip_digit_overrun net code a b c d e ha hb hc lo hd =
    rw
      (
        get_last_ip_digit-last_part net code a b c d e ha hb hc hd,
        sprintf_overrun 4 (decimal d ++ 10 ∷ [])
            (omega (arith, length-append (decimal d) (10 ∷ []), le-length-decimal d 2 lo)),
      )
      refl

-- The function of monitor.h is that of packet_rate.c for wlan0.
pub node_number-get_last_ip_digit :
    (net : Interfaces) → node_number net ≡ get_last_ip_digit net (pos 2)
unfolding node_number get_last_ip_digit
node_number-get_last_ip_digit net = refl

-- A node's address on wlan0 has four numbers, the last of them its number.
pub record IsHost (net : Interfaces) (host : ℕ) : Type 0 where
  pub a : ℕ
  pub b : ℕ
  pub c : ℕ
  pub small : (a < 1000) × (b < 1000) × (c < 1000)
  pub address : net.wlan0 ≡ ip_text a b c host []

pub node_number_lem :
    (net : Interfaces) (host : ℕ) → IsHost net host → host < 100 → node_number net ≡ done (pos host)
unfolding address_of
node_number_lem net host h small =
    node_number-get_last_ip_digit net
    ∙ get_last_ip_digit_lem net (pos 2) h.a h.b h.c host (ap done h.address) h.small.0 h.small.1
        h.small.2 small
