-- ===== src/Startup/Laws.antt =====
-- What the options are bounded by, and what holds if the program goes on.
use rpi_hadoop.Prelude.{
  ℕ, zero, suc, ◌^◌, ◌≤◌, ◌<◌, ◌≡◌, ◌≢◌, refl, Bool, true, false, List, [], ◌∷◌, Option, none, some,
  ◌==◌, ltb, if◌then◌else◌, Text, length, take, ℤ, pos, negsuc, arith, inl, inr, Bool-cases,
}
use mathlib.Core.Path.{subst}
use rpi_hadoop.CText.{atoi}
use rpi_hadoop.Startup.{
  Role, unset, client, server, is_empty_text, ◌>>=◌, Options, no_options, to_port, set_option,
  set_options, check_role, check_options, parse_from, parse_options,
}

-- What the buffers and the port's type hold.
pub record InBounds (o : Options) : Type 0 where
  pub name : length o.if_name ≤ 15
  pub ip : length o.remote_ip ≤ 15
  pub port : o.port < 2 ^ 16

length-take-le : (n : ℕ) (s : Text) → length (take n s) ≤ n
length-take-le zero s = omega arith
length-take-le (suc n) [] = omega arith
length-take-le (suc n) (c ∷ s) = omega (arith, length-take-le n s)

to_port-lt : (a : ℤ) → to_port a < 2 ^ 16
to_port-lt (pos n) = ground arith
to_port-lt (negsuc n) = ground arith

-- What holds if the program goes on.
Goes : (Options → Type 0) → Option Options → Type 0
Goes P none = Unit
Goes P (some o) = P o

if-Goes :
    (P : Options → Type 0) (b : Bool) (x y : Option Options)
    → Goes P x
    → Goes P y
    → Goes P (if b then x else y)
if-Goes P true x y hx hy = hx
if-Goes P false x y hx hy = hy

set_option-InBounds :
    (option : ℕ) (optarg : Text) (o : Options)
    → InBounds o
    → Goes InBounds (set_option option optarg o)
unfolding set_option Goes
set_option-InBounds option optarg o h =
    if-Goes InBounds (option == b'd') _ _ (record { name = h.name; ip = h.ip; port = h.port })
      (if-Goes InBounds (option == b'h') _ _ tt (
        if-Goes InBounds (option == b'i') _ _
          (record { name = length-take-le 15 optarg; ip = h.ip; port = h.port })
          (if-Goes InBounds (option == b's') _ _
            (record { name = h.name; ip = h.ip; port = h.port })
            (if-Goes InBounds (option == b'c') _ _
              (record { name = h.name; ip = length-take-le 15 optarg; port = h.port })
              (if-Goes InBounds (option == b'p') _ _
                (record { name = h.name; ip = h.ip; port = to_port-lt (atoi optarg) })
                (if-Goes InBounds (option == b'u') _ _
                  (record { name = h.name; ip = h.ip; port = h.port })
                  (if-Goes InBounds (option == b'a') _ _
                    (record { name = h.name; ip = h.ip; port = h.port }) tt)))))))

set_options-InBounds :
    (given : List (ℕ × Text)) (o : Options) → InBounds o → Goes InBounds (set_options given o)
unfolding set_options Goes
set_options-InBounds [] o h = h
set_options-InBounds ((option, optarg) ∷ rest) o h =
    go (set_option option optarg o) (set_option-InBounds option optarg o h)
      (λ o' h'. set_options-InBounds rest o' h')
  where
    go :
        (r : Option Options)
        → Goes InBounds r
        → ((o' : Options) → InBounds o' → Goes InBounds (set_options rest o'))
        → Goes InBounds (r >>= set_options rest)
    go none h' next = tt
    go (some o') h' next = next o' h'

-- What the program relies on after the tests.
pub record Valid (o : Options) : Type 0 where
  pub bounds : InBounds o
  pub named : o.if_name ≢ []
  pub has_role : o.cliserv ≢ unset
  pub has_ip : o.cliserv ≡ client → o.remote_ip ≢ []

ne-nil_of_is_empty_text : (s : Text) → is_empty_text s ≡ false → s ≢ []
ne-nil_of_is_empty_text [] e = cc
ne-nil_of_is_empty_text (c ∷ s) e = λ e'. cc

check_role-Valid :
    (o : Options) (r : Role)
    → InBounds o
    → o.if_name ≢ []
    → o.cliserv ≡ r
    → Goes Valid (check_role r o)
unfolding Goes check_role
check_role-Valid o unset h n e = tt
check_role-Valid o server h n e = record {
  bounds = h;
  named = n;
  has_role = λ e'. cc;
  has_ip = λ e'. cc;
}
check_role-Valid o client h n e = elim (Bool-cases (is_empty_text o.remote_ip)) [
  | inl empty ↦ rw empty tt
  | inr some_ip ↦ rw some_ip (record {
    bounds = h;
    named = n;
    has_role = λ e'. cc;
    has_ip = λ e'. ne-nil_of_is_empty_text o.remote_ip some_ip;
  })
]

check_options-Valid : (argc : ℕ) (o : Options) → InBounds o → Goes Valid (check_options argc o)
unfolding Goes check_options
check_options-Valid argc o h = elim (Bool-cases (ltb 0 argc)) [
  | inl extra ↦ rw extra tt
  | inr all_read ↦ elim (Bool-cases (is_empty_text o.if_name)) [
    | inl empty ↦ rw (all_read, empty) tt
    | inr named ↦
        rw (all_read, named)
          (check_role-Valid o o.cliserv h (ne-nil_of_is_empty_text o.if_name named) refl)
  ]
]

parse-Goes :
    (defaults : Options) (given : List (ℕ × Text)) (argc : ℕ)
    → InBounds defaults
    → Goes Valid (parse_from defaults given argc)
unfolding parse_from Goes
parse-Goes defaults given argc bounds =
    go (set_options given defaults) (set_options-InBounds given defaults bounds)
  where
    go : (r : Option Options) → Goes InBounds r → Goes Valid (r >>= check_options argc)
    go none h = tt
    go (some o) h = check_options-Valid argc o h

pub parse_from-Valid :
    (defaults : Options) (given : List (ℕ × Text)) (argc : ℕ) (o : Options)
    → InBounds defaults
    → parse_from defaults given argc ≡ some o
    → Valid o
unfolding Goes
parse_from-Valid defaults given argc o bounds e =
    subst (Goes Valid) e (parse-Goes defaults given argc bounds)

pub no_options-InBounds : InBounds no_options
no_options-InBounds = record { name = omega arith; ip = omega arith; port = omega arith }

-- Whatever options are given, the program goes on only with an interface name and a role, and as a
-- client with a server address; name and address have at most 15 bytes, so that they are terminated in
-- their buffers of 16, and the port is one of 16 bits.
pub parse_options-Valid :
    (given : List (ℕ × Text)) (argc : ℕ) (o : Options) → parse_options given argc ≡ some o → Valid o
unfolding parse_options
parse_options-Valid given argc o e = parse_from-Valid no_options given argc o no_options-InBounds e
