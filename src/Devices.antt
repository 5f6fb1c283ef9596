-- ===== src/Devices.antt =====
-- The wrappers of system calls in CreateLoopbackMS.c: `tun_alloc`, `cread`, `cwrite` and `read_n`. The kernel is an
-- interface: its calls change a state `S`.
pub mod Descriptors
pub mod Reading
use rpi_hadoop.Prelude.{
  ◌≡◌, refl, ℕ, zero, suc, ◌+◌, ◌-◌, Bool, true, false, List, [], ◌∷◌, ◌++◌, Option, none, some,
  ltb, if◌then◌else◌, Text, length, take, Run, done, out_of_fuel, ◌>>=◌, ◌>>◌, ensure, ℤ, pos,
  negsuc, pos_part,
}
use rpi_hadoop.Startup.{Device}

abbrev pub is_negative : ℤ → Bool
is_negative (pos n) = false
is_negative (negsuc n) = true

-- The calls for a TUN device: to open "/dev/net/tun", to give it an interface's name and kind, which
-- yields the name that it got, and to close it. A negative number is an error.
pub record Tuns (S : Type 0) : Type 0 where
  pub open_clone : S → ℤ × S
  pub set_interface : ℤ → Text → Device → S → (ℤ × Text) × S
  pub close : ℤ → S → S

module _ {S : Type 0} (tuns : Tuns S) where
  -- The rest of `tun_alloc` behind the call that sets the interface: the name it got is copied into
  -- `dev`, of 16 bytes.
  pub tun_named : ℤ → Text → (ℤ × Text) × S → Run ((ℤ × Text) × S)
  tun_named fd dev ((err, name), s) =
      if is_negative err
      then done ((err, dev), tuns.close fd s)
      else (do ensure (ltb (length name) 16); done ((fd, name), s))

  -- `tun_alloc`: the descriptor or the error, and what `dev` holds then.
  unfoldable pub tun_alloc : Text → Device → S → Run ((ℤ × Text) × S)
  unfolding tun_named
  tun_alloc dev flags s =
      let (fd, s') = tuns.open_clone s in
      if is_negative fd
      then done ((fd, dev), s')
      else tun_named fd dev (tuns.set_interface fd (take 16 dev) flags s')

-- `read` from a descriptor: no bytes at the end of the file, none at all on an error.
pub record Reader (S : Type 0) : Type 0 where
  pub read : ℕ → S → Option Text × S

-- `write` to a descriptor: how many bytes were written, or an error.
pub record Writer (S : Type 0) : Type 0 where
  pub write : Text → S → Option ℕ × S

-- The test of `cwrite` on what `write` returned.
pub checked_write : {S : Type 0} → Option ℕ × S → Option (ℕ × S)
checked_write (none, s) = none
checked_write (some n, s) = some (n, s)

-- `cwrite`, which ends the program on an error: none is that end.
pub cwrite : {S : Type 0} → Writer S → Text → S → Option (ℕ × S)
unfolding checked_write
cwrite file bytes s = checked_write (file.write bytes s)

pub cwrite-some :
    {S : Type 0} (file : Writer S) (bytes : Text) (n : ℕ) (s s' : S)
    → file.write bytes s ≡ (some n, s')
    → cwrite file bytes s ≡ some (n, s')
unfolding cwrite
cwrite-some file bytes n s s' e = rw e refl

module _ {S : Type 0} (file : Reader S) where
  -- The test of `cread` on what `read` returned.
  pub checked : Option Text × S → Option (Text × S)
  checked (none, s) = none
  checked (some bytes, s) = some (bytes, s)

  -- `cread`, which ends the program on an error: none is that end.
  pub cread : ℕ → S → Option (Text × S)
  unfolding checked
  cread n s = checked (file.read n s)

  pub cread-some :
      (n : ℕ) (s : S) (bytes : Text) (s1 : S)
      → file.read n s ≡ (some bytes, s1)
      → cread n s ≡ some (bytes, s1)
  unfolding cread
  cread-some n s bytes s1 run = rw run refl

  -- The loop of `read_n` for the bytes that are left, where `buf` holds those read: what is left at its
  -- end, unless the program has ended.
  pub read_loop : ℕ → ℕ → Text → S → Run (Option (ℕ × Text × S))
  read_loop zero left buf s = out_of_fuel
  read_loop (suc fuel) left buf s = elim left [
    | zero ↦ done (some (0, buf, s))
    | suc more ↦ elim (cread (suc more) s) [
      | none ↦ done none
      | some (bytes, s') ↦ elim bytes [
        | [] ↦ done (some (suc more, buf, s'))
        | c ∷ rest ↦ read_loop fuel (suc more - length (c ∷ rest)) (buf ++ (c ∷ rest)) s'
      ]
    ]
  ]

  -- `read_n`: what it returns and what `buf` holds, `n` bytes being wanted; 0 at the end of the file.
  pub read_n : ℕ → ℤ → S → Run (Option (ℤ × Text × S))
  unfolding read_loop
  read_n fuel n s = do
    outcome ← read_loop fuel (pos_part n) [] s
    done (elim outcome [
      | none ↦ none
      | some (left, buf, s') ↦ some (if ltb 0 left then pos 0 else n, buf, s')
    ])
