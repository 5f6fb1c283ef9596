-- ===== src/Tests/Calls.antt =====
-- The wrappers of system calls over small kernels: one that counts its descriptors, and a file that is read
-- byte by byte.
use rpi_hadoop.Prelude.{
  ℕ, zero, suc, ◌+◌, ◌-◌, ◌≤◌, ◌≡◌, refl, [], ◌∷◌, ◌++◌, Option, some, arith, Text, length, take,
  pos,
}
use rpi_hadoop.Devices.{Tuns, Reader}
use rpi_hadoop.Devices.Descriptors.{IsTuns}
use rpi_hadoop.Devices.Reading.{IsFile}

abbrev pub counting : Tuns ℕ
counting = record {
  open_clone = λ s. (pos s, s + 1);
  set_interface = λ fd name flags s. ((pos 0, take 15 name), s);
  close = λ fd s. s - 1;
}

pub short_name : (name : Text) (k : ℕ) → length (take k name) ≤ k
short_name name zero = omega arith
short_name [] (suc k) = omega arith
short_name (c ∷ name) (suc k) = omega (arith, short_name name k)

unfoldable pub counting-IsTuns : IsTuns counting
counting-IsTuns = record {
  opened = λ s. s;
  opens = λ s. refl;
  sets = λ fd name flags s. refl;
  names = λ fd name flags s. omega (arith, short_name name 15);
  closes = λ fd s. refl;
}

next_byte : ℕ → Text → Option Text × Text
next_byte zero s = (some [], s)
next_byte (suc n) [] = (some [], [])
next_byte (suc n) (c ∷ s) = (some (c ∷ []), s)

slow_file : Reader Text
slow_file = record { read = next_byte }

unfoldable slow_file-IsFile : IsFile slow_file
unfolding slow_file next_byte
slow_file-IsFile = record { contents = λ s. s; reads = reads }
  where
    reads :
        (n : ℕ) (s : Text)
        → (bytes : Text) × (s' : Text) × (next_byte n s ≡ (some bytes, s'))
          × (s ≡ bytes ++ s')
          × (length bytes ≤ n)
          × (1 ≤ n → bytes ≡ [] → s ≡ [])
    reads zero s = ([], s, refl, refl, omega arith, λ h e. absurd (omega arith))
    reads (suc n) [] = ([], [], refl, refl, omega arith, λ h e. refl)
    reads (suc n) (c ∷ s) = (c ∷ [], s, refl, refl, omega arith, λ h e. cc)
