-- ===== src/Devices/Descriptors.antt =====
-- No descriptor is lost.
use rpi_hadoop.Prelude.{
  ℕ, ◌+◌, ◌-◌, ◌<◌, ◌≡◌, refl, ◌∙◌, arith, if◌then◌else◌, Text, length, take, done, ℤ, Bool-cases,
  inl, inr, lt→ltb,
}
use rpi_hadoop.Startup.{Device}
use rpi_hadoop.Devices.{Tuns, is_negative, tun_named, tun_alloc}

-- The documented behaviour of the calls, over the number of open descriptors.
pub record IsTuns {S : Type 0} (tuns : Tuns S) : Type 0 where
  pub opened : S → ℕ
  pub opens :
      (s : S)
      → opened (tuns.open_clone s).1
        ≡ (if is_negative (tuns.open_clone s).0 then opened s else opened s + 1)
  pub sets :
      (fd : ℤ) (name : Text) (flags : Device) (s : S)
      → opened (tuns.set_interface fd name flags s).1 ≡ opened s
  pub names :
      (fd : ℤ) (name : Text) (flags : Device) (s : S)
      → length (tuns.set_interface fd name flags s).0.1 < 16
  pub closes : (fd : ℤ) (s : S) → opened (tuns.close fd s) ≡ opened s - 1

-- `tun_alloc` always returns, keeps exactly one descriptor open if it returns one, and none if it returns
-- an error; the name that it leaves is terminated in its buffer of 16 bytes, if the one given was.
pub tun_alloc-opened :
    {S : Type 0} (tuns : Tuns S) (laws : IsTuns tuns) (dev : Text) (flags : Device) (s : S)
    → length dev < 16
    → (fd : ℤ) × (name : Text) × (s' : S) × (tun_alloc tuns dev flags s ≡ done ((fd, name), s'))
      × (laws.opened s' ≡ (if is_negative fd then laws.opened s else laws.opened s + 1))
      × (length name < 16)
unfolding tun_alloc tun_named
tun_alloc-opened {S} tuns laws dev flags s short = elim (Bool-cases (is_negative opening.0)) [
  | inl failed ↦ (opening.0, dev, opening.1, rw failed refl, laws.opens s, short)
  | inr fd_open ↦
      (let one_more : laws.opened setting.1 ≡ laws.opened s + 1 =
          laws.sets opening.0 (take 16 dev) flags opening.1 ∙ (laws.opens s ∙ rw fd_open refl) in
        elim (Bool-cases (is_negative setting.0.0)) [
          | inl not_set ↦ (
            setting.0.0,
            dev,
            tuns.close opening.0 setting.1,
            rw (fd_open, not_set) refl,
            rw not_set (omega (arith, laws.closes opening.0 setting.1, one_more)),
            short,
          )
          | inr is_set ↦ (
            opening.0,
            setting.0.1,
            setting.1,
            rw (fd_open, is_set, lt→ltb _ 16 (laws.names opening.0 (take 16 dev) flags opening.1))
                refl,
            rw fd_open one_more,
            laws.names opening.0 (take 16 dev) flags opening.1,
          )
        ])
]
  where
    opening : ℤ × S
    opening = tuns.open_clone s

    setting : (ℤ × Text) × S
    setting = tuns.set_interface opening.0 (take 16 dev) flags opening.1
