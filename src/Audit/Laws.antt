-- ===== src/Audit/Laws.antt =====
-- The sample rate of an audit log.
use rateforge.Base.{◌≡◌, false, if◌then◌else◌, Bool-cases, inl, inr}
use rateforge.Float.{Float, zero_f, one_f}
use rateforge.Audit.{new}

module _ {F : Type 0} ⦃float : Float F⦄ where
  -- Neither below 0 nor above 1.
  abbrev InUnit : F → Type 0
  InUnit r = (float.lt_f r zero_f ≡ false) × (float.lt_f one_f r ≡ false)

  raise :
      (r : F)
      → float.lt_f zero_f zero_f ≡ false
      → float.lt_f (if float.lt_f r zero_f then zero_f else r) zero_f ≡ false
  raise r h = elim (Bool-cases (float.lt_f r zero_f)) [ inl e ↦ rw e h | inr e ↦ rw e e ]

  new-InUnit : (rate : F) → InUnit zero_f → InUnit one_f → InUnit (new rate).sample_rate
  unfolding new
  new-InUnit rate z o =
      let low = if float.lt_f rate zero_f then zero_f else rate in
      elim (Bool-cases (float.lt_f one_f low)) [ inl e ↦ rw e o | inr e ↦ rw e (raise rate z.0, e) ]
