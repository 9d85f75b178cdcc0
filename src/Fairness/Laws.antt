-- ===== src/Fairness/Laws.antt =====
-- The weights of the tracker, its accounts, and the trackers that are off.
use rateforge.Base.{
  ◌≡◌, refl, ap, ◌∙◌, true, false, inl, inr, Option, none, some, List, [], ◌∷◌, arith,
  if◌then◌else◌, Str, str_eq, str_eq_refl, Bool-cases,
}
use rateforge.Base.Int.{ℤ, pos, add64}
use rateforge.Float.{Float, zero_f}
use rateforge.Dict
use rateforge.Dict.{Dict, AllValues}
use rateforge.Fairness.{
  Tracker, is_enabled, set_weight, weight_of, consumed, record_consumption, priority, snapshot,
}

-- What is done with a tracker.
pub data Event (F : Type 0) : Type 0 where
  sets : Str → F → Event F
  records : Str → ℤ → Event F

module _ {F : Type 0} ⦃float : Float F⦄ where
  abbrev pub NotAtMostZero : F → Type 0
  NotAtMostZero w = float.le_f w zero_f ≡ false

  consumed-insert :
      (key j : Str) (n : ℤ) (v : F) (t : Tracker F)
      → consumed j (record t { consumption = Dict.insert key n t.consumption; virtual_time = v })
        ≡ (if str_eq key j then n else consumed j t)
  unfolding consumed
  consumed-insert key j n v t = ground (arith, Dict.lookup-insert key j n t.consumption)

  -- What RecordConsumption returns is the priority that it leaves.
  record_consumption-priority :
      (key : Str) (tokens : ℤ) (t : Option (Tracker F))
      → let r = record_consumption key tokens t in r.0 ≡ priority key r.1
  unfolding record_consumption priority weight_of Dict.lookup add64 consumed
  record_consumption-priority key tokens none = refl
  record_consumption-priority key tokens (some t) = elim (Bool-cases t.enabled) [
    | inl e ↦
        let total = add64 (consumed key t) tokens in
        let time =
          float.add_f t.virtual_time (float.div_f (float.of_int tokens) (weight_of key t)) in
        rw (e, consumed-insert key key total time t, str_eq_refl key) refl
    | inr e ↦ rw e refl
  ]

  abbrev pub happen : Event F → Option (Tracker F) → Option (Tracker F)
  happen (sets key w) t = set_weight key w t
  happen (records key n) t = (record_consumption key n t).1

  -- The latest event first.
  abbrev pub run : List (Event F) → Option (Tracker F) → Option (Tracker F)
  run [] t = t
  run (e ∷ es) t = happen e (run es t)

  abbrev pub recorded : Str → List (Event F) → ℤ
  recorded j [] = pos 0
  recorded j (sets key w ∷ es) = recorded j es
  recorded j (records key n ∷ es) = if str_eq key j then add64 (recorded j es) n else recorded j es

  -- A tracker that is on, with weights that are not at most 0, whose accounts are what the events recorded.
  abbrev pub Accounts : List (Event F) → Option (Tracker F) → Type 0
  Accounts es r =
      (t : Tracker F) × (r ≡ some t)
      × (t.enabled ≡ true)
      × NotAtMostZero t.default_weight
      × ((j : Str) → NotAtMostZero (weight_of j t) × (consumed j t ≡ recorded j es))

  idle : (t : Option (Tracker F)) (e : Event F) → is_enabled t ≡ false → happen e t ≡ t
  unfolding is_enabled set_weight record_consumption
  idle none (sets key w) h = refl
  idle none (records key n) h = refl
  idle (some t) (sets key w) h = rw (h, set_weight) refl
  idle (some t) (records key n) h = rw (h, record_consumption) refl

  idle_run : (t : Option (Tracker F)) (es : List (Event F)) → is_enabled t ≡ false → run es t ≡ t
  idle_run t [] h = refl
  idle_run t (e ∷ es) h = ap (happen e) (idle_run t es h) ∙ idle t e h

  -- A nil tracker and one that is off.
  off_lem :
      (t : Option (Tracker F)) (es : List (Event F)) (key : Str)
      → is_enabled t ≡ false
      → (run es t ≡ t) × (priority key t ≡ zero_f) × (snapshot t ≡ [])
  unfolding is_enabled priority snapshot
  off_lem none es key h = (idle_run none es h, refl, refl)
  off_lem (some t) es key h = (idle_run (some t) es h, rw h refl, rw h refl)
