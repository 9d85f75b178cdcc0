-- ===== src/Fairness.antt =====
-- internal/fairness/fairness.go: the virtual finish times of weighted fair queuing.
-- A nil `*Tracker` is `none`. A float64 is an element of a type `F` with its operations.
pub mod Laws
mod Tests
use rateforge.Base.{Bool, false, true, not, ◌||◌, Option, none, some, [], if◌then◌else◌, Str}
use rateforge.Base.Int.{ℤ, pos, add64}
use rateforge.Float.{Float, zero_f, one_f}
use rateforge.Dict
use rateforge.Dict.{Dict}

pub record Tracker (F : Type 0) : Type 0 where
  pub enabled : Bool
  pub consumption : Dict ℤ
  pub weights : Dict F
  pub default_weight : F
  pub virtual_time : F

module _ {F : Type 0} ⦃float : Float F⦄ where
  unfoldable pub new : Bool → F → Tracker F
  new enabled default_weight = record {
    enabled = enabled;
    consumption = [];
    weights = [];
    default_weight = if float.le_f default_weight zero_f then one_f else default_weight;
    virtual_time = zero_f;
  }

  unfoldable pub is_enabled : Option (Tracker F) → Bool
  is_enabled none = false
  is_enabled (some t) = t.enabled

  unfoldable pub set_weight : Str → F → Option (Tracker F) → Option (Tracker F)
  set_weight key weight none = none
  set_weight key weight (some t) = some (
      if not t.enabled || float.le_f weight zero_f
      then t
      else record t { weights = Dict.insert key weight t.weights })

  -- The weight of a client; a missing key of the map reads as 0.
  unfoldable pub weight_of : Str → Tracker F → F
  weight_of key t =
      let weight : F = elim (Dict.lookup key t.weights) [ none ↦ zero_f | some w ↦ w ] in
      if float.le_f weight zero_f then t.default_weight else weight

  unfoldable pub consumed : Str → Tracker F → ℤ
  consumed key t = elim (Dict.lookup key t.consumption) [ none ↦ pos 0 | some n ↦ n ]

  unfoldable pub record_consumption : Str → ℤ → Option (Tracker F) → F × Option (Tracker F)
  record_consumption key tokens none = (zero_f, none)
  record_consumption key tokens (some t) = elim t.enabled [
    | false ↦ (zero_f, some t)
    | true ↦
        let weight = weight_of key t in
        let total = add64 (consumed key t) tokens in
        let time = float.add_f t.virtual_time (float.div_f (float.of_int tokens) weight) in
        (
          float.add_f time (float.div_f (float.of_int total) weight),
          some
              (record t { consumption = Dict.insert key total t.consumption; virtual_time = time }),
        )
  ]

  unfoldable pub priority : Str → Option (Tracker F) → F
  priority key none = zero_f
  priority key (some t) =
      if t.enabled
      then float.add_f t.virtual_time
          (float.div_f (float.of_int (consumed key t)) (weight_of key t))
      else zero_f

  unfoldable pub snapshot : Option (Tracker F) → Dict ℤ
  snapshot none = []
  snapshot (some t) = if t.enabled then t.consumption else []
