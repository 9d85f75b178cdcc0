-- ===== src/Server/Admin/Usable.antt =====
-- The configurations that the handlers hand to the store.
use rateforge.Base.{◌≡◌, inl, inr, none, arith, Str, Option-cases}
use rateforge.Base.Int.{mul64, wrap64-InRange, InRange}
use rateforge.Dict
use rateforge.Dict.{Dict, AllValues}
use rateforge.Security.{validate_bucket_config}
use rateforge.Security.Limits.{validate_bucket_config-IsTame}
use rateforge.Bucket.{Bucket, BucketConfig}
use rateforge.Bucket.Refine.{IsValid}
use rateforge.Bucket.Life.{IsUsable}
use rateforge.Multibucket
use rateforge.Multibucket.{tier_or_default, default_tier}
use rateforge.Multibucket.Laws.{AllValid}
use rateforge.Store.{BucketStore}
use rateforge.Store.Admin.{tier_config, default_config}
use rateforge.Store.Safe.{IsSound, tier_default-IsUsable}
use rateforge.Server.Admin.{UpdateConfigRequest, GlobalConfigRequest, merge, global_config_of}

default_config-IsUsable :
    (tier : Str) (defaults : Dict BucketConfig)
    → AllValues IsUsable defaults
    → IsUsable (default_config tier defaults)
unfolding default_config
default_config-IsUsable tier defaults u = elim (Option-cases (Dict.lookup tier defaults)) [
  | inl e ↦ rw (e, default_config) (tier_default-IsUsable default_tier defaults u)
  | inr (c, e) ↦ rw (e, default_config) (Dict.AllValues-lookup IsUsable tier c defaults e u)
]

IsValid-IsUsable : (b : Bucket) → IsValid b → IsUsable b.config
IsValid-IsUsable b v = record { tame = v.tame; cost = v.cost.1; window = v.fine }

module _ {S : Type 0} where
  pub tier_config-IsUsable :
      (key named : Str) (s : BucketStore S) → IsSound s → IsUsable (tier_config key named s)
  unfolding tier_config Multibucket.bucket
  tier_config-IsUsable key named s v =
      let tier = tier_or_default named in
      let fallback = default_config-IsUsable tier s.tier_defaults v.defaults in
      elim (Option-cases (Dict.lookup key s.clients)) [
        | inl e ↦ rw (e, tier_config) fallback
        | inr (cb, e) ↦
            let valid = Dict.AllValues-lookup AllValid key cb s.clients e v.clients in
            elim (Option-cases (Multibucket.bucket tier cb)) [
              | inl f ↦ rw (e, f, tier_config) fallback
              | inr (b, f) ↦
                  rw (e, f, tier_config)
                    (IsValid-IsUsable b
                      (Dict.AllValues-lookup IsValid (tier_or_default tier) b cb.buckets f valid))
            ]
      ]

merged_interval :
    (req : UpdateConfigRequest) (before : BucketConfig)
    → InRange before.refill_interval
    → InRange (merge req before).refill_interval
unfolding merge mul64
merged_interval req before h = elim (Option-cases req.refill_interval_ms) [
  | inl e ↦ rw (e, merge) h
  | inr (ms, e) ↦ rw (e, merge) (wrap64-InRange _)
]

pub merge-IsUsable :
    (req : UpdateConfigRequest) (before : BucketConfig)
    → IsUsable before
    → let after = merge req before in
      validate_bucket_config after.max_tokens after.refill_rate after.refill_interval ≡ none
      → IsUsable after
unfolding merge mul64
merge-IsUsable req before v ok = record {
  tame =
      validate_bucket_config-IsTame (merge req before) (merged_interval req before v.tame.interval)
        ok;
  cost = ground (arith, v.cost);
  window = v.window;
}

pub global_config_of-IsUsable :
    (req : GlobalConfigRequest)
    → let asked = global_config_of req in
      validate_bucket_config asked.max_tokens asked.refill_rate asked.refill_interval ≡ none
      → IsUsable asked
unfolding global_config_of mul64
global_config_of-IsUsable req ok = record {
  tame = validate_bucket_config-IsTame (global_config_of req) (wrap64-InRange _) ok;
  cost = omega arith;
  window = tt;
}
