-- ===== src/Sentinel/Start.antt =====
-- The store that the program starts with.
use rateforge.Base.Int.{pos}
use rateforge.Sentinel.Configured.{Configured, start_store-Configured}
use rateforge.Base.{none, ◌≡◌, refl, Bool, true, false, [], ◌∷◌, if◌then◌else◌, codes}
use rateforge.Time.{Time}
use rateforge.Dict
use rateforge.Dict.{Dict, AllValues, IsUnique}
use rateforge.Agenda.{Agenda}
use rateforge.Config.{Config, BucketDefaults}
use rateforge.Bucket.{BucketConfig}
use rateforge.Bucket.Valid.{IsClock}
use rateforge.Bucket.Life.{IsUsable}
use rateforge.Store.{new}
use rateforge.Store.Safe.{IsSound}
use rateforge.Store.Safe.Reach.{
  Reachable, starts, steps, attaches, limits_all, limits_ips, Reachable-IsSound,
}
use rateforge.Sentinel.{
  to_bucket_config, add_tiers, store_options, global_limit, ip_limit, start_store,
}

add_tiers-AllValues :
    (tiers : Dict BucketDefaults) (defaults : Dict BucketConfig)
    → AllValues (λ bd. IsUsable (to_bucket_config bd)) tiers
    → AllValues IsUsable defaults
    → AllValues IsUsable (add_tiers tiers defaults)
unfolding add_tiers
add_tiers-AllValues [] defaults u v = v
add_tiers-AllValues ((name, bd) ∷ tiers) defaults (h, u) v =
    add_tiers-AllValues tiers _ u
      (Dict.AllValues-insert IsUsable name (to_bucket_config bd) defaults h v)

-- The limits that are switched on, the defaults and each tier, named once, can be borne by a bucket.
pub record IsServable {F : Type 0} (cfg : Config F) : Type 0 where
  pub defaults : IsUsable (to_bucket_config cfg.defaults)
  pub tiers : AllValues (λ bd. IsUsable (to_bucket_config bd)) cfg.tiers
  pub named_once : IsUnique cfg.tiers
  pub global :
      cfg.global.enabled ≡ true
      → IsUsable (record {
        max_tokens = cfg.global.max_tokens;
        refill_rate = cfg.global.refill_rate;
        refill_interval = cfg.global.refill_interval;
        tokens_per_request = pos 1;
        sliding_window = none;
      })
  pub ips :
      cfg.security.enable_ip_secondary_limit ≡ true
      → IsUsable (record {
        max_tokens = cfg.security.ip_max_tokens;
        refill_rate = cfg.security.ip_refill_rate;
        refill_interval = cfg.security.ip_refill_interval;
        tokens_per_request = pos 1;
        sliding_window = none;
      })

branch {ℓ κ} :
    {A : Type ℓ} (P : A → Type κ) (c : Bool) {x y : A}
    → (c ≡ true → P x)
    → (c ≡ false → P y)
    → P (if c then x else y)
branch P true f g = f refl
branch P false f g = g refl

module _ {S F : Type 0} ⦃agenda : Agenda S⦄ where
  start_store-Reachable :
      (cfg : Config F) (sched : S) (now : Time)
      → IsServable cfg
      → IsClock now
      → Reachable (store_options cfg) (start_store cfg sched now)
  unfolding start_store global_limit ip_limit
  start_store-Reachable cfg sched now v c =
      let made = steps starts (attaches sched (new (store_options cfg))) in
      let limited =
        branch (Reachable (store_options cfg)) cfg.global.enabled
          (λ on. steps made (limits_all (global_limit cfg) now _ (v.global on) c)) (λ off. made) in
      branch (Reachable (store_options cfg)) cfg.security.enable_ip_secondary_limit
        (λ on. steps limited (limits_ips true (ip_limit cfg) _ (v.ips on))) (λ off. limited)

  -- If the defaults and each tier, named once, are usable, and the global and the per-IP limit
  -- where they are switched on, then the store that main starts with, at a clock reading, is sound
  -- and is the one configured: without clients and with the configured bound on them; each tier has
  -- its configuration field by field, the default tier the defaults unless a tier of that name is
  -- given, and no other name has one; the global bucket, if switched on, is new and full with the
  -- configured limit at one token a request, and absent if not; the per-IP limit is on as
  -- configured, with its fields.
  pub start_store-IsSound :
      (cfg : Config F) (sched : S) (now : Time)
      → IsServable cfg
      → IsClock now
      → Configured cfg now (start_store cfg sched now) × IsSound (start_store cfg sched now)
  unfolding store_options
  start_store-IsSound cfg sched now v c = (
    start_store-Configured cfg sched now v.named_once,
    Reachable-IsSound
        (add_tiers-AllValues cfg.tiers ((codes "default", to_bucket_config cfg.defaults) ∷ [])
          v.tiers (v.defaults, tt))
        (start_store-Reachable cfg sched now v c),
  )
