-- ===== src/Sentinel/Configured.antt =====
-- What the store that the program starts with is to hold of the configuration, field by field.
use rateforge.Base.{
  ◌≡◌, ◌≢◌, refl, sym, ap, ◌∙◌, true, false, Option, none, some, [], inl, inr, Str, codes, str_eq,
  str_eq_iff, str_eq_refl, Bool-cases, if◌then◌else◌, arith,
}
use rateforge.Base.Int.{pos}
use rateforge.Time.{Time, unix_nano}
use rateforge.Dict
use rateforge.Dict.{Dict, IsUnique}
use rateforge.Agenda.{Agenda}
use rateforge.Config.{Config, BucketDefaults, SlidingWindowDefaults}
use rateforge.Window.{WindowConfig}
use rateforge.Bucket
use rateforge.Bucket.{BucketConfig, Bucket, build_window}
use rateforge.Store.{BucketStore, new, attach_scheduler}
use rateforge.Store.Admin.{set_global_config, set_ip_limit}
use rateforge.Sentinel.{to_bucket_config, store_options, global_limit, ip_limit, start_store}
use rateforge.Sentinel.Tiers.{tier_or, looked_up, default_there, new-tiers}

-- A window is taken over where it is switched on.
abbrev pub WindowCarried : Option SlidingWindowDefaults → Option WindowConfig → Type 0
WindowCarried none o = o ≡ none
WindowCarried (some w) o =
    (w.enabled ≡ false → o ≡ none)
    × (w.enabled ≡ true
        → o
          ≡ some (record {
            enabled = true;
            window_duration = w.window_duration;
            max_requests = w.max_requests;
            buffer_size = w.buffer_size;
          }))

pub record Carries (bd : BucketDefaults) (c : BucketConfig) : Type 0 where
  pub capacity : c.max_tokens ≡ bd.max_tokens
  pub rate : c.refill_rate ≡ bd.refill_rate
  pub interval : c.refill_interval ≡ bd.refill_interval
  pub cost : c.tokens_per_request ≡ bd.tokens_per_request
  pub window : WindowCarried bd.sliding_window c.sliding_window

to_bucket_config-Carries : (bd : BucketDefaults) → Carries bd (to_bucket_config bd)
unfolding to_bucket_config
to_bucket_config-Carries bd = record {
  capacity = refl;
  rate = refl;
  interval = refl;
  cost = refl;
  window = carried bd.sliding_window;
}
  where
    carried :
        (o : Option SlidingWindowDefaults)
        → WindowCarried o (elim o as (λ _. Option WindowConfig) [
          | none ↦ none
          | some w ↦
              if w.enabled
              then some (record {
                enabled = true;
                window_duration = w.window_duration;
                max_requests = w.max_requests;
                buffer_size = w.buffer_size;
              })
              else none
        ])
    carried none = refl
    carried (some w) = (λ off. rw off refl, λ on. rw on refl)

pub record Configured {S F : Type 0} (cfg : Config F) (now : Time) (st : BucketStore S)
    : Type 0 where
  pub clients : st.clients ≡ []
  pub most : st.max_clients ≡ cfg.limits.max_clients
  pub tiers :
      (tier : Str) (bd : BucketDefaults)
      → Dict.lookup tier cfg.tiers ≡ some bd
      → (c : BucketConfig) × (Dict.lookup tier st.tier_defaults ≡ some c) × Carries bd c
  pub default :
      Dict.lookup (codes "default") cfg.tiers ≡ none
      → (c : BucketConfig) × (Dict.lookup (codes "default") st.tier_defaults ≡ some c)
        × Carries cfg.defaults c
  pub others :
      (tier : Str)
      → Dict.lookup tier cfg.tiers ≡ none
      → tier ≢ codes "default"
      → Dict.lookup tier st.tier_defaults ≡ none
  pub unlimited : cfg.global.enabled ≡ false → st.global_bucket ≡ none
  pub limited :
      cfg.global.enabled ≡ true
      → st.global_bucket
        ≡ some (record {
          config = record {
            max_tokens = cfg.global.max_tokens;
            refill_rate = cfg.global.refill_rate;
            refill_interval = cfg.global.refill_interval;
            tokens_per_request = pos 1;
            sliding_window = none;
          };
          tokens = cfg.global.max_tokens;
          last_refill_time = unix_nano now;
          blocked = false;
          last_access_time = unix_nano now;
          created_at = now;
          window = none;
        })
  pub by_ip : st.ip_limit_enabled ≡ cfg.security.enable_ip_secondary_limit
  pub ip_config :
      cfg.security.enable_ip_secondary_limit ≡ true
      → st.ip_config
        ≡ some (record {
          max_tokens = cfg.security.ip_max_tokens;
          refill_rate = cfg.security.ip_refill_rate;
          refill_interval = cfg.security.ip_refill_interval;
          tokens_per_request = pos 1;
          sliding_window = none;
        })
  pub no_ips : st.ip_buckets ≡ []

other_name : (tier : Str) → tier ≢ codes "default" → str_eq (codes "default") tier ≡ false
other_name tier other = elim (Bool-cases (str_eq (codes "default") tier)) [
  | inl same ↦ absurd (other (sym ((str_eq_iff (codes "default") tier).0 same)))
  | inr e ↦ e
]

module _ {S F : Type 0} ⦃agenda : Agenda S⦄ where
  set_up :
      (cfg : Config F) (sched : S) (now : Time)
      → let st = start_store cfg sched now in
        let limited = cfg.global.enabled in
        let by_ip = cfg.security.enable_ip_secondary_limit in
        (st.clients ≡ [])
        × (st.max_clients ≡ cfg.limits.max_clients)
        × (st.tier_defaults ≡ (new {S = S} (store_options cfg)).tier_defaults)
        × (limited ≡ false → st.global_bucket ≡ none)
        × (limited ≡ true → st.global_bucket ≡ some (Bucket.new (global_limit cfg) now))
        × (st.ip_limit_enabled ≡ by_ip)
        × (by_ip ≡ true → st.ip_config ≡ some (ip_limit cfg))
        × (st.ip_buckets ≡ [])
  unfolding start_store new set_global_config set_ip_limit attach_scheduler store_options
  set_up cfg sched now = ground arith

  -- With each tier named once, the store that main starts with is what the configuration says.
  pub start_store-Configured :
      (cfg : Config F) (sched : S) (now : Time)
      → IsUnique cfg.tiers
      → Configured cfg now (start_store cfg sched now)
  unfolding global_limit ip_limit Bucket.new build_window Bucket.normalize
  start_store-Configured cfg sched now u =
      let (clients, most, kept, unlimited, limited, by_ip, ip_config, no_ips) =
        set_up cfg sched now in
      let tiers_are = kept ∙ new-tiers S (store_options cfg) (default_there cfg u) in
      let names : (tier : Str)
          → Dict.lookup tier (start_store cfg sched now).tier_defaults
            ≡ tier_or (Dict.lookup tier cfg.tiers) (
                if str_eq (codes "default") tier
                then some (to_bucket_config cfg.defaults)
                else none) =
        λ tier. ap (Dict.lookup tier) tiers_are ∙ looked_up cfg u tier in
      record {
        clients = clients;
        most = most;
        tiers =
            λ tier bd e. (to_bucket_config bd, names tier ∙ rw e refl, to_bucket_config-Carries bd);
        default = λ e. (
          to_bucket_config cfg.defaults,
          names (codes "default") ∙ rw (e, str_eq_refl (codes "default")) refl,
          to_bucket_config-Carries cfg.defaults,
        );
        others = λ tier e other. names tier ∙ rw (e, other_name tier other) refl;
        unlimited = unlimited;
        limited = limited;
        by_ip = by_ip;
        ip_config = ip_config;
        no_ips = no_ips;
      }
