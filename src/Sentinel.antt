-- ===== src/Sentinel.antt =====
-- cmd/sentinel/main.go: what the program builds from its configuration before it serves, and what
-- reportMetricsLoop does at a tick. Flags, files, signals, goroutines and listeners are left out.
pub mod Tiers
pub mod Configured
pub mod Start
pub mod Wake
mod Tests
use rateforge.Base.{
  Bool, true, false, Option, none, some, List, [], ◌∷◌, if◌then◌else◌, Str, codes, str_eq, length,
}
use rateforge.Base.Int.{ℤ, pos}
use rateforge.Time.{Time}
use rateforge.Dict
use rateforge.Dict.{Dict}
use rateforge.Float.{Float}
use rateforge.Agenda.{Agenda}
use rateforge.Config.{Config, BucketDefaults}
use rateforge.Window.{WindowConfig}
use rateforge.Bucket.{BucketConfig}
use rateforge.Scheduler.{Scheduler, heap_size, refills_total}
use rateforge.Store.{BucketStore, Options, new, attach_scheduler}
use rateforge.Store.Admin.{set_global_config, set_ip_limit, active_clients, evictions}
use rateforge.Fairness
use rateforge.Audit
use rateforge.Metrics.{Registry, new_registry, set_gauge}
use rateforge.Server.Service.{Service}

unfoldable pub to_bucket_config : BucketDefaults → BucketConfig
to_bucket_config bd = record {
  max_tokens = bd.max_tokens;
  refill_rate = bd.refill_rate;
  refill_interval = bd.refill_interval;
  tokens_per_request = bd.tokens_per_request;
  sliding_window = elim bd.sliding_window [
    | none ↦ none
    | some w ↦
        if w.enabled
        then some (record {
          enabled = true;
          window_duration = w.window_duration;
          max_requests = w.max_requests;
          buffer_size = w.buffer_size;
        })
        else none
  ];
}

pub data Level : Type 0 where
  debug info warn error : Level

unfoldable pub level_from_string : Str → Level
level_from_string s =
    if str_eq s (codes "debug")
    then debug
    else if str_eq s (codes "warn")
    then warn
    else if str_eq s (codes "error")
    then error
    else info

-- The loop over `cfg.Tiers`.
unfoldable pub add_tiers : Dict BucketDefaults → Dict BucketConfig → Dict BucketConfig
add_tiers [] defaults = defaults
add_tiers ((name, bd) ∷ tiers) defaults =
    add_tiers tiers (Dict.insert name (to_bucket_config bd) defaults)

module _ {F : Type 0} where
  unfoldable pub store_options : Config F → Options
  store_options cfg = record {
    max_clients = cfg.limits.max_clients;
    tier_defaults = add_tiers cfg.tiers ((codes "default", to_bucket_config cfg.defaults) ∷ []);
  }

  unfoldable pub global_limit : Config F → BucketConfig
  global_limit cfg = record {
    max_tokens = cfg.global.max_tokens;
    refill_rate = cfg.global.refill_rate;
    refill_interval = cfg.global.refill_interval;
    tokens_per_request = pos 1;
    sliding_window = none;
  }

  unfoldable pub ip_limit : Config F → BucketConfig
  ip_limit cfg = record {
    max_tokens = cfg.security.ip_max_tokens;
    refill_rate = cfg.security.ip_refill_rate;
    refill_interval = cfg.security.ip_refill_interval;
    tokens_per_request = pos 1;
    sliding_window = none;
  }

module _ {S F : Type 0} ⦃agenda : Agenda S⦄ where
  -- The store, with the scheduler attached and the configured limits set.
  unfoldable pub start_store : Config F → S → Time → BucketStore S
  start_store cfg sched now =
      let made = attach_scheduler sched (new (store_options cfg)) in
      let limited =
        if cfg.global.enabled then set_global_config (global_limit cfg) now made else made in
      if cfg.security.enable_ip_secondary_limit
      then set_ip_limit true (ip_limit cfg) limited
      else limited

  unfoldable pub start : ⦃float : Float F⦄ → Config F → S → Time → Service S F
  start cfg sched now = record {
    store = start_store cfg sched now;
    fairness = some (Fairness.new cfg.fairness.enabled cfg.fairness.default_weight);
    audit = some (Audit.new cfg.logging.request_sample_rate);
    metrics = some new_registry;
    log = [];
  }

  -- A tick of reportMetricsLoop.
  unfoldable pub report : BucketStore S → Scheduler → Registry F → Registry F
  report st sched reg = record reg {
    active_clients = set_gauge (pos (active_clients st)) reg.active_clients;
    scheduler_heap_size = set_gauge (pos (heap_size sched)) reg.scheduler_heap_size;
    scheduler_refills = set_gauge (refills_total sched) reg.scheduler_refills;
    evictions_total = set_gauge (evictions st) reg.evictions_total;
  }
