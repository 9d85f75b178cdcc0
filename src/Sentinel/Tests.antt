-- ===== src/Sentinel/Tests.antt =====
-- The program's start with its built-in configuration, and the scheduler of this repository.
use rateforge.Time.{Duration}
use rateforge.Bucket
use rateforge.Store.{BucketStore}
use rateforge.Store.Admin.{update_client_config}
use rateforge.Scheduler.{next_wait}
use rateforge.Scheduler.Collected.{wait_until}
use rateforge.Sentinel.Wake.{update_client_config-next_wait}
use rateforge.Dict
use rateforge.Base.{true, ◌∷◌, ◌<◌, ◌≤◌, ◌≡◌, false, refl, none, some, [], codes, ℕ, inl, arith}
use rateforge.Base.Int.{pos, ◌≤ℤ◌}
use rateforge.Float.Sample.{hundredths}
use rateforge.Config.{Config, BucketDefaults, default}
use rateforge.Bucket.Life.{IsUsable}
use rateforge.Sentinel.Configured.{Configured}
use rateforge.Scheduler.Attach.{Running, agenda, started}
use rateforge.Store.Safe.{IsSound}
use rateforge.Sentinel.{to_bucket_config, start_store}
use rateforge.Sentinel.Start.{IsServable, start_store-IsSound}

abbrev built_in : Config ℕ
built_in = default

abbrev gold : BucketDefaults
gold = record {
  max_tokens = pos 500;
  refill_rate = pos 50;
  refill_interval = pos 1_000_000_000;
  tokens_per_request = pos 1;
  sliding_window = none;
}

-- A tier more, and both further limits on.
abbrev limited : Config ℕ
limited = record built_in {
  tiers = (codes "gold", gold) ∷ [];
  security = record (built_in.security) { enable_ip_secondary_limit = true };
  global = record {
    enabled = true;
    max_tokens = pos 9000;
    refill_rate = pos 900;
    refill_interval = pos 1_000_000_000;
  };
}

one_a_request-IsUsable :
    (most rate : ℕ)
    → 0 < most
    → most ≤ 10_000
    → rate ≤ 1000
    → IsUsable (record {
      max_tokens = pos most;
      refill_rate = pos rate;
      refill_interval = pos 1_000_000_000;
      tokens_per_request = pos 1;
      sliding_window = none;
    })
one_a_request-IsUsable most rate some_tokens few slow = record {
  tame = record {
    cap = omega arith;
    rate = omega arith;
    pace = inl (omega arith);
    interval = omega arith;
  };
  cost = omega arith;
  window = tt;
}

limited-IsServable : IsServable limited
unfolding to_bucket_config default Dict.lookup
limited-IsServable = record {
  defaults = one_a_request-IsUsable 100 10 (omega arith) (omega arith) (omega arith);
  tiers = (one_a_request-IsUsable 500 50 (omega arith) (omega arith) (omega arith), tt);
  named_once = (refl, tt);
  global = λ on. one_a_request-IsUsable 9000 900 (omega arith) (omega arith) (omega arith);
  ips = λ on. one_a_request-IsUsable 1000 1000 (omega arith) (omega arith) (omega arith);
}

start_store-IsSound_example :
    Configured limited (pos 5) (start_store limited started (pos 5))
    × IsSound (start_store limited started (pos 5))
start_store-IsSound_example =
    start_store-IsSound limited started (pos 5) limited-IsServable (omega arith)

-- A store with the scheduler attached, and nothing else.
abbrev attached : BucketStore Running
attached = record {
  clients = [];
  max_clients = pos 2;
  tier_defaults = [];
  scheduler = some started;
  global_bucket = none;
  evictions = pos 0;
  ip_buckets = [];
  ip_bucket_cap = pos 8;
  ip_limit_enabled = false;
  ip_config = none;
}

update_client_config-next_wait_example :
    (after : Running) × (w : Duration) × ((update_client_config
        (codes "a")
        []
        (to_bucket_config built_in.defaults)
        (pos 5)
        attached).scheduler
      ≡ some after)
    × (next_wait (pos 9) after.0 ≡ some w)
    × (w
        ≤ℤ wait_until
            (pos 9)
            (Bucket.next_refill_time (Bucket.new (to_bucket_config built_in.defaults) (pos 5))))
unfolding to_bucket_config default
update_client_config-next_wait_example =
    update_client_config-next_wait (codes "a") [] (to_bucket_config built_in.defaults) (pos 5)
      (pos 9) started attached refl (omega arith)
