-- ===== src/Server/Sample.antt =====
-- Requests, a configuration and a service for the tests of both servers.
use rateforge.Base.{ℕ, false, true, inl, Option, none, some, [], arith, Str, codes}
use rateforge.Base.Int.{pos}
use rateforge.Float.Sample.{hundredths}
use rateforge.Config.{Config, default}
use rateforge.Bucket.{Bucket}
use rateforge.Bucket.Refine.{IsValid}
use rateforge.Store.{AllowRequest}
use rateforge.Store.Safe.{IsSound}
use rateforge.Scheduler.Attach.{Running, agenda, started}
use rateforge.Fairness
use rateforge.Metrics.{new_registry}
use rateforge.Server.Service.{Service}
use rateforge.Server.Admin.{AdminRequest, UpdateConfigRequest, GlobalConfigRequest}
use rateforge.Server.{HttpRequest}

abbrev pub from_peer : HttpRequest
from_peer = record {
  content_length = pos 0;
  remote_addr = codes "10.0.0.7";
  x_forwarded_for = [];
  x_real_ip = [];
  x_api_key = codes "team-1";
  x_resource_tier = codes "gold";
}

-- A configuration with a token, and a store whose global bucket is empty.
abbrev pub guarded : Config ℕ
guarded = record default {
  security = record (default {F = ℕ}).security { admin_token_hash = codes "secret" };
}

abbrev pub drained : Bucket
drained = record {
  config = record {
    max_tokens = pos 10;
    refill_rate = pos 0;
    refill_interval = pos 0;
    tokens_per_request = pos 1;
    sliding_window = none;
  };
  tokens = pos 0;
  last_refill_time = pos 0;
  blocked = false;
  last_access_time = pos 0;
  created_at = pos 0;
  window = none;
}

abbrev pub service : Service Running ℕ
service = record {
  store = record {
    clients = [];
    max_clients = pos 2;
    tier_defaults = [];
    scheduler = some started;
    global_bucket = some drained;
    evictions = pos 0;
    ip_buckets = [];
    ip_bucket_cap = pos 8;
    ip_limit_enabled = false;
    ip_config = none;
  };
  fairness = some (Fairness.new true 100);
  audit = some (record { sample_rate = 0 });
  metrics = some new_registry;
  log = [];
}

pub drained-IsValid : IsValid drained
drained-IsValid = record {
  tame = record {
    cap = omega arith;
    rate = omega arith;
    pace = inl (omega arith);
    interval = omega arith;
  };
  cost = omega arith;
  level = omega arith;
  clock = omega arith;
  gate = tt;
  fine = tt;
}

pub service-IsSound : IsSound service.store
service-IsSound = record {
  defaults = tt;
  clients = tt;
  global = drained-IsValid;
  ips = tt;
  ip_config = tt;
}

abbrev pub asked : AllowRequest
asked = record {
  client_key = codes "team-1";
  source_ip = codes "10.0.0.7";
  tier = codes "gold";
  now = pos 9;
}

abbrev pub to_admin : AdminRequest
to_admin = record {
  http = from_peer;
  key = codes "team-1";
  authorization = codes "Bearer guess";
  peer = none;
  body = some (codes "{}");
}

-- A decoder that finds a new limit in every body.
abbrev pub asks_five : Str → Option UpdateConfigRequest
asks_five text = some (record {
  tier = [];
  max_tokens = some (pos 5);
  refill_rate = none;
  refill_interval_ms = some (pos 50);
})

abbrev pub turns_off : Str → Option GlobalConfigRequest
turns_off text = some (record {
  enabled = false;
  max_tokens = pos 0;
  refill_rate = pos 0;
  refill_interval_ms = pos 0;
})
