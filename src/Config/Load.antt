-- ===== src/Config/Load.antt =====
-- Load of internal/config/config.go: the values of a file over the defaults. The parsers of Go's strconv
-- and time are parameters. Of the file, its lines are given.
use rateforge.Base.{Bool, false, Option, none, some, List, [], if◌then◌else◌, Str, codes}
use rateforge.Base.Int.{ℤ, pos, leb_ℤ}
use rateforge.Time.{Duration}
use rateforge.Dict
use rateforge.Dict.{Dict, AllValues}
use rateforge.Float.{Float}
use rateforge.Config.{
  Config, ServerConfig, SlidingWindowDefaults, BucketDefaults, Limits, SecurityConfig, Logging,
  MetricsConfig, Fairness, Global, default,
}
use rateforge.Config.Tree.{Node, nothing, entry, scalar, section, child, str, read, parse_tree}

-- `strconv.ParseInt(s, 10, 64)`, `ParseBool` and `ParseFloat(s, 64)`, and `time.ParseDuration`.
pub record Parsers (F : Type 0) : Type 0 where
  pub int64 : Str → Option ℤ
  pub bool : Str → Option Bool
  pub float64 : Str → Option F
  pub duration : Str → Option Duration

module _ {F : Type 0} (parse : Parsers F) where
  -- The zero value of the window's defaults, for a tier whose base has none.
  unfoldable pub window_base : BucketDefaults → SlidingWindowDefaults
  window_base base = elim base.sliding_window [
    | none ↦ record {
      enabled = false;
      window_duration = pos 0;
      max_requests = pos 0;
      buffer_size = pos 0;
    }
    | some w ↦ w
  ]

  unfoldable pub parse_window : Node → SlidingWindowDefaults → SlidingWindowDefaults
  parse_window n base = record {
    enabled = read parse.bool (codes "enabled") base.enabled n;
    window_duration = read parse.duration (codes "window_duration") base.window_duration n;
    max_requests = read parse.int64 (codes "max_requests") base.max_requests n;
    buffer_size = read parse.int64 (codes "buffer_size") base.buffer_size n;
  }

  unfoldable pub at_least_one : ℤ → ℤ
  at_least_one n = if leb_ℤ n (pos 0) then pos 1 else n

  unfoldable pub parse_bucket_defaults : Node → BucketDefaults → BucketDefaults
  parse_bucket_defaults n base = record {
    max_tokens = read parse.int64 (codes "max_tokens") base.max_tokens n;
    refill_rate = read parse.int64 (codes "refill_rate") base.refill_rate n;
    refill_interval = read parse.duration (codes "refill_interval") base.refill_interval n;
    tokens_per_request =
        at_least_one (read parse.int64 (codes "tokens_per_request") base.tokens_per_request n);
    sliding_window = elim (child (codes "sliding_window") n) [
      | none ↦ base.sliding_window
      | some w ↦ some (parse_window w (window_base base))
    ];
  }

  -- A section of the file over the values that stand, where the file has it.
  unfoldable pub layer {ℓ} : {A : Type ℓ} → Str → Node → (Node → A → A) → A → A
  layer key root over old = elim (child key root) [ none ↦ old | some n ↦ over n old ]

  unfoldable pub load_server : Node → ServerConfig → ServerConfig
  load_server n old = record {
    client_port = read parse.int64 (codes "client_port") old.client_port n;
    admin_port = read parse.int64 (codes "admin_port") old.admin_port n;
    tls =
        layer (codes "tls") n
          (λ t _. record {
            cert_file = str (codes "cert_file") [] t;
            key_file = str (codes "key_file") [] t;
            client_ca_file = [];
          })
          old.tls;
    admin_tls =
        layer (codes "admin_tls") n
          (λ t _. record {
            cert_file = str (codes "cert_file") [] t;
            key_file = str (codes "key_file") [] t;
            client_ca_file = str (codes "client_ca_file") [] t;
          })
          old.admin_tls;
  }

  unfoldable pub load_limits : Node → Limits → Limits
  load_limits n old = record {
    max_clients = read parse.int64 (codes "max_clients") old.max_clients n;
    max_api_key_length = read parse.int64 (codes "max_api_key_length") old.max_api_key_length n;
    min_refill_interval =
        read parse.duration (codes "min_refill_interval") old.min_refill_interval n;
    max_refill_interval =
        read parse.duration (codes "max_refill_interval") old.max_refill_interval n;
  }

  unfoldable pub load_security : Node → SecurityConfig → SecurityConfig
  load_security n old = record {
    admin_token_hash = str (codes "admin_token_hash") old.admin_token_hash n;
    admin_token_salt = str (codes "admin_token_salt") old.admin_token_salt n;
    identity_mode = str (codes "identity_mode") old.identity_mode n;
    trust_proxy_headers = read parse.bool (codes "trust_proxy_headers") old.trust_proxy_headers n;
    enable_ip_secondary_limit =
        read parse.bool (codes "enable_ip_secondary_limit") old.enable_ip_secondary_limit n;
    ip_max_tokens = read parse.int64 (codes "ip_max_tokens") old.ip_max_tokens n;
    ip_refill_rate = read parse.int64 (codes "ip_refill_rate") old.ip_refill_rate n;
    ip_refill_interval = read parse.duration (codes "ip_refill_interval") old.ip_refill_interval n;
  }

  unfoldable pub load_logging : Node → Logging F → Logging F
  load_logging n old = record {
    level = str (codes "level") old.level n;
    audit_file = str (codes "audit_file") old.audit_file n;
    request_sample_rate =
        read parse.float64 (codes "request_sample_rate") old.request_sample_rate n;
  }

  unfoldable pub load_metrics : Node → MetricsConfig → MetricsConfig
  load_metrics n old = record {
    enabled = read parse.bool (codes "enabled") old.enabled n;
    port = read parse.int64 (codes "port") old.port n;
  }

  unfoldable pub load_fairness : Node → Fairness F → Fairness F
  load_fairness n old = record {
    enabled = read parse.bool (codes "enabled") old.enabled n;
    default_weight = read parse.float64 (codes "default_weight") old.default_weight n;
  }

  unfoldable pub load_global : Node → Global → Global
  load_global n old = record {
    enabled = read parse.bool (codes "enabled") old.enabled n;
    max_tokens = read parse.int64 (codes "max_tokens") old.max_tokens n;
    refill_rate = read parse.int64 (codes "refill_rate") old.refill_rate n;
    refill_interval = read parse.duration (codes "refill_interval") old.refill_interval n;
  }

  -- The loop over the entries of the section `tiers`.
  unfoldable pub load_tiers : Node → BucketDefaults → Dict BucketDefaults → Dict BucketDefaults
  load_tiers nothing base tiers = tiers
  load_tiers (entry name v n) base tiers = load_tiers n base (elim v [
    | scalar s ↦ tiers
    | section t ↦ Dict.insert name (parse_bucket_defaults t base) tiers
  ])

  unfoldable pub load_tree : Node → Config F → Config F
  load_tree root cfg =
      let defaults = layer (codes "defaults") root parse_bucket_defaults cfg.defaults in
      record {
        server = layer (codes "server") root load_server cfg.server;
        defaults = defaults;
        limits = layer (codes "limits") root load_limits cfg.limits;
        security = layer (codes "security") root load_security cfg.security;
        logging = layer (codes "logging") root load_logging cfg.logging;
        metrics = layer (codes "metrics") root load_metrics cfg.metrics;
        fairness = layer (codes "fairness") root load_fairness cfg.fairness;
        global = layer (codes "global") root load_global cfg.global;
        tiers = layer (codes "tiers") root (λ n old. load_tiers n defaults old) cfg.tiers;
      }

  -- `Load`, of a file that is not there or of its lines; `none` is an error of parsing.
  unfoldable pub load : ⦃float : Float F⦄ → (Str → Str) → Option (List Str) → Option (Config F)
  load trim_space none = some default
  load trim_space (some lines) = elim (parse_tree trim_space lines) [
    | none ↦ none
    | some root ↦ some (load_tree root default)
  ]
