-- ===== src/Config.antt =====
-- internal/config/config.go: the schema, its built-in defaults and its validation.
-- float64 is a parameter `F` with the literals and comparisons that the source uses.
pub mod Checked
pub mod Text
pub mod Tree
pub mod Load
pub mod Loaded
mod Tests
use rateforge.Base.{
  ℕ, Bool, true, false, ◌&&◌, ◌||◌, not, Option, none, some, List, [], ◌∷◌, if◌then◌else◌, Str,
  codes, str_eq,
}
use rateforge.Base.Int.{ℤ, pos, ltb_ℤ, leb_ℤ, eq_ℤ}
use rateforge.Time.{Duration, second, hour}
use rateforge.Dict.{Dict}
use rateforge.Float.{Float}

pub record TlsConfig : Type 0 where
  pub cert_file : Str
  pub key_file : Str
  pub client_ca_file : Str

pub record ServerConfig : Type 0 where
  pub client_port : ℤ
  pub admin_port : ℤ
  pub tls : TlsConfig
  pub admin_tls : TlsConfig

pub record SlidingWindowDefaults : Type 0 where
  pub enabled : Bool
  pub window_duration : Duration
  pub max_requests : ℤ
  pub buffer_size : ℤ

pub record BucketDefaults : Type 0 where
  pub max_tokens : ℤ
  pub refill_rate : ℤ
  pub refill_interval : Duration
  pub tokens_per_request : ℤ
  pub sliding_window : Option SlidingWindowDefaults

pub record Limits : Type 0 where
  pub max_clients : ℤ
  pub max_api_key_length : ℤ
  pub min_refill_interval : Duration
  pub max_refill_interval : Duration

pub record SecurityConfig : Type 0 where
  pub admin_token_hash : Str
  pub admin_token_salt : Str
  pub identity_mode : Str
  pub trust_proxy_headers : Bool
  pub enable_ip_secondary_limit : Bool
  pub ip_max_tokens : ℤ
  pub ip_refill_rate : ℤ
  pub ip_refill_interval : Duration

pub record Logging (F : Type 0) : Type 0 where
  pub level : Str
  pub audit_file : Str
  pub request_sample_rate : F

pub record MetricsConfig : Type 0 where
  pub enabled : Bool
  pub port : ℤ

pub record Fairness (F : Type 0) : Type 0 where
  pub enabled : Bool
  pub default_weight : F

pub record Global : Type 0 where
  pub enabled : Bool
  pub max_tokens : ℤ
  pub refill_rate : ℤ
  pub refill_interval : Duration

pub record Config (F : Type 0) : Type 0 where
  pub server : ServerConfig
  pub defaults : BucketDefaults
  pub limits : Limits
  pub security : SecurityConfig
  pub logging : Logging F
  pub metrics : MetricsConfig
  pub fairness : Fairness F
  pub global : Global
  pub tiers : Dict BucketDefaults

-- The zero `TLSConfig`.
abbrev pub no_tls : TlsConfig
no_tls = record { cert_file = []; key_file = []; client_ca_file = [] }

-- Why a configuration is refused, one reason for each message.
pub data ConfigError : Type 0 where
  client_port_range admin_port_range ports_equal metrics_port_range metrics_port_taken : ConfigError
  defaults_max_tokens defaults_refill_rate limits_max_clients sample_rate_range : ConfigError
  identity_mode_invalid fairness_weight global_max_tokens : ConfigError

-- A port that may be listened on.
abbrev pub out_of_range : ℤ → Bool
out_of_range port = leb_ℤ port (pos 0) || ltb_ℤ (pos 65535) port

abbrev pub identity_mode_known : Str → Bool
identity_mode_known mode =
    str_eq mode (codes "ip")
    || str_eq mode (codes "api_key")
    || str_eq mode (codes "api_key_with_ip_fallback")

module _ {F : Type 0} ⦃float : Float F⦄ where
  -- `Default`
  unfoldable pub default : Config F
  default = record {
    server = record {
      client_port = pos 8080;
      admin_port = pos 9090;
      tls = no_tls;
      admin_tls = no_tls;
    };
    defaults = record {
      max_tokens = pos 100;
      refill_rate = pos 10;
      refill_interval = second;
      tokens_per_request = pos 1;
      sliding_window = none;
    };
    limits = record {
      max_clients = pos 100_000;
      max_api_key_length = pos 128;
      min_refill_interval = pos 10_000_000;
      max_refill_interval = hour;
    };
    security = record {
      admin_token_hash = [];
      admin_token_salt = [];
      identity_mode = codes "api_key_with_ip_fallback";
      trust_proxy_headers = false;
      enable_ip_secondary_limit = false;
      ip_max_tokens = pos 1000;
      ip_refill_rate = pos 1000;
      ip_refill_interval = second;
    };
    logging = record {
      level = codes "info";
      audit_file = [];
      request_sample_rate = float.decimal 1 2;
    };
    metrics = record { enabled = true; port = pos 9100 };
    fairness = record { enabled = false; default_weight = float.decimal 1 0 };
    global = record {
      enabled = false;
      max_tokens = pos 0;
      refill_rate = pos 0;
      refill_interval = pos 0;
    };
    tiers = [];
  }

  -- The port checks that come first in Validate.
  unfoldable pub validate_ports : Config F → Option ConfigError
  validate_ports c =
      let client = c.server.client_port in
      let admin = c.server.admin_port in
      let port = c.metrics.port in
      if out_of_range client
      then some client_port_range
      else if out_of_range admin
      then some admin_port_range
      else if eq_ℤ client admin
      then some ports_equal
      else if c.metrics.enabled && out_of_range port
      then some metrics_port_range
      else if c.metrics.enabled && (eq_ℤ port client || eq_ℤ port admin)
      then some metrics_port_taken
      else none

  unfoldable pub validate_values : Config F → Option ConfigError
  validate_values c =
      let rate = c.logging.request_sample_rate in
      if leb_ℤ c.defaults.max_tokens (pos 0)
      then some defaults_max_tokens
      else if ltb_ℤ c.defaults.refill_rate (pos 0)
      then some defaults_refill_rate
      else if leb_ℤ c.limits.max_clients (pos 0)
      then some limits_max_clients
      else if float.lt_f rate (float.decimal 0 0) || float.lt_f (float.decimal 1 0) rate
      then some sample_rate_range
      else if not (identity_mode_known c.security.identity_mode)
      then some identity_mode_invalid
      else if c.fairness.enabled && float.le_f c.fairness.default_weight (float.decimal 0 0)
      then some fairness_weight
      else if c.global.enabled && leb_ℤ c.global.max_tokens (pos 0)
      then some global_max_tokens
      else none

  -- `Validate`: the first problem, or `none`.
  unfoldable pub validate : Config F → Option ConfigError
  validate c = elim (validate_ports c) [ some e ↦ some e | none ↦ validate_values c ]
