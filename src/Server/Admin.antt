-- ===== src/Server/Admin.antt =====
-- The handlers of internal/server/admin_server.go and the middleware that guards them.
-- The mux is left out: a request comes with the handler that its pattern names, and with the key of its
-- path. The decoding of JSON is a parameter. The clock is read once by each handler.
pub mod Guard
pub mod Usable
pub mod Merged
pub mod Made
pub mod Noted
pub mod Change
pub mod Handle
pub mod Apply
use rateforge.Base.{
  ℕ, Bool, true, false, not, ◌||◌, Option, none, some, List, [], ◌++◌, if◌then◌else◌, Str, codes,
  str_eq, strip_prefix, length, ltb, ◌==◌,
}
use rateforge.Base.Int.{ℤ, pos, mul64, div64, ltb_ℤ, leb_ℤ}
use rateforge.Time.{Time, millisecond}
use rateforge.Agenda.{Agenda}
use rateforge.Config.{Config}
use rateforge.Security.{
  validate_api_key, validate_tier, validate_bucket_config, hash_token, constant_time_equal,
}
use rateforge.Bucket.{BucketConfig}
use rateforge.Store.Admin.{
  status, list_clients, tier_config, update_client_config, block, unblock, set_global_config,
  disable_global,
}
use rateforge.Fairness
use rateforge.Fairness.{Tracker}
use rateforge.Audit.{Snapshot, AuditRecord, admin_change, anomaly}
use rateforge.Server.{HttpRequest, source_ip}
use rateforge.Server.Service.{
  Service, Response, respond, no_body, message, out_of_limits, config_snapshot, client_status,
  client_list, fairness_report, always_log, count_change,
}

-- A field that the body leaves out is `none`, but the tier, which is then empty.
pub record UpdateConfigRequest : Type 0 where
  pub tier : Str
  pub max_tokens : Option ℤ
  pub refill_rate : Option ℤ
  pub refill_interval_ms : Option ℤ

pub record GlobalConfigRequest : Type 0 where
  pub enabled : Bool
  pub max_tokens : ℤ
  pub refill_rate : ℤ
  pub refill_interval_ms : ℤ

-- `body` is `none` where there is none or it cannot be read; `peer` is the common name of the client's
-- certificate, if it sent one.
pub record AdminRequest : Type 0 where
  pub http : HttpRequest
  pub key : Str
  pub authorization : Str
  pub peer : Option Str
  pub body : Option Str

pub data Handler : Type 0 where
  to_update_config to_block to_unblock to_status to_list_clients to_global_config to_fairness :
      Handler

unfoldable pub snapshot : BucketConfig → Snapshot
snapshot cfg = record {
  max_tokens = cfg.max_tokens;
  refill_rate = cfg.refill_rate;
  refill_interval_ms = div64 cfg.refill_interval millisecond;
}

-- `maxAdminBodyBytes`
abbrev pub max_admin_body_bytes : ℕ
max_admin_body_bytes = 1024

unfoldable pub read_admin_body {ℓ} : {A : Type ℓ} → (Str → Option A) → AdminRequest → Option A
read_admin_body decode r = elim r.body [
  | none ↦ none
  | some text ↦ if ltb max_admin_body_bytes (length text) then none else decode text
]

unfoldable pub or_else : Option ℤ → ℤ → ℤ
or_else none old = old
or_else (some new) old = new

-- The configuration that a request asks for, over the one that stands.
unfoldable pub merge : UpdateConfigRequest → BucketConfig → BucketConfig
merge req before = record before {
  max_tokens = or_else req.max_tokens before.max_tokens;
  refill_rate = or_else req.refill_rate before.refill_rate;
  refill_interval = elim req.refill_interval_ms [
    | none ↦ before.refill_interval
    | some ms ↦ mul64 ms millisecond
  ];
  tokens_per_request =
      if leb_ℤ before.tokens_per_request (pos 0) then pos 1 else before.tokens_per_request;
}

unfoldable pub admin_identity : AdminRequest → Str
admin_identity r = elim r.peer [ none ↦ codes "bearer-token" | some name ↦ codes "mtls:" ++ name ]

-- `bucket.Config` of a request for the global limit.
unfoldable pub global_config_of : GlobalConfigRequest → BucketConfig
global_config_of req = record {
  max_tokens = req.max_tokens;
  refill_rate = req.refill_rate;
  refill_interval = mul64 req.refill_interval_ms millisecond;
  tokens_per_request = pos 1;
  sliding_window = none;
}

module _ (split_host_port : Str → Option Str) (trim_space : Str → Str) {S F : Type 0}
    ⦃agenda : Agenda S⦄ (cfg : Config F) where
  -- The record and the count of a change that was made.
  unfoldable pub note_change :
      AdminRequest → Str → Str → Option Snapshot → Option Snapshot → Service S F → Service S F
  note_change r key action before after svc =
      let ip = source_ip split_host_port trim_space r.http cfg.security.trust_proxy_headers in
      count_change action
        (always_log (admin_change (admin_identity r) key action before after ip) svc)

  -- handleUpdateConfig from its validation of the merged configuration on.
  unfoldable pub apply_update :
      AdminRequest → Str → BucketConfig → BucketConfig → Time → Service S F → Response × Service S F
  apply_update r tier before after now svc =
      elim (validate_bucket_config after.max_tokens after.refill_rate after.refill_interval) [
        | some e ↦ (respond 400 (out_of_limits e), svc)
        | none ↦
            if ltb_ℤ after.refill_interval cfg.limits.min_refill_interval
              || ltb_ℤ cfg.limits.max_refill_interval after.refill_interval
            then (respond 400 (message (codes "refill_interval out of configured bounds")), svc)
            else (
              respond 200 (config_snapshot (snapshot after)),
              note_change r r.key (codes "update_config") (some (snapshot before))
                  (some (snapshot after))
                  (record svc { store = update_client_config r.key tier after now svc.store }),
            )
      ]

  unfoldable pub handle_update_config :
      (Str → Option UpdateConfigRequest)
      → AdminRequest
      → Time
      → Service S F
      → Response × Service S F
  handle_update_config decode r now svc = elim (validate_api_key r.key) [
    | some e ↦ (respond 400 (message (codes "invalid client key")), svc)
    | none ↦ elim (read_admin_body decode r) [
      | none ↦ (respond 400 (message (codes "invalid request body")), svc)
      | some req ↦ elim (validate_tier req.tier) [
        | some e ↦ (respond 400 (message (codes "invalid tier")), svc)
        | none ↦
            let before = tier_config r.key req.tier svc.store in
            apply_update r req.tier before (merge req before) now svc
      ]
    ]
  ]

  unfoldable pub handle_block : AdminRequest → Time → Service S F → Response × Service S F
  handle_block r now svc = elim (validate_api_key r.key) [
    | some e ↦ (respond 400 (message (codes "invalid client key")), svc)
    | none ↦ (
      respond 200 no_body,
      note_change r r.key (codes "block") none none
          (record svc { store = block r.key now svc.store }),
    )
  ]

  unfoldable pub handle_unblock : AdminRequest → Service S F → Response × Service S F
  handle_unblock r svc = elim (validate_api_key r.key) [
    | some e ↦ (respond 400 (message (codes "invalid client key")), svc)
    | none ↦ (
      respond 200 no_body,
      note_change r r.key (codes "unblock") none none
          (record svc { store = unblock r.key svc.store }),
    )
  ]

  unfoldable pub handle_status : AdminRequest → Service S F → Response × Service S F
  handle_status r svc = elim (status r.key svc.store) [
    | none ↦ (respond 404 (message (codes "client not found")), svc)
    | some st ↦ (respond 200 (client_status st), svc)
  ]

  unfoldable pub handle_list_clients : Service S F → Response × Service S F
  handle_list_clients svc = (respond 200 (client_list (list_clients svc.store)), svc)

  unfoldable pub handle_global_config :
      (Str → Option GlobalConfigRequest)
      → AdminRequest
      → Time
      → Service S F
      → Response × Service S F
  handle_global_config decode r now svc = elim (read_admin_body decode r) [
    | none ↦ (respond 400 (message (codes "invalid request body")), svc)
    | some req ↦ elim req.enabled [
      | false ↦ (
        respond 200 no_body,
        note_change r (codes "__global__") (codes "disable_global") none none
            (record svc { store = disable_global svc.store }),
      )
      | true ↦
          let asked = global_config_of req in
          elim (validate_bucket_config asked.max_tokens asked.refill_rate asked.refill_interval) [
            | some e ↦ (respond 400 (out_of_limits e), svc)
            | none ↦ (
              respond 200 (config_snapshot (snapshot asked)),
              note_change r (codes "__global__") (codes "set_global_config") none
                  (some (snapshot asked))
                  (record svc { store = set_global_config asked now svc.store }),
            )
          ]
    ]
  ]
