-- ===== src/Server/Client.antt =====
-- The rest of handleRequest in internal/server/client_server.go: the decision, its record, and the
-- response. The latency, the sampling draw and the runes of a refused key are arguments.
use rateforge.Base.{ℕ, Bool, true, false, Option, none, some, List, if◌then◌else◌, Str, codes}
use rateforge.Base.Int.{pos, div64}
use rateforge.Time.{Time, millisecond, add_time}
use rateforge.Agenda.{Agenda}
use rateforge.Float.{Float}
use rateforge.Security.Sanitize.{sanitize_for_log}
use rateforge.Store.{AllowRequest, AllowResult, ok, blocked, client_limit, ip_limit, global_limit}
use rateforge.Store.Serve.{allow}
use rateforge.Fairness.{is_enabled, record_consumption}
use rateforge.Metrics.{inc, observe}
use rateforge.Audit.{anomaly, request_decision}
use rateforge.Server.{
  HttpRequest, BadRequest, bad_request, admitted, invalid_identity, body_not_expected,
  missing_identity, invalid_tier, handle_request, source_ip,
}
use rateforge.Server.Service.{
  Service, Response, respond, bad_client_request, allow_response, append_log, always_log,
}

-- The label of a decision.
unfoldable pub decision : AllowResult → Str
decision result = if result.allowed then codes "allow" else elim result.reason [
  | ok ↦ codes "reject"
  | blocked ↦ codes "blocked"
  | client_limit ↦ codes "reject"
  | ip_limit ↦ codes "reject"
  | global_limit ↦ codes "reject"
]

unfoldable pub answer : Time → AllowResult → Response
answer now result =
    if result.allowed
    then respond 200 (allow_response true result.remaining_tokens (pos 0) none)
    else record {
      status = 429;
      retry_after = some result.retry_after;
      body =
          allow_response false (pos 0) (div64 result.retry_after millisecond)
            (some (add_time now result.retry_after));
    }

module _ {S F : Type 0} ⦃agenda : Agenda S⦄ ⦃float : Float F⦄ where
  unfoldable pub measure : F → AllowResult → Service S F → Service S F
  measure latency result svc = elim svc.metrics [
    | none ↦ svc
    | some m ↦ record svc {
      metrics = some (record m {
        requests_total = inc (decision result) m.requests_total;
        request_latency = observe latency m.request_latency;
      });
    }
  ]

  unfoldable pub consume : Str → AllowResult → Service S F → Service S F
  consume key result svc =
      if result.allowed
      then if is_enabled svc.fairness
        then record svc { fairness = (record_consumption key (pos 1) svc.fairness).1 }
        else svc
      else svc

  -- What follows the checks, for a request that passed them.
  unfoldable pub decide : F → F → Time → AllowRequest → Service S F → Response × Service S F
  decide draw latency clock req svc =
      let (result, st) = allow clock req svc.store in
      let logged =
        append_log
          (request_decision svc.audit draw result.allowed req.client_key req.source_ip
            result.remaining_tokens)
          (record svc { store = st }) in
      (answer req.now result, consume req.client_key result (measure latency result logged))

  unfoldable pub refuse : BadRequest → List ℕ → Str → Service S F → Response × Service S F
  refuse why runes ip svc = (
    respond 400 (bad_client_request why),
    elim why [
      | body_not_expected ↦ svc
      | missing_identity ↦ svc
      | invalid_identity ↦
          always_log (anomaly (codes "invalid_client_identity") (sanitize_for_log runes) ip) svc
      | invalid_tier ↦ svc
    ],
  )

  unfoldable pub serve_request :
      (Str → Option Str)
      → (Str → Str)
      → HttpRequest
      → Bool
      → Str
      → List ℕ
      → F
      → F
      → Time
      → Time
      → Service S F
      → Response × Service S F
  serve_request split_host_port trim_space r trust_proxy mode runes draw latency now clock svc =
      elim (handle_request split_host_port trim_space r trust_proxy mode now) [
        | bad_request why ↦
            refuse why runes (source_ip split_host_port trim_space r trust_proxy) svc
        | admitted req ↦ decide draw latency clock req svc
      ]
