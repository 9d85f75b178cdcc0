-- ===== src/Server/Admin/Guard.antt =====
-- authMiddleware of internal/server/admin_server.go, and the handlers behind it.
use mathlib.Core.Option.{some-ne-none, some-injective}
use rateforge.Base.{
  ◌≡◌, ◌≢◌, refl, sym, ap, ◌∙◌, ◌⊎◌, inl, inr, false, Option, none, some, [], ◌∷◌, ◌++◌, arith,
  if◌then◌else◌, Str, codes, str_eq, str_eq_iff, strip_prefix, strip_prefix-eq, strip_prefix-append,
  length, ◌==◌, Bool-cases, Option-cases,
}
use rateforge.Time.{Time}
use rateforge.Agenda.{Agenda}
use rateforge.Float.{Float}
use rateforge.Config.{Config}
use rateforge.Security.{hash_token, constant_time_equal}
use rateforge.Fairness
use rateforge.Audit.{anomaly}
use rateforge.Server.{source_ip}
use rateforge.Server.Service.{
  Service, Response, respond, no_body, fairness_report, always_log, append_log,
}
use rateforge.Server.Admin.{
  AdminRequest, Handler, UpdateConfigRequest, GlobalConfigRequest, to_update_config, to_block,
  to_unblock, to_status, to_list_clients, to_global_config, to_fairness, handle_update_config,
  handle_block, handle_unblock, handle_status, handle_list_clients, handle_global_config,
}

-- The request bears a token with this hash.
abbrev pub Bears : (Str → Str) → Str → Str → AdminRequest → Type 0
Bears sha256_hex hash salt r =
    (token : Str) × (r.authorization ≡ codes "Bearer " ++ token)
    × (hash_token sha256_hex token salt ≡ hash)

-- The answer is 401, and no more than the audit log changed.
abbrev pub Refused : {S F : Type 0} → Service S F → Response × Service S F → Type 0
Refused svc (answer, svc') =
    (answer ≡ respond 401 no_body)
    × (svc'.store ≡ svc.store)
    × (svc'.fairness ≡ svc.fairness)
    × (svc'.metrics ≡ svc.metrics)

nonempty : (s : Str) → s ≢ [] → (length s == 0) ≡ false
nonempty [] h = absurd (h refl)
nonempty (c ∷ s) h = ground arith

module _ (split_host_port : Str → Option Str) (trim_space sha256_hex : Str → Str)
    (decode_update : Str → Option UpdateConfigRequest)
    (decode_global : Str → Option GlobalConfigRequest) {S F : Type 0} ⦃agenda : Agenda S⦄
    ⦃float : Float F⦄ (cfg : Config F) where
  unfoldable pub handle_fairness : Service S F → Response × Service S F
  handle_fairness svc = (
    respond 200
        (fairness_report (Fairness.is_enabled svc.fairness) (Fairness.snapshot svc.fairness)),
    svc,
  )

  unfoldable pub handle : Handler → AdminRequest → Time → Service S F → Response × Service S F
  handle to_update_config r now svc =
      handle_update_config split_host_port trim_space cfg decode_update r now svc
  handle to_block r now svc = handle_block split_host_port trim_space cfg r now svc
  handle to_unblock r now svc = handle_unblock split_host_port trim_space cfg r svc
  handle to_status r now svc = handle_status split_host_port trim_space cfg r svc
  handle to_list_clients r now svc = handle_list_clients split_host_port trim_space cfg svc
  handle to_global_config r now svc =
      handle_global_config split_host_port trim_space cfg decode_global r now svc
  handle to_fairness r now svc = handle_fairness svc

  unfoldable pub deny : Str → AdminRequest → Service S F → Response × Service S F
  deny kind r svc =
      let ip = source_ip split_host_port trim_space r.http cfg.security.trust_proxy_headers in
      (respond 401 no_body, always_log (anomaly kind [] ip) svc)

  unfoldable pub guard : Handler → AdminRequest → Time → Service S F → Response × Service S F
  guard h r now svc =
      if length cfg.security.admin_token_hash == 0
      then handle h r now svc
      else elim (strip_prefix (codes "Bearer ") r.authorization) [
        | none ↦ deny (codes "admin_auth_missing") r svc
        | some token ↦
            if constant_time_equal (hash_token sha256_hex token cfg.security.admin_token_salt)
              cfg.security.admin_token_hash
            then handle h r now svc
            else deny (codes "admin_auth_failed") r svc
      ]

  denied : (kind : Str) (r : AdminRequest) (svc : Service S F) → Refused svc (deny kind r svc)
  unfolding deny always_log append_log
  denied kind r svc = ground arith

  -- Where an admin token hash is configured, a request either bears a token with that hash and is
  -- handled, or it bears none, is answered 401, and leaves store, tracker and metrics as they were.
  pub guard_lem :
      (h : Handler) (r : AdminRequest) (now : Time) (svc : Service S F)
      → let hash = cfg.security.admin_token_hash in
        let salt = cfg.security.admin_token_salt in
        hash ≢ []
        → (Bears sha256_hex hash salt r × (guard h r now svc ≡ handle h r now svc))
          ⊎ (¬ Bears sha256_hex hash salt r × Refused svc (guard h r now svc))
  unfolding guard constant_time_equal
  guard_lem h r now svc set =
      let hash = cfg.security.admin_token_hash in
      let salt = cfg.security.admin_token_salt in
      let on : (length hash == 0) ≡ false = nonempty hash set in
      elim (Option-cases (strip_prefix (codes "Bearer ") r.authorization)) [
        | inl e ↦ inr (
          λ (token, is, _). some-ne-none token (
              sym (strip_prefix-append (codes "Bearer ") token)
              ∙ ap (strip_prefix (codes "Bearer ")) (sym is)
              ∙ e),
          rw (on, e, guard) (denied (codes "admin_auth_missing") r svc),
        )
        | inr (token, e) ↦
            let is = strip_prefix-eq (codes "Bearer ") r.authorization token e in
            elim (Bool-cases (str_eq (hash_token sha256_hex token salt) hash)) [
              | inl good ↦ inl (
                (token, is, (str_eq_iff (hash_token sha256_hex token salt) hash).0 good),
                rw (on, e, good, guard) refl,
              )
              | inr bad ↦ inr (
                λ (other, is', fits).
                    let prefix = codes "Bearer " in
                    let same : token ≡ other =
                      some-injective token other
                        (sym e ∙ ap (strip_prefix prefix) is' ∙ strip_prefix-append prefix other) in
                    let good =
                      (str_eq_iff (hash_token sha256_hex token salt) hash).1
                        (ap (λ x. hash_token sha256_hex x salt) same ∙ fits) in
                    ground (arith, good),
                rw (on, e, bad, guard) (denied (codes "admin_auth_failed") r svc),
              )
            ]
      ]
