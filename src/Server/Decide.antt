-- ===== src/Server/Decide.antt =====
-- What a request to the client API does to the service.
use rateforge.Base.{
  ◌⊎◌, ◌&&◌, ◌≡◌, refl, sym, ◌∙◌, subst, inl, inr, Bool, false, Option, none, some, List, [], ◌∷◌,
  ◌++◌, arith, ℕ, if◌then◌else◌, Str, either,
}
use rateforge.Base.Int.{ℤ, pos}
use rateforge.Time.{Time, is_zero}
use rateforge.Agenda.{Agenda}
use rateforge.Float.{Float}
use rateforge.Bucket.Valid.{IsClock}
use rateforge.Store.{AllowRequest, AllowResult}
use rateforge.Store.Serve.{allow}
use rateforge.Store.Safe.{IsSound}
use rateforge.Store.Safe.Serve.{allow-IsSound}
use rateforge.Audit.{Logger, AuditRecord, request_rejected, request_decision}
use rateforge.Fairness.{is_enabled, record_consumption}
use rateforge.Server.{
  HttpRequest, Admission, BadRequest, bad_request, admitted, handle_request, source_ip,
}
use rateforge.Server.Service.{Service, append_log, always_log}
use rateforge.Server.Client.{answer, measure, consume, decide, refuse, serve_request}

Admission-cases :
    (a : Admission)
    → ((why : BadRequest) × (a ≡ bad_request why)) ⊎ ((req : AllowRequest) × (a ≡ admitted req))
Admission-cases (bad_request why) = inl (why, refl)
Admission-cases (admitted req) = inr (req, refl)

-- An admitted request carries the time that the handler read.
abbrev Stamped : Time → Admission → Type 0
Stamped now (bad_request why) = Unit
Stamped now (admitted req) = req.now ≡ now

handle_request-Stamped :
    (split_host_port : Str → Option Str) (trim_space : Str → Str) (r : HttpRequest)
    (trust_proxy : Bool) (mode : Str) (now : Time)
    → Stamped now (handle_request split_host_port trim_space r trust_proxy mode now)
unfolding handle_request
handle_request-Stamped split_host_port trim_space r trust_proxy mode now = ground arith

recorded :
    {F : Type 0} ⦃float : Float F⦄ (o : Option (Logger F)) (draw : F) (key ip : Str) (remaining : ℤ)
    (log : List AuditRecord)
    → (elim (request_decision o draw false key ip remaining) as (λ o. List AuditRecord) [
      | none ↦ log
      | some r ↦ log ++ r ∷ []
    ])
      ≡ (elim o as (λ o. List AuditRecord) [
        | none ↦ log
        | some l ↦ log ++ request_rejected key ip remaining ∷ []
      ])
unfolding request_decision
recorded none draw key ip remaining log = refl
recorded (some l) draw key ip remaining log = refl

module _ {S F : Type 0} ⦃agenda : Agenda S⦄ ⦃float : Float F⦄ where
  measured :
      (latency : F) (result : AllowResult) (svc : Service S F)
      → let svc' = measure latency result svc in
        (svc'.store ≡ svc.store) × (svc'.fairness ≡ svc.fairness) × (svc'.log ≡ svc.log)
  unfolding measure
  measured latency result svc = ground arith

  consumed :
      (key : Str) (result : AllowResult) (svc : Service S F)
      → let svc' = consume key result svc in
        (svc'.store ≡ svc.store)
        × (svc'.log ≡ svc.log)
        × (svc'.fairness ≡ (
            if result.allowed && is_enabled svc.fairness
            then (record_consumption key (pos 1) svc.fairness).1
            else svc.fairness))
  unfolding consume
  consumed key result svc = ground arith

  appended :
      (o : Option AuditRecord) (svc : Service S F)
      → let svc' = append_log o svc in
        (svc'.store ≡ svc.store)
        × (svc'.fairness ≡ svc.fairness)
        × (svc'.log
            ≡ (elim o as (λ o. List AuditRecord) [ none ↦ svc.log | some r ↦ svc.log ++ r ∷ [] ]))
  unfolding append_log
  appended none svc = (refl, refl, refl)
  appended (some r) svc = (refl, refl, refl)

  -- What a decision leaves.
  decide_lem :
      (draw latency : F) (clock : Time) (req : AllowRequest) (svc : Service S F)
      → let (result, st) = allow clock req svc.store in
        let svc' = (decide draw latency clock req svc).1 in
        let key = req.client_key in
        let entry =
          request_decision svc.audit draw result.allowed key req.source_ip
            result.remaining_tokens in
        (svc'.store ≡ st)
        × (svc'.log ≡ (elim entry as (λ o. List AuditRecord) [
          | none ↦ svc.log
          | some r ↦ svc.log ++ r ∷ []
        ]))
        × (svc'.fairness ≡ (
            if result.allowed && is_enabled svc.fairness
            then (record_consumption key (pos 1) svc.fairness).1
            else svc.fairness))
  unfolding decide
  decide_lem draw latency clock req svc =
      let (result, st) = allow clock req svc.store in
      let key = req.client_key in
      let entry =
        request_decision svc.audit draw result.allowed key req.source_ip result.remaining_tokens in
      let start = record svc { store = st } in
      let (store1, fair1, log1) = appended entry start in
      let (store2, fair2, log2) = measured latency result (append_log entry start) in
      let (store3, log3, fair3) =
        consumed key result (measure latency result (append_log entry start)) in
      (store3 ∙ store2 ∙ store1, log3 ∙ log2 ∙ log1, fair3 ∙ rw (fair2 ∙ fair1) refl)

  -- Every request that the store refuses is answered 429 with the wait that the store tells, and
  -- leaves the service with the store that Allow left and the tracker as it was. Exactly its record
  -- is added to the log, whatever the sample rate, if there is an audit log, and nothing if there
  -- is none.
  pub decide-refused :
      (draw latency : F) (clock : Time) (req : AllowRequest) (svc : Service S F)
      → let (result, st) = allow clock req svc.store in
        let (reply, svc') = decide draw latency clock req svc in
        result.allowed ≡ false
        → (reply.status ≡ 429)
          × (reply.retry_after ≡ some result.retry_after)
          × (svc'.store ≡ st)
          × (svc'.fairness ≡ svc.fairness)
          × (svc'.log ≡ (elim svc.audit as (λ o. List AuditRecord) [
            | none ↦ svc.log
            | some l ↦
                svc.log
                ++ request_rejected req.client_key req.source_ip result.remaining_tokens ∷ []
          ]))
  unfolding decide answer
  decide-refused draw latency clock req svc refusal =
      let (result, st) = allow clock req svc.store in
      let (store, log, fair) = decide_lem draw latency clock req svc in
      (
        rw refusal refl,
        rw refusal refl,
        store,
        fair ∙ rw refusal refl,
        log
            ∙ rw refusal (
                recorded svc.audit draw req.client_key req.source_ip result.remaining_tokens
                  svc.log),
      )

  refused-store :
      (why : BadRequest) (runes : List ℕ) (ip : Str) (svc : Service S F)
      → (refuse why runes ip svc).1.store ≡ svc.store
  unfolding refuse always_log append_log
  refused-store why runes ip svc = ground arith

  -- Every request to the client API, admitted or not, keeps a sound store sound, if the times that
  -- the handler and the store read are clock readings.
  pub serve_request-IsSound :
      (split_host_port : Str → Option Str) (trim_space : Str → Str) (r : HttpRequest)
      (trust_proxy : Bool) (mode : Str) (runes : List ℕ) (draw latency : F) (now clock : Time)
      (svc : Service S F)
      → IsSound svc.store
      → IsClock now
      → IsClock clock
      → IsSound
          (serve_request split_host_port trim_space r trust_proxy mode runes draw latency now clock
            svc).1.store
  unfolding serve_request
  serve_request-IsSound split_host_port trim_space r trust_proxy mode runes draw latency now clock
        svc v c k =
      let ip = source_ip split_host_port trim_space r trust_proxy in
      elim (Admission-cases (handle_request split_host_port trim_space r trust_proxy mode now)) [
        | inl (why, e) ↦
            rw (e, serve_request) (subst IsSound (sym (refused-store why runes ip svc)) v)
        | inr (req, e) ↦
            let stamp : req.now ≡ now =
              subst (λ a. Stamped now a) e
                (handle_request-Stamped split_host_port trim_space r trust_proxy mode now) in
            let at_clock : IsClock (if is_zero req.now then clock else req.now) =
              rw stamp (either IsClock (is_zero now) k c) in
            rw (e, serve_request)
              (subst IsSound (sym (decide_lem draw latency clock req svc).0)
                (allow-IsSound clock req svc.store v at_clock))
      ]
