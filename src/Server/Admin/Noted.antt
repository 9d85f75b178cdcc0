-- ===== src/Server/Admin/Noted.antt =====
-- The record that is kept of a change of the admin API.
use rateforge.Base.{
  ◌≡◌, ◌≢◌, refl, ◌∙◌, inl, inr, Option, none, [], ◌∷◌, ◌++◌, arith, Str, Option-cases,
}
use rateforge.Agenda.{Agenda}
use rateforge.Config.{Config}
use rateforge.Store.{BucketStore}
use rateforge.Audit.{Snapshot, AuditRecord, admin_change}
use rateforge.Server.{source_ip}
use rateforge.Server.Service.{Service, always_log, count_change, append_log}
use rateforge.Server.Admin.{AdminRequest, admin_identity, note_change}

module _ (split_host_port : Str → Option Str) (trim_space : Str → Str) {S F : Type 0}
    ⦃agenda : Agenda S⦄ (cfg : Config F) where
  -- The store is the one given, and an audit log got the record of the change and no other.
  abbrev pub Noted :
      AdminRequest
      → Str
      → Str
      → Option Snapshot
      → Option Snapshot
      → BucketStore S
      → Service S F
      → Service S F
      → Type 0
  Noted r key action before after st svc svc' =
      let ip = source_ip split_host_port trim_space r.http cfg.security.trust_proxy_headers in
      (svc'.store ≡ st)
      × (svc.audit ≢ none
          → svc'.log ≡ svc.log ++ admin_change (admin_identity r) key action before after ip ∷ [])

  counted :
      (action : Str) (svc : Service S F)
      → ((count_change action svc).store ≡ svc.store) × ((count_change action svc).log ≡ svc.log)
  unfolding count_change
  counted action svc = ground arith

  logged :
      (e : AuditRecord) (svc : Service S F)
      → ((always_log e svc).store ≡ svc.store)
        × (svc.audit ≢ none → (always_log e svc).log ≡ svc.log ++ e ∷ [])
  unfolding always_log append_log
  logged e svc = elim (Option-cases svc.audit) [
    | inl off ↦ (rw (off, always_log) refl, λ on. absurd (on off))
    | inr (l, on) ↦ (rw (on, always_log) refl, λ _. rw (on, always_log) refl)
  ]

  pub noted :
      (r : AdminRequest) (key action : Str) (before after : Option Snapshot) (st : BucketStore S)
      (svc : Service S F)
      → Noted r key action before after st svc (
          note_change split_host_port trim_space cfg r key action before after
            (record svc { store = st }))
  unfolding note_change
  noted r key action before after st svc =
      let ip = source_ip split_host_port trim_space r.http cfg.security.trust_proxy_headers in
      let e = admin_change (admin_identity r) key action before after ip in
      let w = record svc { store = st } in
      let (store_kept, log_kept) = counted action (always_log e w) in
      let (store_same, one) = logged e w in (store_kept ∙ store_same, λ on. log_kept ∙ one on)
