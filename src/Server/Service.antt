-- ===== src/Server/Service.antt =====
-- What the two servers of internal/server share: the store, the tracker, the metrics and the audit
-- log, and their responses. The HTTP and JSON encodings of a response are left out.
use rateforge.Base.{ℕ, Bool, Option, none, some, List, [], ◌∷◌, ◌++◌, Str}
use rateforge.Base.Int.{ℤ}
use rateforge.Time.{Time, Duration}
use rateforge.Security.{ValidationError}
use rateforge.Store.{BucketStore}
use rateforge.Store.Admin.{ClientStatus}
use rateforge.Fairness.{Tracker}
use rateforge.Metrics.{Registry, inc}
use rateforge.Audit.{AuditRecord, Logger, Snapshot}
use rateforge.Server.{BadRequest}
use rateforge.Dict.{Dict}

pub record Service (S F : Type 0) : Type 0 where
  pub store : BucketStore S
  pub fairness : Option (Tracker F)
  pub audit : Option (Logger F)
  pub metrics : Option (Registry F)
  -- What the audit log was given so far, in order.
  pub log : List AuditRecord

pub data Body : Type 0 where
  no_body : Body
  bad_client_request : BadRequest → Body
  message : Str → Body
  out_of_limits : ValidationError → Body
  allow_response : Bool → ℤ → ℤ → Option Time → Body
  config_snapshot : Snapshot → Body
  client_status : ClientStatus → Body
  client_list : List ClientStatus → Body
  fairness_report : Bool → Dict ℤ → Body

pub record Response : Type 0 where
  pub status : ℕ
  pub retry_after : Option Duration
  pub body : Body

abbrev pub respond : ℕ → Body → Response
respond code body = record { status = code; retry_after = none; body = body }

module _ {S F : Type 0} where
  unfoldable pub append_log : Option AuditRecord → Service S F → Service S F
  append_log none svc = svc
  append_log (some r) svc = record svc { log = svc.log ++ r ∷ [] }

  -- `AdminChange` and `Anomaly`, whose record is given.
  unfoldable pub always_log : AuditRecord → Service S F → Service S F
  always_log r svc = elim svc.audit [ none ↦ svc | some l ↦ append_log (some r) svc ]

  -- `AdminChangesTotal.Inc`, if there are metrics.
  unfoldable pub count_change : Str → Service S F → Service S F
  count_change action svc = elim svc.metrics [
    | none ↦ svc
    | some m ↦ record svc {
      metrics = some (record m { admin_changes_total = inc action m.admin_changes_total });
    }
  ]
