-- ===== src/Audit.antt =====
-- internal/audit/audit.go: which records the audit log gets.
-- A nil `*Logger`, or one without a base, is `none`, and gets none. What is written is the record; the
-- text that `slog` makes of it, and what the base's own level drops, are left out. The draw of
-- `rand.Float64` is an argument.
mod Laws
use rateforge.Base.{Bool, true, false, Option, none, some, if◌then◌else◌, Str}
use rateforge.Base.Int.{ℤ}
use rateforge.Float.{Float, zero_f, one_f}

-- A value that a record reports as it was before and after a change.
pub record Snapshot : Type 0 where
  pub max_tokens : ℤ
  pub refill_rate : ℤ
  pub refill_interval_ms : ℤ

pub data AuditRecord : Type 0 where
  request_rejected request_allowed : Str → Str → ℤ → AuditRecord
  admin_change : Str → Str → Str → Option Snapshot → Option Snapshot → Str → AuditRecord
  anomaly : Str → Str → Str → AuditRecord

pub record Logger (F : Type 0) : Type 0 where
  pub sample_rate : F

module _ {F : Type 0} ⦃float : Float F⦄ where
  unfoldable pub new : F → Logger F
  new sample_rate =
      let low = if float.lt_f sample_rate zero_f then zero_f else sample_rate in
      record { sample_rate = if float.lt_f one_f low then one_f else low }

  -- `RequestDecision`, for a client, its address and the tokens left.
  unfoldable pub request_decision :
      Option (Logger F) → F → Bool → Str → Str → ℤ → Option AuditRecord
  request_decision none draw allowed key ip remaining = none
  request_decision (some l) draw allowed key ip remaining = elim allowed [
    | false ↦ some (request_rejected key ip remaining)
    | true ↦
        if float.le_f l.sample_rate zero_f then none else elim (float.lt_f l.sample_rate one_f) [
          | false ↦ some (request_allowed key ip remaining)
          | true ↦
              if float.le_f l.sample_rate draw
              then none
              else some (request_allowed key ip remaining)
        ]
  ]
