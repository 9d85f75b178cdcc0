-- ===== src/Agenda.antt =====
-- What the store expects of the scheduler, the `Scheduler` interface of internal/store/store.go: for
-- each id at most one pending time, which Schedule sets and Remove clears.
use rateforge.Base.{◌≡◌, Option, some, none, if◌then◌else◌, Str, str_eq}
use rateforge.Time.{Time}

pub record Agenda (S : Type 0) : Type 0 where
  pub schedule : Str → Time → S → S
  pub remove : Str → S → S
  pub pending : Str → S → Option Time
  pub pending-schedule :
      (id j : Str) (t : Time) (s : S)
      → pending j (schedule id t s) ≡ (if str_eq id j then some t else pending j s)
  pub pending-remove :
      (id j : Str) (s : S) → pending j (remove id s) ≡ (if str_eq id j then none else pending j s)
