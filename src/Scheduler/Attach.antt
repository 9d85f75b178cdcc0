-- ===== src/Scheduler/Attach.antt =====
-- The scheduler behind the interface that internal/store states.
use rateforge.Base.{arith}
use rateforge.Agenda.{Agenda}
use rateforge.Dict
use rateforge.Scheduler.{Scheduler, new}
use rateforge.Scheduler.Linked.{due_at}
use rateforge.Scheduler.Valid.{IsValid}
use rateforge.Scheduler.Change.{schedule-IsValid, remove-IsValid}

-- A new scheduler has nothing pending.
pub new-IsValid : IsValid new.heap
unfolding new Dict.lookup
new-IsValid = record {
  links = record {
    linked = λ i l. absurd (omega arith);
    covered = λ id p e. absurd (ground arith);
  };
  ordered = λ c a b. absurd (omega arith);
}

-- The schedulers that New and the operations give.
abbrev pub Running : Type 0
Running = (s : Scheduler) × IsValid s.heap

abbrev pub started : Running
started = (new, new-IsValid)

instance unfoldable pub agenda : Agenda Running
agenda = record {
  schedule = λ id t (s, v). let r = schedule-IsValid id t s v in (r.0, r.2);
  remove = λ id (s, v). let r = remove-IsValid id s v in (r.0, r.2);
  pending = λ id s. due_at s.0.heap.entries id;
  pending-schedule = λ id j t (s, v). (schedule-IsValid id t s v).3 j;
  pending-remove = λ id j (s, v). (remove-IsValid id s v).3 j;
}
