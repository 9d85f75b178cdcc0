-- ===== src/Sentinel/Wake.antt =====
-- The store and the scheduler together.
use mathlib.Core.Option.{some-ne-none}
use rateforge.Base.{◌≡◌, ◌≢◌, sym, ap, ◌∙◌, inl, inr, none, some, arith, Str, Option-cases}
use rateforge.Base.Int.{pos, ◌<ℤ◌, ◌≤ℤ◌}
use rateforge.Time.{Time, Duration}
use rateforge.Bucket
use rateforge.Bucket.{BucketConfig}
use rateforge.Multibucket.{tier_or_default}
use rateforge.Store.{BucketStore, encode_id}
use rateforge.Store.Admin.{update_client_config}
use rateforge.Store.Pending.{pending_at, update_client_config_lem}
use rateforge.Scheduler.{next_wait}
use rateforge.Scheduler.Attach.{Running, agenda}
use rateforge.Scheduler.Collected.{wait_until}
use rateforge.Scheduler.Due.{next_wait_lem}

-- With a scheduler attached whose slice is a heap by time and linked with its objects both ways,
-- after UpdateClientConfig with a positive RefillInterval it is attached still, and nextWait at any
-- time returns, without a panic, a wait that ends no later than the first refill of the tier's new
-- bucket.
pub update_client_config-next_wait :
    (key tier : Str) (cfg : BucketConfig) (now later : Time) (sched : Running)
    (s : BucketStore Running)
    → s.scheduler ≡ some sched
    → pos 0 <ℤ cfg.refill_interval
    → (after : Running) × (w : Duration) × ((update_client_config key tier cfg now s).scheduler
        ≡ some after)
      × (next_wait later after.0 ≡ some w)
      × (w ≤ℤ wait_until later (Bucket.next_refill_time (Bucket.new cfg now)))
unfolding agenda
update_client_config-next_wait key tier cfg now later sched s on h =
    let id = encode_id key (tier_or_default tier) in
    let t = Bucket.next_refill_time (Bucket.new cfg now) in
    let s' = update_client_config key tier cfg now s in
    let attached : s.scheduler ≢ none = λ off. some-ne-none sched (sym on ∙ off) in
    let (_, _, _, _, pending) = update_client_config_lem key tier cfg now s in
    let asked : pending_at id s'.scheduler ≡ some t = pending attached ∙ ground arith in
    elim (Option-cases s'.scheduler) [
      | inl gone ↦ absurd (some-ne-none t (sym asked ∙ ap (pending_at id) gone))
      | inr (after, there) ↦
          let (w, run, least, _) = next_wait_lem later after.0 after.1 in
          (after, w, there, run, least id t (sym (ap (pending_at id) there) ∙ asked))
    ]
