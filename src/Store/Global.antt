-- ===== src/Store/Global.antt =====
-- The global limit: what a store grants over any sequence of requests and scheduler callbacks.
use native.Mathlib.Nat.{le_trans, mul-le-mul_right}
use rateforge.Base.{
  ℕ, ◌+◌, ◌-◌, ◌*◌, ◌/◌, ◌≤◌, ◌≡◌, refl, ◌∙◌, Bool, true, inl, inr, some, List, [], ◌∷◌, arith,
  if◌then◌else◌, Str, str_eq, Bool-cases,
}
use rateforge.Base.Int.{pos_part, ◌≤ℤ◌}
use rateforge.Time.{Time, is_zero}
use rateforge.Agenda.{Agenda}
use rateforge.Bucket
use rateforge.Bucket.{Bucket}
use rateforge.Bucket.Valid.{IsClock}
use rateforge.Bucket.Refine.{IsValid}
use rateforge.Bucket.Bound
use rateforge.Bucket.Bound.{run_bounded}
use rateforge.Store.{
  BucketStore, AllowRequest, global_bucket_id, make_room, evict_lru_locked, get_or_create_client,
  ensure_tier, evict_oldest_ip_locked, get_or_create_ip_bucket,
}
use rateforge.Store.Serve.{
  global_gate, ip_gate, client_gate, allow, on_due, on_due_global, on_due_ip, on_due_client,
  refill_bucket,
}

-- What reaches a store while it serves: a request, with the clock's reading, and a callback.
pub data Event : Type 0 where
  arrive : Time → AllowRequest → Event
  due : Str → Time → Event

-- The time at which a request is judged.
abbrev pub judged_at : Time → AllowRequest → Time
judged_at clock req = if is_zero req.now then clock else req.now

abbrev pub time_of : Event → Time
time_of (arrive clock req) = judged_at clock req
time_of (due id t) = t

abbrev pub Until : Time → List Event → Type 0
Until end [] = Unit {0}
Until end (e ∷ events) = IsClock (time_of e) × (time_of e ≤ℤ end) × Until end events

module _ {S : Type 0} ⦃agenda : Agenda S⦄ where
  -- How many requests are allowed, and the store at the end.
  unfoldable pub run : List Event → BucketStore S → ℕ × BucketStore S
  run [] s = (0, s)
  run (arrive clock req ∷ events) s =
      let (result, s') = allow clock req s in
      let (granted, final) = run events s' in
      ((if result.allowed then granted + 1 else granted), final)
  run (due id t ∷ events) s = run events (on_due id t s).1

  global-evict_lru : (s : BucketStore S) → (evict_lru_locked s).global_bucket ≡ s.global_bucket
  unfolding evict_lru_locked
  global-evict_lru s = ground arith

  global-get_or_create_client :
      (key : Str) (now : Time) (s : BucketStore S)
      → (get_or_create_client key now s).1.global_bucket ≡ s.global_bucket
  unfolding get_or_create_client make_room
  global-get_or_create_client key now s = ground (arith, global-evict_lru s)

  global-ensure_tier :
      (tier : Str) (now : Time) (cb : _) (s : BucketStore S)
      → (ensure_tier tier now cb s).1.global_bucket ≡ s.global_bucket
  unfolding ensure_tier
  global-ensure_tier tier now cb s = ground arith

  global-client_gate :
      (req : AllowRequest) (now : Time) (s : BucketStore S)
      → (client_gate req now s).1.global_bucket ≡ s.global_bucket
  unfolding client_gate
  global-client_gate req now s = grind (arith, global-get_or_create_client, global-ensure_tier)

  global-evict_oldest_ip :
      (s : BucketStore S) → (evict_oldest_ip_locked s).global_bucket ≡ s.global_bucket
  unfolding evict_oldest_ip_locked
  global-evict_oldest_ip s = ground arith

  global-ip_gate :
      (ip : Str) (now : Time) (s : BucketStore S)
      → (ip_gate ip now s).1.global_bucket ≡ s.global_bucket
  unfolding ip_gate get_or_create_ip_bucket
  global-ip_gate ip now s = ground (arith, global-evict_oldest_ip s)

  allow-global :
      (clock : Time) (req : AllowRequest) (s : BucketStore S) (gb : Bucket)
      → s.global_bucket ≡ some gb
      → let (result, s') = allow clock req s in
        let (answer, gb') = Bucket.allow (judged_at clock req) gb in
        (s'.global_bucket ≡ some gb') × (result.allowed ≡ true → answer.0 ≡ true)
  unfolding allow global_gate
  allow-global clock req s gb e =
      let now = judged_at clock req in
      let s1 : BucketStore S = record s { global_bucket = some (Bucket.allow now gb).1 } in
      let gate : global_gate now s ≡ ((Bucket.allow now gb).0, s1) = rw e in
      let s2 = (ip_gate req.source_ip now s1).1 in
      let same : s2.global_bucket ≡ some (Bucket.allow now gb).1 =
        global-ip_gate req.source_ip now s1 in
      elim (Bool-cases (Bucket.allow now gb).0.0) [
        | inr shut ↦ rw (gate, allow, shut) (refl, λ q. q)
        | inl on ↦ elim (Bool-cases (ip_gate req.source_ip now s1).0.0) [
          | inr no_ip ↦ rw (gate, on, allow, no_ip) (same, λ q. refl)
          | inl by_ip ↦
              rw (gate, on, allow, by_ip) (global-client_gate req now s2 ∙ same, λ q. refl)
        ]
      ]

module _ {S : Type 0} where
  on_due-global :
      (id : Str) (t : Time) (s : BucketStore S) (gb : Bucket)
      → s.global_bucket ≡ some gb
      → (on_due id t s).1.global_bucket
        ≡ some (if str_eq id global_bucket_id then Bucket.scheduled_refill t gb else gb)
  unfolding on_due on_due_global on_due_ip on_due_client refill_bucket
  on_due-global id t s gb e = ground (arith, e)

-- What the global bucket sees of the events.
abbrev seen : List Event → List Bound.Event
seen [] = []
seen (arrive clock req ∷ events) = Bound.request (judged_at clock req) ∷ seen events
seen (due id t ∷ events) =
    let rest = seen events in if str_eq id global_bucket_id then Bound.refill_due t ∷ rest else rest

Until-seen : (end : Time) (events : List Event) → Until end events → Bound.Until end (seen events)
Until-seen end [] u = tt
Until-seen end (arrive clock req ∷ events) u = (u.0, u.1, Until-seen end events u.2)
Until-seen end (due id t ∷ events) u = elim (Bool-cases (str_eq id global_bucket_id)) [
  | inl e ↦ rw e (u.0, u.1, Until-seen end events u.2)
  | inr e ↦ rw e (Until-seen end events u.2)
]

count_le :
    (a b : Bool) (m n : ℕ)
    → (a ≡ true → b ≡ true)
    → m ≤ n
    → (if a then m + 1 else m) ≤ (if b then n + 1 else n)
count_le a b m n h l = ground arith

module _ {S : Type 0} ⦃agenda : Agenda S⦄ where
  run-seen :
      (events : List Event) (s : BucketStore S) (gb : Bucket)
      → s.global_bucket ≡ some gb
      → (run events s).0 ≤ (Bound.run (seen events) gb).0
  unfolding run Bound.run
  run-seen [] s gb e = omega arith
  run-seen (arrive clock req ∷ events) s gb e =
      let (same, granted) = allow-global clock req s gb e in
      count_le _ _ _ _ granted (run-seen events (allow clock req s).1 _ same)
  run-seen (due id t ∷ events) s gb e =
      let same = on_due-global id t s gb e in
      elim (Bool-cases (str_eq id global_bucket_id)) [
        | inl q ↦
            rw q (run-seen events (on_due id t s).1 (Bucket.scheduled_refill t gb) (same ∙ rw q))
        | inr q ↦ rw q (run-seen events (on_due id t s).1 gb (same ∙ rw q))
      ]

  -- For a store with a valid global bucket, and requests and scheduler callbacks in any order, each
  -- at a clock reading no later than `end`, from whatever clients and addresses: the requests
  -- allowed cost at most the tokens of the global bucket at the start and its RefillRate for each
  -- whole interval since its last refill.
  pub run_globally_bounded :
      (end : Time) (events : List Event) (s : BucketStore S) (gb : Bucket)
      → s.global_bucket ≡ some gb
      → IsValid gb
      → Until end events
      → (run events s).0 * pos_part gb.config.tokens_per_request
        ≤ pos_part gb.tokens
          + (pos_part end - pos_part gb.last_refill_time)
            / pos_part gb.config.refill_interval
            * pos_part gb.config.refill_rate
  run_globally_bounded end events s gb e v u =
      le_trans (mul-le-mul_right (pos_part gb.config.tokens_per_request) (run-seen events s gb e))
        (run_bounded end (seen events) gb v (Until-seen end events u)).0
