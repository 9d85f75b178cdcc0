-- ===== src/Server/Admin/Merged.antt =====
-- What a request for a new configuration says of each field, without the code that merges it.
use rateforge.Base.{◌≡◌, refl, sym, ◌∙◌, inl, inr, Option, none, some, Bool-cases, arith}
use rateforge.Base.Int.{ℤ, pos, mul64, leb_ℤ, ◌≤ℤ◌, ◌<ℤ◌}
use rateforge.Time.{millisecond}
use rateforge.Bucket
use rateforge.Bucket.{BucketConfig}
use rateforge.Server.Admin.{UpdateConfigRequest, or_else, merge}

-- The value that a field may carry, or the standing one.
abbrev pub Takes : Option ℤ → ℤ → ℤ → Type 0
Takes none standing v = v ≡ standing
Takes (some asked) standing v = v ≡ asked

-- The same of a field in milliseconds, for a duration in nanoseconds.
abbrev pub TakesMillis : Option ℤ → ℤ → ℤ → Type 0
TakesMillis none standing v = v ≡ standing
TakesMillis (some ms) standing v = v ≡ mul64 ms millisecond

-- Field by field, what is to stand after a request.
pub record Merged (req : UpdateConfigRequest) (before after : BucketConfig) : Type 0 where
  pub capacity : Takes req.max_tokens before.max_tokens after.max_tokens
  pub rate : Takes req.refill_rate before.refill_rate after.refill_rate
  pub interval : TakesMillis req.refill_interval_ms before.refill_interval after.refill_interval
  pub cost :
      pos 0 <ℤ before.tokens_per_request → after.tokens_per_request ≡ before.tokens_per_request
  pub least : before.tokens_per_request ≤ℤ pos 0 → after.tokens_per_request ≡ pos 1
  pub window : after.sliding_window ≡ before.sliding_window

or_else-Takes : (o : Option ℤ) (standing : ℤ) → Takes o standing (or_else o standing)
unfolding or_else
or_else-Takes none standing = refl
or_else-Takes (some asked) standing = refl

interval-TakesMillis :
    (req : UpdateConfigRequest) (before : BucketConfig)
    → TakesMillis req.refill_interval_ms before.refill_interval (merge req before).refill_interval
unfolding merge
interval-TakesMillis req before = by_millis req.refill_interval_ms before.refill_interval
  where
    by_millis :
        (o : Option ℤ) (standing : ℤ)
        → TakesMillis o standing (elim o [ none ↦ standing | some ms ↦ mul64 ms millisecond ])
    by_millis none standing = refl
    by_millis (some ms) standing = refl

pub merge-Merged :
    (req : UpdateConfigRequest) (before : BucketConfig) → Merged req before (merge req before)
unfolding merge
merge-Merged req before = record {
  capacity = or_else-Takes req.max_tokens before.max_tokens;
  rate = or_else-Takes req.refill_rate before.refill_rate;
  interval = interval-TakesMillis req before;
  cost = λ high. ground arith;
  least = λ low. ground arith;
  window = refl;
}

Takes-unique : (o : Option ℤ) (standing v w : ℤ) → Takes o standing v → Takes o standing w → v ≡ w
Takes-unique none standing v w p q = p ∙ sym q
Takes-unique (some asked) standing v w p q = p ∙ sym q

TakesMillis-unique :
    (o : Option ℤ) (standing v w : ℤ) → TakesMillis o standing v → TakesMillis o standing w → v ≡ w
TakesMillis-unique none standing v w p q = p ∙ sym q
TakesMillis-unique (some ms) standing v w p q = p ∙ sym q

cost_unique :
    (standing v w : ℤ)
    → (pos 0 <ℤ standing → v ≡ standing)
    → (standing ≤ℤ pos 0 → v ≡ pos 1)
    → (pos 0 <ℤ standing → w ≡ standing)
    → (standing ≤ℤ pos 0 → w ≡ pos 1)
    → v ≡ w
cost_unique standing v w a b c d = elim (Bool-cases (leb_ℤ standing (pos 0))) [
  | inl low ↦ b (ground arith) ∙ sym (d (ground arith))
  | inr high ↦ a (ground arith) ∙ sym (c (ground arith))
]

-- No two configurations are both what a request asks for.
pub Merged-unique :
    (req : UpdateConfigRequest) (before a b : BucketConfig)
    → Merged req before a
    → Merged req before b
    → a ≡ b
Merged-unique req before a b p q =
    let capacity =
      Takes-unique req.max_tokens before.max_tokens a.max_tokens b.max_tokens p.capacity
        q.capacity in
    let rate =
      Takes-unique req.refill_rate before.refill_rate a.refill_rate b.refill_rate p.rate q.rate in
    let interval =
      TakesMillis-unique req.refill_interval_ms before.refill_interval a.refill_interval
        b.refill_interval p.interval q.interval in
    let cost =
      cost_unique before.tokens_per_request a.tokens_per_request b.tokens_per_request p.cost p.least
        q.cost q.least in
    let window = p.window ∙ sym q.window in
    λ i. record {
      max_tokens = capacity i;
      refill_rate = rate i;
      refill_interval = interval i;
      tokens_per_request = cost i;
      sliding_window = window i;
    }

pub normalize-merge :
    (req : UpdateConfigRequest) (before : BucketConfig)
    → Bucket.normalize (merge req before) ≡ merge req before
unfolding merge Bucket.normalize
normalize-merge req before = elim (Bool-cases (leb_ℤ before.tokens_per_request (pos 0))) [
  | inl low ↦ rw low refl
  | inr high ↦ rw (high, Bucket.normalize, high) refl
]
