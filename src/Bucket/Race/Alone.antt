-- ===== src/Bucket/Race/Alone.antt =====
-- A call that is not disturbed: its accesses together are the method as a whole.
use rateforge.Base.{
  ℕ, zero, suc, ◌≤◌, ◌≡◌, ◌∙◌, refl, ap, subst, Bool, true, false, inl, inr, Option, none, some,
  arith, if◌then◌else◌, Bool-cases, Option-cases,
}
use rateforge.Base.Int.{ℤ, pos, ltb_ℤ, leb_ℤ, eq_ℤ, sub64, div64, mul64, add64}
use rateforge.Time.{Time, Duration, unix_nano, sub_time, add_time}
use rateforge.Window
use rateforge.Window.{SlidingWindow}
use rateforge.Bucket.{
  BucketConfig, Bucket, request_cost, retry_after, lazy_refill, check_window, refreshed, allow,
  scheduled_refill,
}
use rateforge.Bucket.Allow.{allow-blocked}
use rateforge.Bucket.Race.{
  Call, Purpose, advance, entering, reading, due, measuring, claiming, adding, storing, touching,
  weighing, paying, gating, returned, finished, refilled, for_request, for_schedule,
}

-- So many accesses of one call in a row.
abbrev pub iterate : ℕ → Call → Bucket → Call × Bucket
iterate zero c b = (c, b)
iterate (suc k) c b = iterate k (advance c b).0 (advance c b).1

-- The call comes there by at most `m` accesses.
abbrev pub Runs : ℕ → Call → Bucket → Call × Bucket → Type 0
Runs m c b r = (k : ℕ) × (k ≤ m) × (iterate k c b ≡ r)

Runs-next :
    (m : ℕ) (c : Call) (b : Bucket) (c' : Call) (b' : Bucket) (r : Call × Bucket)
    → advance c b ≡ (c', b')
    → Runs m c' b' r
    → Runs (suc m) c b r
Runs-next m c b c' b' r e (k, h, f) =
    (suc k, omega arith, ap (λ (x : Call × Bucket). iterate k x.0 x.1) e ∙ f)

Runs-more :
    (m n : ℕ) (c : Call) (b : Bucket) (r : Call × Bucket) → m ≤ n → Runs m c b r → Runs n c b r
Runs-more m n c b r h (k, l, e) = (k, omega arith, e)

eq_ℤ_refl : (z : ℤ) → eq_ℤ z z ≡ true
eq_ℤ_refl z = ground arith

-- The window and the refund.
gating-Runs :
    (now : Time) (b : Bucket) (o : Option SlidingWindow)
    → b.window ≡ o
    → Runs 2
        (gating now b.config)
        b
        (let (answer, b') = check_window now (request_cost b.config) b in (returned answer, b'))
unfolding check_window advance
gating-Runs now b none e = (1, omega arith, rw e refl)
gating-Runs now b (some w) e = elim (Option-cases (Window.allow now w).0) [
  | inl none_said ↦ (1, omega arith, ground arith)
  | inr (true, said) ↦ (1, omega arith, ground arith)
  | inr (false, said) ↦ (2, omega arith, ground arith)
]

-- The balance, the payment and what follows.
abbrev Outcome : Type 0
Outcome = (Bool × Duration) × Bucket

abbrev settled : Time → Bucket → Outcome
settled now b =
    let n = request_cost b.config in
    if ltb_ℤ b.tokens n
    then ((false, retry_after b.config n b.tokens), b)
    else check_window now n (record b { tokens = sub64 b.tokens n })

weighing-Runs :
    (now : Time) (b : Bucket)
    → Runs 4 (weighing now b.config) b (let (answer, b') = settled now b in (returned answer, b'))
unfolding advance
weighing-Runs now b = elim (Bool-cases (ltb_ℤ b.tokens (request_cost b.config))) [
  | inl short ↦ (1, omega arith, ground arith)
  | inr enough ↦
      let n = request_cost b.config in
      let paid = record b { tokens = sub64 b.tokens n } in
      let paying_now : advance (weighing now b.config) b ≡ (paying now b.config b.tokens, b) =
        ground arith in
      let won : advance (paying now b.config b.tokens) b ≡ (gating now b.config, paid) =
        ground (arith, eq_ℤ_refl b.tokens) in
      let rest = gating-Runs now paid b.window refl in
      simp enough (
        Runs-next 3 (weighing now b.config) b _ b _ paying_now
          (Runs-next 2 (paying now b.config b.tokens) b _ paid _ won rest))
]

-- The refill and what follows it.
measuring-Runs :
    (m : ℕ) (p : Purpose) (now : Time) (b : Bucket) (r : Call × Bucket)
    → Runs m (refilled p now b.config) (lazy_refill now b.config b) r
    → Runs (suc (suc (suc (suc m)))) (measuring p now b.config) b r
unfolding lazy_refill advance
measuring-Runs m p now b r rest =
    let cfg = b.config in
    let k = div64 (sub_time now b.last_refill_time) cfg.refill_interval in
    elim (Bool-cases (leb_ℤ k (pos 0))) [
      | inl idle ↦
          let none_over : advance (measuring p now cfg) b ≡ (refilled p now cfg, b) =
            ground arith in
          Runs-more (suc m) _ (measuring p now cfg) b r (omega arith)
            (Runs-next m (measuring p now cfg) b _ b r none_over (simp idle at rest))
      | inr over ↦
          let last = b.last_refill_time in
          let amount = mul64 k cfg.refill_rate in
          let sum = add64 b.tokens amount in
          let updated : ℤ = if ltb_ℤ cfg.max_tokens sum then cfg.max_tokens else sum in
          let new_last = unix_nano (add_time last (mul64 k cfg.refill_interval)) in
          let claimed = record b { last_refill_time = new_last } in
          let refreshed = record claimed { tokens = updated } in
          let measured : advance (measuring p now cfg) b ≡ (claiming p now cfg last k, b) =
            ground arith in
          let won : advance (claiming p now cfg last k) b ≡ (adding p now cfg amount, claimed) =
            ground (arith, eq_ℤ_refl last) in
          let stored : advance (storing p now cfg amount b.tokens updated) claimed
              ≡ (refilled p now cfg, refreshed) =
            ground (arith, eq_ℤ_refl b.tokens) in
          let whole : lazy_refill now cfg b ≡ refreshed = simp over refl in
          let end = subst (λ x. Runs m (refilled p now cfg) x r) whole rest in
          Runs-next _ (measuring p now cfg) b _ b r measured (
            Runs-next _ (claiming p now cfg last k) b _ claimed r won (
              Runs-next _ (adding p now cfg amount) claimed _ claimed r refl (
                Runs-next _ (storing p now cfg amount b.tokens updated) claimed _ refreshed r stored
                  end)))
    ]

touching-Runs :
    (now : Time) (b : Bucket)
    → Runs 5 (touching now b.config) b (
        let (answer, b') = settled now (record b { last_access_time = unix_nano now }) in
        (returned answer, b'))
unfolding advance
touching-Runs now b =
    let seen = record b { last_access_time = unix_nano now } in
    Runs-next 4 (touching now b.config) b _ seen _ refl (weighing-Runs now seen)

config-lazy_refill :
    (now : Time) (c : BucketConfig) (b : Bucket) → (lazy_refill now c b).config ≡ b.config
unfolding lazy_refill
config-lazy_refill now c b = ground arith

config-refreshed : (now : Time) (b : Bucket) → (refreshed now b).config ≡ b.config
unfolding refreshed
config-refreshed now b = ground (arith, config-lazy_refill now b.config b)

allow-settled :
    (now : Time) (b : Bucket) → b.blocked ≡ false → allow now b ≡ settled now (refreshed now b)
unfolding allow
allow-settled now b e = simp (e, config-refreshed now b) refl

-- From the load of the configuration on.
reading-Runs :
    (now : Time) (b : Bucket)
    → Runs 10
        (reading now)
        b
        (let (answer, b') = settled now (refreshed now b) in (returned answer, b'))
unfolding advance refreshed refilled
reading-Runs now b = elim (Bool-cases (ltb_ℤ (pos 0) b.config.refill_interval)) [
  | inl on ↦
      let plan : advance (reading now) b ≡ (measuring for_request now b.config, b) = ground arith in
      let refilled_b = lazy_refill now b.config b in
      let rest =
        subst
          (λ (c : BucketConfig).
            Runs 5 (touching now c) refilled_b
              (ending (record refilled_b { last_access_time = unix_nano now })))
          (config-lazy_refill now b.config b) (touching-Runs now refilled_b) in
      simp on (Runs-next 9 (reading now) b _ b _ plan (measuring-Runs 5 for_request now b _ rest))
  | inr off ↦
      let plan : advance (reading now) b ≡ (touching now b.config, b) = ground arith in
      simp off (
        Runs-more 6 10 (reading now) b _ (omega arith)
          (Runs-next 5 (reading now) b _ b _ plan (touching-Runs now b)))
]
  where
    ending : Bucket → Call × Bucket
    ending fresh = let (answer, b') = settled now fresh in (returned answer, b')

allow-Runs :
    (now : Time) (b : Bucket)
    → Runs 11 (entering now) b (let (answer, b') = allow now b in (returned answer, b'))
unfolding advance
allow-Runs now b = elim (Bool-cases b.blocked) [
  | inl on ↦ (1, omega arith, ground (arith, allow-blocked now b on))
  | inr off ↦
      let passed : advance (entering now) b ≡ (reading now, b) = ground arith in
      simp (allow-settled now b off)
        (Runs-next 10 (entering now) b _ b _ passed (reading-Runs now b))
]

scheduled_refill-Runs :
    (now : Time) (b : Bucket) → Runs 5 (due now) b (finished, scheduled_refill now b)
unfolding scheduled_refill advance refilled
scheduled_refill-Runs now b = elim (Bool-cases (leb_ℤ b.config.refill_interval (pos 0))) [
  | inl off ↦ (1, omega arith, ground arith)
  | inr on ↦
      let plan : advance (due now) b ≡ (measuring for_schedule now b.config, b) = ground arith in
      simp on (
        Runs-next 4 (due now) b _ b _ plan
          (measuring-Runs 0 for_schedule now b _ (0, omega arith, refl)))
]

-- Allow, where no other call comes between, ends after at most eleven accesses to the atomics, with
-- the answer and the bucket of the method as a whole; ScheduledRefill does after at most five.
pub iterate-allow :
    (now : Time) (b : Bucket)
    → Runs 11 (entering now) b (let (answer, b') = allow now b in (returned answer, b'))
      × Runs 5 (due now) b (finished, scheduled_refill now b)
iterate-allow now b = (allow-Runs now b, scheduled_refill-Runs now b)
