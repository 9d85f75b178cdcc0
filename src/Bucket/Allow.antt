-- ===== src/Bucket/Allow.antt =====
-- `Allow` on a valid bucket: its decision, the balance after it, and the wait that it tells.
use native.Mathlib.Decide.{dec_lt}
use rateforge.Base.{
  ℕ, ◌+◌, ◌-◌, ◌^◌, ◌≤◌, ◌<◌, ◌≡◌, ◌∙◌, ap, ap₂, sym, refl, Bool, true, false, inl, inr, arith,
  lt→ltb, le→ltb_false, if◌then◌else◌, Option, none, some, Bool-cases,
}
use rateforge.Base.Int.{pos, pos_part, ◌≤ℤ◌, pos_of_nonneg, sub64-pos, add64-pos}
use rateforge.Time.{Time, Duration, unix_nano}
use rateforge.Window
use rateforge.Window.Valid
use rateforge.Window.{WindowConfig, SlidingWindow}
use rateforge.Bucket.{
  Bucket, request_cost, check_window, refreshed, scheduled_refill, allow, retry_after,
}
use rateforge.Bucket.Meter.{Meter, refill, serve, serve-paid}
use rateforge.Bucket.Valid.{IsClock}
use rateforge.Bucket.Refine.{
  view, IsValid, WindowIsValid, topped, topped-IsValid, topped-topped, refreshed_refines,
  scheduled_refill_refines,
}

-- Whether the window, if there is one, lets the request pass.
abbrev pub gate : Time → Option SlidingWindow → Bool
gate now none = true
gate now (some w) = elim (Window.allow now w).0 [ none ↦ false | some granted ↦ granted ]

-- The outcome of the second gate once `n` tokens are taken, which left `t`: they are given back
-- exactly on a refusal.
record Gated (now : Time) (n t : ℕ) (b : Bucket) (r : (Bool × Duration) × Bucket) : Type 0 where
  answer : r.0.0 ≡ gate now b.window
  level : r.1.tokens ≡ (if gate now b.window then pos t else pos (t + n))
  since : r.1.last_refill_time ≡ b.last_refill_time
  config : r.1.config ≡ b.config
  blocked : r.1.blocked ≡ b.blocked
  valid : WindowIsValid r.1.window

check_window-Gated :
    (now : Time) (n t : ℕ) (b : Bucket) (o : Option SlidingWindow)
    → b.window ≡ o
    → WindowIsValid o
    → b.tokens ≡ pos t
    → t + n < 2 ^ 63
    → Gated now n t b (check_window now (pos n) b)
unfolding check_window
check_window-Gated now n t b none eo v e h = rw eo (ground arith)
check_window-Gated now n t b (some w) eo v e h =
    ground (arith, Valid.allow-IsValid now w v, add64-pos t n h)

request_cost_pos :
    (b : Bucket) → IsValid b → request_cost b.config ≡ pos (pos_part b.config.tokens_per_request)
unfolding request_cost
request_cost_pos b v = ground (arith, v.cost, pos_of_nonneg b.config.tokens_per_request)

-- The bucket as Allow finds it at `now`.
abbrev pub found : Time → Bucket → Bucket
found now b = record (topped now b) { last_access_time = unix_nano now }

abbrev pub cost : Bucket → ℕ
cost b = pos_part b.config.tokens_per_request

-- The balance that Allow finds at `now`.
abbrev pub balance : Time → Bucket → ℕ
balance now b = (refill (pos_part now) (view b)).level

pub allow-blocked : (now : Time) (b : Bucket) → b.blocked ≡ true → allow now b ≡ ((false, pos 0), b)
unfolding allow
allow-blocked now b e = rw e

module _ (now : Time) (b : Bucket) (v : IsValid b) (c : IsClock now) (e : b.blocked ≡ false) where
  pub allow-short :
      balance now b < cost b
      → allow now b
        ≡ ((false, retry_after b.config (pos (cost b)) (pos (balance now b))), found now b)
  unfolding allow
  allow-short h = rw (
    request_cost_pos b v,
    refreshed_refines now b v c,
    lt→ltb (balance now b + 0) (cost b + 0) (omega arith),
    e,
  )

  pub allow-paid :
      cost b ≤ balance now b
      → allow now b
        ≡ check_window now
            (pos (cost b))
            (record (found now b) { tokens = pos (balance now b - cost b) })
  unfolding allow
  allow-paid h =
      let t = topped-IsValid now b v c in
      rw (
        request_cost_pos b v,
        refreshed_refines now b v c,
        le→ltb_false (cost b + 0) (balance now b + 0) (omega arith),
        sub64-pos (balance now b) (cost b) h (omega (arith, t.level, v.tame.cap)),
        e,
      )

found-IsValid : (now : Time) (b : Bucket) → IsValid b → IsClock now → IsValid (found now b)
found-IsValid now b v c =
    let t = topped-IsValid now b v c in
    record {
      tame = t.tame;
      cost = t.cost;
      level = t.level;
      clock = t.clock;
      gate = t.gate;
      fine = t.fine;
    }

-- What the second gate leaves of a valid bucket that has paid.
module _ (now : Time) (b : Bucket) (v : IsValid b) (n l s : ℕ) (r : (Bool × Duration) × Bucket)
    (el : b.tokens ≡ pos (l + n)) (es : b.last_refill_time ≡ pos s)
    (g : Gated now n l (record b { tokens = pos l }) r) where
  Gated-IsValid : IsValid r.1
  Gated-IsValid = record {
    tame = rw g.config v.tame;
    cost = rw g.config v.cost;
    level = ground (arith, v.level, g.level, g.config);
    clock = rw g.since v.clock;
    gate = g.valid;
    fine = rw g.config v.fine;
  }

  Gated-view :
      view r.1 ≡ record (view b) { level = if gate now b.window then l else l + n; since = s }
  Gated-view = ground (arith, g.level, g.config, g.since)

-- On a valid bucket at a clock reading Allow decides as the abstract meter does, given the block
-- and what the window answers; it leaves the balance and the refill time that the meter has, and a
-- valid bucket.
pub allow_refines :
    (now : Time) (b : Bucket)
    → IsValid b
    → IsClock now
    → let (answer, b') = allow now b in
      let n = pos_part b.config.tokens_per_request in
      ((answer.0, view b') ≡ serve (pos_part now) n b.blocked (gate now b.window) (view b))
      × IsValid b'
unfolding serve refill
allow_refines now b v c = elim (Bool-cases b.blocked) [
  | inl off ↦ (rw (allow-blocked now b off, off), rw (allow-blocked now b off) v)
  | inr on ↦ elim (dec_lt (balance now b) (cost b)) [
    | yes short ↦
        let run = allow-short now b v c on short in
        (rw (run, on, lt→ltb (balance now b) (cost b) short), rw run (found-IsValid now b v c))
    | no paid ↦
        let run = allow-paid now b v c on (omega arith) in
        let l = balance now b - cost b in
        let start = found-IsValid now b v c in
        let fits : l + cost b < 2 ^ 63 = omega (arith, start.level, start.tame.cap) in
        let g =
          check_window-Gated now (cost b) l (record (found now b) { tokens = pos l }) b.window refl
            v.gate refl fits in
        let whole : (found now b).tokens ≡ pos (l + cost b) = ap pos (omega arith) in
        let seen = Gated-view now (found now b) start (cost b) l _ _ whole refl g in
        (
          ap (λ (r : (Bool × Duration) × Bucket). pair r.0.0 (view r.1)) run
              ∙ ap₂ pair g.answer seen
              ∙ sym (
                  serve-paid (pos_part now) (cost b) l b.blocked (gate now b.window) (view b) on
                    (omega arith)),
          rw run (Gated-IsValid now (found now b) start (cost b) l _ _ whole refl g),
        )
  ]
]
  where
    pair : Bool → Meter → Bool × Meter
    pair a m = (a, m)

-- Allow looks at a bucket through its configuration, its block and its refreshed state only.
allow-refreshed :
    (now : Time) (x y : Bucket)
    → x.config ≡ y.config
    → x.blocked ≡ y.blocked
    → y.blocked ≡ false
    → refreshed now x ≡ refreshed now y
    → allow now x ≡ allow now y
unfolding allow
allow-refreshed now x y c k e r = cc

-- On a valid bucket a scheduled refill at a clock reading changes no answer of Allow at the same or
-- a later one, and unless the bucket is blocked not the bucket after it either.
pub allow-scheduled_refill :
    (now later : Time) (b : Bucket)
    → IsValid b
    → IsClock now
    → IsClock later
    → now ≤ℤ later
    → ((allow later (scheduled_refill now b)).0 ≡ (allow later b).0)
      × (b.blocked ≡ false → allow later (scheduled_refill now b) ≡ allow later b)
allow-scheduled_refill now later b v c d h =
    let same : refreshed later (scheduled_refill now b) ≡ refreshed later b =
      rw
        (
          scheduled_refill_refines now b v c,
          refreshed_refines later (topped now b) (topped-IsValid now b v c) d,
          refreshed_refines later b v d,
        )
        (ap (λ (t : Bucket). record t { last_access_time = unix_nano later })
          (topped-topped now later b c.0 h)) in
    let sched = scheduled_refill_refines now b v c in
    let whole : b.blocked ≡ false → allow later (scheduled_refill now b) ≡ allow later b = λ e.
      allow-refreshed later (scheduled_refill now b) b (ap (λ (t : Bucket). t.config) sched)
        (ap (λ (t : Bucket). t.blocked) sched) e same in
    elim (Bool-cases b.blocked) [
      | inl off ↦
          let off' = ap (λ (t : Bucket). t.blocked) sched ∙ off in
          (rw (allow-blocked later b off, allow-blocked later (scheduled_refill now b) off'), whole)
      | inr on ↦ (ap (λ (r : (Bool × Duration) × Bucket). r.0) (whole on), whole)
    ]
