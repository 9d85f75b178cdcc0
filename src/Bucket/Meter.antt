-- ===== src/Bucket/Meter.antt =====
-- What a token bucket promises, over natural numbers: `level` tokens under a `cap`, to which `rate`
-- tokens are added at the end of each `interval` counted from `since`. Interval 0 means no refill.
use native.Mathlib.Nat.{add-mul-div_right, div-mul-le_self, div-zero}
use rateforge.Base.{
  ℕ, zero, suc, ◌+◌, ◌-◌, ◌*◌, ◌/◌, ◌≤◌, ◌≡◌, ap, ap₂, Bool, true, false, arith, ltb, le→ltb_false,
  min, if◌then◌else◌,
}

pub record Meter : Type 0 where
  pub cap : ℕ
  pub rate : ℕ
  pub interval : ℕ
  pub level : ℕ
  pub since : ℕ

-- The whole intervals since the last refill.
abbrev pub elapsed : ℕ → Meter → ℕ
elapsed now m = (now - m.since) / m.interval

unfoldable pub refill : ℕ → Meter → Meter
refill now m = record m {
  level = min m.cap (m.level + elapsed now m * m.rate);
  since = m.since + elapsed now m * m.interval;
}

-- Counting intervals up to `a`, and then those up to `b`, counts them all.
pub div_split : (s a b i : ℕ) → a ≤ b → (a - s) / i + (b - (s + (a - s) / i * i)) / i ≡ (b - s) / i
div_split s a b zero h = simp div-zero
div_split s a b (suc i) h =
    let k = (a - s) / suc i in
    let used = div-mul-le_self (a - s) (suc i) in
    let whole : b - s ≡ b - (s + k * suc i) + k * suc i = omega arith in
    let split = add-mul-div_right (b - (s + k * suc i)) k {z = suc i} (omega arith) in
    omega (arith, ap (λ (t : ℕ). t / suc i) whole, split)

capped_twice :
    (cap l r k j n : ℕ) → k + j ≡ n → min cap (min cap (l + k * r) + j * r) ≡ min cap (l + n * r)
capped_twice cap l r k j n e = rw (← e) (omega arith)

-- A refill on the way changes nothing: what a later refill gives depends only on its own time.
pub refill-refill :
    (m : Meter) (now later : ℕ) → now ≤ later → refill later (refill now m) ≡ refill later m
unfolding refill
refill-refill m now later h =
    let all = div_split m.since now later m.interval h in
    ap₂ (λ (l s : ℕ). record m { level = l; since = s })
      (capped_twice m.cap m.level m.rate _ _ _ all)
      (omega (arith, ap (λ (t : ℕ). t * m.interval) all))

-- A request of `cost` tokens: a blocked meter refuses and stays as it is; otherwise it is refilled,
-- and grants the request if it holds the tokens and the second gate agrees.
unfoldable pub serve : ℕ → ℕ → Bool → Bool → Meter → Bool × Meter
serve now cost blocked gate m =
    let full = refill now m in
    if blocked
    then (false, m)
    else if ltb full.level cost
    then (false, full)
    else (if gate then (true, record full { level = full.level - cost }) else (false, full))

-- With the tokens at hand the second gate decides.
pub serve-paid :
    (now cost l : ℕ) (blocked gate : Bool) (m : Meter)
    → blocked ≡ false
    → l + cost ≡ (refill now m).level
    → serve now cost blocked gate m
      ≡ (gate, record (refill now m) { level = if gate then l else l + cost })
unfolding serve
serve-paid now cost l blocked true m e h =
    rw (e, ← h, le→ltb_false cost (l + cost) (omega arith))
      (ap (λ (t : ℕ). (true, record (refill now m) { level = t })) (omega arith))
serve-paid now cost l blocked false m e h = rw (e, ← h, le→ltb_false cost (l + cost) (omega arith))

-- All that a meter can still give out until `end`.
abbrev pub supply : ℕ → Meter → ℕ
supply end m = m.level + elapsed end m * m.rate

pub supply-refill : (end now : ℕ) (m : Meter) → now ≤ end → supply end (refill now m) ≤ supply end m
unfolding refill
supply-refill end now m h =
    let all = div_split m.since now end m.interval h in
    omega (arith, ap (λ (t : ℕ). t * m.rate) all)

-- What is granted is taken from the supply.
pub supply-serve :
    (end now cost : ℕ) (blocked gate : Bool) (m : Meter)
    → now ≤ end
    → let (granted, m') = serve now cost blocked gate m in
      (if granted then cost else 0) + supply end m' ≤ supply end m
unfolding serve
supply-serve end now cost blocked gate m h = ground (arith, supply-refill end now m h)
