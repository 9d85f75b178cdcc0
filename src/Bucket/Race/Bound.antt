-- ===== src/Bucket/Race/Bound.antt =====
-- What interleaved calls can be granted together.
use native.Mathlib.Nat.{div-mul-le_self, mul-le-mul_left, le_trans, div-zero}
use mathlib.Core.Option.{some-injective}
use rateforge.Base.{
  ◌⊎◌, subst, ℕ, zero, suc, ◌+◌, ◌-◌, ◌*◌, ◌/◌, ◌^◌, ◌≤◌, ◌<◌, ◌≡◌, refl, true, false, inl, inr,
  arith, some, List, [], ◌∷◌, get_elem?, set, All,
}
use rateforge.Base.Int.{pos, pos_part, ◌≤ℤ◌, InRange}
use rateforge.Time.{Time}
use rateforge.Bucket.{BucketConfig, Bucket, block, unblock}
use rateforge.Bucket.Valid.{IsClock, IsTame}
use rateforge.Bucket.Refine.{IsValid}
use rateforge.Bucket.Race.{
  Call, System, Step, Reach, advance, granted, request, refill, access, blocks, unblocks, start,
  later, returned,
}
use rateforge.Bucket.Race.Cover.{debt, Fits}
use rateforge.Bucket.Race.Advance.{advance-Covers}

-- The debts of all calls.
abbrev owed : ℕ → List Call → ℕ
owed n [] = 0
owed n (c ∷ calls) = debt n c + owed n calls

granted-owed : (n : ℕ) (calls : List Call) → granted calls * n ≤ owed n calls
granted-owed n [] = omega arith
granted-owed n (returned (true, wait) ∷ calls) = omega (arith, granted-owed n calls)
granted-owed n (returned (false, wait) ∷ calls) = omega (arith, granted-owed n calls)
granted-owed n (c ∷ calls) = omega (arith, granted-owed n calls)

owed-set :
    (n : ℕ) (calls : List Call) (i : ℕ) (c d : Call)
    → get_elem? calls i ≡ some c
    → owed n (set calls i d) + debt n c ≡ owed n calls + debt n d
owed-set n [] i c d e = cc
owed-set n (b ∷ calls) zero c d e = ground (arith)
owed-set n (b ∷ calls) (suc i) c d e = omega (arith, owed-set n calls i c d e)

debt-le-owed :
    (n : ℕ) (calls : List Call) (i : ℕ) (c : Call)
    → get_elem? calls i ≡ some c
    → debt n c ≤ owed n calls
debt-le-owed n [] i c e = cc
debt-le-owed n (b ∷ calls) zero c e = ground arith
debt-le-owed n (b ∷ calls) (suc i) c e = omega (arith, debt-le-owed n calls i c e)

module _ {ℓ κ} {A : Type ℓ} (P : A → Type κ) where
  All-get_elem? : (xs : List A) (i : ℕ) (a : A) → All P xs → get_elem? xs i ≡ some a → P a
  All-get_elem? [] i a h e = cc
  All-get_elem? (x ∷ xs) zero a h e = subst P (some-injective x a e) h.0
  All-get_elem? (x ∷ xs) (suc i) a h e = All-get_elem? xs i a h.1 e

  All-set : (xs : List A) (i : ℕ) (a : A) → All P xs → P a → All P (set xs i a)
  All-set [] i a h p = tt
  All-set (x ∷ xs) zero a h p = (p, h.1)
  All-set (x ∷ xs) (suc i) a h p = (h.0, All-set xs i a h.1 p)

-- The bucket and all its calls are covered together.
record IsSound (end : Time) (cfg : BucketConfig) (total : ℕ) (s : System) : Type 0 where
  config : s.bucket.config ≡ cfg
  level : pos 0 ≤ℤ s.bucket.tokens
  clock : IsClock s.bucket.last_refill_time
  fits : All (Fits end cfg) s.calls
  bound :
      owed (pos_part cfg.tokens_per_request) s.calls
        + pos_part s.bucket.tokens
        + (pos_part end - pos_part s.bucket.last_refill_time)
          / pos_part cfg.refill_interval
          * pos_part cfg.refill_rate
      ≤ total

module _ (end : Time) (cfg : BucketConfig) (tame : IsTame cfg)
    (cost : (pos 1 ≤ℤ cfg.tokens_per_request) × InRange cfg.tokens_per_request) (total : ℕ)
    (small : total < 2 ^ 63) where
  access-IsSound :
      (s : System) (i : ℕ) (c : Call)
      → get_elem? s.calls i ≡ some c
      → IsSound end cfg total s
      → IsSound end cfg total
          (record { bucket = (advance c s.bucket).1; calls = set s.calls i (advance c s.bucket).0 })
  access-IsSound s i c e v =
      let n = pos_part cfg.tokens_per_request in
      let (d, b) = advance c s.bucket in
      let others = owed n s.calls - debt n c in
      let counted = owed-set n s.calls i c d e in
      let mine : debt n c ≤ owed n s.calls = debt-le-owed n s.calls i c e in
      let w = advance-Covers end cfg tame cost (total - others) (omega arith) c s.bucket (record {
        config = v.config;
        level = v.level;
        clock = v.clock;
        fits = All-get_elem? (Fits end cfg) s.calls i c v.fits e;
        bound = omega (arith, v.bound, mine);
      }) in
      record {
        config = w.config;
        level = w.level;
        clock = w.clock;
        fits = All-set (Fits end cfg) s.calls i d v.fits w.fits;
        bound = omega (arith, w.bound, v.bound, counted, mine);
      }

  Step-IsSound : {s t : System} → Step end s t → IsSound end cfg total s → IsSound end cfg total t
  unfolding block unblock
  Step-IsSound {s} (access i c e) v = access-IsSound s i c e v
  Step-IsSound (request now h) v = record {
    config = v.config;
    level = v.level;
    clock = v.clock;
    fits = (h, v.fits);
    bound = omega (arith, v.bound);
  }
  Step-IsSound (refill now h) v = record {
    config = v.config;
    level = v.level;
    clock = v.clock;
    fits = (h, v.fits);
    bound = omega (arith, v.bound);
  }
  Step-IsSound blocks v = record {
    config = v.config;
    level = v.level;
    clock = v.clock;
    fits = v.fits;
    bound = v.bound;
  }
  Step-IsSound unblocks v = record {
    config = v.config;
    level = v.level;
    clock = v.clock;
    fits = v.fits;
    bound = v.bound;
  }

  Reach-IsSound :
      {b : Bucket} {s : System}
      → IsSound end cfg total (record { bucket = b; calls = [] })
      → Reach end b s
      → IsSound end cfg total s
  Reach-IsSound v start = v
  Reach-IsSound v (later r st) = Step-IsSound st (Reach-IsSound v r)

-- The refills of a valid bucket until a clock reading fit in 62 bits.
refills-small : (d i r : ℕ) → (r ≤ i) ⊎ (i ≡ 0) → d / i * r ≤ d
refills-small d i r (inl slow) = le_trans (mul-le-mul_left (d / i) slow) (div-mul-le_self d i)
refills-small d i r (inr off) = rw (off, div-zero d) (omega arith)

-- For a valid bucket and a clock reading `end`, and any number of calls of Allow and
-- ScheduledRefill at times until `end`, with every interleaving of their accesses to the bucket's
-- atomics, and Block and Unblock between any two of them: at every moment the requests allowed so
-- far cost, with the tokens then left, at most the tokens at the start and RefillRate for each
-- whole interval since the last refill.
pub Reach-bounded :
    (end : Time) (b : Bucket) (s : System)
    → IsValid b
    → IsClock end
    → Reach end b s
    → granted s.calls * pos_part b.config.tokens_per_request + pos_part s.bucket.tokens
      ≤ pos_part b.tokens
        + (pos_part end - pos_part b.last_refill_time)
          / pos_part b.config.refill_interval
          * pos_part b.config.refill_rate
Reach-bounded end b s v c r =
    let cfg = b.config in
    let n = pos_part cfg.tokens_per_request in
    let d = pos_part end - pos_part b.last_refill_time in
    let few =
      refills-small d (pos_part cfg.refill_interval) (pos_part cfg.refill_rate)
        (ground (arith, v.tame.pace, v.tame.rate)) in
    let total = pos_part b.tokens + d / pos_part cfg.refill_interval * pos_part cfg.refill_rate in
    let w =
      Reach-IsSound end cfg v.tame v.cost total (ground (arith, few, v.level, v.tame.cap, c))
        (record {
          config = refl;
          level = v.level.0;
          clock = v.clock;
          fits = tt;
          bound = omega arith;
        })
        r in
    omega (arith, w.bound, granted-owed n s.calls)
