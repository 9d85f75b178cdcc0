-- ===== src/Bucket/Race/Cover.antt =====
-- What covers a bucket and one of its calls: the tokens granted, held or claimed, and those still to come.
use rateforge.Base.{ℕ, ◌+◌, ◌-◌, ◌*◌, ◌/◌, ◌≤◌, ◌≡◌, refl, arith, if◌then◌else◌}
use rateforge.Base.Int.{pos, pos_part, ◌≤ℤ◌, ◌<ℤ◌}
use rateforge.Time.{Time}
use rateforge.Bucket.{BucketConfig, Bucket}
use rateforge.Bucket.Valid.{IsClock}
use rateforge.Bucket.Race.{
  Call, Purpose, for_request, for_schedule, refilled, entering, reading, due, measuring, claiming,
  adding, storing, touching, weighing, paying, gating, refunding, returned,
}

-- The tokens that a call holds or was granted, or has claimed and still has to add.
abbrev pub debt : ℕ → Call → ℕ
debt n (adding p now cfg amount) = pos_part amount
debt n (storing p now cfg amount current updated) = pos_part amount
debt n (gating now cfg) = n
debt n (refunding cfg) = n
debt n (returned (answer, wait)) = if answer then n else 0
debt n c = 0

-- What the local variables of a call satisfy.
abbrev pub Fits : Time → BucketConfig → Call → Type 0
Fits end cfg (entering now) = IsClock now × (now ≤ℤ end)
Fits end cfg (reading now) = IsClock now × (now ≤ℤ end)
Fits end cfg (due now) = IsClock now × (now ≤ℤ end)
Fits end cfg (measuring p now c) =
    (IsClock now × (now ≤ℤ end)) × (c ≡ cfg) × (pos 0 <ℤ c.refill_interval)
Fits end cfg (claiming p now c last k) =
    (IsClock now × (now ≤ℤ end))
    × (c ≡ cfg)
    × (pos 0 <ℤ c.refill_interval)
    × IsClock last
    × (last ≤ℤ now)
    × (k ≡ pos ((pos_part now - pos_part last) / pos_part c.refill_interval))
Fits end cfg (adding p now c amount) = (IsClock now × (now ≤ℤ end)) × (c ≡ cfg) × (pos 0 ≤ℤ amount)
Fits end cfg (storing p now c amount current updated) =
    (IsClock now × (now ≤ℤ end))
    × (c ≡ cfg)
    × (pos 0 ≤ℤ amount)
    × (pos 0 ≤ℤ current)
    × (pos 0 ≤ℤ updated)
    × (pos_part updated ≤ pos_part current + pos_part amount)
Fits end cfg (touching now c) = (IsClock now × (now ≤ℤ end)) × (c ≡ cfg)
Fits end cfg (weighing now c) = (IsClock now × (now ≤ℤ end)) × (c ≡ cfg)
Fits end cfg (paying now c current) =
    (IsClock now × (now ≤ℤ end)) × (c ≡ cfg) × (c.tokens_per_request ≤ℤ current)
Fits end cfg (gating now c) = (IsClock now × (now ≤ℤ end)) × (c ≡ cfg)
Fits end cfg (refunding c) = c ≡ cfg
Fits end cfg _ = Unit {0}

-- A bucket under `cfg` whose tokens, with those of the refills until `end` and the debt of the call,
-- are at most `total`.
pub record IsCovered (end : Time) (cfg : BucketConfig) (total : ℕ) (c : Call) (b : Bucket)
    : Type 0 where
  pub config : b.config ≡ cfg
  pub level : pos 0 ≤ℤ b.tokens
  pub clock : IsClock b.last_refill_time
  pub fits : Fits end cfg c
  pub bound :
      debt (pos_part cfg.tokens_per_request) c
        + pos_part b.tokens
        + (pos_part end - pos_part b.last_refill_time)
          / pos_part cfg.refill_interval
          * pos_part cfg.refill_rate
      ≤ total

module _ (end : Time) (cfg : BucketConfig) (total : ℕ) where
  abbrev pub Covers : Call × Bucket → Type 0
  Covers r = IsCovered end cfg total r.0 r.1

  -- A step that leaves the bucket alone, and owes no more.
  pub moved :
      (c d : Call) (b : Bucket)
      → IsCovered end cfg total c b
      → Fits end cfg d
      → debt (pos_part cfg.tokens_per_request) d ≤ debt (pos_part cfg.tokens_per_request) c
      → Covers (d, b)
  moved c d b v f h = record {
    config = v.config;
    level = v.level;
    clock = v.clock;
    fits = f;
    bound = omega (arith, v.bound);
  }

  pub refilled-Fits :
      (p : Purpose) (now : Time)
      → IsClock now × (now ≤ℤ end)
      → Fits end cfg (refilled p now cfg)
        × (debt (pos_part cfg.tokens_per_request) (refilled p now cfg) ≡ 0)
  unfolding refilled
  refilled-Fits for_request now h = ((h, refl), refl)
  refilled-Fits for_schedule now h = (tt, refl)
