-- ===== src/Bucket/Race/Advance.antt =====
-- One access of one call: what is granted, held or claimed stays covered.
use rateforge.Base.{ℕ, ◌^◌, ◌<◌, sym, subst}
use rateforge.Base.Int.{pos, ◌≤ℤ◌, InRange}
use rateforge.Time.{Time}
use rateforge.Bucket.{BucketConfig, Bucket}
use rateforge.Bucket.Valid.{IsTame}
use rateforge.Bucket.Race.{
  Call, advance, entering, reading, due, measuring, claiming, adding, storing, touching, weighing,
  paying, gating, refunding, returned, finished,
}
use rateforge.Bucket.Race.Cover.{IsCovered, Covers}
use rateforge.Bucket.Race.Refill.{measure-Covers, claim-Covers, add-Covers, store-Covers}
use rateforge.Bucket.Race.Spend.{
  enter-Covers, plan_request-Covers, plan_refill-Covers, weigh-Covers, pay-Covers, ask-Covers,
  refund-Covers,
}

module _ (end : Time) (cfg : BucketConfig) (tame : IsTame cfg)
    (cost : (pos 1 ≤ℤ cfg.tokens_per_request) × InRange cfg.tokens_per_request) (total : ℕ)
    (small : total < 2 ^ 63) where
  abbrev Keeps : (BucketConfig → Call) → Bucket → BucketConfig → Type 0
  Keeps c b x = IsCovered end cfg total (c x) b → Covers end cfg total (advance (c x) b)

  -- Every access of a call keeps the bucket and the call covered.
  pub advance-Covers :
      (c : Call) (b : Bucket)
      → IsCovered end cfg total c b
      → IsCovered end cfg total (advance c b).0 (advance c b).1
  unfolding advance
  advance-Covers (entering now) b v = enter-Covers end cfg tame cost total small now b v
  advance-Covers (reading now) b v = plan_request-Covers end cfg tame cost total small now b v
  advance-Covers (due now) b v = plan_refill-Covers end cfg tame cost total small now b v
  advance-Covers (measuring p now c) b v =
      subst (Keeps (λ x. measuring p now x) b) (sym v.fits.1)
        (measure-Covers end cfg tame cost total small p now b) v
  advance-Covers (claiming p now c last k) b v =
      subst (Keeps (λ x. claiming p now x last k) b) (sym v.fits.1)
        (claim-Covers end cfg tame cost total small p now last k b) v
  advance-Covers (adding p now c amount) b v =
      subst (Keeps (λ x. adding p now x amount) b) (sym v.fits.1)
        (add-Covers end cfg tame cost total small p now amount b) v
  advance-Covers (storing p now c amount current updated) b v =
      subst (Keeps (λ x. storing p now x amount current updated) b) (sym v.fits.1)
        (store-Covers end cfg tame cost total small p now amount current updated b) v
  advance-Covers (touching now c) b v = record {
    config = v.config;
    level = v.level;
    clock = v.clock;
    fits = v.fits;
    bound = v.bound;
  }
  advance-Covers (weighing now c) b v =
      subst (Keeps (λ x. weighing now x) b) (sym v.fits.1)
        (weigh-Covers end cfg tame cost total small now b) v
  advance-Covers (paying now c current) b v =
      subst (Keeps (λ x. paying now x current) b) (sym v.fits.1)
        (pay-Covers end cfg tame cost total small now current b) v
  advance-Covers (gating now c) b v =
      subst (Keeps (λ x. gating now x) b) (sym v.fits.1)
        (ask-Covers end cfg tame cost total small now b.window b) v
  advance-Covers (refunding c) b v =
      subst (Keeps (λ x. refunding x) b) (sym v.fits)
        (refund-Covers end cfg tame cost total small b) v
  advance-Covers (returned answer) b v = v
  advance-Covers finished b v = v
