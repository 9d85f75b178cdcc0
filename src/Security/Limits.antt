-- ===== src/Security/Limits.antt =====
-- What ValidateBucketConfig accepts.
use rateforge.Base.{◌≡◌, none, arith, ◌↔◌, ◌⊎◌}
use rateforge.Time.{Duration, hour}
use rateforge.Base.Int.{ℤ, pos, ◌≤ℤ◌, InRange}
use rateforge.Security.{validate_bucket_config}
use rateforge.Bucket.{BucketConfig}
use rateforge.Bucket.Valid.{IsTame}

-- What an admin may set: 1 to 1000000 tokens, 0 to 100000 per refill and, where there is a refill,
-- 10 ms to one hour between refills.
pub record InLimits (max_tokens refill_rate : ℤ) (refill_interval : Duration) : Type 0 where
  pub tokens : (pos 1 ≤ℤ max_tokens) × (max_tokens ≤ℤ pos 1_000_000)
  pub rate : (pos 0 ≤ℤ refill_rate) × (refill_rate ≤ℤ pos 100_000)
  pub interval :
      (refill_rate ≤ℤ pos 0) ⊎ ((pos 10_000_000 ≤ℤ refill_interval) × (refill_interval ≤ℤ hour))

validate_bucket_config-InLimits :
    (m r : ℤ) (i : Duration) → validate_bucket_config m r i ≡ none → InLimits m r i
unfolding validate_bucket_config
validate_bucket_config-InLimits m r i h = ground arith

InLimits-validate_bucket_config :
    (m r : ℤ) (i : Duration) → InLimits m r i → validate_bucket_config m r i ≡ none
unfolding validate_bucket_config
InLimits-validate_bucket_config m r i l = ground (arith, l.interval)

-- ValidateBucketConfig accepts exactly the values in the limits.
validate_bucket_config_iff :
    (m r : ℤ) (i : Duration) → (validate_bucket_config m r i ≡ none) ↔ InLimits m r i
validate_bucket_config_iff m r i =
    (validate_bucket_config-InLimits m r i, InLimits-validate_bucket_config m r i)

-- A configuration whose values pass ValidateBucketConfig, with a RefillInterval of 64 bits, is
-- tame.
pub validate_bucket_config-IsTame :
    (cfg : BucketConfig)
    → InRange cfg.refill_interval
    → validate_bucket_config cfg.max_tokens cfg.refill_rate cfg.refill_interval ≡ none
    → IsTame cfg
validate_bucket_config-IsTame cfg r h =
    let l = validate_bucket_config-InLimits cfg.max_tokens cfg.refill_rate cfg.refill_interval h in
    record {
      cap = omega (arith, l.tokens);
      rate = l.rate.0;
      pace = ground (arith, l.rate, l.interval);
      interval = r;
    }
