-- ===== src/Multibucket/Tests.antt =====
-- The theorems on a client's buckets at concrete values.
use rateforge.Base.{◌≡◌, refl, false, none, some, [], ◌∷◌, Str, codes, str_eq}
use rateforge.Base.Int.{pos}
use rateforge.Time.{Time}
use rateforge.Dict
use rateforge.Bucket.{Bucket}
use rateforge.Multibucket.{ClientBuckets, default_tier, serving_tier, tier_or_default}

abbrev used_at : Time → Bucket
used_at t = record {
  config = record {
    max_tokens = pos 10;
    refill_rate = pos 0;
    refill_interval = pos 0;
    tokens_per_request = pos 1;
    sliding_window = none;
  };
  tokens = pos 3;
  last_refill_time = pos 0;
  blocked = false;
  last_access_time = t;
  created_at = pos 0;
  window = none;
}

abbrev gold : Str
gold = codes "gold"

abbrev two_tiers : ClientBuckets
two_tiers = record {
  client_key = codes "team-1";
  buckets = (default_tier, used_at (pos 7)) ∷ (gold, used_at (pos 5)) ∷ [];
}

serves_default : serving_tier (codes "silver") two_tiers ≡ default_tier
unfolding serving_tier tier_or_default Dict.lookup str_eq
serves_default = refl

gold_there : Dict.lookup gold two_tiers.buckets ≡ some (used_at (pos 5))
unfolding Dict.lookup str_eq
gold_there = refl
