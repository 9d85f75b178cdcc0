-- ===== src/Security/Tests.antt =====
-- The validation theorems at concrete values.
use rateforge.Base.{All, ◌∷◌, ◌++◌, ◌≤◌, ◌≡◌, refl, false, none, codes, length}
use rateforge.Base.Int.{pos}
use rateforge.Security.{
  validate_api_key, validate_tier, validate_bucket_config, is_key_byte, all_key_bytes, matches_key,
}
use rateforge.Security.Sanitize.{Printable, sanitize_for_log, sanitize_for_log-Printable}
use rateforge.Bucket.{BucketConfig}

key_passes : validate_api_key (codes "team-1") ≡ none
unfolding validate_api_key matches_key all_key_bytes is_key_byte
key_passes = refl

tier_passes : validate_tier (codes "gold") ≡ none
unfolding validate_tier matches_key all_key_bytes is_key_byte
tier_passes = refl

newline_outside : is_key_byte 10 ≡ false
unfolding is_key_byte
newline_outside = refl

dot_outside : is_key_byte b'.' ≡ false
unfolding is_key_byte
dot_outside = refl

abbrev admin_config : BucketConfig
admin_config = record {
  max_tokens = pos 500;
  refill_rate = pos 20;
  refill_interval = pos 10_000_000;
  tokens_per_request = pos 1;
  sliding_window = none;
}

admin_passes : validate_bucket_config (pos 500) (pos 20) (pos 10_000_000) ≡ none
unfolding validate_bucket_config
admin_passes = refl

-- A line break inside a word, as runes.
sanitize_for_log-Printable_example :
    All Printable (sanitize_for_log (codes "a" ++ 10 ∷ codes "b"))
    × (length (sanitize_for_log (codes "a" ++ 10 ∷ codes "b")) ≤ 256)
sanitize_for_log-Printable_example = sanitize_for_log-Printable (codes "a" ++ 10 ∷ codes "b")
