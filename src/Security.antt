-- ===== src/Security.antt =====
-- internal/security/sanitize.go: validation of client-supplied and admin-supplied values.
-- The hash of HashToken is a parameter; `crypto/subtle` compares as equality does.
pub mod Charset
pub mod Limits
pub mod Sanitize
mod Tests
use rateforge.Base.{
  ℕ, ◌+◌, Bool, true, false, ◌&&◌, ◌||◌, Option, none, some, List, [], ◌∷◌, ◌++◌, ltb, leb, ◌==◌,
  if◌then◌else◌, Str, codes, str_eq, length,
}
use rateforge.Base.Int.{ℤ, pos, ltb_ℤ}
use rateforge.Time.{Duration, hour}

-- The class `[a-zA-Z0-9_-]`.
unfoldable pub is_key_byte : ℕ → Bool
is_key_byte c =
    leb b'a' c && leb c b'z'
    || leb b'A' c && leb c b'Z'
    || leb b'0' c && leb c b'9'
    || c == b'_'
    || c == b'-'

unfoldable pub all_key_bytes : Str → Bool
all_key_bytes [] = true
all_key_bytes (c ∷ s) = is_key_byte c && all_key_bytes s

-- `^[a-zA-Z0-9_-]{1,n}$`
unfoldable pub matches_key : ℕ → Str → Bool
matches_key n s = all_key_bytes s && (leb 1 (length s) && leb (length s) n)

pub data ValidationError : Type 0 where
  invalid_api_key invalid_tier : ValidationError
  max_tokens_range refill_rate_range : ℤ → ValidationError
  refill_interval_range : Duration → ValidationError

-- A validation returns `none` for no error.
unfoldable pub validate_api_key : Str → Option ValidationError
validate_api_key key = if matches_key 128 key then none else some invalid_api_key

unfoldable pub validate_tier : Str → Option ValidationError
validate_tier tier =
    if length tier == 0 then none else (if matches_key 64 tier then none else some invalid_tier)

-- `salt + ":" + token`, hashed and printed in hexadecimal by `sha256_hex`.
unfoldable pub hash_token : (Str → Str) → Str → Str → Str
hash_token sha256_hex token salt = sha256_hex (salt ++ (codes ":" ++ token))

unfoldable pub constant_time_equal : Str → Str → Bool
constant_time_equal a b = str_eq a b

unfoldable pub validate_bucket_config : ℤ → ℤ → Duration → Option ValidationError
validate_bucket_config max_tokens refill_rate refill_interval =
    if ltb_ℤ max_tokens (pos 1) || ltb_ℤ (pos 1_000_000) max_tokens
    then some (max_tokens_range max_tokens)
    else if ltb_ℤ refill_rate (pos 0) || ltb_ℤ (pos 100_000) refill_rate
    then some (refill_rate_range refill_rate)
    else if ltb_ℤ (pos 0) refill_rate
        && (ltb_ℤ refill_interval (pos 10_000_000) || ltb_ℤ hour refill_interval)
    then some (refill_interval_range refill_interval)
    else none
