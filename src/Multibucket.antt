-- ===== src/Multibucket.antt =====
-- internal/multibucket/multibucket.go: the buckets of one client, one for each tier.
-- A method that reaches a bucket through its pointer returns the map with that bucket replaced.
pub mod Laws
mod Tests
use rateforge.Base.{
  ℕ, Bool, true, false, ◌||◌, Option, none, some, List, [], ◌∷◌, ◌==◌, if◌then◌else◌, Str, codes,
  length,
}
use rateforge.Base.Int.{pos}
use rateforge.Time.{Time, Duration, zero_time, second, after}
use rateforge.Dict
use rateforge.Dict.{Dict}
use rateforge.Bucket
use rateforge.Bucket.{Bucket, BucketConfig}

abbrev pub default_tier : Str
default_tier = codes "default"

pub record ClientBuckets : Type 0 where
  pub client_key : Str
  pub buckets : Dict Bucket

unfoldable pub new : Str → ClientBuckets
new client_key = record { client_key = client_key; buckets = [] }

unfoldable pub key : ClientBuckets → Str
key cb = cb.client_key

-- The tier that is meant: the default one if none is named.
unfoldable pub tier_or_default : Str → Str
tier_or_default tier = if length tier == 0 then default_tier else tier

unfoldable pub configure : Str → BucketConfig → Time → ClientBuckets → ClientBuckets
configure tier cfg now cb = record cb {
  buckets = Dict.insert (tier_or_default tier) (Bucket.new cfg now) cb.buckets;
}

-- `Bucket`
unfoldable pub bucket : Str → ClientBuckets → Option Bucket
bucket tier cb = Dict.lookup (tier_or_default tier) cb.buckets

-- The tier whose bucket answers a request: the named one, or else the default one.
unfoldable pub serving_tier : Str → ClientBuckets → Str
serving_tier tier cb = elim (Dict.lookup (tier_or_default tier) cb.buckets) [
  | none ↦ default_tier
  | some _ ↦ tier_or_default tier
]

-- `Allow`; a client with neither bucket is refused.
unfoldable pub allow : Str → Time → ClientBuckets → (Bool × Duration) × ClientBuckets
allow tier now cb =
    let served = serving_tier tier cb in
    elim (Dict.lookup served cb.buckets) [
      | none ↦ ((false, second), cb)
      | some b ↦
          let (answer, b') = Bucket.allow now b in
          (answer, record cb { buckets = Dict.insert served b' cb.buckets })
    ]

unfoldable pub tiers : ClientBuckets → List Str
tiers cb = Dict.keys cb.buckets

-- A `range` loop that changes each bucket.
unfoldable pub map_values : (Bucket → Bucket) → Dict Bucket → Dict Bucket
map_values f [] = []
map_values f ((t, b) ∷ m) = (t, f b) ∷ map_values f m

unfoldable pub block_all : ClientBuckets → ClientBuckets
block_all cb = record cb { buckets = map_values Bucket.block cb.buckets }

unfoldable pub unblock_all : ClientBuckets → ClientBuckets
unblock_all cb = record cb { buckets = map_values Bucket.unblock cb.buckets }

unfoldable pub any_blocked : Dict Bucket → Bool
any_blocked [] = false
any_blocked ((t, b) ∷ m) = Bucket.is_blocked b || any_blocked m

unfoldable pub is_blocked : ClientBuckets → Bool
is_blocked cb = any_blocked cb.buckets

unfoldable pub latest_access : Time → Dict Bucket → Time
latest_access latest [] = latest
latest_access latest ((t, b) ∷ m) =
    let at = Bucket.last_access b in latest_access (if after at latest then at else latest) m

unfoldable pub last_access : ClientBuckets → Time
last_access cb = latest_access zero_time cb.buckets
