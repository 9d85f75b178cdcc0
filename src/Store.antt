-- ===== src/Store.antt =====
-- internal/store/store.go: the registry of clients, the global bucket and the per-IP buckets.
-- One call runs at a time; a call that takes a client's buckets out of the map and changes them puts
-- them back under the same key, which is where the source's pointer stands all the while. The
-- scheduler is reached through the `Agenda` interface, and the logger is left out.
pub mod Ids
pub mod Serve
pub mod Admin
pub mod Clients
pub mod Capacity
pub mod Gates
pub mod Pending
pub mod Global
pub mod Safe
pub mod Isolate
pub mod Keep
mod Tests
use rateforge.Base.{
  ℕ, ◌+◌, Bool, true, false, not, ◌&&◌, ◌||◌, Option, none, some, List, [], ◌∷◌, ◌++◌, leb, ◌==◌,
  if◌then◌else◌, Str, codes, str_eq, cut, strip_prefix, length,
}
use rateforge.Base.Int.{ℤ, pos, add64, mul64, ltb_ℤ, leb_ℤ}
use rateforge.Time.{Time, Duration, zero_time, second, before}
use rateforge.Dict
use rateforge.Dict.{Dict}
use rateforge.Agenda.{Agenda}
use rateforge.Bucket
use rateforge.Bucket.{Bucket, BucketConfig}
use rateforge.Multibucket
use rateforge.Multibucket.{ClientBuckets, default_tier}

abbrev pub global_bucket_id : Str
global_bucket_id = codes "__global__"

abbrev pub ip_id_prefix : Str
ip_id_prefix = codes "__ip__|"

unfoldable pub encode_id : Str → Str → Str
encode_id client_key tier = client_key ++ (codes "|" ++ tier)

unfoldable pub decode_id : Str → Option (Str × Str)
decode_id id = cut b'|' id

pub record AllowRequest : Type 0 where
  pub client_key : Str
  pub source_ip : Str
  pub tier : Str
  pub now : Time

pub data Reason : Type 0 where
  ok blocked client_limit ip_limit global_limit : Reason

pub record AllowResult : Type 0 where
  pub allowed : Bool
  pub remaining_tokens : ℤ
  pub retry_after : Duration
  pub reason : Reason

pub record Options : Type 0 where
  pub max_clients : ℤ
  pub tier_defaults : Dict BucketConfig

pub record BucketStore (S : Type 0) : Type 0 where
  pub clients : Dict ClientBuckets
  pub max_clients : ℤ
  pub tier_defaults : Dict BucketConfig
  pub scheduler : Option S
  pub global_bucket : Option Bucket
  pub evictions : ℤ
  pub ip_buckets : Dict Bucket
  pub ip_bucket_cap : ℤ
  pub ip_limit_enabled : Bool
  pub ip_config : Option BucketConfig

-- The default tier's configuration where the options give none.
abbrev pub built_in_default : BucketConfig
built_in_default = record {
  max_tokens = pos 100;
  refill_rate = pos 10;
  refill_interval = second;
  tokens_per_request = pos 1;
  sliding_window = none;
}

-- The zero `bucket.Config`, which a read of a missing key gives.
abbrev pub zero_config : BucketConfig
zero_config = record {
  max_tokens = pos 0;
  refill_rate = pos 0;
  refill_interval = pos 0;
  tokens_per_request = pos 0;
  sliding_window = none;
}

abbrev pub ip_fallback_config : BucketConfig
ip_fallback_config = record {
  max_tokens = pos 1000;
  refill_rate = pos 1000;
  refill_interval = second;
  tokens_per_request = pos 0;
  sliding_window = none;
}

unfoldable pub new : {S : Type 0} → Options → BucketStore S
new opts =
    let cap = mul64 opts.max_clients (pos 4) in
    record {
      clients = [];
      max_clients = opts.max_clients;
      tier_defaults = elim (Dict.lookup default_tier opts.tier_defaults) [
        | none ↦ Dict.insert default_tier built_in_default opts.tier_defaults
        | some _ ↦ opts.tier_defaults
      ];
      scheduler = none;
      global_bucket = none;
      evictions = pos 0;
      ip_buckets = [];
      ip_bucket_cap = if leb_ℤ cap (pos 0) then pos 200_000 else cap;
      ip_limit_enabled = false;
      ip_config = none;
    }

unfoldable pub attach_scheduler : {S : Type 0} → S → BucketStore S → BucketStore S
attach_scheduler sched s = record s { scheduler = some sched }

-- The configuration of a tier, as a read of the map gives it.
unfoldable pub tier_default : Str → Dict BucketConfig → BucketConfig
tier_default tier defaults = elim (Dict.lookup tier defaults) [ none ↦ zero_config | some c ↦ c ]

-- The loop over a map that finds the least recently used key (the first visited among equals).
unfoldable pub oldest_of {ℓ} :
    {V : Type ℓ} → (V → Time) → Option (Str × Time) → Dict V → Option (Str × Time)
oldest_of access best [] = best
oldest_of access best ((k, v) ∷ m) =
    let la = access v in
    let next : Option (Str × Time) = elim best [
      | none ↦ some (k, la)
      | some (oldest, at) ↦ if before la at then some (k, la) else some (oldest, at)
    ] in
    oldest_of access next m

-- A client with a new bucket of the default tier.
unfoldable pub fresh_client : Str → BucketConfig → Time → ClientBuckets
fresh_client key cfg now = Multibucket.configure default_tier cfg now (Multibucket.new key)

module _ {S : Type 0} ⦃agenda : Agenda S⦄ where
  abbrev schedule_if : Bool → Str → Time → Option S → Option S
  schedule_if due id t none = none
  schedule_if due id t (some sched) = if due then some (agenda.schedule id t sched) else some sched

  abbrev remove_id : Str → Option S → Option S
  remove_id id none = none
  remove_id id (some sched) = some (agenda.remove id sched)

  unfoldable pub remove_tiers : Str → List Str → Option S → Option S
  remove_tiers key [] sched = sched
  remove_tiers key (tier ∷ tiers) sched =
      remove_tiers key tiers (remove_id (encode_id key tier) sched)

  -- `evictLRULocked`; an oldest key that is empty is not evicted.
  unfoldable pub evict_lru_locked : BucketStore S → BucketStore S
  evict_lru_locked s = elim (oldest_of Multibucket.last_access none s.clients) [
    | none ↦ s
    | some (oldest, at) ↦ elim (Dict.lookup oldest s.clients) [
      | none ↦ s
      | some cb ↦ if length oldest == 0 then s else record s {
        clients = Dict.delete oldest s.clients;
        evictions = add64 s.evictions (pos 1);
        scheduler = remove_tiers oldest (Multibucket.tiers cb) s.scheduler;
      }
    ]
  ]

  -- A new bucket's first refill, if its configuration has one.
  unfoldable pub register : Str → BucketConfig → Option Bucket → Option S → Option S
  register id cfg none sched = sched
  register id cfg (some b) sched =
      schedule_if (ltb_ℤ (pos 0) cfg.refill_interval) id (Bucket.next_refill_time b) sched

  -- The eviction at capacity.
  unfoldable pub make_room : BucketStore S → BucketStore S
  make_room s =
      let full = ltb_ℤ (pos 0) s.max_clients && leb_ℤ s.max_clients (pos (length s.clients)) in
      if full then evict_lru_locked s else s

  unfoldable pub get_or_create_client :
      Str → Time → BucketStore S → (ClientBuckets × Bool) × BucketStore S
  get_or_create_client key now s = elim (Dict.lookup key s.clients) [
    | some cb ↦ ((cb, false), s)
    | none ↦
        let room = make_room s in
        let cfg = tier_default default_tier s.tier_defaults in
        let cb = fresh_client key cfg now in
        let due =
          register (encode_id key default_tier) cfg (Multibucket.bucket default_tier cb)
            room.scheduler in
        ((cb, true), record room { clients = Dict.insert key cb room.clients; scheduler = due })
  ]

  -- `ensureTier` on the buckets `cb`, which the caller puts back.
  unfoldable pub ensure_tier :
      Str → Time → ClientBuckets → BucketStore S → ClientBuckets × BucketStore S
  ensure_tier tier now cb s =
      if length tier == 0 || str_eq tier default_tier
      then (cb, s)
      else elim (Multibucket.bucket tier cb) [
        | some _ ↦ (cb, s)
        | none ↦ elim (Dict.lookup tier s.tier_defaults) [
          | none ↦ (cb, s)
          | some cfg ↦
              let cb' = Multibucket.configure tier cfg now cb in
              let due =
                register (encode_id (Multibucket.key cb') tier) cfg (Multibucket.bucket tier cb')
                  s.scheduler in
              (cb', record s { scheduler = due })
        ]
      ]

  unfoldable pub evict_oldest_ip_locked : BucketStore S → BucketStore S
  evict_oldest_ip_locked s = elim (oldest_of Bucket.last_access none s.ip_buckets) [
    | none ↦ s
    | some (oldest, at) ↦ if length oldest == 0 then s else record s {
      ip_buckets = Dict.delete oldest s.ip_buckets;
      scheduler = remove_id (ip_id_prefix ++ oldest) s.scheduler;
    }
  ]

  unfoldable pub get_or_create_ip_bucket : Str → Time → BucketStore S → Bucket × BucketStore S
  get_or_create_ip_bucket ip now s = elim (Dict.lookup ip s.ip_buckets) [
    | some b ↦ (b, s)
    | none ↦
        let cfg : BucketConfig = elim s.ip_config [ none ↦ ip_fallback_config | some c ↦ c ] in
        let full = leb_ℤ s.ip_bucket_cap (pos (length s.ip_buckets)) in
        let room = if full then evict_oldest_ip_locked s else s in
        let b = Bucket.new cfg now in
        (
          b,
          record room {
            ip_buckets = Dict.insert ip b room.ip_buckets;
            scheduler =
                schedule_if (ltb_ℤ (pos 0) cfg.refill_interval) (ip_id_prefix ++ ip)
                  (Bucket.next_refill_time b) room.scheduler;
          },
        )
  ]
