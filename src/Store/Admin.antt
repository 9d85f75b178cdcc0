-- ===== src/Store/Admin.antt =====
-- The administrative operations of the store.
use rateforge.Base.{ℕ, Bool, Option, none, some, List, [], ◌∷◌, ◌++◌, if◌then◌else◌, Str, length}
use rateforge.Base.Int.{ℤ, div64}
use rateforge.Time.{Time, millisecond}
use rateforge.Dict
use rateforge.Dict.{Dict}
use rateforge.Agenda.{Agenda}
use rateforge.Bucket
use rateforge.Bucket.{Bucket, BucketConfig}
use rateforge.Multibucket
use rateforge.Multibucket.{ClientBuckets, default_tier, tier_or_default}
use rateforge.Store.{
  BucketStore, global_bucket_id, ip_id_prefix, encode_id, tier_default, register, remove_id,
  get_or_create_client,
}

pub record TierStatus : Type 0 where
  pub tokens_remaining : ℤ
  pub max_tokens : ℤ
  pub refill_rate : ℤ
  pub refill_interval_ms : ℤ

pub record ClientStatus : Type 0 where
  pub client_key : Str
  pub blocked : Bool
  pub tiers : Dict TierStatus

unfoldable pub tier_status : Bucket → TierStatus
tier_status b = record {
  tokens_remaining = Bucket.tokens_remaining b;
  max_tokens = b.config.max_tokens;
  refill_rate = b.config.refill_rate;
  refill_interval_ms = div64 b.config.refill_interval millisecond;
}

-- The loop of `buildStatus` over the tiers of a client.
unfoldable pub tier_statuses : List Str → ClientBuckets → Dict TierStatus
tier_statuses [] cb = []
tier_statuses (t ∷ ts) cb =
    let rest = tier_statuses ts cb in
    elim (Multibucket.bucket t cb) [ none ↦ rest | some b ↦ Dict.insert t (tier_status b) rest ]

unfoldable pub build_status : Str → ClientBuckets → ClientStatus
build_status key cb = record {
  client_key = key;
  blocked = Multibucket.is_blocked cb;
  tiers = tier_statuses (Multibucket.tiers cb) cb;
}

unfoldable pub statuses : Dict ClientBuckets → List ClientStatus
statuses [] = []
statuses ((k, cb) ∷ m) = build_status k cb ∷ statuses m

-- The configuration of a tier from the defaults alone.
unfoldable pub default_config : Str → Dict BucketConfig → BucketConfig
default_config tier defaults = elim (Dict.lookup tier defaults) [
  | some cfg ↦ cfg
  | none ↦ tier_default default_tier defaults
]

module _ {S : Type 0} where
  unfoldable pub status : Str → BucketStore S → Option ClientStatus
  status key s = elim (Dict.lookup key s.clients) [
    | none ↦ none
    | some cb ↦ some (build_status key cb)
  ]

  unfoldable pub list_clients : BucketStore S → List ClientStatus
  list_clients s = statuses s.clients

  unfoldable pub active_clients : BucketStore S → ℕ
  active_clients s = length s.clients

  -- `Evictions`
  unfoldable pub evictions : BucketStore S → ℤ
  evictions s = s.evictions

  unfoldable pub tier_config : Str → Str → BucketStore S → BucketConfig
  tier_config key named s =
      let tier = tier_or_default named in
      let fallback = default_config tier s.tier_defaults in
      elim (Dict.lookup key s.clients) [
        | none ↦ fallback
        | some cb ↦ elim (Multibucket.bucket tier cb) [ none ↦ fallback | some b ↦ b.config ]
      ]

  unfoldable pub unblock : Str → BucketStore S → BucketStore S
  unblock key s = elim (Dict.lookup key s.clients) [
    | none ↦ s
    | some cb ↦ record s { clients = Dict.insert key (Multibucket.unblock_all cb) s.clients }
  ]

module _ {S : Type 0} ⦃agenda : Agenda S⦄ where
  unfoldable pub ensure_client : Str → Time → BucketStore S → ClientBuckets × BucketStore S
  ensure_client key now s = let (found, s') = get_or_create_client key now s in (found.0, s')

  unfoldable pub update_client_config :
      Str → Str → BucketConfig → Time → BucketStore S → BucketStore S
  update_client_config key named cfg now s =
      let tier = tier_or_default named in
      let (cb, s') = ensure_client key now s in
      let cb' = Multibucket.configure tier cfg now cb in
      let id = encode_id key tier in
      record s' {
        clients = Dict.insert key cb' s'.clients;
        scheduler = register id cfg (Multibucket.bucket tier cb') (remove_id id s'.scheduler);
      }

  unfoldable pub block : Str → Time → BucketStore S → BucketStore S
  block key now s =
      let (cb, s') = ensure_client key now s in
      record s' { clients = Dict.insert key (Multibucket.block_all cb) s'.clients }

  unfoldable pub set_global_config : BucketConfig → Time → BucketStore S → BucketStore S
  set_global_config cfg now s =
      let gb = Bucket.new cfg now in
      record s {
        global_bucket = some gb;
        scheduler =
            register global_bucket_id cfg (some gb) (remove_id global_bucket_id s.scheduler);
      }

  unfoldable pub disable_global : BucketStore S → BucketStore S
  disable_global s = record s {
    global_bucket = none;
    scheduler = remove_id global_bucket_id s.scheduler;
  }

  -- The loop that drops every per-IP bucket takes their ids off the scheduler.
  unfoldable pub remove_ips : Dict Bucket → Option S → Option S
  remove_ips [] sched = sched
  remove_ips ((ip, b) ∷ m) sched = remove_ips m (remove_id (ip_id_prefix ++ ip) sched)

  unfoldable pub set_ip_limit : Bool → BucketConfig → BucketStore S → BucketStore S
  set_ip_limit enabled cfg s =
      let set = record s { ip_limit_enabled = enabled; ip_config = some cfg } in
      if enabled
      then set
      else record set { ip_buckets = []; scheduler = remove_ips s.ip_buckets s.scheduler }
