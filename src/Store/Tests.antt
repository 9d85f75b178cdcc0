-- ===== src/Store/Tests.antt =====
-- The store's theorems at concrete values, with an association list for the scheduler.
use mathlib.Core.Option.{some-ne-none, some-injective}
use rateforge.Base.{
  ◌+◌, ◌-◌, ◌*◌, ◌/◌, ◌≤◌, ◌≡◌, ◌≢◌, refl, subst, true, false, inl, none, some, List, [], ◌∷◌,
  arith, Str, codes, str_eq,
}
use rateforge.Base.Int.{pos}
use rateforge.Time.{Time, zero_time}
use rateforge.Dict
use rateforge.Dict.{Dict}
use rateforge.Agenda.{Agenda}
use rateforge.Security.{validate_api_key, matches_key, all_key_bytes, is_key_byte}
use rateforge.Bucket
use rateforge.Bucket.{Bucket, BucketConfig}
use rateforge.Bucket.Valid.{IsTame}
use rateforge.Bucket.Refine.{IsValid}
use rateforge.Bucket.Life.{IsUsable}
use rateforge.Multibucket
use rateforge.Multibucket.{ClientBuckets, default_tier, tier_or_default}
use rateforge.Store.{
  BucketStore, AllowRequest, Options, new, encode_id, decode_id, evict_lru_locked,
  get_or_create_client, global_bucket_id, oldest_of,
}
use rateforge.Store.Serve.{allow, on_due, on_due_ip}
use rateforge.Store.Admin.{block, update_client_config, tier_config}
use rateforge.Store.Ids.{decode_id-encode_id, on_due-encode_id}
use rateforge.Store.Clients.{IsKeyed, Evicted, evict_lru_locked-Evicted}
use rateforge.Store.Capacity.{IsBounded, get_or_create_client_lem}
use rateforge.Store.Gates.{allow-block}
use rateforge.Store.Isolate.{Spared, allow-Spared}
use rateforge.Store.Keep.{IsOrderly, allow-IsOrderly}
use rateforge.Store.Pending.{pending_at, first_refill, update_client_config_lem}
use rateforge.Store.Global.{Event, arrive, due, run, run_globally_bounded}
use rateforge.Store.Safe.{IsSound}
use rateforge.Store.Safe.Reach.{starts, steps, serves, falls_due, blocks, Reachable-IsSound}

instance listed : Agenda (Dict Time)
listed = record {
  schedule = Dict.insert;
  remove = Dict.delete;
  pending = Dict.lookup;
  pending-schedule = Dict.lookup-insert;
  pending-remove = Dict.lookup-delete;
}

abbrev config : BucketConfig
config = record {
  max_tokens = pos 10;
  refill_rate = pos 5;
  refill_interval = pos 100;
  tokens_per_request = pos 1;
  sliding_window = none;
}

config-IsTame : IsTame config
config-IsTame = record {
  cap = omega arith;
  rate = omega arith;
  pace = inl (omega arith);
  interval = omega arith;
}

config-IsUsable : IsUsable config
config-IsUsable = record { tame = config-IsTame; cost = omega arith; window = tt }

abbrev bucket_at : Time → Bucket
bucket_at t = record {
  config = config;
  tokens = pos 3;
  last_refill_time = pos 100;
  blocked = false;
  last_access_time = t;
  created_at = pos 0;
  window = none;
}

bucket-IsValid : (t : Time) → IsValid (bucket_at t)
bucket-IsValid t = record {
  tame = config-IsTame;
  cost = omega arith;
  level = omega arith;
  clock = omega arith;
  gate = tt;
  fine = tt;
}

abbrev client_a : ClientBuckets
client_a = record { client_key = codes "a"; buckets = (default_tier, bucket_at (pos 120)) ∷ [] }

abbrev client_b : ClientBuckets
client_b = record { client_key = codes "b"; buckets = (default_tier, bucket_at (pos 110)) ∷ [] }

-- Two clients of at most two, with a global bucket and a refill pending for each client.
abbrev full_store : BucketStore (Dict Time)
full_store = record {
  clients = (codes "a", client_a) ∷ (codes "b", client_b) ∷ [];
  max_clients = pos 2;
  tier_defaults = (default_tier, config) ∷ [];
  scheduler = some ((codes "a|default", pos 200) ∷ (codes "b|default", pos 200) ∷ []);
  global_bucket = some (bucket_at (pos 150));
  evictions = pos 0;
  ip_buckets = [];
  ip_bucket_cap = pos 8;
  ip_limit_enabled = true;
  ip_config = none;
}

abbrev asks : Str → Time → AllowRequest
asks key t = record { client_key = key; source_ip = codes "10.0.0.7"; tier = []; now = t }

abbrev three_events : List Event
three_events =
    arrive (pos 150) (asks (codes "c") zero_time)
    ∷ due global_bucket_id (pos 200)
    ∷ arrive (pos 0) (asks (codes "a") (pos 210))
    ∷ []

full_store-IsKeyed : IsKeyed full_store
unfolding Dict.lookup str_eq
full_store-IsKeyed = record { unique = (refl, (refl, tt)); named = refl }

full_store-IsSound : IsSound full_store
full_store-IsSound = record {
  defaults = (config-IsUsable, tt);
  clients = ((bucket-IsValid (pos 120), tt), ((bucket-IsValid (pos 110), tt), tt));
  global = bucket-IsValid (pos 150);
  ips = tt;
  ip_config = tt;
}

not_bare : full_store.clients ≢ []
not_bare e = ground (arith, e)

a_stocked :
    (cb : ClientBuckets)
    → Dict.lookup (codes "a") full_store.clients ≡ some cb
    → Dict.lookup default_tier cb.buckets ≢ none
unfolding Dict.lookup str_eq
a_stocked cb e =
    subst (λ (c : ClientBuckets). Dict.lookup default_tier c.buckets ≢ none)
      (some-injective client_a cb e) (some-ne-none (bucket_at (pos 120)))

b_there : Dict.lookup (codes "b") full_store.clients ≡ some client_b
unfolding Dict.lookup str_eq
b_there = refl

b_gone : Dict.lookup (codes "b") (evict_lru_locked full_store).clients ≡ none
unfolding Dict.lookup Dict.delete str_eq evict_lru_locked oldest_of Multibucket.last_access
    Multibucket.latest_access Bucket.last_access
b_gone = refl

a_passes : validate_api_key (codes "a") ≡ none
unfolding validate_api_key matches_key all_key_bytes is_key_byte
a_passes = refl

ip_passes : validate_api_key (codes "__ip__") ≡ none
unfolding validate_api_key matches_key all_key_bytes is_key_byte
ip_passes = refl

c_not_a : codes "c" ≢ codes "a"
c_not_a e = ground (arith, e)

run_globally_bounded_example : (run three_events full_store).0 * 1 ≤ 3 + (300 - 100) / 100 * 5
run_globally_bounded_example =
    run_globally_bounded (pos 300) three_events full_store (bucket_at (pos 150)) refl
      (bucket-IsValid (pos 150)) (omega arith)

allow-block_example :
    (allow
      (pos 150)
      (asks (codes "a") (pos 150))
      (block (codes "a") (pos 140) full_store)).0.allowed
    ≡ false
allow-block_example =
    allow-block (pos 150) (pos 140) (asks (codes "a") (pos 150)) full_store a_stocked

get_or_create_client_lem_example :
    let ((cb, created), s') = get_or_create_client (codes "c") (pos 150) full_store in
    IsKeyed s'
    × IsBounded s'
    × (Dict.lookup (codes "c") s'.clients ≡ some cb)
    × (created ≡ false → s' ≡ full_store)
get_or_create_client_lem_example =
    get_or_create_client_lem (codes "c") (pos 150) full_store full_store-IsKeyed (omega arith)
      (λ e. ground (arith, e))

evict_lru_locked-Evicted_example : Evicted full_store (evict_lru_locked full_store)
evict_lru_locked-Evicted_example = evict_lru_locked-Evicted full_store full_store-IsKeyed not_bare

abbrev options : Options
options = record { max_clients = pos 2; tier_defaults = (codes "gold", config) ∷ [] }

-- A client is served, its bucket falls due, and an admin blocks it.
abbrev short_life : BucketStore (Dict Time)
short_life =
    block (codes "a") (pos 300)
      (on_due (codes "a|default") (pos 200)
        (allow (pos 150) (asks (codes "a") zero_time) (new options)).1).1

Reachable-IsSound_example : IsSound short_life
Reachable-IsSound_example =
    Reachable-IsSound (config-IsUsable, tt)
      (steps
        (steps (steps starts (serves (pos 150) (asks (codes "a") zero_time) _ (omega arith)))
          (falls_due (codes "a|default") (pos 200) _ (omega arith)))
        (blocks (codes "a") (pos 300) _ (omega arith)))

update_client_config_lem_example :
    let s' = update_client_config (codes "c") [] config (pos 150) full_store in
    let b = Bucket.new config (pos 150) in
    ((cb : ClientBuckets) × (Dict.lookup (codes "c") s'.clients ≡ some cb)
      × (Multibucket.bucket (tier_or_default []) cb ≡ some b))
    × (b.blocked ≡ false)
    × (b.tokens ≡ pos 10)
    × (tier_config (codes "c") [] s' ≡ Bucket.normalize config)
    × (full_store.scheduler ≢ none
        → pending_at (encode_id (codes "c") (tier_or_default [])) s'.scheduler
          ≡ first_refill config b)
update_client_config_lem_example =
    update_client_config_lem (codes "c") [] config (pos 150) full_store

decode_id-encode_id_example :
    decode_id (encode_id (codes "a") (codes "gold")) ≡ some (codes "a", codes "gold")
decode_id-encode_id_example = decode_id-encode_id (codes "a") (codes "gold") a_passes

on_due-encode_id_example :
    on_due (encode_id (codes "__ip__") default_tier) (pos 200) full_store
    ≡ on_due_ip default_tier (pos 200) full_store
unfolding str_eq
on_due-encode_id_example =
    on_due-encode_id (codes "__ip__") default_tier (pos 200) full_store ip_passes

allow-Spared_example :
    Spared (codes "a") full_store (allow (pos 150) (asks (codes "c") zero_time) full_store).1
allow-Spared_example =
    allow-Spared (pos 150) (asks (codes "c") zero_time) (codes "a") full_store c_not_a

allow-IsOrderly_example : IsOrderly (allow (pos 150) (asks (codes "c") zero_time) full_store).1
allow-IsOrderly_example =
    allow-IsOrderly (pos 150) (asks (codes "c") zero_time) full_store (λ e. ground (arith, e))
      (full_store-IsKeyed, omega arith)
