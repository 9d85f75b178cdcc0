-- ===== src/Store/Safe.antt =====
-- The invariant of the whole store: every bucket in it is valid and every configuration usable.
pub mod Create
pub mod Serve
pub mod Reach
use rateforge.Base.{
  ℕ, ◌≡◌, refl, sym, ap, ◌∙◌, subst, Bool, true, false, ◌&&◌, ◌||◌, not, inl, inr, Option, none,
  some, List, [], ◌∷◌, arith, if◌then◌else◌, Str, str_eq, strip_prefix, length, ◌==◌, Bool-cases,
  Option-cases,
}
use rateforge.Base.Int.{ℤ, pos, ltb_ℤ, leb_ℤ}
use rateforge.Time.{Time, is_zero}
use rateforge.Dict
use rateforge.Dict.{Dict, AllValues}
use rateforge.Agenda.{Agenda}
use rateforge.Bucket
use rateforge.Bucket.{Bucket, BucketConfig}
use rateforge.Bucket.Valid.{IsClock}
use rateforge.Bucket.Refine.{IsValid, scheduled_refill_refines, topped-IsValid}
use rateforge.Bucket.Allow
use rateforge.Bucket.Life.{IsUsable, new-IsValid}
use rateforge.Multibucket
use rateforge.Multibucket.{ClientBuckets, default_tier}
use rateforge.Multibucket.Laws
use rateforge.Multibucket.Laws.{AllValid, configure-AllValid, allow-AllValid}
use rateforge.Store.{
  BucketStore, AllowRequest, AllowResult, Options, global_bucket_id, ip_id_prefix, decode_id, new,
  oldest_of, zero_config, built_in_default, ip_fallback_config, tier_default, fresh_client,
  make_room, evict_lru_locked, get_or_create_client, ensure_tier, evict_oldest_ip_locked,
  get_or_create_ip_bucket,
}
use rateforge.Store.Serve.{
  global_gate, ip_gate, client_gate, allow, on_due, on_due_global, on_due_ip, on_due_client,
  refill_bucket,
}

-- `P` of the value, if there is one.
abbrev pub Given {ℓ κ} : {A : Type ℓ} → (A → Type κ) → Option A → Type κ
Given P none = Unit
Given P (some x) = P x

pub record IsSound {S : Type 0} (s : BucketStore S) : Type 0 where
  pub defaults : AllValues IsUsable s.tier_defaults
  pub clients : AllValues AllValid s.clients
  pub global : Given IsValid s.global_bucket
  pub ips : AllValues IsValid s.ip_buckets
  pub ip_config : Given IsUsable s.ip_config

zero_config-IsUsable : IsUsable zero_config
zero_config-IsUsable = record {
  tame = record {
    cap = ground arith;
    rate = ground arith;
    pace = inr (ground arith);
    interval = ground arith;
  };
  cost = ground arith;
  window = tt;
}

built_in_default-IsUsable : IsUsable built_in_default
built_in_default-IsUsable = record {
  tame = record {
    cap = ground arith;
    rate = ground arith;
    pace = inl (ground arith);
    interval = ground arith;
  };
  cost = ground arith;
  window = tt;
}

pub ip_fallback_config-IsUsable : IsUsable ip_fallback_config
ip_fallback_config-IsUsable = record {
  tame = record {
    cap = ground arith;
    rate = ground arith;
    pace = inl (ground arith);
    interval = ground arith;
  };
  cost = ground arith;
  window = tt;
}

pub tier_default-IsUsable :
    (tier : Str) (defaults : Dict BucketConfig)
    → AllValues IsUsable defaults
    → IsUsable (tier_default tier defaults)
unfolding tier_default
tier_default-IsUsable tier defaults u = elim (Option-cases (Dict.lookup tier defaults)) [
  | inl e ↦ rw (e, tier_default) zero_config-IsUsable
  | inr (c, e) ↦ rw (e, tier_default) (Dict.AllValues-lookup IsUsable tier c defaults e u)
]

pub fresh_client-AllValid :
    (key : Str) (cfg : BucketConfig) (now : Time)
    → IsUsable cfg
    → IsClock now
    → AllValid (fresh_client key cfg now)
unfolding fresh_client Multibucket.new
fresh_client-AllValid key cfg now u c =
    configure-AllValid default_tier cfg now (Multibucket.new key) u c tt

-- A new store is sound if the tier defaults that it is given are usable.
pub new-IsSound :
    {S : Type 0} (opts : Options)
    → AllValues IsUsable opts.tier_defaults
    → IsSound (new {S = S} opts)
unfolding new
new-IsSound {S} opts u = elim (Option-cases (Dict.lookup default_tier opts.tier_defaults)) [
  | inl e ↦
      let more =
        Dict.AllValues-insert IsUsable default_tier built_in_default opts.tier_defaults
          built_in_default-IsUsable u in
      record { defaults = rw (e, new) more; clients = tt; global = tt; ips = tt; ip_config = tt }
  | inr (c, e) ↦ record {
    defaults = rw (e, new) u;
    clients = tt;
    global = tt;
    ips = tt;
    ip_config = tt;
  }
]

refill-IsValid :
    (t : Time) (b : Bucket) → IsValid b → IsClock t → IsValid (Bucket.scheduled_refill t b)
refill-IsValid t b v c = rw (scheduled_refill_refines t b v c) (topped-IsValid t b v c)

-- The client's buckets after a callback refilled one of them.
refilled-AllValid :
    (served : Str) (t : Time) (b : Bucket) (cb : ClientBuckets)
    → AllValid cb
    → IsClock t
    → Dict.lookup served cb.buckets ≡ some b
    → AllValid (record cb { buckets = Dict.insert served (Bucket.scheduled_refill t b) cb.buckets })
refilled-AllValid served t b cb v c e =
    Dict.AllValues-insert IsValid served (Bucket.scheduled_refill t b) cb.buckets
      (refill-IsValid t b (Dict.AllValues-lookup IsValid served b cb.buckets e v) c) v

module _ {S : Type 0} (t : Time) (s : BucketStore S) (v : IsSound s) (c : IsClock t) where
  on_due_global-IsSound : IsSound (on_due_global t s).1
  unfolding on_due_global refill_bucket
  on_due_global-IsSound = elim (Option-cases s.global_bucket) [
    | inl e ↦ rw (e, on_due_global) v
    | inr (gb, e) ↦
        let valid : IsValid gb = rw e at v.global in
        rw (e, on_due_global)
          (record {
            defaults = v.defaults;
            clients = v.clients;
            global = refill-IsValid t gb valid c;
            ips = v.ips;
            ip_config = v.ip_config;
          })
  ]

  on_due_ip-IsSound : (ip : Str) → IsSound (on_due_ip ip t s).1
  unfolding on_due_ip refill_bucket
  on_due_ip-IsSound ip = elim (Option-cases (Dict.lookup ip s.ip_buckets)) [
    | inl e ↦ rw (e, on_due_ip) v
    | inr (b, e) ↦
        let valid = Dict.AllValues-lookup IsValid ip b s.ip_buckets e v.ips in
        rw (e, on_due_ip)
          (record {
            defaults = v.defaults;
            clients = v.clients;
            global = v.global;
            ips =
                Dict.AllValues-insert IsValid ip (Bucket.scheduled_refill t b) s.ip_buckets
                  (refill-IsValid t b valid c) v.ips;
            ip_config = v.ip_config;
          })
  ]

  on_due_client-IsSound : (key tier : Str) → IsSound (on_due_client key tier t s).1
  unfolding on_due_client refill_bucket Multibucket.bucket
  on_due_client-IsSound key tier = elim (Option-cases (Dict.lookup key s.clients)) [
    | inl e ↦ rw (e, on_due_client) v
    | inr (cb, e) ↦
        let served = Multibucket.tier_or_default tier in
        elim (Option-cases (Dict.lookup served cb.buckets)) [
          | inl q ↦ rw (e, q, on_due_client) v
          | inr (b, q) ↦
              let valid = Dict.AllValues-lookup AllValid key cb s.clients e v.clients in
              rw (e, q, on_due_client)
                (record {
                  defaults = v.defaults;
                  clients =
                      Dict.AllValues-insert AllValid key _ s.clients
                        (refilled-AllValid served t b cb valid c q) v.clients;
                  global = v.global;
                  ips = v.ips;
                  ip_config = v.ip_config;
                })
        ]
  ]

  -- OnDue at a clock reading keeps a sound store sound, whatever the id.
  pub on_due-IsSound : (id : Str) → IsSound (on_due id t s).1
  unfolding on_due
  on_due-IsSound id = elim (Bool-cases (str_eq id global_bucket_id)) [
    | inl e ↦ rw (e, on_due) on_due_global-IsSound
    | inr e ↦ elim (Option-cases (strip_prefix ip_id_prefix id)) [
      | inr (ip, p) ↦ rw (e, p, on_due) (on_due_ip-IsSound ip)
      | inl p ↦ elim (Option-cases (decode_id id)) [
        | inl d ↦ rw (e, p, d, on_due) v
        | inr (kt, d) ↦ rw (e, p, d, on_due) (on_due_client-IsSound kt.0 kt.1)
      ]
    ]
  ]
