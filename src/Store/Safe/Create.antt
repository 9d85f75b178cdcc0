-- ===== src/Store/Safe/Create.antt =====
-- Soundness of the store where clients, tiers and per-IP buckets are created, evictions included.
use rateforge.Base.{
  either, ◌||◌, inl, inr, Option, none, some, if◌then◌else◌, Str, str_eq, length, ◌==◌, Bool-cases,
  Option-cases,
}
use rateforge.Base.Int.{pos, leb_ℤ}
use rateforge.Time.{Time}
use rateforge.Dict
use rateforge.Dict.{Dict, AllValues}
use rateforge.Agenda.{Agenda}
use rateforge.Bucket
use rateforge.Bucket.{Bucket, BucketConfig}
use rateforge.Bucket.Valid.{IsClock}
use rateforge.Bucket.Refine.{IsValid}
use rateforge.Bucket.Life.{IsUsable, new-IsValid}
use rateforge.Multibucket
use rateforge.Multibucket.{ClientBuckets, default_tier}
use rateforge.Multibucket.Laws.{AllValid, configure-AllValid}
use rateforge.Store.{
  BucketStore, oldest_of, ip_fallback_config, make_room, evict_lru_locked, get_or_create_client,
  ensure_tier, evict_oldest_ip_locked, get_or_create_ip_bucket,
}
use rateforge.Store.Safe.{
  Given, IsSound, ip_fallback_config-IsUsable, tier_default-IsUsable, fresh_client-AllValid,
}

-- The configuration that a new per-IP bucket gets.
ip_config-IsUsable :
    (o : Option BucketConfig)
    → Given IsUsable o
    → IsUsable (elim o [ none ↦ ip_fallback_config | some c ↦ c ])
ip_config-IsUsable none h = ip_fallback_config-IsUsable
ip_config-IsUsable (some c) h = h

module _ {S : Type 0} ⦃agenda : Agenda S⦄ where
  evict_lru_locked-IsSound : (s : BucketStore S) → IsSound s → IsSound (evict_lru_locked s)
  unfolding evict_lru_locked
  evict_lru_locked-IsSound s v =
      elim (Option-cases (oldest_of Multibucket.last_access none s.clients)) [
        | inl e ↦ rw (e, evict_lru_locked) v
        | inr (best, e) ↦ elim (Option-cases (Dict.lookup best.0 s.clients)) [
          | inl q ↦ rw (e, q, evict_lru_locked) v
          | inr (cb, q) ↦
              rw (e, q, evict_lru_locked)
                (either IsSound (length best.0 == 0) v (record {
                  defaults = v.defaults;
                  clients = Dict.AllValues-delete AllValid best.0 s.clients v.clients;
                  global = v.global;
                  ips = v.ips;
                  ip_config = v.ip_config;
                }))
        ]
      ]

  make_room-IsSound : (s : BucketStore S) → IsSound s → IsSound (make_room s)
  unfolding make_room
  make_room-IsSound s v = either IsSound _ (evict_lru_locked-IsSound s v) v

  pub get_or_create_client-IsSound :
      (key : Str) (now : Time) (s : BucketStore S)
      → IsSound s
      → IsClock now
      → let (found, s') = get_or_create_client key now s in AllValid found.0 × IsSound s'
  unfolding get_or_create_client
  get_or_create_client-IsSound key now s v c = elim (Option-cases (Dict.lookup key s.clients)) [
    | inr (cb, e) ↦
        rw (e, get_or_create_client)
          (Dict.AllValues-lookup AllValid key cb s.clients e v.clients, v)
    | inl e ↦
        let r = make_room-IsSound s v in
        let u = tier_default-IsUsable default_tier s.tier_defaults v.defaults in
        let fresh = fresh_client-AllValid key _ now u c in
        rw (e, get_or_create_client)
          (
            fresh,
            record {
              defaults = r.defaults;
              clients = Dict.AllValues-insert AllValid key _ (make_room s).clients fresh r.clients;
              global = r.global;
              ips = r.ips;
              ip_config = r.ip_config;
            },
          )
  ]

  pub ensure_tier-IsSound :
      (tier : Str) (now : Time) (cb : ClientBuckets) (s : BucketStore S)
      → AllValid cb
      → IsSound s
      → IsClock now
      → let (cb', s') = ensure_tier tier now cb s in AllValid cb' × IsSound s'
  unfolding ensure_tier
  ensure_tier-IsSound tier now cb s h v c =
      elim (Bool-cases (length tier == 0 || str_eq tier default_tier)) [
        | inl e ↦ rw (e, ensure_tier) (h, v)
        | inr e ↦ elim (Option-cases (Multibucket.bucket tier cb)) [
          | inr (b, q) ↦ rw (e, q, ensure_tier) (h, v)
          | inl q ↦ elim (Option-cases (Dict.lookup tier s.tier_defaults)) [
            | inl d ↦ rw (e, q, d, ensure_tier) (h, v)
            | inr (cfg, d) ↦
                let u = Dict.AllValues-lookup IsUsable tier cfg s.tier_defaults d v.defaults in
                rw (e, q, d, ensure_tier)
                  (
                    configure-AllValid tier cfg now cb u c h,
                    record {
                      defaults = v.defaults;
                      clients = v.clients;
                      global = v.global;
                      ips = v.ips;
                      ip_config = v.ip_config;
                    },
                  )
          ]
        ]
      ]

  evict_oldest_ip-IsSound : (s : BucketStore S) → IsSound s → IsSound (evict_oldest_ip_locked s)
  unfolding evict_oldest_ip_locked
  evict_oldest_ip-IsSound s v =
      elim (Option-cases (oldest_of Bucket.last_access none s.ip_buckets)) [
        | inl e ↦ rw (e, evict_oldest_ip_locked) v
        | inr (best, e) ↦
            rw (e, evict_oldest_ip_locked)
              (either IsSound (length best.0 == 0) v (record {
                defaults = v.defaults;
                clients = v.clients;
                global = v.global;
                ips = Dict.AllValues-delete IsValid best.0 s.ip_buckets v.ips;
                ip_config = v.ip_config;
              }))
      ]

  pub get_or_create_ip_bucket-IsSound :
      (ip : Str) (now : Time) (s : BucketStore S)
      → IsSound s
      → IsClock now
      → let (b, s') = get_or_create_ip_bucket ip now s in IsValid b × IsSound s'
  unfolding get_or_create_ip_bucket
  get_or_create_ip_bucket-IsSound ip now s v c = elim (Option-cases (Dict.lookup ip s.ip_buckets)) [
    | inr (b, e) ↦
        rw (e, get_or_create_ip_bucket) (Dict.AllValues-lookup IsValid ip b s.ip_buckets e v.ips, v)
    | inl e ↦
        let full = leb_ℤ s.ip_bucket_cap (pos (length s.ip_buckets)) in
        let room : IsSound (if full then evict_oldest_ip_locked s else s) =
          either IsSound full (evict_oldest_ip-IsSound s v) v in
        let b = (new-IsValid _ now (ip_config-IsUsable s.ip_config v.ip_config) c).0 in
        rw (e, get_or_create_ip_bucket)
          (
            b,
            record {
              defaults = room.defaults;
              clients = room.clients;
              global = room.global;
              ips = Dict.AllValues-insert IsValid ip _ _ b room.ips;
              ip_config = room.ip_config;
            },
          )
  ]
