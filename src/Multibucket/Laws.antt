-- ===== src/Multibucket/Laws.antt =====
-- What the methods of a client's buckets change, and what they leave.
use rateforge.Base.{
  ◌≡◌, refl, ap, Bool, true, false, none, some, [], ◌∷◌, arith, if◌then◌else◌, Str, str_eq,
  Bool-cases, Option-cases, inl, inr,
}
use rateforge.Base.Int.{◌≤ℤ◌, ltb_ℤ}
use rateforge.Time.{Time, Duration, second, zero_time}
use rateforge.Dict
use rateforge.Dict.{Dict, AllValues}
use rateforge.Bucket
use rateforge.Bucket.{Bucket, BucketConfig}
use rateforge.Bucket.Valid.{IsClock}
use rateforge.Bucket.Refine.{IsValid}
use rateforge.Bucket.Allow.{allow_refines}
use rateforge.Bucket.Life.{IsUsable, new-IsValid, block_lem}
use rateforge.Multibucket.{
  ClientBuckets, tier_or_default, configure, serving_tier, allow, map_values, block_all,
  unblock_all, any_blocked, is_blocked, latest_access, last_access,
}

-- Every bucket of the client is valid.
abbrev pub AllValid : ClientBuckets → Type 0
AllValid cb = AllValues IsValid cb.buckets

-- Configuring a tier gives it a new bucket and leaves the other tiers alone.
pub configure_lem :
    (tier j : Str) (cfg : BucketConfig) (now : Time) (cb : ClientBuckets)
    → Dict.lookup j (configure tier cfg now cb).buckets ≡ (
        if str_eq (tier_or_default tier) j
        then some (Bucket.new cfg now)
        else Dict.lookup j cb.buckets)
unfolding configure
configure_lem tier j cfg now cb =
    Dict.lookup-insert (tier_or_default tier) j (Bucket.new cfg now) cb.buckets

pub configure-AllValid :
    (tier : Str) (cfg : BucketConfig) (now : Time) (cb : ClientBuckets)
    → IsUsable cfg
    → IsClock now
    → AllValid cb
    → AllValid (configure tier cfg now cb)
unfolding configure
configure-AllValid tier cfg now cb u c v =
    Dict.AllValues-insert IsValid (tier_or_default tier) (Bucket.new cfg now) cb.buckets
      (new-IsValid cfg now u c).0 v

-- A request is answered by the bucket of the serving tier, which alone changes; where there is none
-- it is refused with a wait of one second and nothing changes.
allow_lem :
    (tier j : Str) (now : Time) (cb : ClientBuckets)
    → let (answer, cb') = allow tier now cb in
      let served = serving_tier tier cb in
      (answer ≡ (elim (Dict.lookup served cb.buckets) [
        | none ↦ (false, second)
        | some b ↦ (Bucket.allow now b).0
      ]))
      × (Dict.lookup j cb'.buckets ≡ (elim (Dict.lookup served cb.buckets) [
        | none ↦ Dict.lookup j cb.buckets
        | some b ↦ if str_eq served j then some (Bucket.allow now b).1 else Dict.lookup j cb.buckets
      ]))
unfolding allow
allow_lem tier j now cb = elim (Option-cases (Dict.lookup (serving_tier tier cb) cb.buckets)) [
  | inl e ↦ rw (e, allow) (refl, refl)
  | inr (b, e) ↦
      rw (e, allow)
        (refl, Dict.lookup-insert (serving_tier tier cb) j (Bucket.allow now b).1 cb.buckets)
]

pub allow-AllValid :
    (tier : Str) (now : Time) (cb : ClientBuckets)
    → IsClock now
    → AllValid cb
    → AllValid (allow tier now cb).1
unfolding allow
allow-AllValid tier now cb c v =
    elim (Option-cases (Dict.lookup (serving_tier tier cb) cb.buckets)) [
      | inl e ↦ rw (e, allow) v
      | inr (b, e) ↦
          let old = Dict.AllValues-lookup IsValid (serving_tier tier cb) b cb.buckets e v in
          rw (e, allow)
            (Dict.AllValues-insert IsValid (serving_tier tier cb) (Bucket.allow now b).1 cb.buckets
              (allow_refines now b old c).1 v)
    ]

lookup-map_values :
    (f : Bucket → Bucket) (t : Str) (m : Dict Bucket)
    → Dict.lookup t (map_values f m)
      ≡ (elim (Dict.lookup t m) [ none ↦ none | some b ↦ some (f b) ])
unfolding map_values Dict.lookup
lookup-map_values f t [] = refl
lookup-map_values f t ((j, b) ∷ m) = elim (Bool-cases (str_eq j t)) [
  | inl e ↦ rw e
  | inr e ↦ rw e (lookup-map_values f t m)
]

-- After BlockAll a request is refused, whatever the tier and whatever the buckets.
block_all-allow :
    (tier : Str) (now : Time) (cb : ClientBuckets) → (allow tier now (block_all cb)).0.0 ≡ false
unfolding allow block_all
block_all-allow tier now cb =
    let served = serving_tier tier (block_all cb) in
    let at = lookup-map_values Bucket.block served cb.buckets in
    elim (Option-cases (Dict.lookup served cb.buckets)) [
      | inl e ↦ rw (at, e, allow)
      | inr (b, e) ↦
          rw (at, e, allow) (ap (λ (r : (Bool × Duration) × Bucket). r.0.0) (block_lem now b).0)
    ]

any_blocked-unblock : (m : Dict Bucket) → any_blocked (map_values Bucket.unblock m) ≡ false
unfolding any_blocked map_values Bucket.unblock Bucket.is_blocked
any_blocked-unblock [] = refl
any_blocked-unblock ((t, b) ∷ m) = any_blocked-unblock m

pub unblock_all-is_blocked : (cb : ClientBuckets) → is_blocked (unblock_all cb) ≡ false
unfolding is_blocked unblock_all
unblock_all-is_blocked cb = any_blocked-unblock cb.buckets

any_blocked-block :
    (t : Str) (b : Bucket) (m : Dict Bucket)
    → Dict.lookup t m ≡ some b
    → any_blocked (map_values Bucket.block m) ≡ true
unfolding any_blocked map_values Bucket.block Bucket.is_blocked Dict.lookup
any_blocked-block t b [] h = cc
any_blocked-block t b (x ∷ m) h = refl

-- A client with a bucket is blocked by blocking it.
pub block_all-is_blocked :
    (cb : ClientBuckets) (t : Str) (b : Bucket)
    → Dict.lookup t cb.buckets ≡ some b
    → is_blocked (block_all cb) ≡ true
unfolding is_blocked block_all
block_all-is_blocked cb t b e = any_blocked-block t b cb.buckets e

latest_access-le : (latest : Time) (m : Dict Bucket) → latest ≤ℤ latest_access latest m
unfolding latest_access
latest_access-le latest [] = omega arith
latest_access-le latest ((t, b) ∷ m) =
    let at = Bucket.last_access b in
    elim (Bool-cases (ltb_ℤ latest at)) [
      | inl e ↦ rw e (ground (arith, latest_access-le at m))
      | inr e ↦ rw e (latest_access-le latest m)
    ]

latest_access-lookup :
    (latest : Time) (t : Str) (b : Bucket) (m : Dict Bucket)
    → Dict.lookup t m ≡ some b
    → Bucket.last_access b ≤ℤ latest_access latest m
unfolding latest_access Dict.lookup
latest_access-lookup latest t b [] h = cc
latest_access-lookup latest t b ((j, c) ∷ m) h =
    let next = if ltb_ℤ latest (Bucket.last_access c) then Bucket.last_access c else latest in
    let seen : Bucket.last_access c ≤ℤ next = ground arith in
    elim (Bool-cases (str_eq j t)) [
      | inl e ↦
          let same : c ≡ b = cc (rw e at h) in
          rw (← same) (omega (arith, seen, latest_access-le next m))
      | inr e ↦ latest_access-lookup next t b m (rw e at h)
    ]

-- No bucket that the client has was used later than LastAccess says.
last_access-max :
    (t : Str) (b : Bucket) (cb : ClientBuckets)
    → Dict.lookup t cb.buckets ≡ some b
    → Bucket.last_access b ≤ℤ last_access cb
unfolding last_access
last_access-max t b cb h = latest_access-lookup zero_time t b cb.buckets h
