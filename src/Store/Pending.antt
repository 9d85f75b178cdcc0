-- ===== src/Store/Pending.antt =====
-- What the store leaves pending with the scheduler, and what a new configuration puts in place.
use mathlib.Core.Option.{some-ne-none}
use rateforge.Base.{
  ◌≡◌, ◌∙◌, refl, sym, ap, Bool, false, inl, inr, Option, none, some, List, [], ◌∷◌, arith,
  if◌then◌else◌, Str, str_eq, str_eq_iff, str_eq_refl, Bool-cases, Option-cases, All, ◌≢◌,
}
use rateforge.Base.Int.{pos, ltb_ℤ}
use rateforge.Time.{Time}
use rateforge.Dict
use rateforge.Agenda.{Agenda}
use rateforge.Bucket
use rateforge.Bucket.{Bucket, BucketConfig}
use rateforge.Multibucket
use rateforge.Multibucket.{ClientBuckets, tier_or_default}
use rateforge.Store.{
  BucketStore, encode_id, remove_id, remove_tiers, register, evict_lru_locked, make_room,
  get_or_create_client,
}
use rateforge.Store.Admin.{ensure_client, update_client_config, tier_config}
use rateforge.Store.Clients.{IsKeyed, evict_lru_locked-Evicted}

-- The first refill that a configuration asks for.
abbrev pub first_refill : BucketConfig → Bucket → Option Time
first_refill cfg b =
    if ltb_ℤ (pos 0) cfg.refill_interval then some (Bucket.next_refill_time b) else none

bucket-configure :
    (tier : Str) (cfg : BucketConfig) (now : Time) (cb : ClientBuckets)
    → Multibucket.bucket
        (tier_or_default tier)
        (Multibucket.configure (tier_or_default tier) cfg now cb)
      ≡ some (Bucket.new cfg now)
unfolding Multibucket.bucket Multibucket.configure
bucket-configure tier cfg now cb =
    let t = tier_or_default (tier_or_default tier) in
    Dict.lookup-insert t t (Bucket.new cfg now) cb.buckets
    ∙ ap (λ (q : Bool). if q then some (Bucket.new cfg now) else Dict.lookup t cb.buckets)
        (str_eq_refl t)

capacity-new : (cfg : BucketConfig) (now : Time) → (Bucket.new cfg now).tokens ≡ cfg.max_tokens
unfolding Bucket.new Bucket.normalize
capacity-new cfg now = ground arith

module _ {S : Type 0} ⦃agenda : Agenda S⦄ where
  -- The time pending for an id, if a scheduler is attached.
  abbrev pub pending_at : Str → Option S → Option Time
  pending_at id none = none
  pending_at id (some sched) = agenda.pending id sched

  register_lem :
      (id : Str) (cfg : BucketConfig) (b : Bucket) (sched : S)
      → pending_at id (register id cfg (some b) (remove_id id (some sched))) ≡ first_refill cfg b
  unfolding register
  register_lem id cfg b sched = elim (Bool-cases (ltb_ℤ (pos 0) cfg.refill_interval)) [
    | inl due ↦ rw (
      due,
      agenda.pending-schedule id id (Bucket.next_refill_time b) (agenda.remove id sched),
      str_eq_refl id,
    )
    | inr idle ↦ rw (idle, agenda.pending-remove id id sched, str_eq_refl id)
  ]

  pending_at-remove_id :
      (id j : Str) (sched : Option S)
      → pending_at j (remove_id id sched) ≡ (if str_eq id j then none else pending_at j sched)
  pending_at-remove_id id j none = ground arith
  pending_at-remove_id id j (some sched) = agenda.pending-remove id j sched

  remove_tiers-keeps_none :
      (key j : Str) (tiers : List Str) (sched : Option S)
      → pending_at j sched ≡ none
      → pending_at j (remove_tiers key tiers sched) ≡ none
  unfolding remove_tiers
  remove_tiers-keeps_none key j [] sched h = h
  remove_tiers-keeps_none key j (t ∷ tiers) sched h =
      remove_tiers-keeps_none key j tiers (remove_id (encode_id key t) sched)
        (ground (arith, pending_at-remove_id (encode_id key t) j sched))

  remove_tiers-clears :
      (key : Str) (tiers : List Str) (sched : Option S)
      → All (λ t. pending_at (encode_id key t) (remove_tiers key tiers sched) ≡ none) tiers
  unfolding remove_tiers
  remove_tiers-clears key [] sched = tt
  remove_tiers-clears key (t ∷ tiers) sched =
      let id = encode_id key t in
      (
        remove_tiers-keeps_none key id tiers (remove_id id sched)
            (ground (arith, pending_at-remove_id id id sched, str_eq_refl id)),
        remove_tiers-clears key tiers (remove_id id sched),
      )

  -- If a client of a store, whose clients stand under distinct keys that are not empty, is gone
  -- after an eviction, the scheduler has nothing pending for any of its tiers.
  pub evict_lru_locked-pending :
      (s : BucketStore S) (key : Str) (cb : ClientBuckets)
      → IsKeyed s
      → Dict.lookup key s.clients ≡ some cb
      → Dict.lookup key (evict_lru_locked s).clients ≡ none
      → All
          (λ t. pending_at (encode_id key t) (evict_lru_locked s).scheduler ≡ none)
          (Multibucket.tiers cb)
  unfolding Dict.lookup
  evict_lru_locked-pending s key cb v there gone =
      let filled : s.clients ≢ [] = λ e. some-ne-none cb (sym there ∙ ap (Dict.lookup key) e) in
      let e = evict_lru_locked-Evicted s v filled in
      let left =
        sym gone
        ∙ ap (λ (x : BucketStore S). Dict.lookup key x.clients) e.gone
        ∙ Dict.lookup-delete e.victim key s.clients in
      elim (Bool-cases (str_eq e.victim key)) [
        | inr other ↦ absurd (some-ne-none cb (sym there ∙ sym (rw other at left)))
        | inl same ↦
            let k : e.victim ≡ key = (str_eq_iff e.victim key).0 same in
            let c : e.buckets ≡ cb = cc (rw k at e.there, there) in
            rw (e.gone, k, c) (remove_tiers-clears key (Multibucket.tiers cb) s.scheduler)
      ]

  -- A scheduler once attached stays.
  remove_tiers-attached :
      (key : Str) (tiers : List Str) (sched : Option S)
      → sched ≢ none
      → remove_tiers key tiers sched ≢ none
  unfolding remove_tiers
  remove_tiers-attached key [] sched h = h
  remove_tiers-attached key (t ∷ tiers) none h = absurd (h refl)
  remove_tiers-attached key (t ∷ tiers) (some x) h =
      remove_tiers-attached key tiers (remove_id (encode_id key t) (some x))
        (some-ne-none (agenda.remove (encode_id key t) x))

  evict_lru_locked-attached :
      (s : BucketStore S) → s.scheduler ≢ none → (evict_lru_locked s).scheduler ≢ none
  unfolding evict_lru_locked
  evict_lru_locked-attached s h = grind (arith, remove_tiers-attached)

  register-attached :
      (id : Str) (cfg : BucketConfig) (b : Option Bucket) (sched : Option S)
      → sched ≢ none
      → register id cfg b sched ≢ none
  unfolding register
  register-attached id cfg none sched h = h
  register-attached id cfg (some b) none h = h
  register-attached id cfg (some b) (some x) h = ground arith

  get_or_create_client-attached :
      (key : Str) (now : Time) (s : BucketStore S)
      → s.scheduler ≢ none
      → (get_or_create_client key now s).1.scheduler ≢ none
  unfolding get_or_create_client make_room
  get_or_create_client-attached key now s h =
      grind (arith, evict_lru_locked-attached, register-attached)

  -- After UpdateClientConfig the client has for the tier a new bucket of the configuration, full
  -- and not blocked whatever stood there before; TierConfig reports the configuration normalised;
  -- and if a scheduler is attached, the time pending for the tier is that of the bucket's first
  -- refill, or none if RefillInterval is not positive.
  pub update_client_config_lem :
      (key tier : Str) (cfg : BucketConfig) (now : Time) (s : BucketStore S)
      → let s' = update_client_config key tier cfg now s in
        let b = Bucket.new cfg now in
        ((cb : ClientBuckets) × (Dict.lookup key s'.clients ≡ some cb)
          × (Multibucket.bucket (tier_or_default tier) cb ≡ some b))
        × (b.blocked ≡ false)
        × (b.tokens ≡ cfg.max_tokens)
        × (tier_config key tier s' ≡ Bucket.normalize cfg)
        × (s.scheduler ≢ none
            → pending_at (encode_id key (tier_or_default tier)) s'.scheduler ≡ first_refill cfg b)
  unfolding update_client_config ensure_client tier_config Bucket.new
  update_client_config_lem key tier cfg now s =
      let ((cb, created), s1) = get_or_create_client key now s in
      let cb' = Multibucket.configure (tier_or_default tier) cfg now cb in
      let found = bucket-configure tier cfg now cb in
      let there =
        Dict.lookup-insert key key cb' s1.clients
        ∙ ap (λ (q : Bool). if q then some cb' else Dict.lookup key s1.clients) (str_eq_refl key) in
      (
        (cb', there, found),
        refl,
        capacity-new cfg now,
        rw (there, found, tier_config),
        λ h. elim (Option-cases s1.scheduler) [
          | inl e ↦ absurd (get_or_create_client-attached key now s h e)
          | inr (x, e) ↦ rw (e, found) (register_lem _ cfg (Bucket.new cfg now) x)
        ],
      )
