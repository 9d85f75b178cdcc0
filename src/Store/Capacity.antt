-- ===== src/Store/Capacity.antt =====
-- Creating a client: room at capacity and the bound on the clients.
use rateforge.Base.{
  ◌≡◌, ◌≢◌, refl, sym, ap, false, inl, inr, none, some, [], arith, if◌then◌else◌, Str, str_eq,
  str_eq_iff, str_eq_refl, length, Bool-cases, Option-cases, subst,
}
use rateforge.Base.Int.{ℤ, pos, ◌≤ℤ◌, ◌<ℤ◌, leb_ℤ}
use rateforge.Time.{Time}
use rateforge.Dict
use rateforge.Dict.{Dict, AllValues, IsUnique}
use rateforge.Agenda.{Agenda}
use rateforge.Multibucket.{ClientBuckets, default_tier}
use rateforge.Store.{
  BucketStore, evict_lru_locked, make_room, get_or_create_client, fresh_client, tier_default,
}
use rateforge.Store.Clients.{
  IsKeyed, evict_lru_locked-Evicted, evict_lru_locked-IsKeyed, length-evict_lru_locked,
}

not_key :
    (cb : ClientBuckets) (m : Dict ClientBuckets) (key : Str)
    → key ≢ []
    → Dict.lookup [] m ≡ none
    → (if str_eq key [] then some cb else Dict.lookup [] m) ≡ none
not_key cb m key h e = ground (arith, str_eq_iff key [], e)

bound_insert :
    (key : Str) (cb : ClientBuckets) (m : Dict ClientBuckets) (limit : ℤ)
    → pos (length m) <ℤ limit
    → (pos 0 <ℤ limit) × (pos (length (Dict.insert key cb m)) ≤ℤ limit)
bound_insert key cb m limit h = ground (arith, Dict.length-insert key cb m)

module _ {S : Type 0} where
  -- The bound on the clients, where there is one.
  abbrev pub IsBounded : BucketStore S → Type 0
  IsBounded s = (pos 0 <ℤ s.max_clients) × (pos (length s.clients) ≤ℤ s.max_clients)

module _ {S : Type 0} ⦃agenda : Agenda S⦄ where
  make_room-full :
      (s : BucketStore S)
      → pos 0 <ℤ s.max_clients
      → s.max_clients ≤ℤ pos (length s.clients)
      → make_room s ≡ evict_lru_locked s
  unfolding make_room
  make_room-full s h k = ground arith

  make_room-space : (s : BucketStore S) → pos (length s.clients) <ℤ s.max_clients → make_room s ≡ s
  unfolding make_room
  make_room-space s h = ground arith

  -- The store after making room for one more client.
  record Roomy (s r : BucketStore S) : Type 0 where
    keyed : IsKeyed r
    space : pos (length r.clients) <ℤ r.max_clients

  make_room-Roomy : (s : BucketStore S) → IsKeyed s → IsBounded s → Roomy s (make_room s)
  make_room-Roomy s v b = elim (Bool-cases (leb_ℤ s.max_clients (pos (length s.clients)))) [
    | inl full ↦
        let some_client : s.clients ≢ [] = λ e. ground (arith, ap length e) in
        let fewer = length-evict_lru_locked s v some_client in
        let e = evict_lru_locked-Evicted s v some_client in
        let limit = ap (λ (x : BucketStore S). x.max_clients) e.gone in
        subst (Roomy s) (sym (make_room-full s b.0 (ground arith))) (record {
          keyed = evict_lru_locked-IsKeyed s v some_client;
          space = rw limit (omega (arith, fewer, b.1));
        })
    | inr space ↦
        let free : pos (length s.clients) <ℤ s.max_clients = ground arith in
        subst (Roomy s) (sym (make_room-space s free)) (record { keyed = v; space = free })
  ]

  -- In a store whose clients stand under distinct keys that are not empty, and are no more than a
  -- positive MaxClients, getOrCreateClient for a key that is not empty keeps both so; the client it
  -- returns is in the map afterwards, and where none was created the store is as before.
  pub get_or_create_client_lem :
      (key : Str) (now : Time) (s : BucketStore S)
      → IsKeyed s
      → IsBounded s
      → key ≢ []
      → let ((cb, created), s') = get_or_create_client key now s in
        IsKeyed s'
        × IsBounded s'
        × (Dict.lookup key s'.clients ≡ some cb)
        × (created ≡ false → s' ≡ s)
  unfolding get_or_create_client
  get_or_create_client_lem key now s v b h = elim (Option-cases (Dict.lookup key s.clients)) [
    | inr (cb, e) ↦ rw (e, get_or_create_client) (v, b, e, λ _. refl)
    | inl e ↦
        let r = make_room-Roomy s v b in
        let cb = fresh_client key (tier_default default_tier s.tier_defaults) now in
        let m = (make_room s).clients in
        rw (e, get_or_create_client)
          (
            record {
              unique = Dict.IsUnique-insert key cb m r.keyed.unique;
              named = rw (Dict.lookup-insert key [] cb m) (not_key cb m key h r.keyed.named);
            },
            (bound_insert key cb m (make_room s).max_clients r.space),
            rw (Dict.lookup-insert key key cb m, str_eq_refl key),
            λ q. cc,
          )
  ]
