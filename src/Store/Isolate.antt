-- ===== src/Store/Isolate.antt =====
-- What Allow for one client does to the entries of the others.
use rateforge.Base.{
  ◌≡◌, ◌≢◌, refl, ap, ◌∙◌, subst, false, ◌⊎◌, inl, inr, none, arith, if◌then◌else◌, Str, str_eq,
  str_eq_iff, length, ◌==◌, Bool-cases, Option-cases, either,
}
use rateforge.Time.{Time, is_zero}
use rateforge.Dict
use rateforge.Dict.{Dict}
use rateforge.Agenda.{Agenda}
use rateforge.Multibucket
use rateforge.Multibucket.{ClientBuckets}
use rateforge.Store.{
  BucketStore, AllowRequest, AllowResult, oldest_of, make_room, evict_lru_locked,
  get_or_create_client, ensure_tier,
}
use rateforge.Store.Serve.{global_gate, ip_gate, client_gate, allow}
use rateforge.Store.Gates.{clients-global_gate, clients-ip_gate}

different : (k j : Str) → k ≢ j → str_eq k j ≡ false
different k j h = ground (arith, str_eq_iff k j)

module _ {S : Type 0} ⦃agenda : Agenda S⦄ where
  -- What an operation may do to the entry of a client that it is not about: evict it or leave it.
  abbrev pub Spared : Str → BucketStore S → BucketStore S → Type 0
  Spared j s s' =
      (Dict.lookup j s'.clients ≡ none) ⊎ (Dict.lookup j s'.clients ≡ Dict.lookup j s.clients)

  evict_lru_locked-Spared : (j : Str) (s : BucketStore S) → Spared j s (evict_lru_locked s)
  unfolding evict_lru_locked
  evict_lru_locked-Spared j s =
      elim (Option-cases (oldest_of Multibucket.last_access none s.clients)) [
        | inl e ↦ rw (e, evict_lru_locked) (inr refl)
        | inr (best, e) ↦ elim (Option-cases (Dict.lookup best.0 s.clients)) [
          | inl q ↦ rw (e, q, evict_lru_locked) (inr refl)
          | inr (cb, q) ↦ elim (Bool-cases (length best.0 == 0)) [
            | inl z ↦ rw (e, q, z, evict_lru_locked) (inr refl)
            | inr z ↦
                rw (e, q, z, evict_lru_locked)
                  (ground (arith, Dict.lookup-delete best.0 j s.clients))
          ]
        ]
      ]

  make_room-Spared : (j : Str) (s : BucketStore S) → Spared j s (make_room s)
  unfolding make_room
  make_room-Spared j s = ground (arith, evict_lru_locked-Spared j s)

  get_or_create_client-Spared :
      (key j : Str) (now : Time) (s : BucketStore S)
      → key ≢ j
      → Spared j s (get_or_create_client key now s).1
  unfolding get_or_create_client
  get_or_create_client-Spared key j now s h = elim (Option-cases (Dict.lookup key s.clients)) [
    | inr (cb, e) ↦ rw (e, get_or_create_client) (inr refl)
    | inl e ↦
        rw
          (
            e,
            get_or_create_client,
            Dict.lookup-insert key j _ (make_room s).clients,
            different key j h,
          )
          (make_room-Spared j s)
  ]

  clients-ensure_tier :
      (tier : Str) (now : Time) (cb : ClientBuckets) (s : BucketStore S)
      → (ensure_tier tier now cb s).1.clients ≡ s.clients
  unfolding ensure_tier
  clients-ensure_tier tier now cb s = ground arith

  -- The store that the third gate leaves has what creating the client left, or that with the client's
  -- new buckets.
  abbrev pub Touched : Str → BucketStore S → AllowResult × BucketStore S → Type 0
  Touched key s1 r =
      (r.1.max_clients ≡ s1.max_clients)
      × ((r.1.clients ≡ s1.clients)
          ⊎ ((cb : ClientBuckets) × (r.1.clients ≡ Dict.insert key cb s1.clients)))

  bound-ensure_tier :
      (tier : Str) (now : Time) (cb : ClientBuckets) (s : BucketStore S)
      → (ensure_tier tier now cb s).1.max_clients ≡ s.max_clients
  unfolding ensure_tier
  bound-ensure_tier tier now cb s = ground arith

  pub client_gate-Touched :
      (req : AllowRequest) (now : Time) (s : BucketStore S)
      → Touched req.client_key (get_or_create_client req.client_key now s).1 (client_gate req now s)
  unfolding client_gate
  client_gate-Touched req now s =
      let ((cb, created), s1) = get_or_create_client req.client_key now s in
      let (tiered, s2) = ensure_tier req.tier now cb s1 in
      let cb' = (Multibucket.allow req.tier now tiered).1 in
      let served : (s2.max_clients ≡ s1.max_clients)
          × ((Dict.insert req.client_key cb' s2.clients ≡ s1.clients)
              ⊎ ((c : ClientBuckets) × (Dict.insert req.client_key cb' s2.clients
                    ≡ Dict.insert req.client_key c s1.clients))) =
        (
          bound-ensure_tier req.tier now cb s1,
          inr (cb', ap (Dict.insert req.client_key cb') (clients-ensure_tier req.tier now cb s1)),
        ) in
      let touched = Touched req.client_key s1 in
      either touched (Multibucket.is_blocked cb) (refl, inl refl)
        (either touched (Multibucket.allow req.tier now tiered).0.0 served served)

  client_gate-Spared :
      (req : AllowRequest) (now : Time) (j : Str) (s : BucketStore S)
      → req.client_key ≢ j
      → Spared j s (client_gate req now s).1
  client_gate-Spared req now j s h =
      let key = req.client_key in
      let s1 = (get_or_create_client key now s).1 in
      let before = get_or_create_client-Spared key j now s h in
      elim (client_gate-Touched req now s).1 [
        | inl e ↦ rw e before
        | inr (cb, e) ↦ rw (e, Dict.lookup-insert key j cb s1.clients, different key j h) before
      ]

  -- Allow for a client leaves the entry of every other client in the map as it was, or takes it
  -- out.
  pub allow-Spared :
      (clock : Time) (req : AllowRequest) (j : Str) (s : BucketStore S)
      → req.client_key ≢ j
      → Spared j s (allow clock req s).1
  unfolding allow
  allow-Spared clock req j s h =
      let now = if is_zero req.now then clock else req.now in
      let s1 = (global_gate now s).1 in
      let s2 = (ip_gate req.source_ip now s1).1 in
      let one : s1.clients ≡ s.clients = clients-global_gate now s in
      let two : s2.clients ≡ s.clients = clients-ip_gate req.source_ip now s1 ∙ one in
      let spared : AllowResult × BucketStore S → Type 0 = λ r. Spared j s r.1 in
      either spared (global_gate now s).0.0
        (either spared (ip_gate req.source_ip now s1).0.0
          (subst
            (λ (m : Dict ClientBuckets).
              (Dict.lookup j (client_gate req now s2).1.clients ≡ none)
              ⊎ (Dict.lookup j (client_gate req now s2).1.clients ≡ Dict.lookup j m))
            two (client_gate-Spared req now j s2 h))
          (inr (ap (Dict.lookup j) two)))
        (inr (ap (Dict.lookup j) one))
