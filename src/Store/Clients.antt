-- ===== src/Store/Clients.antt =====
-- The client map: eviction of the least recently used client, and the bound on the clients.
use rateforge.Base.{
  suc, ◌≤◌, ◌≡◌, ◌≢◌, refl, sym, ap, ◌∙◌, false, ◌⊎◌, inl, inr, none, some, [], ◌∷◌, arith, Str,
  str_eq, str_eq_iff, str_eq_refl, length, Bool-cases, ◌==◌, subst,
}
use rateforge.Base.Int.{pos, add64, ◌≤ℤ◌, ltb_ℤ}
use rateforge.Time.{Time}
use rateforge.Dict
use rateforge.Dict.{Dict, AllValues, IsUnique}
use rateforge.Agenda.{Agenda}
use rateforge.Multibucket
use rateforge.Multibucket.{ClientBuckets}
use rateforge.Store.{BucketStore, oldest_of, remove_tiers, evict_lru_locked}

-- The key found stands in the map with the time found, or was the best before.
pub record Found {ℓ} {V : Type ℓ} (access : V → Time) (k : Str) (t : Time) (m : Dict V)
    : Type ℓ where
  pub value : V
  pub stands : Dict.lookup k m ≡ some value
  pub at : access value ≡ t

module _ {ℓ} {V : Type ℓ} (access : V → Time) where
  abbrev pub NoOlder : Time → Dict V → Type 0
  NoOlder t = AllValues (λ v. t ≤ℤ access v)

  NoOlder-le : (t u : Time) (m : Dict V) → u ≤ℤ t → NoOlder t m → NoOlder u m
  NoOlder-le t u [] h a = tt
  NoOlder-le t u ((j, w) ∷ m) h a = (omega arith, NoOlder-le t u m h a.1)

  Found-cons :
      (j : Str) (w : V) (m : Dict V) (k : Str) (t : Time)
      → Dict.lookup j m ≡ none
      → Found access k t m
      → Found access k t ((j, w) ∷ m)
  unfolding Dict.lookup
  Found-cons j w m k t new f = record {
    value = f.value;
    stands = elim (Bool-cases (str_eq j k)) [
      | inl e ↦ let same : j ≡ k = (str_eq_iff j k).0 e in cc (rw same at new, f.stands)
      | inr e ↦ rw e f.stands
    ];
    at = f.at;
  }

  Found-head :
      (j : Str) (w : V) (m : Dict V) (k : Str) (t : Time)
      → Dict.lookup j m ≡ none
      → ((k ≡ j) × (t ≡ access w)) ⊎ Found access k t m
      → Found access k t ((j, w) ∷ m)
  unfolding Dict.lookup
  Found-head j w m k t new (inl (e, q)) = record {
    value = w;
    stands = rw (e, str_eq_refl j);
    at = sym q;
  }
  Found-head j w m k t new (inr f) = Found-cons j w m k t new f

  later-Found :
      (j : Str) (w : V) (m : Dict V) (k bk : Str) (t bt : Time)
      → Dict.lookup j m ≡ none
      → ((k ≡ bk) × (t ≡ bt)) ⊎ Found access k t m
      → ((k ≡ bk) × (t ≡ bt)) ⊎ Found access k t ((j, w) ∷ m)
  later-Found j w m k bk t bt new (inl p) = inl p
  later-Found j w m k bk t bt new (inr f) = inr (Found-cons j w m k t new f)

  oldest_of-some :
      (bk : Str) (bt : Time) (m : Dict V)
      → IsUnique m
      → (k : Str) × (t : Time) × (oldest_of access (some (bk, bt)) m ≡ some (k, t))
        × (t ≤ℤ bt)
        × NoOlder t m
        × (((k ≡ bk) × (t ≡ bt)) ⊎ Found access k t m)
  unfolding oldest_of
  oldest_of-some bk bt [] u = (bk, bt, refl, omega arith, tt, inl (refl, refl))
  oldest_of-some bk bt ((j, w) ∷ m) u = elim (Bool-cases (ltb_ℤ (access w) bt)) [
    | inl e ↦
        let (k, t, run, le, all, from) = oldest_of-some j (access w) m u.1 in
        (k, t, rw e run, ground arith, (le, all), inr (Found-head j w m k t u.0 from))
    | inr e ↦
        let (k, t, run, le, all, from) = oldest_of-some bk bt m u.1 in
        (k, t, rw e run, le, (ground arith, all), later-Found j w m k bk t bt u.0 from)
  ]

  -- In a map that is not empty the loop finds a key whose value was used at the earliest time of all.
  pub oldest_of_lem :
      (m : Dict V)
      → IsUnique m
      → m ≢ []
      → (k : Str) × (t : Time) × (oldest_of access none m ≡ some (k, t))
        × NoOlder t m
        × Found access k t m
  unfolding oldest_of
  oldest_of_lem [] u h = absurd (h refl)
  oldest_of_lem ((j, w) ∷ m) u h =
      let (k, t, run, le, all, from) = oldest_of-some j (access w) m u.1 in
      (k, t, run, (le, all), Found-head j w m k t u.0 from)

-- The clients are kept under distinct keys, none of them empty.
pub record IsKeyed {S : Type 0} (s : BucketStore S) : Type 0 where
  pub unique : IsUnique s.clients
  pub named : Dict.lookup [] s.clients ≡ none

not_empty :
    (k : Str) (cb : ClientBuckets) (m : Dict ClientBuckets)
    → Dict.lookup k m ≡ some cb
    → Dict.lookup [] m ≡ none
    → (length k == 0) ≡ false
not_empty [] cb m h e = cc
not_empty (c ∷ k) cb m h e = ground arith

module _ {S : Type 0} ⦃agenda : Agenda S⦄ where
  -- What an eviction does to a store with clients: the client used least recently goes, and with it
  -- the scheduled refills of its tiers.
  pub record Evicted (s s' : BucketStore S) : Type 0 where
    pub victim : Str
    pub buckets : ClientBuckets
    pub there : Dict.lookup victim s.clients ≡ some buckets
    pub oldest : NoOlder Multibucket.last_access (Multibucket.last_access buckets) s.clients
    pub gone : s' ≡ record s {
      clients = Dict.delete victim s.clients;
      evictions = add64 s.evictions (pos 1);
      scheduler = remove_tiers victim (Multibucket.tiers buckets) s.scheduler;
    }

  -- In a store with clients, under distinct keys that are not empty, the eviction takes out exactly
  -- one key, of a client than which none was used longer ago, takes the ids of its tiers off the
  -- scheduler, counts one eviction, in 64 bits, and changes nothing else.
  pub evict_lru_locked-Evicted :
      (s : BucketStore S) → IsKeyed s → s.clients ≢ [] → Evicted s (evict_lru_locked s)
  unfolding evict_lru_locked
  evict_lru_locked-Evicted s v h =
      let (k, t, run, all, f) = oldest_of_lem Multibucket.last_access s.clients v.unique h in
      record {
        victim = k;
        buckets = f.value;
        there = f.stands;
        oldest = rw f.at all;
        gone = rw (run, f.stands, not_empty k f.value s.clients f.stands v.named, evict_lru_locked);
      }

  pub evict_lru_locked-IsKeyed :
      (s : BucketStore S) → IsKeyed s → s.clients ≢ [] → IsKeyed (evict_lru_locked s)
  evict_lru_locked-IsKeyed s v h =
      let e = evict_lru_locked-Evicted s v h in
      subst IsKeyed (sym e.gone) (record {
        unique = Dict.IsUnique-delete e.victim s.clients v.unique;
        named = Dict.lookup-delete e.victim [] s.clients ∙ ground arith;
      })

  -- An eviction makes room.
  pub length-evict_lru_locked :
      (s : BucketStore S)
      → IsKeyed s
      → s.clients ≢ []
      → suc (length (evict_lru_locked s).clients) ≤ length s.clients
  length-evict_lru_locked s v h =
      let e = evict_lru_locked-Evicted s v h in
      rw (ap (λ (x : BucketStore S). x.clients) e.gone)
        (Dict.length-delete_present e.victim e.buckets s.clients e.there)
