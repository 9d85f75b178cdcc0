-- ===== src/Dict.antt =====
-- Go maps keyed by strings: association lists, whose order stands for the order in which `range`
-- visits the entries (Go leaves it open; no theorem depends on which order it is).
use rateforge.Base.{
  suc, ◌+◌, ◌≡◌, refl, false, Option, none, some, List, [], ◌∷◌, arith, if◌then◌else◌, length, Str,
  str_eq, str_eq_iff, ◌≤◌, Bool-cases, inl, inr, subst,
}

abbrev pub Dict {ℓ} : Type ℓ → Type ℓ
Dict V = List (Str × V)

module _ {ℓ} {V : Type ℓ} where
  unfoldable pub lookup : Str → Dict V → Option V
  lookup k [] = none
  lookup k ((j, v) ∷ m) = if str_eq j k then some v else lookup k m

  unfoldable pub insert : Str → V → Dict V → Dict V
  insert k v [] = (k, v) ∷ []
  insert k v ((j, w) ∷ m) = if str_eq j k then (k, v) ∷ m else (j, w) ∷ insert k v m

  unfoldable pub delete : Str → Dict V → Dict V
  delete k [] = []
  delete k ((j, w) ∷ m) = if str_eq j k then delete k m else (j, w) ∷ delete k m

  unfoldable pub keys : Dict V → List Str
  keys [] = []
  keys ((j, w) ∷ m) = j ∷ keys m

  pub lookup-insert :
      (k j : Str) (v : V) (m : Dict V)
      → lookup j (insert k v m) ≡ (if str_eq k j then some v else lookup j m)
  unfolding lookup insert
  lookup-insert k j v [] = refl
  lookup-insert k j v ((i, w) ∷ m) =
      ground (arith, str_eq_iff k j, str_eq_iff i k, str_eq_iff i j, lookup-insert k j v m)

  pub lookup-delete :
      (k j : Str) (m : Dict V) → lookup j (delete k m) ≡ (if str_eq k j then none else lookup j m)
  unfolding lookup delete
  lookup-delete k j [] = ground arith
  lookup-delete k j ((i, w) ∷ m) =
      ground (arith, str_eq_iff k j, str_eq_iff i k, str_eq_iff i j, lookup-delete k j m)

  -- An insertion adds an entry exactly for a new key.
  pub length-insert :
      (k : Str) (v : V) (m : Dict V)
      → length (insert k v m) ≡ (elim (lookup k m) [ none ↦ length m + 1 | some _ ↦ length m ])
  unfolding lookup insert
  length-insert k v [] = omega arith
  length-insert k v ((i, w) ∷ m) = ground (arith, length-insert k v m)

  pub length-delete : (k : Str) (m : Dict V) → length (delete k m) ≤ length m
  unfolding delete
  length-delete k [] = omega arith
  length-delete k ((i, w) ∷ m) = ground (arith, length-delete k m)

  -- A deletion of a key that is there takes at least one entry out.
  pub length-delete_present :
      (k : Str) (v : V) (m : Dict V) → lookup k m ≡ some v → suc (length (delete k m)) ≤ length m
  unfolding delete lookup
  length-delete_present k v [] e = cc
  length-delete_present k v ((i, w) ∷ m) e =
      ground (arith, length-delete k m, length-delete_present k v m)

  -- Every value of the map satisfies `P`.
  abbrev pub AllValues {κ} : (V → Type κ) → Dict V → Type κ
  AllValues P [] = Unit
  AllValues P ((j, w) ∷ m) = P w × AllValues P m

module _ {ℓ κ} {V : Type ℓ} (P : V → Type κ) where
  pub AllValues-insert :
      (k : Str) (v : V) (m : Dict V) → P v → AllValues P m → AllValues P (insert k v m)
  unfolding insert
  AllValues-insert k v [] h a = (h, tt)
  AllValues-insert k v ((j, w) ∷ m) h a = elim (Bool-cases (str_eq j k)) [
    | inl e ↦ rw e (h, a.1)
    | inr e ↦ rw e (a.0, AllValues-insert k v m h a.1)
  ]

  pub AllValues-delete : (k : Str) (m : Dict V) → AllValues P m → AllValues P (delete k m)
  unfolding delete
  AllValues-delete k [] a = tt
  AllValues-delete k ((j, w) ∷ m) a = elim (Bool-cases (str_eq j k)) [
    | inl e ↦ rw e (AllValues-delete k m a.1)
    | inr e ↦ rw e (a.0, AllValues-delete k m a.1)
  ]

  pub AllValues-lookup : (k : Str) (v : V) (m : Dict V) → lookup k m ≡ some v → AllValues P m → P v
  unfolding lookup
  AllValues-lookup k v [] e a = cc
  AllValues-lookup k v ((j, w) ∷ m) e a = elim (Bool-cases (str_eq j k)) [
    | inl q ↦ let same : w ≡ v = cc (rw q at e) in subst P same a.0
    | inr q ↦ AllValues-lookup k v m (rw q at e) a.1
  ]

-- Each key stands once.
abbrev pub IsUnique {ℓ} : {V : Type ℓ} → Dict V → Type ℓ
IsUnique [] = Unit
IsUnique ((j, w) ∷ m) = (lookup j m ≡ none) × IsUnique m

module _ {ℓ} {V : Type ℓ} where
  pub IsUnique-insert : (k : Str) (v : V) (m : Dict V) → IsUnique m → IsUnique (insert k v m)
  unfolding insert lookup
  IsUnique-insert k v [] u = (refl, tt)
  IsUnique-insert k v ((j, w) ∷ m) u = elim (Bool-cases (str_eq j k)) [
    | inl e ↦ let same = (str_eq_iff j k).0 e in rw e (rw (← same) u.0, u.1)
    | inr e ↦
        let other : str_eq k j ≡ false = ground (arith, str_eq_iff k j, str_eq_iff j k) in
        rw e (rw (lookup-insert k j v m, other) u.0, IsUnique-insert k v m u.1)
  ]

  pub IsUnique-delete : (k : Str) (m : Dict V) → IsUnique m → IsUnique (delete k m)
  unfolding delete
  IsUnique-delete k [] u = tt
  IsUnique-delete k ((j, w) ∷ m) u = elim (Bool-cases (str_eq j k)) [
    | inl e ↦ rw e (IsUnique-delete k m u.1)
    | inr e ↦
        let other : str_eq k j ≡ false = ground (arith, str_eq_iff k j, str_eq_iff j k) in
        rw e (rw (lookup-delete k j m, other) u.0, IsUnique-delete k m u.1)
  ]
