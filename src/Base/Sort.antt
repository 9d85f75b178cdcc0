-- ===== src/Base/Sort.antt =====
-- What `sort.Slice` and `sort.Strings` leave: the items in ascending order. Where the order tells all the
-- items apart the result is the only one there is, whatever the algorithm.
use mathlib.Core.Option.{some-injective}
use rateforge.Base.{
  subst, some, ℕ, zero, suc, ◌+◌, ◌≤◌, ◌≡◌, refl, ap, ap₂, sym, map, ◌∙◌, All, Bool, true, false,
  inl, inr, List, [], ◌∷◌, arith, if◌then◌else◌, length, get_elem?, Bool-cases, Str, ltb, ◌||◌,
  ◌&&◌, ◌==◌,
}

-- How many of the values satisfy the test.
abbrev pub tally {ℓ} : {A : Type ℓ} → (A → Bool) → List A → ℕ
tally p [] = 0
tally p (x ∷ xs) = if p x then tally p xs + 1 else tally p xs

-- The same items, each as often.
abbrev pub SameItems {ℓ} : {A : Type ℓ} → List A → List A → Type ℓ
SameItems {A} xs ys = (p : A → Bool) → tally p xs ≡ tally p ys

module _ {ℓ} {A : Type ℓ} (p : A → Bool) where
  tally-le : (xs : List A) → tally p xs ≤ tally (λ x. true) xs
  tally-le [] = omega arith
  tally-le (x ∷ xs) = ground (arith, tally-le xs)

  tally-All : (xs : List A) → All (λ x. p x ≡ true) xs → tally p xs ≡ tally (λ x. true) xs
  tally-All [] h = refl
  tally-All (x ∷ xs) h = rw h.0 (omega (arith, tally-All xs h.1))

  All-tally : (xs : List A) → tally p xs ≡ tally (λ x. true) xs → All (λ x. p x ≡ true) xs
  All-tally [] e = tt
  All-tally (x ∷ xs) e = elim (Bool-cases (p x)) [
    | inl holds ↦ (holds, All-tally xs (ground arith))
    | inr fails ↦ absurd (ground (arith, tally-le xs))
  ]

  -- What all items satisfy does not depend on their order.
  pub All-SameItems :
      (xs ys : List A) → SameItems xs ys → All (λ x. p x ≡ true) xs → All (λ x. p x ≡ true) ys
  All-SameItems xs ys same h = All-tally ys (sym (same p) ∙ tally-All xs h ∙ same (λ x. true))

drop_first {ℓ} :
    {A : Type ℓ} (p : A → Bool) (x y : A) (xs ys : List A)
    → p x ≡ p y
    → tally p (x ∷ xs) ≡ tally p (y ∷ ys)
    → tally p xs ≡ tally p ys
drop_first p x y xs ys e h = ground arith

module _ {ℓ} {A : Type ℓ} (le : A → A → Bool) where
  unfoldable pub place : A → List A → List A
  place a [] = a ∷ []
  place a (x ∷ xs) = if le a x then a ∷ x ∷ xs else x ∷ place a xs

  unfoldable pub sort : List A → List A
  unfolding place
  sort [] = []
  sort (x ∷ xs) = place x (sort xs)

  tally-place : (p : A → Bool) (a : A) (xs : List A) → tally p (place a xs) ≡ tally p (a ∷ xs)
  unfolding place
  tally-place p a [] = refl
  tally-place p a (x ∷ xs) = ground (arith, tally-place p a xs)

  length-place : (a : A) (xs : List A) → length (place a xs) ≡ suc (length xs)
  unfolding place
  length-place a [] = refl
  length-place a (x ∷ xs) = ground (arith, length-place a xs)

  pub length-sort : (xs : List A) → length (sort xs) ≡ length xs
  unfolding sort
  length-sort [] = refl
  length-sort (x ∷ xs) = omega (arith, length-place x (sort xs), length-sort xs)

  pub tally-sort : (p : A → Bool) (xs : List A) → tally p (sort xs) ≡ tally p xs
  unfolding sort
  tally-sort p [] = refl
  tally-sort p (x ∷ xs) = ground (arith, tally-place p x (sort xs), tally-sort p xs)

  abbrev pub IsSorted : List A → Type ℓ
  IsSorted [] = Unit
  IsSorted (x ∷ xs) = All (λ y. le x y ≡ true) xs × IsSorted xs

  module _ (total : (a b : A) → le a b ≡ false → le b a ≡ true)
      (trans : (a b c : A) → le a b ≡ true → le b c ≡ true → le a c ≡ true) where
    All-above :
        (a x : A) (xs : List A)
        → le a x ≡ true
        → All (λ y. le x y ≡ true) xs
        → All (λ y. le a y ≡ true) xs
    All-above a x [] e h = tt
    All-above a x (y ∷ xs) e h = (trans a x y e h.0, All-above a x xs e h.1)

    All-place :
        (b a : A) (xs : List A)
        → le b a ≡ true
        → All (λ y. le b y ≡ true) xs
        → All (λ y. le b y ≡ true) (place a xs)
    unfolding place
    All-place b a [] e h = (e, tt)
    All-place b a (x ∷ xs) e h = elim (Bool-cases (le a x)) [
      | inl first ↦ rw first (e, h)
      | inr later ↦ rw later (h.0, All-place b a xs e h.1)
    ]

    place-IsSorted : (a : A) (xs : List A) → IsSorted xs → IsSorted (place a xs)
    unfolding place
    place-IsSorted a [] s = (tt, tt)
    place-IsSorted a (x ∷ xs) s = elim (Bool-cases (le a x)) [
      | inl first ↦ rw first ((first, All-above a x xs first s.0), s)
      | inr later ↦ rw later (All-place x a xs (total a x later) s.0, place-IsSorted a xs s.1)
    ]

    pub sort-IsSorted : (xs : List A) → IsSorted (sort xs)
    unfolding sort
    sort-IsSorted [] = tt
    sort-IsSorted (x ∷ xs) = place-IsSorted x (sort xs) (sort-IsSorted xs)

    le_refl : (x : A) → le x x ≡ true
    le_refl x = elim (Bool-cases (le x x)) [ inl e ↦ e | inr e ↦ total x x e ]

    Above-rank :
        (a v : A) (xs : List A) (i : ℕ)
        → All (λ y. le a y ≡ true) xs
        → get_elem? xs i ≡ some v
        → le a v ≡ true
    Above-rank a v [] i h e = cc
    Above-rank a v (x ∷ xs) zero h e = subst (λ y. le a y ≡ true) (some-injective x v e) h.0
    Above-rank a v (x ∷ xs) (suc i) h e = Above-rank a v xs i h.1 e

    tally_above :
        (a : A) (xs : List A) → All (λ y. le a y ≡ true) xs → tally (λ y. le a y) xs ≡ length xs
    tally_above a [] h = refl
    tally_above a (x ∷ xs) h = rw h.0 (omega (arith, tally_above a xs h.1))

    -- Of ascending items, that at index `i` is above so many, itself included, and below the rest.
    pub IsSorted-rank :
        (xs : List A) (i : ℕ) (v : A)
        → IsSorted xs
        → get_elem? xs i ≡ some v
        → (suc i ≤ tally (λ z. le z v) xs) × (length xs ≤ tally (λ z. le v z) xs + i)
    IsSorted-rank [] i v s e = cc
    IsSorted-rank (x ∷ xs) zero v s e =
        let same = some-injective x v e in
        subst
          (λ y.
            (1 ≤ tally (λ z. le z y) (x ∷ xs))
            × (length (x ∷ xs) ≤ tally (λ z. le y z) (x ∷ xs) + 0))
          same (ground (arith, le_refl x), ground (arith, le_refl x, tally_above x xs s.0))
    IsSorted-rank (x ∷ xs) (suc i) v s e =
        let (low, high) = IsSorted-rank xs i v s.1 e in
        (ground (arith, Above-rank x v xs i s.0 e), ground arith)

    none_le :
        (x y : A) (ys : List A)
        → le y x ≡ false
        → All (λ z. le y z ≡ true) ys
        → tally (λ z. le z x) ys ≡ 0
    none_le x y [] e h = refl
    none_le x y (z ∷ ys) e h = elim (Bool-cases (le z x)) [
      | inl below ↦ cc (trans y z x h.0 below)
      | inr above ↦ rw above (none_le x y ys e h.1)
    ]

    -- No item is below the first one.
    first-le :
        (x y : A) (xs ys : List A) → IsSorted (y ∷ ys) → SameItems (x ∷ xs) (y ∷ ys) → le y x ≡ true
    first-le x y xs ys s same = elim (Bool-cases (le y x)) [
      | inl below ↦ below
      | inr above ↦ ground (arith, le_refl x, same (λ z. le z x), none_le x y ys above s.0)
    ]

    -- Two ascending lists of the same items are equal.
    IsSorted-unique :
        ((a b : A) → le a b ≡ true → le b a ≡ true → a ≡ b)
        → (xs ys : List A) → IsSorted xs
        → IsSorted ys
        → SameItems xs ys
        → xs ≡ ys
    IsSorted-unique antisym [] [] s t same = refl
    IsSorted-unique antisym [] (y ∷ ys) s t same = absurd (omega (arith, same (λ z. true)))
    IsSorted-unique antisym (x ∷ xs) [] s t same = absurd (omega (arith, same (λ z. true)))
    IsSorted-unique antisym (x ∷ xs) (y ∷ ys) s t same =
        let e : x ≡ y =
          antisym x y (first-le y x ys xs s (λ p. sym (same p))) (first-le x y xs ys t same) in
        ap₂ (λ (z : A) (zs : List A). z ∷ zs) e
          (IsSorted-unique antisym xs ys s.1 t.1 (λ p. drop_first p x y xs ys (ap p e) (same p)))

    -- Whatever order the items come in, they are sorted to the same list.
    pub sort_unique :
        ((a b : A) → le a b ≡ true → le b a ≡ true → a ≡ b)
        → (xs ys : List A) → SameItems xs ys
        → sort xs ≡ sort ys
    sort_unique antisym xs ys same =
        IsSorted-unique antisym (sort xs) (sort ys) (sort-IsSorted xs) (sort-IsSorted ys)
          (λ p. tally-sort p xs ∙ same p ∙ sym (tally-sort p ys))

-- The order of strings, byte by byte.
unfoldable pub str_le : Str → Str → Bool
str_le [] t = true
str_le (a ∷ s) [] = false
str_le (a ∷ s) (b ∷ t) = ltb a b || (a == b && str_le s t)

pub str_le_total : (s t : Str) → str_le s t ≡ false → str_le t s ≡ true
unfolding str_le
str_le_total [] t e = cc
str_le_total (a ∷ s) [] e = refl
str_le_total (a ∷ s) (b ∷ t) e = ground (arith, str_le_total s t)

pub str_le_trans : (s t u : Str) → str_le s t ≡ true → str_le t u ≡ true → str_le s u ≡ true
unfolding str_le
str_le_trans [] t u e f = refl
str_le_trans (a ∷ s) [] u e f = cc
str_le_trans (a ∷ s) (b ∷ t) [] e f = cc
str_le_trans (a ∷ s) (b ∷ t) (c ∷ u) e f = ground (arith, str_le_trans s t u)

pub str_le_antisym : (s t : Str) → str_le s t ≡ true → str_le t s ≡ true → s ≡ t
unfolding str_le
str_le_antisym [] [] e f = refl
str_le_antisym [] (b ∷ t) e f = cc
str_le_antisym (a ∷ s) [] e f = cc
str_le_antisym (a ∷ s) (b ∷ t) e f = ground (arith, str_le_antisym s t)

-- `sort.Strings`
abbrev pub sort_strings : List Str → List Str
sort_strings = sort str_le

pub sort_strings_unique : (xs ys : List Str) → SameItems xs ys → sort_strings xs ≡ sort_strings ys
sort_strings_unique = sort_unique str_le str_le_total str_le_trans str_le_antisym

-- Sorting by a key is sorting the keys.
module _ {ℓ κ} {A : Type ℓ} {B : Type κ} (le : A → A → Bool) (le' : B → B → Bool) (f : A → B)
    (keeps : (a b : A) → le' (f a) (f b) ≡ le a b) where
  place-map : (a : A) (xs : List A) → place le' (f a) (map f xs) ≡ map f (place le a xs)
  unfolding place
  place-map a [] = refl
  place-map a (x ∷ xs) = elim (Bool-cases (le a x)) [
    | inl first ↦ simp (keeps a x, first) refl
    | inr later ↦ simp (keeps a x, later, place-map a xs) refl
  ]

  pub sort-map : (xs : List A) → sort le' (map f xs) ≡ map f (sort le xs)
  unfolding sort
  sort-map [] = refl
  sort-map (x ∷ xs) = ap (place le' (f x)) (sort-map xs) ∙ place-map x (sort le xs)
