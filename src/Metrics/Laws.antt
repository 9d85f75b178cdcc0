-- ===== src/Metrics/Laws.antt =====
-- The histogram and the counters after a sequence of events.
use rateforge.Base.{
  ℕ, ◌+◌, ◌^◌, ◌≤◌, ◌<◌, ◌≡◌, refl, ap, ap₂, ◌∙◌, Bool, inl, inr, Option, none, some, List, [], ◌∷◌,
  arith, if◌then◌else◌, Str, str_eq, str_eq_iff, length, replicate, Bool-cases, Option-cases, map,
  ◌==◌,
}
use rateforge.Base.Int.{ℤ, pos, add64, add64-pos}
use rateforge.Base.Sort.{tally}
use rateforge.Dict
use rateforge.Float.{Float}
use rateforge.Metrics.{
  Counter, Histogram, new_counter, inc, histogram_buckets, new_histogram, count_below, observe,
}

pub tally-length {ℓ} : {A : Type ℓ} (p : A → Bool) (xs : List A) → tally p xs ≤ length xs
tally-length p [] = omega arith
tally-length p (x ∷ xs) = ground (arith, tally-length p xs)

-- The counter that a sequence of increments leaves, the latest first.
abbrev pub counted : List Str → Counter
counted [] = new_counter
counted (l ∷ ls) = inc l (counted ls)

lookup-inc :
    (l j : Str) (c : Counter)
    → Dict.lookup j (inc l c) ≡ (
        if str_eq l j
        then elim (Dict.lookup l c) [ none ↦ some (pos 1) | some v ↦ some (add64 v (pos 1)) ]
        else Dict.lookup j c)
unfolding inc
lookup-inc l j c = elim (Option-cases (Dict.lookup l c)) [
  | inl e ↦ rw (e, inc) (Dict.lookup-insert l j (pos 1) c)
  | inr (v, e) ↦ rw (e, inc) (Dict.lookup-insert l j (add64 v (pos 1)) c)
]

-- The number as a counter holds it, where a label that was never counted has no entry.
abbrev pub entry_of : ℕ → Option ℤ
entry_of n = if n == 0 then none else some (pos n)

next_entry :
    (n : ℕ)
    → n + 1 < 2 ^ 63
    → (elim (entry_of n) as (λ o. Option ℤ) [
      | none ↦ some (pos 1)
      | some v ↦ some (add64 v (pos 1))
    ])
      ≡ entry_of (n + 1)
next_entry n h = ground (arith, add64-pos n 1)

-- After fewer than 2^63 increments a counter holds for each label the number of its increments, and
-- no entry for a label without one.
pub inc-counted :
    (label : Str) (ls : List Str)
    → length ls < 2 ^ 63
    → Dict.lookup label (counted ls) ≡ entry_of (tally (λ l. str_eq l label) ls)
unfolding new_counter Dict.lookup
inc-counted label [] h = refl
inc-counted label (l ∷ ls) h =
    let before = inc-counted label ls (omega arith) in
    let few = tally-length (λ l. str_eq l label) ls in
    elim (Bool-cases (str_eq l label)) [
      | inl e ↦
          let same = (str_eq_iff l label).0 e in
          let read : Dict.lookup l (counted ls) ≡ entry_of (tally (λ l. str_eq l label) ls) =
            rw same before in
          lookup-inc l label (counted ls)
          ∙ rw (e, read) (next_entry (tally (λ l. str_eq l label) ls) (omega arith))
      | inr e ↦ lookup-inc l label (counted ls) ∙ rw (e, before) refl
    ]

module _ {F : Type 0} ⦃float : Float F⦄ where
  -- The histogram after the samples, the latest first.
  abbrev pub observed : List F → Histogram F
  observed [] = new_histogram
  observed (s ∷ samples) = observe s (observed samples)

  -- How many of the samples are at most each of the bounds.
  abbrev pub below : List F → List F → List ℤ
  below samples uppers = map (λ upper. pos (tally (λ s. float.le_f s upper) samples)) uppers

  count_below-below :
      (s : F) (samples uppers : List F)
      → length (s ∷ samples) < 2 ^ 63
      → count_below s uppers (below samples uppers) ≡ below (s ∷ samples) uppers
  unfolding count_below
  count_below-below s samples [] h = refl
  count_below-below s samples (u ∷ uppers) h =
      let few = tally-length (λ x. float.le_f x u) samples in
      ap₂ (λ (n : ℤ) (ns : List ℤ). n ∷ ns)
        (ground (arith, add64-pos (tally (λ x. float.le_f x u) samples) 1))
        (count_below-below s samples uppers h)

  below-nothing : (uppers : List F) → replicate (length uppers) (pos 0) ≡ below [] uppers
  below-nothing [] = refl
  below-nothing (u ∷ uppers) = ap (λ ns. pos 0 ∷ ns) (below-nothing uppers)

  -- After fewer than 2^63 samples the histogram holds for each bound the number of samples that are
  -- at most that bound, and counts them all.
  pub observe-observed :
      (samples : List F)
      → length samples < 2 ^ 63
      → ((observed samples).buckets ≡ below samples histogram_buckets)
        × ((observed samples).count ≡ pos (length samples))
  unfolding observe new_histogram
  observe-observed [] h = (below-nothing histogram_buckets, refl)
  observe-observed (s ∷ samples) h =
      let (counts, count) = observe-observed samples (omega arith) in
      (
        rw counts (count_below-below s samples histogram_buckets h),
        ground (arith, add64-pos (length samples) 1),
      )
