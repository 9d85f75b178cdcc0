-- ===== src/Metrics/Text/Order.antt =====
-- What is printed does not depend on the order in which Go visits a map, and shows the counts.
use rateforge.Base.{
  ℕ, ◌≡◌, refl, ap, sym, ◌∙◌, Bool, true, false, Option, none, some, List, [], ◌∷◌, ◌++◌, arith,
  if◌then◌else◌, Str, codes, str_eq, str_eq_refl, length, All, ◌>>=◌, Answers, bind-Answers, ◌||◌,
  ◌==◌,
}
use rateforge.Base.Int.{ℤ, pos}
use rateforge.Base.Sort.{
  tally, SameItems, str_le, sort_strings, sort_strings_unique, tally-sort, All-SameItems,
}
use rateforge.Base.Decimal.{decimal}
use rateforge.Float.{Float}
use rateforge.Dict
use rateforge.Metrics.{Counter, Histogram, Registry, histogram_buckets}
use rateforge.Metrics.Text.{
  samples, write_counter, bucket_lines, write_histogram, exposition, handler,
}

abbrev found : Counter → Str → Bool
found c l = elim (Dict.lookup l c) [ none ↦ false | some v ↦ true ]

found-later :
    (j : Str) (w : ℤ) (c : Counter) (ls : List Str)
    → All (λ l. found c l ≡ true) ls
    → All (λ l. found ((j, w) ∷ c) l ≡ true) ls
unfolding Dict.lookup
found-later j w c [] h = tt
found-later j w c (l ∷ ls) h = (ground (arith, h.0), found-later j w c ls h.1)

keys-found : (c : Counter) → All (λ l. found c l ≡ true) (Dict.keys c)
unfolding Dict.keys Dict.lookup
keys-found [] = tt
keys-found ((j, w) ∷ c) =
    (ground (arith, str_eq_refl j), found-later j w c (Dict.keys c) (keys-found c))

-- The labels in the order of the map's visit, which is any, are sorted to the same list, and all have a
-- value.
sorted-found :
    (c : Counter) (order : List Str)
    → SameItems order (Dict.keys c)
    → All (λ l. found c l ≡ true) (sort_strings order)
sorted-found c order same =
    All-SameItems (found c) (Dict.keys c) (sort_strings order)
      (λ p. sym (tally-sort str_le p order ∙ same p)) (keys-found c)

module _ (quote : Str → Str) (name label_name : Str) where
  -- The line of a label with the text of its count; a label or a name of it that is empty is left out.
  abbrev pub shown_line : Str → Str → Str
  shown_line l count =
      if length l == 0 || length label_name == 0
      then name ++ (codes " " ++ (count ++ codes "\n"))
      else name
        ++ (codes "{"
            ++ (label_name ++ (codes "=" ++ (quote l ++ (codes "} " ++ (count ++ codes "\n"))))))

  -- The lines of the labels, each with the number of times that the label occurs.
  abbrev pub counts_shown : List Str → List Str → Str
  counts_shown ls [] = []
  counts_shown ls (l ∷ labels) =
      shown_line l (decimal (pos (tally (λ x. str_eq x l) ls))) ++ counts_shown ls labels

module _ {F : Type 0} ⦃float : Float F⦄ (quote : Str → Str) (show_f format_f : F → Str) where
  bucket_lines-some :
      (name : Str) (uppers : List F) (counts : List ℤ)
      → length counts ≡ length uppers
      → (s : Str) × (bucket_lines quote show_f format_f name uppers counts ≡ some s)
  unfolding bucket_lines
  bucket_lines-some name [] counts e = ([], refl)
  bucket_lines-some name (u ∷ uppers) [] e = absurd (omega (arith, e))
  bucket_lines-some name (u ∷ uppers) (n ∷ counts) e =
      bind-Answers _ _ (bucket_lines-some name uppers counts (omega (arith, e))) (λ s. (_, refl))

  held :
      (o : Option ℤ) → (elim o as (λ _. Bool) [ none ↦ false | some v ↦ true ]) ≡ true → Answers o
  held none f = cc
  held (some v) f = (v, refl)

  samples-some :
      (name label_name : Str) (c : Counter) (labels : List Str)
      → All (λ l. found c l ≡ true) labels
      → (s : Str) × (samples quote name label_name c labels ≡ some s)
  unfolding samples
  samples-some name label_name c [] f = ([], refl)
  samples-some name label_name c (l ∷ labels) f =
      bind-Answers _ _ (held (Dict.lookup l c) f.0)
        (λ v. bind-Answers _ _ (samples-some name label_name c labels f.1) (λ s. (_, refl)))

  write_counter-some :
      (name help label_name : Str) (c : Counter) (order : List Str)
      → SameItems order (Dict.keys c)
      → (s : Str) × (write_counter quote order name help label_name c ≡ some s)
  unfolding write_counter
  write_counter-some name help label_name c order same =
      bind-Answers _ _
        (samples-some name label_name c (sort_strings order) (sorted-found c order same))
        (λ s. (_, refl))

  write_histogram-some :
      (name help : Str) (h : Histogram F)
      → length h.buckets ≡ length {A = F} histogram_buckets
      → (s : Str) × (write_histogram quote show_f format_f name help h ≡ some s)
  unfolding write_histogram
  write_histogram-some name help h e =
      bind-Answers _ _ (bucket_lines-some name histogram_buckets h.buckets e) (λ s. (_, refl))

  exposition-some :
      (r : Registry F) (d a : List Str)
      → length r.request_latency.buckets ≡ length {A = F} histogram_buckets
      → SameItems d (Dict.keys r.requests_total)
      → SameItems a (Dict.keys r.admin_changes_total)
      → (s : Str) × (exposition quote show_f format_f d a r ≡ some s)
  unfolding exposition
  exposition-some r d a e hd ha =
      bind-Answers _ _ (write_counter-some _ _ _ r.requests_total d hd) (λ s.
        bind-Answers _ _ (write_histogram-some _ _ r.request_latency e) (λ t.
          bind-Answers _ _ (write_counter-some _ _ _ r.admin_changes_total a ha) (λ u. (_, refl))))

  exposition-order :
      (r : Registry F) (d a d' a' : List Str)
      → SameItems d d'
      → SameItems a a'
      → exposition quote show_f format_f d a r ≡ exposition quote show_f format_f d' a' r
  unfolding exposition write_counter
  exposition-order r d a d' a' hd ha =
      rw (sort_strings_unique d d' hd, sort_strings_unique a a' ha) refl

  abbrev answer : ℕ → Str → Option (ℕ × Str)
  answer status s = some (status, s)

  either_some :
      (get : Bool) (s : Str)
      → (if get then answer 200 s else answer 405 []) ≡ some (if get then (200, s) else (405, []))
  either_some true s = refl
  either_some false s = refl

  -- Where the histogram has a count for each bound, and in whatever orders the maps of the two counters
  -- come: the handler answers a GET with 200 and the same text for any two such orders, without a panic,
  -- and every other method with 405 and no text.
  pub handler_lem :
      (r : Registry F) (d a d' a' : List Str)
      → length r.request_latency.buckets ≡ length {A = F} histogram_buckets
      → SameItems d (Dict.keys r.requests_total)
      → SameItems a (Dict.keys r.admin_changes_total)
      → SameItems d' (Dict.keys r.requests_total)
      → SameItems a' (Dict.keys r.admin_changes_total)
      → (method : Str)
      → let respond = handler quote show_f format_f method in
        (respond d a r ≡ respond d' a' r)
        × ((text : Str) × (respond d a r
              ≡ some (if str_eq method (codes "GET") then (200, text) else (405, []))))
  unfolding handler
  handler_lem r d a d' a' e hd ha hd' ha' method =
      let (s, run) = exposition-some r d a e hd ha in
      let same = exposition-order r d a d' a' (λ p. hd p ∙ sym (hd' p)) (λ p. ha p ∙ sym (ha' p)) in
      (
        ap
            (λ (o : Option Str).
              if str_eq method (codes "GET") then o >>= answer 200 else answer 405 [])
            same,
        (s, rw run (either_some (str_eq method (codes "GET")) s)),
      )
