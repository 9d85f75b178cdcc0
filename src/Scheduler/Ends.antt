-- ===== src/Scheduler/Ends.antt =====
-- Push and Pop at the end of the slice of pending refills.
use rateforge.Base.{
  ℕ, zero, suc, ◌<◌, ◌≡◌, refl, sym, ap, ◌∙◌, false, inl, inr, none, some, List, [], ◌∷◌, ◌++◌,
  arith, if◌then◌else◌, Str, str_eq, str_eq_iff, str_eq_refl, length, get_or, Bool-cases,
  Option-cases, ◌==◌, ==_iff,
}
use rateforge.Base.Int.{pos, negsuc}
use rateforge.Time.{Time}
use rateforge.Dict
use rateforge.Dict.{Dict}
use rateforge.Scheduler.{
  RefillEntry, RefillHeap, set_index, split_last, entry_push, entry_pop, forget,
}
use rateforge.Scheduler.Linked.{
  place, due_at, at, key, IsLinked, apart, place-set_index, due_at-set_index, due_at-place,
}

pub place-insert :
    (id j : Str) (e : RefillEntry) (m : Dict RefillEntry)
    → place (Dict.insert id e m) j ≡ (if str_eq id j then some e.heap_index else place m j)
place-insert id j e m = ground (arith, Dict.lookup-insert id j e m)

pub due_at-insert :
    (id j : Str) (e : RefillEntry) (m : Dict RefillEntry)
    → due_at (Dict.insert id e m) j ≡ (if str_eq id j then some e.next_refill_time else due_at m j)
due_at-insert id j e m = ground (arith, Dict.lookup-insert id j e m)

place-delete :
    (id j : Str) (m : Dict RefillEntry)
    → place (Dict.delete id m) j ≡ (if str_eq id j then none else place m j)
place-delete id j m = ground (arith, Dict.lookup-delete id j m)

due_at-delete :
    (id j : Str) (m : Dict RefillEntry)
    → due_at (Dict.delete id m) j ≡ (if str_eq id j then none else due_at m j)
due_at-delete id j m = ground (arith, Dict.lookup-delete id j m)

split_last_lem :
    (xs : List Str) (n : ℕ)
    → length xs ≡ suc n
    → (rest : List Str) × (split_last xs ≡ some (get_or xs n [], rest))
      × (length rest ≡ n)
      × ((i : ℕ) → i < n → get_or rest i [] ≡ get_or xs i [])
unfolding split_last
split_last_lem [] n e = absurd (omega arith)
split_last_lem (x ∷ []) n e =
    let only : n ≡ 0 = omega arith in ([], rw only refl, sym only, λ i l. absurd (omega arith))
split_last_lem (x ∷ y ∷ xs) zero e = absurd (omega arith)
split_last_lem (x ∷ y ∷ xs) (suc n) e =
    let (rest, run, size, same) = split_last_lem (y ∷ xs) n (omega arith) in
    (
      x ∷ rest,
      rw (run, split_last) refl,
      ap suc size,
      λ i. elim i as (λ i. i < suc n → get_or (x ∷ rest) i [] ≡ get_or (x ∷ y ∷ xs) i []) [
        | zero ↦ λ l. refl
        | suc i ↦ λ l. same i (omega arith)
      ],
    )

pub length-push : (xs : List Str) (x : Str) → length (xs ++ x ∷ []) ≡ suc (length xs)
length-push [] x = refl
length-push (y ∷ xs) x = ap suc (length-push xs x)

pub get_or-push :
    (xs : List Str) (x : Str) (i : ℕ)
    → i < suc (length xs)
    → get_or (xs ++ x ∷ []) i [] ≡ (if length xs == i then x else get_or xs i [])
get_or-push [] x zero l = ground arith
get_or-push [] x (suc i) l = absurd (omega arith)
get_or-push (y ∷ xs) x zero l = ground arith
get_or-push (y ∷ xs) x (suc i) l = ground (arith, get_or-push xs x i)

-- A new entry at the end.
pub pushed-IsLinked :
    (id : Str) (t : Time) (h : RefillHeap)
    → IsLinked h
    → due_at h.entries id ≡ none
    → IsLinked (entry_push (id, t) h)
unfolding entry_push
pushed-IsLinked id t h v fresh =
    let h' = entry_push (id, t) h in
    let grown = length-push h.slots id in
    let item : RefillEntry = record { next_refill_time = t; heap_index = pos (length h.slots) } in
    record {
      linked = λ c l.
          let old : c < length h.slots → str_eq id (at h c) ≡ false = λ q. ground (
            arith,
            str_eq_iff id (at h c),
            due_at-place h.entries (at h c) (pos c) (v.linked c q),
            fresh,
          ) in
          place-insert id (at h' c) item h.entries
          ∙ ground (
            arith,
            get_or-push h.slots id c,
            grown,
            old,
            v.linked c,
            str_eq_refl id,
            ==_iff (length h.slots) c,
            l,
          );
      covered = λ j p e.
          let e' = sym (place-insert id j item h.entries) ∙ e in
          elim (Bool-cases (str_eq id j)) [
            | inl f ↦ (
              length h.slots,
              ground arith,
              rw grown (omega arith),
              ground (arith, get_or-push h.slots id (length h.slots), (str_eq_iff id j).0 f),
            )
            | inr f ↦
                let (c, at_c, l, there) = v.covered j p (ground arith) in
                (c, at_c, rw grown (omega arith), ground (arith, get_or-push h.slots id c, there))
          ];
    }

-- The last entry, taken off the slice and the map.
pub entry_pop_lem :
    (n : ℕ) (h : RefillHeap)
    → IsLinked h
    → length h.slots ≡ suc n
    → (h' : RefillHeap) × (entry_pop h ≡ some ((at h n, key h n), h'))
      × IsLinked (forget (at h n) h')
      × (length h'.slots ≡ n)
      × ((id : Str)
          → due_at (forget (at h n) h').entries id
            ≡ (if str_eq (at h n) id then none else due_at h.entries id))
      × ((i : ℕ) → i < n → at h' i ≡ at h i)
unfolding entry_pop forget
entry_pop_lem n h v e =
    let (rest, run, size, same) = split_last_lem h.slots n e in
    let top = at h n in
    let there = v.linked n (rw e (omega arith)) in
    elim (Option-cases (Dict.lookup top h.entries)) [
      | inl gone ↦ absurd (ground arith)
      | inr (x, found) ↦
          let m = set_index top (negsuc 0) h.entries in
          let read : x.next_refill_time ≡ key h n = ground arith in
          let left : (id : Str)
              → place (Dict.delete top m) id
                ≡ (if str_eq top id then none else place h.entries id) =
            λ id.
              place-delete top id m
              ∙ ground (arith, place-set_index top id (negsuc 0) h.entries, there) in
          (
            record { slots = rest; entries = m },
            rw (run, found, entry_pop)
                (ap (λ t. some ((top, t), record { slots = rest; entries = m })) read),
            record {
              linked = λ c l.
                  let below : c < n = rw (← size) l in
                  rw
                    (
                      same c below,
                      left (at h c),
                      apart h n c v (rw e (omega arith)) (rw e (omega arith)) (λ t. omega arith),
                    )
                    (v.linked c (rw e (omega arith)));
              covered = λ id p q.
                  let other : str_eq top id ≡ false = ground (arith, left id, q) in
                  let (c, at_c, l, at_id) = v.covered id p (ground (arith, left id, q)) in
                  let below : c < n = ground (arith, str_eq_refl id) in
                  (c, at_c, rw size below, same c below ∙ at_id);
            },
            size,
            λ id. due_at-delete top id m ∙ rw (due_at-set_index top id (negsuc 0) h.entries),
            same,
          )
    ]
