-- ===== src/Heap.antt =====
-- Go's container/heap, which internal/scheduler calls: the sifting loops over an interface of the
-- slice operations. `none` is a panic. Indices stay below twice a slice's length plus two, so `int`
-- does not overflow.
pub mod Order
pub mod Up
pub mod Down
pub mod Run
use rateforge.Base.{
  ℕ, zero, suc, ◌+◌, ◌-◌, ◌*◌, ◌/◌, Bool, true, false, Option, none, some, ltb, leb, ◌==◌,
  if◌then◌else◌,
}

-- sort.Interface, which heap.Interface includes, for slices `H`.
pub record SortInterface (H : Type 0) : Type 0 where
  pub len : H → ℕ
  pub less : ℕ → ℕ → H → Option Bool
  pub swap : ℕ → ℕ → H → Option H

-- What heap.Interface adds, for elements `E`.
pub record HeapInterface (H E : Type 0) : Type 0 where
  pub push : E → H → H
  pub pop : H → Option (E × H)

abbrev pub parent : ℕ → ℕ
parent c = (c - 1) / 2

module _ {H : Type 0} ⦃slice : SortInterface H⦄ where
  unfoldable pub up_loop : ℕ → ℕ → H → Option H
  up_loop zero j h = none
  up_loop (suc k) j h = elim (parent j == j) [
    | true ↦ some h
    | false ↦ elim (slice.less j (parent j) h) [
      | none ↦ none
      | some below ↦ elim below [
        | false ↦ some h
        | true ↦ elim (slice.swap (parent j) j h) [
          | none ↦ none
          | some h' ↦ up_loop k (parent j) h'
        ]
      ]
    ]
  ]

  unfoldable pub up : ℕ → H → Option H
  up j h = up_loop (j + 1) j h

  -- The smaller child of `i` among the first `n`; the left child is one of them.
  unfoldable pub smaller_child : ℕ → ℕ → H → Option ℕ
  smaller_child i n h =
      let left = 2 * i + 1 in
      elim (ltb (left + 1) n) [
        | false ↦ some left
        | true ↦ elim (slice.less (left + 1) left h) [
          | none ↦ none
          | some right_below ↦ some (if right_below then left + 1 else left)
        ]
      ]

  -- Where the loop ends, and the slice then.
  unfoldable pub down_loop : ℕ → ℕ → ℕ → H → Option (ℕ × H)
  down_loop zero i n h = none
  down_loop (suc k) i n h = elim (leb n (2 * i + 1)) [
    | true ↦ some (i, h)
    | false ↦ elim (smaller_child i n h) [
      | none ↦ none
      | some j ↦ elim (slice.less j i h) [
        | none ↦ none
        | some below ↦ elim below [
          | false ↦ some (i, h)
          | true ↦ elim (slice.swap i j h) [ none ↦ none | some h' ↦ down_loop k j n h' ]
        ]
      ]
    ]
  ]

  -- Whether the element moved, and the slice.
  unfoldable pub down : ℕ → ℕ → H → Option (Bool × H)
  down i n h = elim (down_loop (n + 1) i n h) [ none ↦ none | some (j, h') ↦ some (ltb i j, h') ]

  -- Down, and up unless that moved the element.
  unfoldable pub settle : ℕ → ℕ → H → Option H
  settle i n h = elim (down i n h) [
    | none ↦ none
    | some (moved, h') ↦ elim moved [ true ↦ some h' | false ↦ up i h' ]
  ]

  unfoldable pub fix : ℕ → H → Option H
  fix i h = settle i (slice.len h) h

module _ {H E : Type 0} ⦃slice : SortInterface H⦄ ⦃heap : HeapInterface H E⦄ where
  unfoldable pub push : E → H → Option H
  push x h = let h' = heap.push x h in up (slice.len h' - 1) h'

  unfoldable pub pop : H → Option (E × H)
  pop h =
      let n = slice.len h - 1 in
      elim (slice.swap 0 n h) [
        | none ↦ none
        | some h' ↦ elim (down 0 n h') [ none ↦ none | some (moved, h'') ↦ heap.pop h'' ]
      ]

  unfoldable pub remove : ℕ → H → Option (E × H)
  remove i h =
      let n = slice.len h - 1 in
      if n == i then heap.pop h else elim (slice.swap i n h) [
        | none ↦ none
        | some h' ↦ elim (settle i n h') [ none ↦ none | some h'' ↦ heap.pop h'' ]
      ]
