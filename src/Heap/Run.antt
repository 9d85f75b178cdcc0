-- ===== src/Heap/Run.antt =====
-- Push, Pop and Remove as the sequence of their steps.
use rateforge.Base.{ℕ, suc, ◌≡◌, ◌-◌, Bool, false, Option, some, arith, ◌==◌}
use rateforge.Heap.{SortInterface, HeapInterface, up, down, settle, push, pop, remove}

module _ {H E : Type 0} ⦃slice : SortInterface H⦄ ⦃heap : HeapInterface H E⦄ where
  pub push_lem :
      (n : ℕ) (x : E) (h : H) (r : Option H)
      → slice.len (heap.push x h) ≡ suc n
      → up n (heap.push x h) ≡ r
      → push x h ≡ r
  unfolding push
  push_lem n x h r size run =
      let last : slice.len (heap.push x h) - 1 ≡ n = omega arith in rw last run

  pub pop_lem :
      (n : ℕ) (h h1 h2 : H) (moved : Bool) (r : Option (E × H))
      → slice.len h ≡ suc n
      → slice.swap 0 n h ≡ some h1
      → down 0 n h1 ≡ some (moved, h2)
      → heap.pop h2 ≡ r
      → pop h ≡ r
  unfolding pop
  pop_lem n h h1 h2 moved r size swapped run popped =
      let last : slice.len h - 1 ≡ n = omega arith in rw (last, swapped, last, run, pop) popped

  pub remove-last :
      (n i : ℕ) (h : H) (r : Option (E × H))
      → slice.len h ≡ suc n
      → n ≡ i
      → heap.pop h ≡ r
      → remove i h ≡ r
  unfolding remove
  remove-last n i h r size same popped = ground arith

  pub remove_lem :
      (n i : ℕ) (h h1 h2 : H) (r : Option (E × H))
      → slice.len h ≡ suc n
      → (n == i) ≡ false
      → slice.swap i n h ≡ some h1
      → settle i n h1 ≡ some h2
      → heap.pop h2 ≡ r
      → remove i h ≡ r
  unfolding remove
  remove_lem n i h h1 h2 r size other swapped run popped =
      let last : slice.len h - 1 ≡ n = omega arith in
      rw (last, other, swapped, last, run, remove) popped
