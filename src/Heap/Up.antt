-- ===== src/Heap/Up.antt =====
-- Sifting up.
use rateforge.Base.{
  ℕ, zero, suc, ◌+◌, ◌<◌, ◌≡◌, refl, inl, inr, some, arith, ◌==◌, if◌then◌else◌, Bool-cases,
}
use rateforge.Base.Int.{ℤ, ◌<ℤ◌, ltb_ℤ}
use rateforge.Heap.{SortInterface, parent, up_loop, up}
use rateforge.Heap.Order.{Sifts, IsHeap, UpInv}

-- A swap with the parent, seen by the keys.
swapped-UpInv :
    (n : ℕ) (key key' : ℕ → ℤ) (j : ℕ)
    → ((c : ℕ)
        → key' c ≡ (if j == c then key (parent j) else if parent j == c then key j else key c))
    → j < n
    → 0 < j
    → UpInv n key j
    → key j <ℤ key (parent j)
    → UpInv n key' (parent j)
swapped-UpInv n key key' j at l pos v below = record {
  edges = λ c p q r. ground (arith, at c, at (parent c), v.edges c, v.bridged c);
  bridged =
      λ c p q r t. ground (arith, at c, at (parent (parent j)), v.edges c, v.edges (parent j));
}

module _ {H : Type 0} ⦃slice : SortInterface H⦄ (n : ℕ) (key : H → ℕ → ℤ) (P : H → Type 0)
    (s : Sifts n key P) where
  up_loop_lem :
      (k j : ℕ) (h : H)
      → j < k
      → j < n
      → P h
      → UpInv n (key h) j
      → (h' : H) × (up_loop k j h ≡ some h') × P h' × IsHeap n (key h')
  unfolding up_loop
  up_loop_lem zero j h f l p v = absurd (omega arith)
  up_loop_lem (suc k) j h f l p v = elim (Bool-cases (parent j == j)) [
    | inl top ↦ (h, rw (top, up_loop) refl, p, λ c q r. ground (arith, v.edges c))
    | inr low ↦
        let above : parent j < n = omega arith in
        let read = s.less_lem h j (parent j) p l above in
        elim (Bool-cases (ltb_ℤ (key h j) (key h (parent j)))) [
          | inr settled ↦
              (h, rw (low, read, settled, up_loop) refl, p, λ c q r. ground (arith, v.edges c))
          | inl below ↦
              let (h1, swapped, p1, at) = s.swap_lem h (parent j) j p above l in
              let (h', run, p', heap) =
                up_loop_lem k (parent j) h1 (ground arith) above p1
                  (swapped-UpInv n (key h) (key h1) j at l (ground arith) v (ground arith)) in
              (h', rw (low, read, below, swapped, up_loop) run, p', heap)
        ]
  ]

  -- Sifting up an element that may be too low in the tree restores the heap.
  pub up_lem :
      (j : ℕ) (h : H)
      → j < n
      → P h
      → UpInv n (key h) j
      → (h' : H) × (up j h ≡ some h') × P h' × IsHeap n (key h')
  unfolding up
  up_lem j h l p v = up_loop_lem (j + 1) j h (omega arith) l p v
