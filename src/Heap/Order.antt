-- ===== src/Heap/Order.antt =====
-- The heap order, and what the sifting loops need of a slice.
use rateforge.Base.{ℕ, zero, suc, ◌<◌, ◌≡◌, ◌≢◌, some, arith, ◌==◌, if◌then◌else◌}
use rateforge.Base.Int.{ℤ, ◌≤ℤ◌, ltb_ℤ}
use rateforge.Heap.{SortInterface, parent}

-- A slice operated on within its first `n` places: `key` is what `less` compares, `P` what every swap
-- keeps, and no index below `n` panics.
pub record Sifts {H : Type 0} ⦃slice : SortInterface H⦄ (n : ℕ) (key : H → ℕ → ℤ) (P : H → Type 0)
    : Type 0 where
  pub less_lem :
      (h : H) (i j : ℕ) → P h → i < n → j < n → slice.less i j h ≡ some (ltb_ℤ (key h i) (key h j))
  pub swap_lem :
      (h : H) (i j : ℕ)
      → P h
      → i < n
      → j < n
      → (h' : H) × (slice.swap i j h ≡ some h')
        × P h'
        × ((c : ℕ) → key h' c ≡ (if j == c then key h i else if i == c then key h j else key h c))

-- Every edge among the first `n` places is in order.
abbrev pub IsHeap : ℕ → (ℕ → ℤ) → Type 0
IsHeap n key = (c : ℕ) → 0 < c → c < n → key (parent c) ≤ℤ key c

-- The edges past `i`, from its parent to its children, are in order.
abbrev pub IsBridged : ℕ → (ℕ → ℤ) → ℕ → Type 0
IsBridged n key i = (c : ℕ) → 0 < c → c < n → parent c ≡ i → 0 < i → key (parent i) ≤ℤ key c

-- Only the edge above `i` may be out of order.
pub record UpInv (n : ℕ) (key : ℕ → ℤ) (i : ℕ) : Type 0 where
  pub edges : (c : ℕ) → 0 < c → c < n → c ≢ i → key (parent c) ≤ℤ key c
  pub bridged : IsBridged n key i

-- Only the edges below `i` may be out of order.
pub record DownInv (n : ℕ) (key : ℕ → ℤ) (i : ℕ) : Type 0 where
  pub edges : (c : ℕ) → 0 < c → c < n → parent c ≢ i → key (parent c) ≤ℤ key c
  pub bridged : IsBridged n key i

root_least_below : (k n : ℕ) (key : ℕ → ℤ) (i : ℕ) → IsHeap n key → i < k → i < n → key 0 ≤ℤ key i
root_least_below zero n key i h f p = absurd (omega arith)
root_least_below (suc k) n key i h f p = ground (arith, h i, root_least_below k n key (parent i) h)

-- The root of a heap has a least key.
pub root_least : (n : ℕ) (key : ℕ → ℤ) (i : ℕ) → IsHeap n key → i < n → key 0 ≤ℤ key i
root_least n key i h p = root_least_below (suc i) n key i h (omega arith) p
