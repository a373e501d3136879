-- ===== src/Fanout/Linear.antt =====
-- Launches over the elements of an array: a sum over the threads, in any order, is the sum over the
-- elements.
use ros2_cuda_ipc.Base.{
  ℕ, zero, suc, ◌+◌, ◌-◌, ◌*◌, ◌/◌, ◌%◌, ◌≤◌, ◌<◌, ◌≡◌, refl, sym, ◌∙◌, ap, ◌↔◌, inl, inr, true,
  ltb, ◌==◌, ==_iff, if◌then◌else◌, List, [], ◌∷◌, All, total, Bool-cases, arith, u32_mod,
}
use ros2_cuda_ipc.Fanout.{Grid, Thread, same, in_grid, occurrences, IsSchedule}
use ros2_cuda_ipc.Fanout.Kernels.{linear_grid, linear_index}
use ros2_cuda_ipc.Fanout.Schedule.{same→≡, IsSchedule-All}

-- `f 0 + … + f (n - 1)`.
unfoldable pub sum : ℕ → (ℕ → ℕ) → ℕ
sum zero f = 0
sum (suc n) f = sum n f + f n

pub sum_congr : (n : ℕ) (f g : ℕ → ℕ) → ((i : ℕ) → i < n → f i ≡ g i) → sum n f ≡ sum n g
unfolding sum
sum_congr zero f g h = refl
sum_congr (suc n) f g h =
    omega (arith, sum_congr n f g (λ i p. h i (omega (arith, p))), h n (omega arith))

sum_zero : (n : ℕ) (f : ℕ → ℕ) → ((i : ℕ) → f i ≡ 0) → sum n f ≡ 0
unfolding sum
sum_zero zero f h = refl
sum_zero (suc n) f h = omega (arith, sum_zero n f h, h n)

sum_add : (n : ℕ) (f g : ℕ → ℕ) → sum n (λ i. f i + g i) ≡ sum n f + sum n g
unfolding sum
sum_add zero f g = refl
sum_add (suc n) f g = omega (arith, sum_add n f g)

sum_none : (n k v : ℕ) → n ≤ k → sum n (λ i. if i == k then v else 0) ≡ 0
unfolding sum
sum_none zero k v h = refl
sum_none (suc n) k v h = ground (arith, sum_none n k v (omega (arith, h)), h)

sum_single : (n k v : ℕ) → k < n → sum n (λ i. if i == k then v else 0) ≡ v
unfolding sum
sum_single zero k v h = absurd (omega (arith, h))
sum_single (suc n) k v h = elim (Bool-cases (ltb k n)) [
  | inl p ↦ ground (arith, sum_single n k v (ground (arith, p)), p)
  | inr p ↦ ground (arith, sum_none n k v (ground (arith, p)), p, h)
]

pub sum_pick : (n k v : ℕ) → sum n (λ i. if i == k then v else 0) ≡ (if ltb k n then v else 0)
sum_pick n k v = elim (Bool-cases (ltb k n)) [
  | inl p ↦ ground (arith, sum_single n k v (ground (arith, p)), p)
  | inr p ↦ ground (arith, sum_none n k v (ground (arith, p)), p)
]

-- Terms that are 0 from `count` on may be left out.
pub sum_until :
    (count n : ℕ) (f : ℕ → ℕ)
    → count ≤ n
    → sum n (λ i. if ltb i count then f i else 0) ≡ sum count f
unfolding sum
sum_until zero zero f h = refl
sum_until (suc count) zero f h = absurd (omega (arith, h))
sum_until (suc count) (suc n) f h = elim (Bool-cases (count == n)) [
  | inl p ↦
      rw ((==_iff count n).0 p)
        (sum_congr (suc n) (λ i. if ltb i (suc n) then f i else 0) f (λ i q. ground (arith, q)))
  | inr p ↦ ground (arith, sum_until (suc count) n f (ground (arith, p, h)), p, h)
]
sum_until zero (suc n) f h = ground (arith, sum_until zero n f (omega arith))

-- The grid covers the elements exactly when the sum in `unsigned int` does not wrap.
pub linear_grid-covers :
    (count : ℕ) → 0 < count → (count ≤ (linear_grid count).grid_x * 256) ↔ (count ≤ u32_mod - 256)
linear_grid-covers count h = (λ p. omega (arith, p, h), λ p. omega (arith, p, h))

-- The thread of an element.
abbrev pub thread_of : ℕ → Thread
thread_of i = record { block_x = i / 256; block_y = 0; thread_x = i % 256; thread_y = 0 }

module _ (g : Grid) (one : g.grid_y ≡ 1) (block : g.block_x ≡ 256) (flat : g.block_y ≡ 1) where
  thread_of-in_grid : (i : ℕ) → i < g.grid_x * 256 → in_grid g (thread_of i) ≡ true
  thread_of-in_grid i h = ground (arith, h, one, block, flat)

  abbrev index : Thread → ℕ
  index t = t.block_x * 256 + t.thread_x

  same-index : (i : ℕ) (t : Thread) → in_grid g t ≡ true → same (thread_of i) t ≡ (i == index t)
  same-index i t e = ground (arith, e, one, block, flat)

  index-lt : (t : Thread) → in_grid g t ≡ true → index t < g.grid_x * 256
  index-lt t e = ground (arith, e, block)

  term :
      (c : Thread → ℕ) (t : Thread)
      → in_grid g t ≡ true
      → (i : ℕ)
      → (if same (thread_of i) t then 1 else 0) * c (thread_of i)
        ≡ (if i == index t then c t else 0)
  term c t e i = elim (Bool-cases (i == index t)) [
    | inl p ↦
        rw (same-index i t e, p)
          (omega (arith, ap c (same→≡ (thread_of i) t (same-index i t e ∙ p))))
    | inr p ↦ rw (same-index i t e, p) (omega arith)
  ]

  total-occurrences :
      (c : Thread → ℕ) (ts : List Thread)
      → All (λ t. in_grid g t ≡ true) ts
      → total c ts ≡ sum (g.grid_x * 256) (λ i. occurrences (thread_of i) ts * c (thread_of i))
  total-occurrences c [] p = sym (sum_zero _ _ (λ i. omega arith))
  total-occurrences c (t ∷ ts) p =
      let n = g.grid_x * 256 in
      let split =
        sum_congr n (λ i. occurrences (thread_of i) (t ∷ ts) * c (thread_of i))
          (λ i. (if i == index t then c t else 0) + occurrences (thread_of i) ts * c (thread_of i))
          (λ i q. omega (arith, term c t p.0 i)) in
      omega (
        arith,
        total-occurrences c ts p.1,
        split,
        sum_add n (λ i. if i == index t then c t else 0)
            (λ i. occurrences (thread_of i) ts * c (thread_of i)),
        sum_single n (index t) (c t) (index-lt t p.0),
      )

  -- Each thread counts once.
  pub total-sum :
      (c : Thread → ℕ) (ts : List Thread)
      → IsSchedule g ts
      → total c ts ≡ sum (g.grid_x * 256) (λ i. c (thread_of i))
  total-sum c ts s =
      total-occurrences c ts (IsSchedule-All g ts s)
      ∙ sum_congr _ _ _ (λ i p. rw (s (thread_of i), thread_of-in_grid i p) (omega arith))

-- A sum over the threads of a grid that covers the elements is the sum over the elements.
pub total-elements :
    (count : ℕ) (f : ℕ → ℕ) (ts : List Thread)
    → 0 < count
    → count ≤ u32_mod - 256
    → IsSchedule (linear_grid count) ts
    → total (λ t. let i = linear_index (linear_grid count) t in if ltb i count then f i else 0) ts
      ≡ sum count f
total-elements count f ts pos most s =
    let g = linear_grid count in
    let c : Thread → ℕ = λ t. let i = linear_index g t in if ltb i count then f i else 0 in
    total-sum g refl refl refl c ts s
    ∙ sum_congr (g.grid_x * 256) (λ i. c (thread_of i)) (λ i. if ltb i count then f i else 0)
        (λ i p. let own : linear_index g (thread_of i) ≡ i = omega (arith, p) in rw (own) refl)
    ∙ sum_until count (g.grid_x * 256) f ((linear_grid-covers count pos).1 most)

-- The thread of an element is in the grid.
pub thread_of-linear_grid :
    (count i : ℕ)
    → count ≤ u32_mod - 256
    → i < count
    → (in_grid (linear_grid count) (thread_of i) ≡ true)
      × (linear_index (linear_grid count) (thread_of i) ≡ i)
thread_of-linear_grid count i most p = (ground (arith, most, p), omega (arith, most, p))
