-- ===== src/Fanout/Schedule.antt =====
-- What a launch does, whatever the order of its threads.
use ros2_cuda_ipc.Base.{
  ℕ, ◌<◌, ◌≡◌, refl, sym, subst, ◌∙◌, inl, inr, Option, Bool, true, false, ◌||◌, some, List, [],
  ◌∷◌, All, Bool-cases, if◌then◌else◌, arith,
}
use ros2_cuda_ipc.Fanout.{Array, Grid, Thread, same, in_grid, run, occurrences, IsSchedule}

pub same→≡ : (t u : Thread) → same t u ≡ true → t ≡ u
same→≡ t u h = ground arith

same_self : (t : Thread) → same t t ≡ true
same_self t = ground arith

All-of_occurrences :
    (P : Thread → Type 0) (ts : List Thread)
    → ((t : Thread) → 0 < occurrences t ts → P t)
    → All P ts
All-of_occurrences P [] h = tt
All-of_occurrences P (u ∷ us) h =
    (h u (ground (arith, same_self u)), All-of_occurrences P us (λ t p. h t (omega (arith, p))))

pub IsSchedule-All :
    (g : Grid) (ts : List Thread) → IsSchedule g ts → All (λ t. in_grid g t ≡ true) ts
IsSchedule-All g ts s = All-of_occurrences _ ts (λ t p. ground (arith, s t, p))

-- What holds of every thread of a schedule holds of every thread of the grid.
at_occurrence :
    (P : Thread → Type 0) (t : Thread) (ts : List Thread) → 0 < occurrences t ts → All P ts → P t
at_occurrence P t [] p h = absurd (omega (arith, p))
at_occurrence P t (u ∷ us) p (h, hs) = elim (Bool-cases (same t u)) [
  | inl e ↦ subst P (sym (same→≡ t u e)) h
  | inr e ↦ at_occurrence P t us (ground (arith, p, e)) hs
]

pub IsSchedule_at :
    (g : Grid) (P : Thread → Type 0) (t : Thread) (ts : List Thread)
    → IsSchedule g ts
    → in_grid g t ≡ true
    → All P ts
    → P t
IsSchedule_at g P t ts s i h = at_occurrence P t ts (ground (arith, s t, i)) h

-- Does a thread of the list do it?
abbrev pub any : (Thread → Bool) → List Thread → Bool
any f [] = false
any f (t ∷ ts) = f t || any f ts

pub any-false :
    (f : Thread → Bool) (ts : List Thread) → ((t : Thread) → f t ≡ false) → any f ts ≡ false
any-false f [] h = refl
any-false f (t ∷ ts) h = rw (h t) (any-false f ts h)

any_of_occurrences :
    (f : Thread → Bool) (t : Thread) (ts : List Thread)
    → 0 < occurrences t ts
    → f t ≡ true
    → any f ts ≡ true
any_of_occurrences f t [] p h = absurd (omega (arith, p))
any_of_occurrences f t (u ∷ us) p h = elim (Bool-cases (same t u)) [
  | inl e ↦ rw (subst (λ v. f v ≡ true) (same→≡ t u e) h) refl
  | inr e ↦ ground (arith, any_of_occurrences f t us (ground (arith, p, e)) h)
]

pub IsSchedule-any :
    (g : Grid) (ts : List Thread) (f : Thread → Bool) (t : Thread)
    → IsSchedule g ts
    → in_grid g t ≡ true
    → f t ≡ true
    → any f ts ≡ true
IsSchedule-any g ts f t s i h = any_of_occurrences f t ts (ground (arith, s t, i)) h

-- Threads that each write their own elements of an array, and the values that the elements are to get.
module _ {V : Type 0} (step : Thread → Array V → Option (Array V)) (writes : Thread → ℕ → Bool)
    (want : ℕ → V) where
  -- The array afterwards has the wanted values where `w` says so and is unchanged elsewhere.
  abbrev pub Changed : (ℕ → Bool) → Array V → Option (Array V) → Type 0
  Changed w before after =
      (o : Array V) × (after ≡ some o)
      × (o.size ≡ before.size)
      × ((a : ℕ) → o.at a ≡ (if w a then want a else before.at a))

  pub run-Changed :
      (P : Thread → Type 0) (n : ℕ)
      → ((t : Thread) (b : Array V) → P t → b.size ≡ n → Changed (writes t) b (step t b))
      → (ts : List Thread) (b : Array V) → All P ts
      → b.size ≡ n
      → Changed (λ a. any (λ t. writes t a) ts) b (run step ts b)
  unfolding run
  run-Changed P n act [] b p e = (b, refl, refl, λ a. refl)
  run-Changed P n act (t ∷ ts) b p e =
      let (b', first, kept, unit) = act t b p.0 e in
      let (o, rest, kept', units) = run-Changed P n act ts b' p.1 (kept ∙ e) in
      (o, rw (first, run) rest, kept' ∙ kept, λ a. ground (arith, unit a, units a))
