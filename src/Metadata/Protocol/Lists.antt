-- ===== src/Metadata/Protocol/Lists.antt =====
-- What a change of one entry does to a sum over a list and to a property of all its entries.
use mathlib.Core.Option.{some-injective}
use ros2_cuda_ipc.Base.{
  subst, ap, ℕ, zero, suc, ◌+◌, ◌≤◌, ◌≡◌, ◌≢◌, refl, some, List, [], ◌∷◌, arith, get_elem?, set,
  All, total,
}

module _ {ℓ} {A : Type ℓ} where
  pub total-set :
      (f : A → ℕ) (l : List A) (i : ℕ) (a b : A)
      → get_elem? l i ≡ some a
      → total f (set l i b) + f a ≡ total f l + f b
  total-set f [] i a b h = cc
  total-set f (x ∷ l) zero a b h = ground arith
  total-set f (x ∷ l) (suc i) a b h = omega (arith, total-set f l i a b h)

  pub le-total : (f : A → ℕ) (l : List A) (i : ℕ) (a : A) → get_elem? l i ≡ some a → f a ≤ total f l
  le-total f [] i a h = cc
  le-total f (x ∷ l) zero a h = ground arith
  le-total f (x ∷ l) (suc i) a h = omega (arith, le-total f l i a h)

  pub le-total_two :
      (f : A → ℕ) (l : List A) (i j : ℕ) (a b : A)
      → i ≢ j
      → get_elem? l i ≡ some a
      → get_elem? l j ≡ some b
      → f a + f b ≤ total f l
  le-total_two f [] i j a b n h k = cc
  le-total_two f (x ∷ l) zero zero a b n h k = absurd (n refl)
  le-total_two f (x ∷ l) zero (suc j) a b n h k = ground (arith, le-total f l j b k)
  le-total_two f (x ∷ l) (suc i) zero a b n h k = ground (arith, le-total f l i a h)
  le-total_two f (x ∷ l) (suc i) (suc j) a b n h k =
      omega (arith, le-total_two f l i j a b (λ e. n (ap suc e)) h k)

  module _ {κ} (P : A → Type κ) where
    pub All-set : (l : List A) (i : ℕ) (b : A) → All P l → P b → All P (set l i b)
    All-set [] i b h p = tt
    All-set (x ∷ l) zero b h p = (p, h.1)
    All-set (x ∷ l) (suc i) b h p = (h.0, All-set l i b h.1 p)

    pub All-get : (l : List A) (i : ℕ) (a : A) → All P l → get_elem? l i ≡ some a → P a
    All-get [] i a h e = cc
    All-get (x ∷ l) zero a h e = subst P (some-injective _ _ e) h.0
    All-get (x ∷ l) (suc i) a h e = All-get l i a h.1 e

    pub All-map {λ'} : (Q : A → Type λ') (l : List A) → ((a : A) → P a → Q a) → All P l → All Q l
    All-map Q [] f h = tt
    All-map Q (x ∷ l) f h = (f x h.0, All-map Q l f h.1)
