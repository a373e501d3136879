-- ===== src/Descriptor/Values.antt =====
-- What the readers of single values in src/native_module.cpp return.
use ros2_cuda_ipc.Base.{
  ap, ◌∙◌, ◌⊎◌, Option-cases, ℕ, suc, ◌+◌, ◌≤◌, ◌≡◌, refl, Option, none, some, List, arith, length,
  All, Bool-cases, inl, inr, ◌==◌, ==_iff,
}
use ros2_cuda_ipc.Descriptor.Value.{
  pos, negsuc, PyValue, integer, text, sequence, dict, opaque, PyItems, nil, cons, PyEntries,
  lookup, items_of, count_items,
}
use ros2_cuda_ipc.Descriptor.{
  Decoded, decoded, raised, ◌>>=◌, as_dict, sequence_of, required, required_dict, unsigned_integer,
  signed_int32, string_value, of_items, read_items, fixed_sequence, optional_text,
}
use ros2_cuda_ipc.Descriptor.Typed.{IsInt32}
use Prim.Native.String.{String}

-- Under the key stands this value; a text may be missing, and is empty then.
abbrev pub Has : PyEntries → String → PyValue → Type 0
Has d key v = lookup key d ≡ some v

abbrev pub HasNumber : PyEntries → String → ℕ → ℕ → Type 0
HasNumber d key max n = Has d key (integer (pos n)) × (n ≤ max)

abbrev pub HasText : PyEntries → String → String → Type 0
HasText d key s = Has d key (text s) ⊎ ((lookup key d ≡ none) × (s ≡ ""))

-- Under the key stands a sequence of exactly these numbers.
abbrev pub HasNumbers : PyEntries → String → ℕ → List ℕ → Type 0
HasNumbers d key max xs =
    (v : PyValue) × Has d key v × (items_of v ≡ some (sequence_of xs)) × All (λ x. x ≤ max) xs

-- A result that is returned has the property.
abbrev pub Ensures : {A : Type 0} → (A → Type 0) → Decoded A → Type 0
Ensures P (decoded a) = P a
Ensures P (raised e) = Unit {0}

module _ {A B : Type 0} (Q : B → Type 0) where
  pub then-Ensures :
      {P : A → Type 0} (x : Decoded A) (f : A → Decoded B)
      → Ensures P x
      → ((a : A) → P a → Ensures Q (f a))
      → Ensures Q (x >>= f)
  then-Ensures (decoded a) f p k = k a p
  then-Ensures (raised e) f p k = tt

  then_any : (x : Decoded A) (f : A → Decoded B) → ((a : A) → Ensures Q (f a)) → Ensures Q (x >>= f)
  then_any (decoded a) f k = k a
  then_any (raised e) f k = tt

pub weaken :
    {A : Type 0} {P Q : A → Type 0} (x : Decoded A)
    → Ensures P x
    → ((a : A) → P a → Q a)
    → Ensures Q x
weaken (decoded a) p k = k a p
weaken (raised e) p k = tt

pub required-Ensures : (d : PyEntries) (key : String) → Ensures (λ v. Has d key v) (required d key)
unfolding required
required-Ensures d key = elim (Option-cases (lookup key d)) [
  | inl e ↦ rw (required, e) tt
  | inr (v, e) ↦ rw (required, e) refl
]

as_dict-Ensures : (v : PyValue) (key : String) → Ensures (λ d. v ≡ dict d) (as_dict v key)
unfolding as_dict
as_dict-Ensures (dict d) key = refl
as_dict-Ensures (integer n) key = tt
as_dict-Ensures (text s) key = tt
as_dict-Ensures (sequence vs) key = tt
as_dict-Ensures opaque key = tt

pub required_dict-Ensures :
    (d : PyEntries) (key : String) → Ensures (λ e. Has d key (dict e)) (required_dict d key)
unfolding required_dict
required_dict-Ensures d key =
    then-Ensures (λ e. Has d key (dict e)) (required d key) _ (required-Ensures d key)
      (λ v h. weaken (as_dict v key) (as_dict-Ensures v key) (λ e same. h ∙ ap some same))

unsigned-Ensures :
    (max : ℕ) (v : PyValue) (path : String)
    → Ensures (λ n. (v ≡ integer (pos n)) × (n ≤ max)) (unsigned_integer max v path)
unfolding unsigned_integer
unsigned-Ensures max (integer (pos n)) path = ground arith
unsigned-Ensures max (integer (negsuc n)) path = tt
unsigned-Ensures max (text s) path = tt
unsigned-Ensures max (sequence vs) path = tt
unsigned-Ensures max (dict d) path = tt
unsigned-Ensures max opaque path = tt

-- A number that is required.
pub number-Ensures :
    {B : Type 0} (Q : B → Type 0) (d : PyEntries) (key : String) (max : ℕ) (path : String)
    (f : ℕ → Decoded B)
    → ((n : ℕ) → HasNumber d key max n → Ensures Q (f n))
    → Ensures Q (required d key >>= λ v. unsigned_integer max v path >>= f)
number-Ensures Q d key max path f k =
    then-Ensures Q (required d key) _ (required-Ensures d key) (λ v h.
      then-Ensures Q (unsigned_integer max v path) f (unsigned-Ensures max v path)
        (λ n p. k n (h ∙ ap some p.0, p.1)))

pub signed-Ensures :
    (v : PyValue) (path : String) → Ensures (λ n. (v ≡ integer n) × IsInt32 n) (signed_int32 v path)
unfolding signed_int32
signed-Ensures (integer (pos n)) path = ground arith
signed-Ensures (integer (negsuc n)) path = ground arith
signed-Ensures (text s) path = tt
signed-Ensures (sequence vs) path = tt
signed-Ensures (dict d) path = tt
signed-Ensures opaque path = tt

pub string_value-Ensures :
    (v : PyValue) (path : String) → Ensures (λ s. v ≡ text s) (string_value v path)
unfolding string_value
string_value-Ensures (text s) path = refl
string_value-Ensures (integer n) path = tt
string_value-Ensures (sequence vs) path = tt
string_value-Ensures (dict d) path = tt
string_value-Ensures opaque path = tt

pub optional_text-Ensures :
    (d : PyEntries) (key path : String) → Ensures (λ s. HasText d key s) (optional_text d key path)
unfolding optional_text
optional_text-Ensures d key path = elim (Option-cases (lookup key d)) [
  | inl e ↦ rw (optional_text, e) (inr (refl, refl))
  | inr (v, e) ↦
      rw (optional_text, e)
        (weaken (string_value v path) (string_value-Ensures v path) (λ s same. inl (ap some same)))
]

abbrev Sized : ℕ → PyItems → List ℕ → Type 0
Sized max vs xs = (vs ≡ sequence_of xs) × All (λ x. x ≤ max) xs × (length xs ≡ count_items vs)

items_ensure :
    (max : ℕ) (vs : PyItems) (path : String) (index : ℕ)
    → Ensures (λ xs. Sized max vs xs) (read_items max vs path index)
unfolding read_items sequence_of
items_ensure max nil path index = (refl, tt, refl)
items_ensure max (cons v vs) path index =
    then-Ensures (λ xs. Sized max (cons v vs) xs) (unsigned_integer max v _) _
      (unsigned-Ensures max v _)
      (λ x p.
        then-Ensures (λ xs. Sized max (cons v vs) xs) (read_items max vs path (index + 1)) _
          (items_ensure max vs path (index + 1))
          (λ xs q.
            (ap (λ w. cons w vs) p.0 ∙ ap (cons (integer (pos x))) q.0, (p.1, q.1), ap suc q.2)))

abbrev Fixed : ℕ → ℕ → Option PyItems → List ℕ → Type 0
Fixed max n items xs = (items ≡ some (sequence_of xs)) × All (λ x. x ≤ max) xs × (length xs ≡ n)

sequence-Ensures :
    (max n : ℕ) (items : Option PyItems) (path : String)
    → Ensures (λ xs. Fixed max n items xs) (of_items max n items path)
unfolding of_items
sequence-Ensures max n none path = tt
sequence-Ensures max n (some items) path = elim (Bool-cases (count_items items == n)) [
  | inl e ↦
      let same = (==_iff (count_items items) n).0 e in
      rw (e) (
        weaken (read_items max items path 0) (items_ensure max items path 0)
          (λ xs q. (ap some q.0, q.1, q.2 ∙ same)))
  | inr e ↦ rw (e) tt
]

-- A sequence that is required.
pub numbers-Ensures :
    {B : Type 0} (Q : B → Type 0) (d : PyEntries) (key : String) (max n : ℕ) (path : String)
    (f : List ℕ → Decoded B)
    → ((xs : List ℕ) → HasNumbers d key max xs → length xs ≡ n → Ensures Q (f xs))
    → Ensures Q (required d key >>= λ v. fixed_sequence max n v path >>= f)
unfolding fixed_sequence
numbers-Ensures Q d key max n path f k =
    then-Ensures Q (required d key) _ (required-Ensures d key) (λ v h.
      then-Ensures Q (fixed_sequence max n v path) f (sequence-Ensures max n (items_of v) path)
        (λ xs q. k xs (v, h, q.0, q.1) q.2))
