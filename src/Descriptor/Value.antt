-- ===== src/Descriptor/Value.antt =====
-- The Python values that src/native_module.cpp tells apart. The interpreter is not part of the
-- repository: `opaque` is an object of any other class, which is no integer, string, sequence or
-- dictionary.
use ros2_cuda_ipc.Base.{ℕ, suc, Bool, true, false, Option, none, some, if◌then◌else◌}
use Prim.Native.String.{String, [], ◌∷◌, compare}
use Prim.Native.Nat.{Ordering}

-- An integer of any size: `negsuc n` is - (n + 1).
pub data PyInt : Type 0 where
  pos negsuc : ℕ → PyInt

-- A value, the items of a sequence, and the entries of a dictionary.
mutual
  pub data PyValue : Type 0 where
    integer : PyInt → PyValue
    text : String → PyValue
    sequence : PyItems → PyValue
    dict : PyEntries → PyValue
    opaque : PyValue

  pub data PyItems : Type 0 where
    nil : PyItems
    cons : PyValue → PyItems → PyItems

  pub data PyEntries : Type 0 where
    empty : PyEntries
    entry : String → PyValue → PyEntries → PyEntries

abbrev pub same : String → String → Bool
same s t = elim (compare s t) [ Ordering.eq ↦ true | _ ↦ false ]

-- `contains` and `[]`.
abbrev pub lookup : String → PyEntries → Option PyValue
lookup key empty = none
lookup key (entry k v rest) = let later = lookup key rest in if same key k then some v else later

-- The items of a text are its characters.
abbrev pub letters : String → PyItems
letters [] = nil
letters (c ∷ s) = cons (text (c ∷ [])) (letters s)

-- `PySequence_Check`, `PySequence_GetItem` and `PySequence_Size`.
abbrev pub items_of : PyValue → Option PyItems
items_of (sequence items) = some items
items_of (text s) = some (letters s)
items_of _ = none

abbrev pub count_items : PyItems → ℕ
count_items nil = 0
count_items (cons v vs) = suc (count_items vs)
