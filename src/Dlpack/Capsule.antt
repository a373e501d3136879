-- ===== src/Dlpack/Capsule.antt =====
-- Who deletes what of a DLPack export: the deleters and the capsule's destructor of
-- ros2_cuda_ipc_py/src/native_module.cpp, and the end of `PyDLPackImage::dlpack`. Deleting an object
-- twice, or using it after that, is a fault (`none`). The two deleters have the same body.
pub mod Once
use ros2_cuda_ipc.Base.{
  ℕ, ◌+◌, Bool, true, false, not, Option, none, some, List, [], ◌∷◌, if◌then◌else◌,
}

-- The `DlpackExportContext` with the read that it owns, the managed tensor with its `manager_ctx`, null
-- or the context, and how often the read was released.
pub record Objects : Type 0 where
  pub context_alive : Bool
  pub managed_alive : Bool
  pub manager_ctx : Bool
  pub releases : ℕ

-- As `dlpack` sets them up.
abbrev pub exported_objects : Objects
exported_objects = record {
  context_alive = true;
  managed_alive = true;
  manager_ctx = true;
  releases = 0;
}

-- `delete context`, which destroys its owner.
unfoldable pub delete_context : Objects → Option Objects
delete_context o =
    if o.context_alive
    then some (record o { context_alive = false; releases = o.releases + 1 })
    else none

-- `legacy_dlpack_deleter` and `versioned_dlpack_deleter`.
unfoldable pub dlpack_deleter : Objects → Option Objects
dlpack_deleter o =
    let bare = record o { manager_ctx = false } in
    if not o.managed_alive
    then none
    else elim (if o.manager_ctx then delete_context bare else some bare) [
      | none ↦ none
      | some p ↦ some (record p { managed_alive = false })
    ]

-- The names of capsules that the code knows, and any other, such as the one of a consumer's.
pub data CapsuleName : Type 0 where
  dltensor dltensor_versioned other : CapsuleName

-- `dlpack_capsule_destructor` of a capsule with this name, null for `none`.
unfoldable pub dlpack_capsule_destructor : Option CapsuleName → Objects → Option Objects
dlpack_capsule_destructor none o = some o
dlpack_capsule_destructor (some dltensor) o = dlpack_deleter o
dlpack_capsule_destructor (some dltensor_versioned) o = dlpack_deleter o
dlpack_capsule_destructor (some other) o = some o

-- The end of `dlpack`. When the capsule cannot be made, the handler calls the deleter, and the unwinding
-- destroys `capsule_context`, which still owns the context.
unfoldable pub finish_export : Bool → Objects → Option Objects
finish_export true o = some o
finish_export false o = elim (dlpack_deleter o) [ none ↦ none | some p ↦ delete_context p ]

-- An export that is shared with a consumer: the capsule's name, or that it is gone, and whether a
-- consumer has taken the managed tensor.
pub record Shared : Type 0 where
  pub capsule : Option CapsuleName
  pub consumer : Bool
  pub objects : Objects

-- What `dlpack` returns, legacy or versioned.
unfoldable pub export_capsule : Bool → Bool → Option Shared
export_capsule capsule_made versioned = elim (finish_export capsule_made exported_objects) [
  | none ↦ none
  | some o ↦ some (record {
    capsule = some (if versioned then dltensor_versioned else dltensor);
    consumer = false;
    objects = o;
  })
]

-- What can happen, by the DLPack protocol: a consumer takes the tensor of a capsule that has its name
-- still, and renames it; a consumer that has taken it calls the deleter; the capsule is destroyed.
pub data Event : Type 0 where
  take release collect : Event

abbrev pub named : CapsuleName → Bool
named other = false
named _ = true

-- An event that the protocol does not allow changes nothing.
unfoldable pub step : Event → Shared → Option Shared
step take s = elim s.capsule [
  | none ↦ some s
  | some name ↦
      if named name then some (record s { capsule = some other; consumer = true }) else some s
]
step release s = if not s.consumer then some s else elim (dlpack_deleter s.objects) [
  | none ↦ none
  | some o ↦ some (record s { consumer = false; objects = o })
]
step collect s = elim s.capsule [
  | none ↦ some s
  | some name ↦ elim (dlpack_capsule_destructor (some name) s.objects) [
    | none ↦ none
    | some o ↦ some (record s { capsule = none; objects = o })
  ]
]

unfoldable pub run : List Event → Shared → Option Shared
run [] s = some s
run (e ∷ es) s = elim (step e s) [ none ↦ none | some s' ↦ run es s' ]
