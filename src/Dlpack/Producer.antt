-- ===== src/Dlpack/Producer.antt =====
-- `PyDLPackImage` of ros2_cuda_ipc_py/src/native_module.cpp: the late-binding DLPack producer. A
-- legacy and a versioned capsule differ in the object that wraps the tensor; `capsule_made` says if
-- the Python interpreter could make the capsule.
pub mod Once
use ros2_cuda_ipc.Base.{ℕ, Bool, true, false, not, ◌||◌, Option, none, some, ◌==◌, if◌then◌else◌}
use ros2_cuda_ipc.Cuda.{Machine, M, pure, ◌>>=◌}
use ros2_cuda_ipc.Importer.{ImportedResources}
use ros2_cuda_ipc.Subscriber.ReadHandle.{
  MappedPublication, Impl, ReadHandle, DeferredReleaseQueue, publication_valid, make_bound,
  release_read,
}
use ros2_cuda_ipc.Image.{DType, Triple, GpuImage, to_dtype}
use ros2_cuda_ipc.Dlpack.{ImageTensorDescriptor, Projected, projected, refused, project_to_tensor}

pub data State : Type 0 where
  available consumed closed : State

pub record PyDlPackImage : Type 0 where
  pub publication : Option MappedPublication
  pub state : State
  pub byte_size : ℕ
  pub device_id : ℕ
  pub shape : Triple
  pub strides : Triple
  pub dtype : DType

-- The capsule with its tensor and the read that it owns, or the exception. `deleted_twice` is no
-- exception: the deleter that the handler calls deletes the context with the read, and the unwinding
-- deletes it again (see Capsule), so that nothing is known of what follows.
pub data Export : Type 0 where
  exported : Bool → ImageTensorDescriptor → Impl → Export
  mapping_error value_error buffer_error deleted_twice : Export

-- The constructor, which throws for a publication that is null or not valid.
unfoldable pub new :
    {Header : Type 0} → GpuImage Header → Option MappedPublication → Option PyDlPackImage
new message none = none
new message (some p) =
    if not (publication_valid p)
    then none
    else some (record {
      publication = some p;
      state = available;
      byte_size = p.byte_size;
      device_id = p.device_id;
      shape = message.shape;
      strides = message.strides;
      dtype = to_dtype message.dtype;
    })

-- `MappedPublication::device_ptr`.
abbrev pub device_ptr : MappedPublication → ℕ
device_ptr p = elim p.resource [ none ↦ 0 | some r ↦ r.dev_ptr ]

abbrev pub ended : State → PyDlPackImage → PyDlPackImage
ended s image = record image { publication = none; state = s }

-- `dlpack` once `make_bound` has answered: the handle, and what it left of the publication.
unfoldable pub hand_over :
    Bool
    → Bool
    → Bool
    → PyDlPackImage
    → DeferredReleaseQueue
    → ImageTensorDescriptor
    → ReadHandle
    → MappedPublication
    → M (Export × PyDlPackImage × DeferredReleaseQueue)
hand_over accepted capsule_made versioned image q tensor none left =
    pure (mapping_error, record image { publication = some left }, q)
hand_over accepted capsule_made versioned image q tensor (some read) left =
    if capsule_made then pure (exported versioned tensor read, ended consumed image, q) else do
      released ← release_read accepted read q
      pure (deleted_twice, ended closed image, released.1)

-- `dlpack` of a publication, on its projected tensor.
unfoldable pub export_projected :
    Bool
    → Bool
    → Bool
    → PyDlPackImage
    → DeferredReleaseQueue
    → MappedPublication
    → ℕ
    → Projected ImageTensorDescriptor
    → M (Export × PyDlPackImage × DeferredReleaseQueue)
export_projected accepted capsule_made versioned image q p stream (refused e) =
    pure (buffer_error, image, q)
export_projected accepted capsule_made versioned image q p stream (projected tensor) = do
  bound ← make_bound p stream
  hand_over accepted capsule_made versioned image q tensor bound.0 bound.1

-- `dlpack` of an object that is available, which has a publication.
unfoldable pub export_publication :
    Bool
    → Bool
    → Bool
    → PyDlPackImage
    → DeferredReleaseQueue
    → ℕ
    → Bool
    → Option MappedPublication
    → M (Export × PyDlPackImage × DeferredReleaseQueue)
export_publication accepted capsule_made versioned image q stream synchronize none =
    pure (mapping_error, image, q)
export_publication accepted capsule_made versioned image q stream synchronize (some p) =
    if not synchronize || stream == 0
    then pure (value_error, image, q)
    else export_projected accepted capsule_made versioned image q p stream (
        project_to_tensor image.dtype image.shape image.strides (device_ptr p) image.byte_size
          image.device_id)

-- `ensure_available`, and `dlpack` after it.
unfoldable pub export_state :
    Bool
    → Bool
    → Bool
    → PyDlPackImage
    → DeferredReleaseQueue
    → ℕ
    → Bool
    → State
    → M (Export × PyDlPackImage × DeferredReleaseQueue)
export_state accepted capsule_made versioned image q stream synchronize available =
    export_publication accepted capsule_made versioned image q stream synchronize image.publication
export_state accepted capsule_made versioned image q stream synchronize consumed =
    pure (mapping_error, image, q)
export_state accepted capsule_made versioned image q stream synchronize closed =
    pure (mapping_error, image, q)

-- `dlpack`.
unfoldable pub dlpack :
    Bool
    → Bool
    → Bool
    → PyDlPackImage
    → DeferredReleaseQueue
    → ℕ
    → Bool
    → M (Export × PyDlPackImage × DeferredReleaseQueue)
dlpack accepted capsule_made versioned image q stream synchronize =
    export_state accepted capsule_made versioned image q stream synchronize image.state
