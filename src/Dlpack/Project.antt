-- ===== src/Dlpack/Project.antt =====
-- What a tensor that `project_to_tensor` makes describes, and the agreement of the three places that
-- know the size of an element.
use ros2_cuda_ipc.Base.{
  ap, ℕ, ◌+◌, ◌-◌, ◌*◌, ◌/◌, ◌%◌, ◌≤◌, ◌<◌, ◌≡◌, refl, sym, ◌∙◌, ◌⊎◌, inl, inr, true, Option, none,
  some, arith, u64_max, i64_max, ◌==◌, if◌then◌else◌, Option-cases, Bool-cases,
}
use ros2_cuda_ipc.Subscriber.ReadHandle.{ReadHandle, byte_size}
use ros2_cuda_ipc.Subscriber.ReadHandle
use ros2_cuda_ipc.Image.{
  DType, Triple, GpuImage, to_dtype, elem_size_bytes, fits, from_message, sanity_check, valid,
}
use ros2_cuda_ipc.Image.Layout.{Within, offset, fits→Within}
use ros2_cuda_ipc.Image.Accept.{IsTyped, array, elem_size_bytes-max, image_of}
use ros2_cuda_ipc.Dlpack.{
  DlDataType, ImageTensorDescriptor, ProjectError, null_allocation, unsupported_dtype, projected,
  refused, tensor_dl_dtype, check_dimension, check_tensor, element_size, tensor_of,
  project_to_tensor, dtype_size, validate_image_descriptor,
}
use native.Mathlib.Nat.{div-add-mod}

abbrev size_of : Option DlDataType → ℕ
size_of none = 0
size_of (some t) = element_size t

-- The table of DLPack types gives the sizes of `elem_size_bytes`.
size_of-tensor_dl_dtype : (x : DType) → size_of (tensor_dl_dtype x) ≡ elem_size_bytes x
unfolding tensor_dl_dtype elem_size_bytes
size_of-tensor_dl_dtype x = ground arith

check_dimension_lem :
    (size shape stride : ℕ)
    → 0 < size
    → check_dimension size shape stride ≡ none
    → (0 < shape) × (stride / size * size ≡ stride) × (stride / size ≤ i64_max)
unfolding check_dimension
check_dimension_lem size shape stride s e =
    let aligned : stride % size ≡ 0 = ground (arith, e) in
    (ground (arith, e), grind (arith, div-add-mod stride size, aligned), ground (arith, e))

check_tensor_lem :
    (size : ℕ) (shape strides : Triple) (p n : ℕ)
    → check_tensor size shape strides p n ≡ none
    → (0 < size)
      × (check_dimension size shape.first strides.first ≡ none)
      × (check_dimension size shape.second strides.second ≡ none)
      × (check_dimension size shape.third strides.third ≡ none)
      × (fits shape strides size n ≡ true)
      × (n ≤ u64_max - p)
unfolding check_tensor fits
check_tensor_lem size shape strides p n e = ground (arith, e)

-- What a tensor says of an image of `size`-byte elements at `p`, with `n` bytes there: it starts at
-- `p`, has the image's shape, its strides count elements and give every element the image's offset,
-- every element lies within the bytes, and the addresses do not wrap.
abbrev pub Describes : ℕ → Triple → Triple → ℕ → ℕ → ImageTensorDescriptor → Type 0
Describes size shape strides p n t =
    (t.data_ptr ≡ p)
    × (t.byte_offset ≡ 0)
    × (t.shape ≡ shape)
    × (element_size t.dl_dtype ≡ size)
    × ((i j k : ℕ) → offset t.element_strides i j k * size ≡ offset strides i j k)
    × Within shape strides size n
    × (p + n ≤ u64_max)

-- Strides counted in elements give the offsets of strides counted in bytes.
scaled : (i j k a b c s : ℕ) → (i * a + j * b + k * c) * s ≡ i * (a * s) + j * (b * s) + k * (c * s)
scaled i j k a b c s = grind arith

check_tensor-Describes :
    (shape strides : Triple) (x : DType) (t : DlDataType) (p n device_id : ℕ)
    → IsTyped shape strides
    → p ≤ u64_max
    → tensor_dl_dtype x ≡ some t
    → check_tensor (element_size t) shape strides p n ≡ none
    → Describes (elem_size_bytes x) shape strides p n (tensor_of t shape strides p n device_id)
check_tensor-Describes shape strides x t p n device_id typed most found e =
    let same : element_size t ≡ elem_size_bytes x =
      sym (ap size_of found) ∙ size_of-tensor_dl_dtype x in
    let (pos, a, b, c, f, room) = check_tensor_lem (element_size t) shape strides p n e in
    let (a0, a1, _) = check_dimension_lem (element_size t) shape.first strides.first pos a in
    let (b0, b1, _) = check_dimension_lem (element_size t) shape.second strides.second pos b in
    let (c0, c1, _) = check_dimension_lem (element_size t) shape.third strides.third pos c in
    (
      refl,
      refl,
      refl,
      same,
      λ i j k. rw (sym same) (
          scaled i j k (strides.first / element_size t) (strides.second / element_size t)
            (strides.third / element_size t) (element_size t)
          ∙ rw (a1, b1, c1) refl),
      rw (sym same) (
          fits→Within shape strides (element_size t) n (array shape strides typed a0 b0 c0)
            (rw same (elem_size_bytes-max x)) f),
      omega (arith, room, most),
    )

-- Projecting image metadata on a tensor either refuses, or makes a tensor that describes the same
-- elements as the metadata, at the same addresses, with all of them within the allocation.
pub project_to_tensor-Describes :
    (x : DType) (shape strides : Triple) (p n device_id : ℕ)
    → IsTyped shape strides
    → p ≤ u64_max
    → let result = project_to_tensor x shape strides p n device_id in
      ((t : ImageTensorDescriptor) × (result ≡ projected t)
        × Describes (elem_size_bytes x) shape strides p n t)
      ⊎ ((e : ProjectError) × (result ≡ refused e))
unfolding project_to_tensor
project_to_tensor-Describes x shape strides p n device_id typed most = elim (Bool-cases (p == 0)) [
  | inl null ↦ inr (null_allocation, rw null refl)
  | inr there ↦ elim (Option-cases (tensor_dl_dtype x)) [
    | inl missing ↦ inr (unsupported_dtype, rw (there, missing) refl)
    | inr (t, found) ↦ elim (Option-cases (check_tensor (element_size t) shape strides p n)) [
      | inr (e, bad) ↦ inr (e, rw (there, found, bad) refl)
      | inl good ↦ inl (
        tensor_of t shape strides p n device_id,
        rw (there, found, good) refl,
        check_tensor-Describes shape strides x t p n device_id typed most found good,
      )
    ]
  ]
]

size_lem :
    (x : DType)
    → elim (tensor_dl_dtype x) [ none ↦ none | some t ↦ some (t.bits / 8) ]
      ≡ (if elem_size_bytes x == 0 then none else some (elem_size_bytes x))
unfolding tensor_dl_dtype elem_size_bytes
size_lem x = ground arith

dtype_size_lem :
    (code : ℕ)
    → dtype_size code ≡ (
        if elem_size_bytes (to_dtype code) == 0
        then none
        else some (elem_size_bytes (to_dtype code)))
unfolding dtype_size
dtype_size_lem code = size_lem (to_dtype code)

agree :
    {Header : Type 0} (message : GpuImage Header) (read : ReadHandle)
    → ReadHandle.valid read ≡ true
    → byte_size read ≡ message.core.byte_size
    → sanity_check (image_of message read) ≡ validate_image_descriptor message
unfolding validate_image_descriptor sanity_check valid fits
agree message read v b = ground (arith, v, b, dtype_size_lem message.dtype)

-- The check that the Python module makes of a message before it maps it agrees with the check of
-- `from_message`, for a valid read that has the number of bytes which the message announces: what one
-- accepts, the other accepts.
pub validate_image_descriptor-from_message :
    {Header : Type 0} (message : GpuImage Header) (read : ReadHandle)
    → ReadHandle.valid read ≡ true
    → byte_size read ≡ message.core.byte_size
    → from_message message read
      ≡ (if validate_image_descriptor message then some (image_of message read) else none)
unfolding from_message
validate_image_descriptor-from_message message read v b =
    ap (λ c. if c then some (image_of message read) else none) (agree message read v b)
