-- ===== src/Dlpack.antt =====
-- ros2_cuda_ipc_py: include/ros2_cuda_ipc_py/dlpack/image_tensor_descriptor.hpp, and in
-- src/native_module.cpp `dtype_size` and `validate_image_descriptor`.
pub mod Capsule
pub mod Producer
pub mod Project
use ros2_cuda_ipc.Base.{
  ℕ, ◌+◌, ◌-◌, ◌*◌, ◌/◌, ◌%◌, Bool, true, false, not, ◌&&◌, ◌||◌, Option, none, some, ltb, ◌==◌,
  if◌then◌else◌, u64_max, i64_max,
}
use ros2_cuda_ipc.Image.{
  DType, u8, u16, f16, f32, f64, s16, s32, u32, unnamed, to_dtype, Triple, GpuImage, needed_bytes,
}

pub data DlDataTypeCode : Type 0 where
  dl_int dl_uint dl_float : DlDataTypeCode

pub record DlDataType : Type 0 where
  pub code : DlDataTypeCode
  pub bits : ℕ
  pub lanes : ℕ

pub record ImageTensorDescriptor : Type 0 where
  pub data_ptr : ℕ
  pub device_id : ℕ
  pub allocation_size : ℕ
  pub byte_offset : ℕ
  pub rank : ℕ
  pub shape : Triple
  pub element_strides : Triple
  pub dl_dtype : DlDataType

-- The reasons for which `project_to_tensor` throws.
pub data ProjectError : Type 0 where
  null_allocation unsupported_dtype zero_size empty_dimension misaligned_stride : ProjectError
  overlapping_stride stride_range exceeds_allocation pointer_overflow : ProjectError

pub data Projected (A : Type 0) : Type 0 where
  projected : A → Projected A
  refused : ProjectError → Projected A

abbrev pub dl_type : DlDataTypeCode → ℕ → Option DlDataType
dl_type code bits = some (record { code = code; bits = bits; lanes = 1 })

-- `tensor_dl_dtype`, which throws for an unnamed dtype.
unfoldable pub tensor_dl_dtype : DType → Option DlDataType
tensor_dl_dtype u8 = dl_type dl_uint 8
tensor_dl_dtype u16 = dl_type dl_uint 16
tensor_dl_dtype f16 = dl_type dl_float 16
tensor_dl_dtype f32 = dl_type dl_float 32
tensor_dl_dtype f64 = dl_type dl_float 64
tensor_dl_dtype s16 = dl_type dl_int 16
tensor_dl_dtype s32 = dl_type dl_int 32
tensor_dl_dtype u32 = dl_type dl_uint 32
tensor_dl_dtype (unnamed n) = none

-- One turn of the loop over the dimensions, less the sum: the error, or none.
unfoldable pub check_dimension : ℕ → ℕ → ℕ → Option ProjectError
check_dimension size shape stride =
    if shape == 0
    then some empty_dimension
    else if not (stride % size == 0)
    then some misaligned_stride
    else if ltb 1 shape && ltb stride size
    then some overlapping_stride
    else if ltb i64_max (stride / size)
    then some stride_range
    else none

abbrev pub first_error : Option ProjectError → Option ProjectError → Option ProjectError
first_error (some e) _ = some e
first_error none o = o

-- The checks of `project_to_tensor` on an element of `size` bytes, in their order.
unfoldable pub check_tensor : ℕ → Triple → Triple → ℕ → ℕ → Option ProjectError
check_tensor size shape strides data_ptr allocation_size =
    let last_byte = needed_bytes shape strides size in
    if size == 0
    then some zero_size
    else first_error (check_dimension size shape.first strides.first) (
        first_error (check_dimension size shape.second strides.second) (
          first_error (check_dimension size shape.third strides.third) (
            if ltb u64_max last_byte || ltb allocation_size last_byte
            then some exceeds_allocation
            else if ltb (u64_max - data_ptr) allocation_size || ltb (u64_max - data_ptr) last_byte
            then some pointer_overflow
            else none)))

abbrev pub element_size : DlDataType → ℕ
element_size t = t.bits / 8 * t.lanes

abbrev pub tensor_of : DlDataType → Triple → Triple → ℕ → ℕ → ℕ → ImageTensorDescriptor
tensor_of t shape strides data_ptr allocation_size device_id = record {
  data_ptr = data_ptr;
  device_id = device_id;
  allocation_size = allocation_size;
  byte_offset = 0;
  rank = 3;
  shape = shape;
  element_strides = record {
    first = strides.first / element_size t;
    second = strides.second / element_size t;
    third = strides.third / element_size t;
  };
  dl_dtype = t;
}

-- `project_to_tensor`; a null `data` is 0.
unfoldable pub project_to_tensor :
    DType → Triple → Triple → ℕ → ℕ → ℕ → Projected ImageTensorDescriptor
project_to_tensor dtype shape strides data_ptr allocation_size device_id =
    if data_ptr == 0 then refused null_allocation else elim (tensor_dl_dtype dtype) [
      | none ↦ refused unsupported_dtype
      | some t ↦ elim (check_tensor (element_size t) shape strides data_ptr allocation_size) [
        | some e ↦ refused e
        | none ↦ projected (tensor_of t shape strides data_ptr allocation_size device_id)
      ]
    ]

-- `dtype_size`; `none` is the exception.
unfoldable pub dtype_size : ℕ → Option ℕ
dtype_size code = elim (tensor_dl_dtype (to_dtype code)) [
  | none ↦ none
  | some t ↦ some (t.bits / 8)
]

-- `validate_image_descriptor`: does it return, or throw?
unfoldable pub validate_image_descriptor : {Header : Type 0} → GpuImage Header → Bool
validate_image_descriptor message = elim (dtype_size message.dtype) [
  | none ↦ false
  | some size ↦
      let needed = needed_bytes message.shape message.strides size in
      if message.shape.first == 0 || message.shape.second == 0 || message.shape.third == 0
      then false
      else not (ltb u64_max needed || ltb message.core.byte_size needed)
]
