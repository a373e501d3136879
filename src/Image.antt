-- ===== src/Image.antt =====
-- ros2_cuda_ipc_image: image_read_handle.hpp, src/image_read_handle.cpp, message_utils.hpp, and the
-- wire message ros2_cuda_ipc_msgs/msg/GpuImage.msg. The type of the ROS message header, which is
-- only copied, is a parameter.
pub mod Layout
pub mod Accept
use ros2_cuda_ipc.Base.{
  ℕ, ◌+◌, ◌-◌, ◌*◌, ◌%◌, Bool, true, false, not, ◌&&◌, Option, none, some, ltb, leb, ◌==◌,
  if◌then◌else◌, u64_max, u128_mod,
}
use ros2_cuda_ipc.Transport.{BufferDescriptor, BufferCore, fill_buffer_core_message}
use ros2_cuda_ipc.Subscriber.ReadHandle.{ReadHandle, byte_size}
use ros2_cuda_ipc.Subscriber.ReadHandle
use Prim.Native.String.{String}

-- `DType`. Its underlying type is a byte, and a cast keeps a byte that names no member.
pub data DType : Type 0 where
  u8 u16 f16 f32 f64 s16 s32 u32 : DType
  unnamed : ℕ → DType

-- `static_cast<DType>` and `static_cast<uint8_t>`.
unfoldable pub to_dtype : ℕ → DType
to_dtype n =
    if n == 0
    then u8
    else if n == 1
    then u16
    else if n == 2
    then f16
    else if n == 3
    then f32
    else if n == 4
    then f64
    else if n == 5
    then s16
    else if n == 6
    then s32
    else if n == 7
    then u32
    else unnamed n

unfoldable pub from_dtype : DType → ℕ
from_dtype u8 = 0
from_dtype u16 = 1
from_dtype f16 = 2
from_dtype f32 = 3
from_dtype f64 = 4
from_dtype s16 = 5
from_dtype s32 = 6
from_dtype u32 = 7
from_dtype (unnamed n) = n

-- `shape` and `strides`: rows, columns, channels.
pub record Triple : Type 0 where
  pub first : ℕ
  pub second : ℕ
  pub third : ℕ

pub record GpuImage (Header : Type 0) : Type 0 where
  pub header : Header
  pub dtype : ℕ
  pub shape : Triple
  pub strides : Triple
  pub core : BufferCore
  pub encoding : String

pub record ImageReadHandle (Header : Type 0) : Type 0 where
  pub header : Header
  pub read : ReadHandle
  pub shape : Triple
  pub strides : Triple
  pub dtype : DType
  pub encoding : String

-- `elem_size_bytes`.
unfoldable pub elem_size_bytes : DType → ℕ
elem_size_bytes u8 = 1
elem_size_bytes u16 = 2
elem_size_bytes f16 = 2
elem_size_bytes s16 = 2
elem_size_bytes f32 = 4
elem_size_bytes s32 = 4
elem_size_bytes u32 = 4
elem_size_bytes f64 = 8
elem_size_bytes (unnamed n) = 0

-- `needed`, in 128-bit arithmetic, of a shape with no 0 in it.
unfoldable pub needed_bytes : Triple → Triple → ℕ → ℕ
needed_bytes shape strides size =
    ((shape.first - 1) * strides.first
      + (shape.second - 1) * strides.second
      + (shape.third - 1) * strides.third
      + size)
    % u128_mod

-- The test that ends `sanity_check`.
unfoldable pub fits : Triple → Triple → ℕ → ℕ → Bool
unfolding needed_bytes
fits shape strides size available =
    leb (needed_bytes shape strides size) u64_max && leb (needed_bytes shape strides size) available

module _ {Header : Type 0} where
  -- `valid`.
  unfoldable pub valid : ImageReadHandle Header → Bool
  valid h =
      ReadHandle.valid h.read && ltb 0 h.shape.first && ltb 0 h.shape.second && ltb 0 h.shape.third

  unfoldable pub sanity_check : ImageReadHandle Header → Bool
  unfolding valid
  sanity_check h =
      if not (valid h)
      then false
      else if elem_size_bytes h.dtype == 0
      then false
      else fits h.shape h.strides (elem_size_bytes h.dtype) (byte_size h.read)

  -- `from_message`. A read that is refused is destroyed with the local result.
  unfoldable pub from_message : GpuImage Header → ReadHandle → Option (ImageReadHandle Header)
  from_message message read =
      let result : ImageReadHandle Header = record {
        header = message.header;
        read = read;
        shape = message.shape;
        strides = message.strides;
        dtype = to_dtype message.dtype;
        encoding = message.encoding;
      } in
      if sanity_check result then some result else none

  -- `fill_gpu_image_message`, which sets every field of the message.
  unfoldable pub fill_gpu_image_message :
      BufferDescriptor → ImageReadHandle Header → GpuImage Header
  fill_gpu_image_message descriptor metadata = record {
    header = metadata.header;
    dtype = from_dtype metadata.dtype;
    shape = metadata.shape;
    strides = metadata.strides;
    core = fill_buffer_core_message descriptor;
    encoding = metadata.encoding;
  }
