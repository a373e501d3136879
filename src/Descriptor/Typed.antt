-- ===== src/Descriptor/Typed.antt =====
-- The types of the fields of an image message, for src/native_module.cpp.
use ros2_cuda_ipc.Base.{◌≤◌, ◌≡◌, u32_max, u64_max, length, All}
use ros2_cuda_ipc.Transport.{BufferCore}
use ros2_cuda_ipc.Image.{GpuImage}
use ros2_cuda_ipc.Image.Accept.{IsTyped}
use ros2_cuda_ipc.Descriptor.Value.{PyInt, pos, negsuc}
use ros2_cuda_ipc.Descriptor.{Header, u8_max, i32_max}

-- The values of `int32_t`.
abbrev pub IsInt32 : PyInt → Type 0
IsInt32 (pos n) = n ≤ i32_max
IsInt32 (negsuc n) = n ≤ i32_max

abbrev pub IsHeader : Header → Type 0
IsHeader h = IsInt32 h.sec × (h.nanosec ≤ u32_max)

-- The fields of `BufferCore`.
pub record IsCore (c : BufferCore) : Type 0 where
  pub handle_bytes : All (λ b. b ≤ u8_max) c.event_handle
  pub handle_length : length c.event_handle ≡ 64
  pub publisher_pid_max : c.publisher_pid ≤ u32_max
  pub device_id_max : c.device_id ≤ u32_max
  pub block_id_max : c.block_id ≤ u32_max
  pub uid_max : c.uid ≤ u64_max
  pub byte_size_max : c.byte_size ≤ u64_max

-- The fields of `GpuImage`.
pub record IsMessage (m : GpuImage Header) : Type 0 where
  pub header_values : IsHeader m.header
  pub dtype_max : m.dtype ≤ u8_max
  pub array_values : IsTyped m.shape m.strides
  pub core_values : IsCore m.core
