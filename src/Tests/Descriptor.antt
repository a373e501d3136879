-- ===== src/Tests/Descriptor.antt =====
-- An image message on its way from Python to the native module.
use ros2_cuda_ipc.Base.{ℕ, zero, suc, ◌≡◌, refl, ◌≤◌, List, [], ◌∷◌, All, arith}
use ros2_cuda_ipc.Image.{GpuImage}
use ros2_cuda_ipc.Descriptor.Value.{negsuc, integer, PyEntries, entry, empty}
use ros2_cuda_ipc.Descriptor.{
  Header, decoded, raised, key_error, gpu_image_from_descriptor, gpu_image_descriptor, u8_max,
}
use ros2_cuda_ipc.Descriptor
use ros2_cuda_ipc.Descriptor.Value
use ros2_cuda_ipc.Descriptor.Read.{MessageOf, gpu_image_from_descriptor-MessageOf}
use ros2_cuda_ipc.Descriptor.Typed.{IsMessage}
use ros2_cuda_ipc.Descriptor.RoundTrip.{from_descriptor-gpu_image_descriptor}

abbrev handle : ℕ → List ℕ
handle zero = []
handle (suc n) = 7 ∷ handle n

abbrev message : GpuImage Header
message = record {
  header = record { frame_id = "camera"; sec = negsuc 0; nanosec = 999 };
  dtype = 0;
  shape = record { first = 2; second = 3; third = 4 };
  strides = record { first = 12; second = 4; third = 1 };
  core = record {
    vmm_socket_path = "/tmp/cuda_memory_pool_0.sock";
    event_handle = handle 64;
    publisher_pid = 12;
    device_id = 0;
    block_id = 3;
    uid = 8;
    byte_size = 24;
  };
  encoding = "rgba8";
}

handle_bytes : (n : ℕ) → All (λ b. b ≤ u8_max) (handle n)
handle_bytes zero = tt
handle_bytes (suc n) = (omega arith, handle_bytes n)

typed : IsMessage message
typed = record {
  header_values = (omega arith, omega arith);
  dtype_max = omega arith;
  array_values = record {
    first_max = omega arith;
    second_max = omega arith;
    third_max = omega arith;
    first_stride_max = omega arith;
    second_stride_max = omega arith;
    third_stride_max = omega arith;
  };
  core_values = record {
    handle_bytes = handle_bytes 64;
    handle_length = refl;
    publisher_pid_max = omega arith;
    device_id_max = omega arith;
    block_id_max = omega arith;
    uid_max = omega arith;
    byte_size_max = omega arith;
  };
}

from_descriptor-gpu_image_descriptor_example :
    gpu_image_from_descriptor (gpu_image_descriptor message) ≡ decoded message
from_descriptor-gpu_image_descriptor_example = from_descriptor-gpu_image_descriptor message typed

gpu_image_from_descriptor-MessageOf_example : MessageOf (gpu_image_descriptor message) message
gpu_image_from_descriptor-MessageOf_example =
    gpu_image_from_descriptor-MessageOf (gpu_image_descriptor message) message
      from_descriptor-gpu_image_descriptor_example

-- A dictionary without a shape.
no_shape :
    gpu_image_from_descriptor (entry "dtype" (integer (Value.pos 0)) empty)
    ≡ raised (key_error "shape")
unfolding gpu_image_from_descriptor Descriptor.fill_header Descriptor.fill_found Descriptor.required
    Descriptor.unsigned_integer
no_shape = refl
