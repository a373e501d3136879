-- ===== src/Transport.antt =====
-- ros2_cuda_ipc_core/include/ros2_cuda_ipc_core/transport, src/transport/message_utils.cpp, and the
-- wire message ros2_cuda_ipc_msgs/msg/BufferCore.msg.
use ros2_cuda_ipc.Base.{ℕ, ◌%◌, List, u32_mod}
use Prim.Native.String.{String}

-- `BufferDescriptor`. An event handle is its 64 bytes.
pub record BufferDescriptor : Type 0 where
  pub publisher_pid : ℕ
  pub block_id : ℕ
  pub uid : ℕ
  pub device_id : ℕ
  pub byte_size : ℕ
  pub vmm_socket_path : String
  pub ready_event_handle : List ℕ

-- `BufferCore`.
pub record BufferCore : Type 0 where
  pub vmm_socket_path : String
  pub event_handle : List ℕ
  pub publisher_pid : ℕ
  pub device_id : ℕ
  pub block_id : ℕ
  pub uid : ℕ
  pub byte_size : ℕ

-- `fill_buffer_core_message`, which sets every field of the message.
unfoldable pub fill_buffer_core_message : BufferDescriptor → BufferCore
fill_buffer_core_message d = record {
  vmm_socket_path = d.vmm_socket_path;
  event_handle = d.ready_event_handle;
  publisher_pid = d.publisher_pid;
  device_id = d.device_id % u32_mod;
  block_id = d.block_id;
  uid = d.uid;
  byte_size = d.byte_size;
}
