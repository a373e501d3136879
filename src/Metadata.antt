-- ===== src/Metadata.antt =====
-- ros2_cuda_ipc_core/include/ros2_cuda_ipc_core/buffer_metadata/buffer_metadata.hpp and the atomic
-- operations that buffer_ref.cpp makes on the shared block. A field is the value of the atomic, and
-- an operation the effect of one atomic instruction; the memory orders are those of a sequentially
-- consistent machine.
pub mod Ref
pub mod Object
pub mod Reserve
pub mod Lifecycle
pub mod Protocol
use ros2_cuda_ipc.Base.{
  ℕ, ◌+◌, ◌%◌, Bool, true, false, Option, ◌==◌, if◌then◌else◌, u32_max, u32_mod,
}
use Prim.Native.String.{String}

-- `BlockMetadata`: the contents of one shared-memory object.
pub record BlockMetadata : Type 0 where
  pub uid : ℕ
  pub refcount : ℕ
  pub publish_timestamp_us : ℕ

-- `BlockMetadata{}`.
abbrev pub fresh_block : BlockMetadata
fresh_block = record { uid = 0; refcount = 0; publish_timestamp_us = 0 }

-- A `BufferMetadata` object: `address` is its own identity, which `get()` compares, and `block`
-- names the shared-memory object that `metadata_` points into.
pub record Mapping : Type 0 where
  pub address : ℕ
  pub shm_name : String
  pub block : ℕ

-- The shared-memory objects of the machine.
abbrev pub Store : Type 0
Store = ℕ → BlockMetadata

abbrev pub write : Store → ℕ → BlockMetadata → Store
write s i b j = if i == j then b else s j

-- `refcount.fetch_sub(1)` wraps around, as `uint32_t` does. The previous value is `b.refcount`.
unfoldable pub fetch_sub : BlockMetadata → BlockMetadata
fetch_sub b = record b { refcount = (b.refcount + u32_max) % u32_mod }

-- `refcount.compare_exchange_strong(expected, desired)`.
unfoldable pub compare_exchange : ℕ → ℕ → BlockMetadata → BlockMetadata × Bool
compare_exchange expected desired b =
    if b.refcount == expected then (record b { refcount = desired }, true) else (b, false)
