-- ===== src/Tests/Publisher.antt =====
-- A pool of two blocks, from its reservation to its publication.
use ros2_cuda_ipc.Base.{ℕ, ◌+◌, ◌≡◌, refl, true, some, none, [], ◌∷◌}
use ros2_cuda_ipc.Metadata.{BlockMetadata, fresh_block, Mapping, Store, write}
use ros2_cuda_ipc.Metadata.Ref.{BufferRef, acquire}
use ros2_cuda_ipc.Metadata.Ref
use ros2_cuda_ipc.Metadata.Reserve.{reserved}
use ros2_cuda_ipc.Cuda.{Driver, Machine}
use ros2_cuda_ipc.Cuda.Context.{CudaDeviceContext}
use ros2_cuda_ipc.Backend.{GpuBufferBlock}
use ros2_cuda_ipc.Pool.{BlockReservation, GpuBufferPool, reserve_for_publish, owns}
use ros2_cuda_ipc.Pool
use ros2_cuda_ipc.Pool.Reserve.{Searched, reserve_for_publish-Searched}
use ros2_cuda_ipc.Pool.Ownership.{Held}
use ros2_cuda_ipc.Manager.{PublishBlock, Locks, prepare_publish, let_go}
use ros2_cuda_ipc.Manager.Prepare.{Prepared, prepare_publish-Prepared}
use ros2_cuda_ipc.Manager.Deliver.{Delivered, prepare_publish-Delivered}

abbrev willing : Driver
willing log c = record { code = 0; value = 4; bytes = []; attached = true }

abbrev mapping_at : ℕ → Mapping
mapping_at i = record { address = i; shm_name = "/ros2_cuda_ipc_12_0"; block = i }

abbrev context0 : CudaDeviceContext
context0 = record { device_id = 0; device = 4; context = 4 }

abbrev block_at : ℕ → GpuBufferBlock
block_at i = record {
  block_id = i;
  shared_metadata = some (mapping_at i);
  device_ptr = 4096;
  ready_event = some (record { context = some context0; event = 7; ipc_handle = [] });
  vmm_socket_path = "/tmp/cuda_memory_pool_0.sock";
  vmm_fd_state = none;
}

abbrev pool : GpuBufferPool
pool = record {
  block_count = 2;
  blocks = block_at 10 ∷ block_at 11 ∷ [];
  next_block = 0;
  byte_size = 1000;
  device_index = some 0;
  publisher_pid = 12;
  initialised = true;
  context = some context0;
}

-- The first block is being read, and the second is free.
abbrev busy_block : BlockMetadata
busy_block = record { uid = 5; refcount = 1; publish_timestamp_us = 0 }

abbrev store : Store
store = write (λ _. fresh_block) 10 busy_block

abbrev reservation : BlockReservation
reservation = record {
  mapping = some (mapping_at 11);
  block_id = 11;
  uid = 1;
  publisher_pid = 12;
  pool_index = 1;
}

abbrev clock : ℕ → ℕ
clock i = 1000000 + i

abbrev store' : Store
store' = write (write store 10 busy_block) 11 (reserved 1)

reserve_for_publish-Searched_example :
    Searched clock store pool 0 2 (reserve_for_publish true clock store pool)
reserve_for_publish-Searched_example = reserve_for_publish-Searched clock store pool refl

reserved_second : reserve_for_publish true clock store pool ≡ (store', pool, some reservation)
unfolding reserve_for_publish Pool.scan Pool.try_block Ref.reserve_for_publish Ref.reserve_block
reserved_second = refl

abbrev held : Held store' pool reservation
held = record {
  mapping = mapping_at 11;
  block = block_at 11;
  mapped = refl;
  found = refl;
  shared = refl;
  same_id = refl;
  same_pid = refl;
  state = refl;
}

abbrev machine : Machine
machine = record { log = []; store = store'; driver_status = none; backend_status = none }

abbrev prepared : PublishBlock
prepared = record { owner = true; reservation = reservation }

abbrev unlocked : Locks
unlocked = record { recording = true; describing = true; committing = true }

accepted : owns pool reservation ≡ true
unfolding owns Pool.same_mapping
accepted = refl

prepare_publish-Prepared_example :
    let result = prepare_publish unlocked 1000010 pool prepared 3 willing machine in
    Prepared 1000010 pool reservation (mapping_at 11) store' result.0.0 result.1.store
    × (result.0.1 ≡ let_go prepared)
prepare_publish-Prepared_example =
    prepare_publish-Prepared unlocked 1000010 3 pool prepared willing machine held accepted refl

prepare_publish-Delivered_example :
    Delivered 4 store'
      (mapping_at 11)
      1
      (prepare_publish unlocked 1000010 pool prepared 3 willing machine)
prepare_publish-Delivered_example =
    prepare_publish-Delivered 4 unlocked 1000010 3 pool prepared willing machine held accepted refl
