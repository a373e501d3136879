-- ===== src/Tests/Backend.antt =====
-- The backend and the set-up of a pool against concrete drivers.
use ros2_cuda_ipc.Base.{
  All, ◌≡◌, refl, ◌⊎◌, true, false, some, none, [], ◌∷◌, arith, ◌==◌, if◌then◌else◌, total,
}
use ros2_cuda_ipc.Metadata.{fresh_block}
use ros2_cuda_ipc.Cuda.{cu_mem_address_reserve, listen, Driver, Machine}
use ros2_cuda_ipc.Cuda.Balance.{descriptor, Moves}
use ros2_cuda_ipc.Backend.{GpuBufferBlock, empty_block, allocate_vmm_fd_memory}
use ros2_cuda_ipc.Backend.Laws.{HandsBack, block_holds}
use ros2_cuda_ipc.Metadata.Object
use ros2_cuda_ipc.Cuda.Context
use ros2_cuda_ipc.Cuda.Event
use ros2_cuda_ipc.Importer.{align_up_size}
use ros2_cuda_ipc.Backend
use ros2_cuda_ipc.Backend.Server
use ros2_cuda_ipc.Pool.Setup
use ros2_cuda_ipc.Pool.Teardown
use ros2_cuda_ipc.Pool.{GpuBufferPool, reserve_for_publish}
use ros2_cuda_ipc.Pool.Setup.{Environment, initialise}
use ros2_cuda_ipc.Pool.Teardown.{emptied}
use ros2_cuda_ipc.Pool.Setup.Laws.{pool_holds}
use ros2_cuda_ipc.Pool.Setup.Kept.{HandsOut, Leaves}
use ros2_cuda_ipc.Pool.Setup.Initialise.{initialise-Leaves}
use ros2_cuda_ipc.Pool.Setup.Live.{PoolReady, Reserves, initialise-PoolReady}
use ros2_cuda_ipc.Backend.Mapped.{IsAccessible}
use ros2_cuda_ipc.Backend.Served.{Outcome, allocate_vmm_fd_memory-Outcome}

-- Every call succeeds and hands back 4; but no empty range is reserved, and nothing can listen.
abbrev deaf : Driver
deaf log (listen _) = record { code = 98; value = 0; bytes = []; attached = false }
deaf log (cu_mem_address_reserve size) = record {
  code = if size == 0 then 1 else 0;
  value = 4;
  bytes = [];
  attached = false;
}
deaf log _ = record { code = 0; value = 4; bytes = []; attached = false }

deaf-HandsBack : HandsBack deaf
deaf-HandsBack log size = ground arith

abbrev machine : Machine
machine = record { log = []; store = λ _. fresh_block; driver_status = none; backend_status = none }

-- The same with a listener, at the default grain of 4 bytes.
abbrev willing : Driver
willing log (cu_mem_address_reserve size) = record {
  code = if size == 0 then 1 else 0;
  value = 4;
  bytes = [];
  attached = false;
}
willing log _ = record { code = 0; value = 4; bytes = []; attached = false }

willing-HandsBack : HandsBack willing
willing-HandsBack log size = ground arith

allocate_vmm_fd_memory-Outcome_example :
    let blocks = empty_block ∷ empty_block ∷ [] in
    let result = allocate_vmm_fd_memory (λ _. "0") 1000 0 blocks willing machine in
    Moves (total (block_holds descriptor) result.0.0) 0 descriptor [] result.1.log
    × ((result.0 ≡ (blocks, false)) ⊎ Outcome blocks result.0)
    × (result.0.1 ≡ true → All (IsAccessible result.1.log) result.0.0)
allocate_vmm_fd_memory-Outcome_example =
    allocate_vmm_fd_memory-Outcome willing (λ _. "0") 1000 0 (empty_block ∷ empty_block ∷ [])
      machine descriptor willing-HandsBack tt

deaf-HandsOut : HandsOut deaf
deaf-HandsOut = (deaf-HandsBack, λ log fd. ground arith)

abbrev pool : GpuBufferPool
pool = record {
  block_count = 2;
  blocks = [];
  next_block = 0;
  byte_size = 0;
  device_index = none;
  publisher_pid = 12;
  initialised = false;
  context = none;
}

-- A directory with the object of a dead process.
abbrev env : Environment
env = record {
  object_at = λ addr. addr;
  unparse = λ _. "0";
  scan = λ _. some (9, 3);
  entries = "ros2_cuda_ipc_9_3" ∷ [];
  next_id = 5;
}

initialise-Leaves_example :
    let result = initialise env 1000 0 pool deaf machine in
    Leaves (pool_holds descriptor result.0.0) 0 descriptor [] result.1.log
    × (result.0.1 ≡ false → (result.0.0 ≡ pool) ⊎ (result.0.0 ≡ emptied pool))
initialise-Leaves_example =
    initialise-Leaves deaf deaf-HandsOut env 1000 0 pool machine descriptor tt

set_up : (initialise env 1000 0 pool willing machine).0.1 ≡ true
unfolding initialise Setup.clear_first Teardown.cleanup_orphaned Setup.number_blocks
    Setup.empty_blocks Setup.block_metadata Setup.allocate_process_block_id Setup.with_metadata
    Setup.allocate_blocks Context.retain_primary Context.initialize Context.push_current
    Context.push Event.create Object.create Object.initial_uid Object.shm_name_for_block
    Object.decimal Backend.allocate_vmm_fd_memory Backend.allocate_each Backend.ensure_driver
    Backend.make_state Backend.with_state Backend.drop_owned Server.start Server.stop align_up_size
set_up = refl

initialise-PoolReady_example :
    let result = initialise env 1000 0 pool willing machine in
    PoolReady 12 2 5 1000 0 result.1.store result.0.0
    × Reserves result.0.0 12 5 (reserve_for_publish true (λ i. i) result.1.store result.0.0).2
initialise-PoolReady_example =
    initialise-PoolReady willing willing-HandsBack env 1000 0 pool machine (λ i. i) set_up
