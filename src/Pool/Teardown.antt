-- ===== src/Pool/Teardown.antt =====
-- ros2_cuda_ipc_core/src/publisher/gpu_buffer_pool.cpp: taking a pool down, and removing the objects
-- of dead processes. The pool's mutex is locked where the code locks it. What `sscanf` reads of a
-- name is a parameter.
use ros2_cuda_ipc.Base.{ℕ, not, ◌||◌, false, Option, none, some, List, [], ◌∷◌, ◌==◌, if◌then◌else◌}
use ros2_cuda_ipc.Metadata.{Mapping}
use ros2_cuda_ipc.Metadata.Object.{drop_mapping}
use ros2_cuda_ipc.Cuda.{shm_unlink, kill, success, failure, M, pure, ◌>>=◌, ◌>>◌, perform, is_ok}
use ros2_cuda_ipc.Cuda.Context.{CudaDeviceContext, push_current, pop, release_primary}
use ros2_cuda_ipc.Cuda.Event.{InterprocessEvent, reset}
use ros2_cuda_ipc.Backend.{GpuBufferBlock, destroy_vmm_fd_memory}
use ros2_cuda_ipc.Pool.{GpuBufferPool}
use Prim.Native.String.{String, ◌++◌ as ◌<>◌}

-- `ESRCH`.
abbrev pub no_process : ℕ
no_process = 3

-- `cleanup_orphaned_metadata_objects`, on the names of the directory, none if it cannot be opened.
unlink_orphan : String → ℕ → M (Unit {0})
unlink_orphan name pid = if pid == 0 then pure tt else do
  alive ← perform (kill pid)
  if is_ok alive || not (alive.code == no_process)
      then pure tt
      else do perform (shm_unlink ("/" <> name)); pure tt

unfoldable pub clean_entry : (String → Option (ℕ × ℕ)) → String → M (Unit {0})
unfolding unlink_orphan
clean_entry scan name = elim (scan name) [
  | none ↦ pure tt
  | some (pid, block_id) ↦ unlink_orphan name pid
]

unfoldable pub cleanup_orphaned : (String → Option (ℕ × ℕ)) → List String → M (Unit {0})
unfolding clean_entry
cleanup_orphaned scan [] = pure tt
cleanup_orphaned scan (name ∷ names) = do clean_entry scan name; cleanup_orphaned scan names

-- The steps of `destroy_blocks`. The pool is the last owner of its mappings and of its context.
unfoldable pub drop_event : Option InterprocessEvent → M (Unit {0})
drop_event none = pure tt
drop_event (some e) = reset e

unfoldable pub reset_events : List GpuBufferBlock → M (List GpuBufferBlock)
unfolding drop_event
reset_events [] = pure []
reset_events (b ∷ rest) = do
  drop_event b.ready_event
  rest' ← reset_events rest
  pure (record b { ready_event = none } ∷ rest')

unfoldable pub drop_metadata : Option Mapping → M (Unit {0})
drop_metadata none = pure tt
drop_metadata (some m) = do perform (shm_unlink m.shm_name); drop_mapping m

unfoldable pub unlink_all : List GpuBufferBlock → M (Unit {0})
unfolding drop_metadata
unlink_all [] = pure tt
unlink_all (b ∷ rest) = do drop_metadata b.shared_metadata; unlink_all rest

unfoldable pub drop_context : Option CudaDeviceContext → M (Unit {0})
drop_context none = pure tt
drop_context (some c) = release_primary c

-- What is done under the guard, if the context can be made current, and without it otherwise.
unfoldable pub destroy_memory : List GpuBufferBlock → M (Unit {0})
unfolding unlink_all
destroy_memory blocks = do blocks' ← destroy_vmm_fd_memory blocks; unlink_all blocks'

unfoldable pub destroy_guarded : Option CudaDeviceContext → List GpuBufferBlock → M (Unit {0})
unfolding pop drop_context destroy_memory
destroy_guarded none blocks = destroy_memory blocks
destroy_guarded (some c) blocks = do
  guard ← push_current c
  elim guard [
    | failure e ↦ do destroy_memory blocks; drop_context (some c)
    | success _ ↦ do destroy_memory blocks; drop_context (some c); pop
  ]

-- A pool with nothing in it.
unfoldable pub emptied : GpuBufferPool → GpuBufferPool
emptied pool = record pool {
  blocks = [];
  next_block = 0;
  byte_size = 0;
  device_index = none;
  initialised = false;
  context = none;
}

-- `destroy_blocks`, which is `reset` too.
unfoldable pub destroy_blocks : GpuBufferPool → M GpuBufferPool
unfolding reset_events destroy_guarded emptied
destroy_blocks pool = do
  blocks ← reset_events pool.blocks
  destroy_guarded pool.context blocks
  pure (emptied pool)
