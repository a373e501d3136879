-- ===== src/Pool/Setup.antt =====
-- ros2_cuda_ipc_core/src/publisher/gpu_buffer_pool.cpp: setting a pool up. The
-- pool's mutex is locked where the code locks it; a lock fails only with an error of the system. The
-- parameters: which object is mapped at an address, the text of a UUID, and what `sscanf` reads.
pub mod Laws
pub mod Allocated
pub mod Kept
pub mod Initialise
pub mod Store
pub mod Numbered
pub mod Ready
pub mod Live
use ros2_cuda_ipc.Base.{
  ℕ, zero, suc, length, ◌+◌, not, ◌&&◌, ◌||◌, Bool, true, false, Option, none, some, List, [], ◌∷◌,
  ◌++◌, map, ltb, ◌==◌, if◌then◌else◌, u32_max,
}
use ros2_cuda_ipc.Metadata.{Mapping}
use ros2_cuda_ipc.Metadata.Object.{create, drop_mapping, shm_name_for_block}
use ros2_cuda_ipc.Cuda.{
  Call, shm_unlink, kill, Answer, Log, Machine, CudaResult, success, failure, M, pure, ◌>>=◌, ◌>>◌,
  perform, is_ok,
}
use ros2_cuda_ipc.Cuda.Context.{
  CudaDeviceContext, retain_primary, push_current, pop, release_primary, within,
}
use ros2_cuda_ipc.Cuda.Event.{InterprocessEvent, reset}
use ros2_cuda_ipc.Cuda.Event
use ros2_cuda_ipc.Backend.{
  GpuBufferBlock, empty_block, allocate_vmm_fd_memory, destroy_vmm_fd_memory,
}
use ros2_cuda_ipc.Pool.{GpuBufferPool, resources}
use ros2_cuda_ipc.Pool.Teardown.{
  no_process, clean_entry, cleanup_orphaned, drop_event, reset_events, drop_metadata, unlink_all,
  drop_context, destroy_memory, destroy_guarded, emptied, destroy_blocks,
}
use Prim.Native.String.{String, len, ◌++◌ as ◌<>◌}

-- `EEXIST`, `ENOENT` and `NAME_MAX`.
abbrev pub file_exists : ℕ
file_exists = 17

abbrev pub no_entry : ℕ
no_entry = 2

abbrev pub name_max : ℕ
name_max = 255

-- `errno` after a POSIX call that failed: that of the last call that failed, which
-- logging in between leaves.
abbrev pub errno : Log → ℕ
errno [] = 0
errno ((c, a) ∷ l) = if is_ok a then errno l else a.code

-- `allocate_process_block_id`, on the counter of the process.
unfoldable pub allocate_process_block_id : ℕ → ℕ × Option ℕ
allocate_process_block_id next = if next == u32_max then (next, none) else (next + 1, some next)

-- `allocate_blocks`: the memory under the guard, and then the events.
unfoldable pub create_events :
    Option CudaDeviceContext
    → List GpuBufferBlock
    → List GpuBufferBlock
    → M (List GpuBufferBlock × Bool)
create_events context before [] = pure (before, true)
create_events context before (b ∷ after) = do
  created ← Event.create context
  elim created [
    | failure e ↦ pure (before ++ b ∷ after, false)
    | success e ↦ create_events context (before ++ record b { ready_event = some e } ∷ []) after
  ]

unfoldable pub allocate_memory :
    (ℕ → String) → ℕ → ℕ → CudaDeviceContext → List GpuBufferBlock → M (List GpuBufferBlock × Bool)
unfolding pop
allocate_memory unparse byte_size device_index context blocks =
    within context (λ _. (blocks, false))
      (allocate_vmm_fd_memory unparse byte_size device_index blocks)

unfoldable pub allocate_blocks :
    (ℕ → String) → ℕ → ℕ → CudaDeviceContext → List GpuBufferBlock → M (List GpuBufferBlock × Bool)
unfolding create_events allocate_memory
allocate_blocks unparse byte_size device_index context blocks = do
  (allocated, done) ← allocate_memory unparse byte_size device_index context blocks
  if done then create_events (some context) [] allocated else pure (allocated, false)

-- The metadata of one block: an object of a dead process with the same id is replaced.
unfoldable pub replace_object : (ℕ → ℕ) → String → M (Option Mapping)
replace_object object_at name = do
  unlinked ← perform (shm_unlink name)
  if is_ok unlinked || unlinked.code == no_entry then create object_at name else pure none

unfoldable pub create_or_replace : (ℕ → ℕ) → String → Option Mapping → M (Option Mapping)
unfolding replace_object
create_or_replace object_at name (some mapping) d m = (some mapping, m)
create_or_replace object_at name none d m =
    if errno m.log == file_exists then replace_object object_at name d m else (none, m)

unfoldable pub block_metadata : (ℕ → ℕ) → String → M (Option Mapping)
unfolding create_or_replace
block_metadata object_at name = do
  if ltb name_max (len name)
      then pure none
      else do created ← create object_at name; create_or_replace object_at name created

-- The loop of `initialise`, with the blocks that have metadata and the others.
unfoldable pub with_metadata : GpuBufferBlock → ℕ → Mapping → GpuBufferBlock
with_metadata b id mapping = record b { block_id = id; shared_metadata = some mapping }

unfoldable pub number_blocks :
    (ℕ → ℕ) → ℕ → ℕ → List GpuBufferBlock → List GpuBufferBlock → M (List GpuBufferBlock × Bool × ℕ)
number_blocks object_at pid next before [] = pure (before, true, next)
number_blocks object_at pid next before (b ∷ after) =
    let (next', id) = allocate_process_block_id next in
    elim id [
      | none ↦ pure (before ++ b ∷ after, false, next')
      | some block_id ↦ do
        mapping ← block_metadata object_at (shm_name_for_block pid block_id)
        elim mapping [
          | none ↦ pure (before ++ b ∷ after, false, next')
          | some m ↦
              number_blocks object_at pid next' (before ++ with_metadata b block_id m ∷ []) after
        ]
    ]

-- `blocks_.resize(block_count_)` on an empty vector.
unfoldable pub empty_blocks : ℕ → List GpuBufferBlock
empty_blocks zero = []
empty_blocks (suc n) = empty_block ∷ empty_blocks n

-- `initialise`. The rest of the environment, with the counter of block ids.
pub record Environment : Type 0 where
  pub object_at : ℕ → ℕ
  pub unparse : ℕ → String
  pub scan : String → Option (ℕ × ℕ)
  pub entries : List String
  pub next_id : ℕ

unfoldable pub fail : GpuBufferPool → ℕ → M (GpuBufferPool × Bool × ℕ)
fail pool next = do pool' ← destroy_blocks pool; pure (pool', false, next)

-- The end of `initialise`, with the blocks that are numbered.
unfoldable pub finish :
    Environment → CudaDeviceContext → ℕ → ℕ → GpuBufferPool → M (GpuBufferPool × Bool × ℕ)
unfolding fail
finish env context device_index next pool = do
  (blocks, done) ← allocate_blocks env.unparse pool.byte_size device_index context pool.blocks
  if done
      then pure (record pool { blocks = blocks; initialised = true; next_block = 0 }, true, next)
      else fail (record pool { blocks = blocks }) next

unfoldable pub prepare :
    Environment → ℕ → ℕ → GpuBufferPool → CudaDeviceContext → M (GpuBufferPool × Bool × ℕ)
unfolding finish fail drop_context
prepare env byte_size device_index pool context = do
  drop_context pool.context
  (blocks, numbered, next) ←
      number_blocks env.object_at pool.publisher_pid env.next_id [] (empty_blocks pool.block_count)
  let held = record pool {
    context = some context;
    byte_size = byte_size;
    device_index = some device_index;
    blocks = blocks;
  }
  if numbered then finish env context device_index next held else fail held next

-- A pool that is set up, or has blocks, is taken down first.
unfoldable pub clear_first : GpuBufferPool → M GpuBufferPool
clear_first pool =
    if pool.initialised || not (length pool.blocks == 0) then destroy_blocks pool else pure pool

unfoldable pub initialise : Environment → ℕ → ℕ → GpuBufferPool → M (GpuBufferPool × Bool × ℕ)
unfolding prepare
initialise env byte_size device_index pool =
    if pool.block_count == 0 || ltb u32_max pool.block_count || byte_size == 0
    then pure (pool, false, env.next_id)
    else do
      clean ← clear_first pool
      cleanup_orphaned env.scan env.entries
      context ← retain_primary device_index
      elim context [
        | failure e ↦ pure (clean, false, env.next_id)
        | success c ↦ prepare env byte_size device_index clean c
      ]

-- `matches`, and the lookups by index.
unfoldable pub matches : GpuBufferPool → ℕ → ℕ → Bool
matches pool byte_size device_index =
    pool.initialised && pool.byte_size == byte_size && same_device pool.device_index device_index
  where
    same_device : Option ℕ → ℕ → Bool
    same_device none i = false
    same_device (some j) i = j == i
