-- ===== src/Manager.antt =====
-- ros2_cuda_ipc_core/src/publisher/gpu_buffer_manager.cpp: `PublishBlock`, one publish attempt. A
-- non-null `owner_` is `owner`; the manager's own methods pass each call on to its pool. `locks` says
-- which of the three calls of a preparation could lock the pool's mutex.
pub mod Prepare
pub mod Deliver
use ros2_cuda_ipc.Base.{ℕ, Bool, true, false, not, Option, none, some, if◌then◌else◌}
use ros2_cuda_ipc.Metadata.{Store}
use ros2_cuda_ipc.Cuda.{Machine, CudaResult, success, failure, invalid_handle, M, pure, ◌>>=◌}
use ros2_cuda_ipc.Transport.{BufferDescriptor}
use ros2_cuda_ipc.Pool.{BlockReservation, GpuBufferPool}
use ros2_cuda_ipc.Pool.Setup.{Environment}
use ros2_cuda_ipc.Pool.Teardown.{destroy_blocks}
use ros2_cuda_ipc.Pool.Setup
use ros2_cuda_ipc.Pool
use mathlib.Core.Option

pub record PublishBlock : Type 0 where
  pub owner : Bool
  pub reservation : BlockReservation

pub record Locks : Type 0 where
  pub recording : Bool
  pub describing : Bool
  pub committing : Bool

-- `GpuBufferManager::Config`, `initialise` and `reset`: the pool is taken down and set up again.
pub record Config : Type 0 where
  pub byte_size : ℕ
  pub device_index : ℕ

unfoldable pub reset : GpuBufferPool → M GpuBufferPool
reset pool = destroy_blocks pool

unfoldable pub initialise : Environment → Config → GpuBufferPool → M (GpuBufferPool × Bool × ℕ)
initialise env config pool = do
  clean ← reset pool
  Setup.initialise env config.byte_size config.device_index clean

-- `acquire_for_publish`.
unfoldable pub acquire_for_publish :
    Bool → (ℕ → ℕ) → Store → GpuBufferPool → Store × GpuBufferPool × Option PublishBlock
acquire_for_publish locked clock s pool =
    if not pool.initialised
    then (s, pool, none)
    else let (s', pool', reservation) = Pool.reserve_for_publish locked clock s pool in
      (s', pool', Option.map (λ r. record { owner = true; reservation = r }) reservation)

-- `valid` and `device_ptr`.
unfoldable pub valid : PublishBlock → Bool
valid p = p.owner

unfoldable pub device_ptr : Bool → GpuBufferPool → PublishBlock → ℕ
unfolding valid
device_ptr locked pool p = if valid p then Pool.device_ptr locked pool p.reservation else 0

-- `quarantine`: the block lets go of its owner and the reservation is never given back. A block that
-- is committed lets go in the same way.
abbrev pub let_go : PublishBlock → PublishBlock
let_go p = record p { owner = false }

-- The commit at the end of `prepare_publish`.
unfoldable pub commit_prepared :
    Bool
    → ℕ
    → GpuBufferPool
    → PublishBlock
    → BufferDescriptor
    → M (CudaResult BufferDescriptor × PublishBlock)
commit_prepared locked now pool p descriptor d m =
    let (s', committed) = Pool.commit locked now m.store pool p.reservation in
    (
      (if committed then success descriptor else failure invalid_handle, let_go p),
      record m { store = s' },
    )

-- `prepare_publish` once the ready event is recorded.
unfoldable pub describe_and_commit :
    Locks → ℕ → GpuBufferPool → PublishBlock → M (CudaResult BufferDescriptor × PublishBlock)
describe_and_commit locks now pool p d m =
    elim (Pool.try_build_descriptor locks.describing pool p.reservation) [
      | none ↦ ((failure invalid_handle, let_go p), m)
      | some descriptor ↦ commit_prepared locks.committing now pool p descriptor d m
    ]

-- `prepare_publish`.
unfoldable pub prepare_publish :
    Locks → ℕ → GpuBufferPool → PublishBlock → ℕ → M (CudaResult BufferDescriptor × PublishBlock)
prepare_publish locks now pool p stream d m =
    if not p.owner
    then ((failure invalid_handle, p), m)
    else let (ready, m') = Pool.record_ready locks.recording pool p.reservation stream d m in
      elim ready [
        | failure e ↦ ((failure e, let_go p), m')
        | success _ ↦ describe_and_commit locks now pool p d m'
      ]

-- `cancel`, which the destructor calls too.
unfoldable pub cancel : Store → GpuBufferPool → PublishBlock → Store × PublishBlock
cancel s pool p = if p.owner then ((Pool.cancel s pool p.reservation).0, let_go p) else (s, p)

-- Move assignment between two blocks: the target's own attempt is cancelled first. The result is the
-- new target, and the source that is left with no owner.
unfoldable pub move_assign :
    Store → GpuBufferPool → PublishBlock → PublishBlock → Store × PublishBlock × PublishBlock
unfolding cancel
move_assign s pool target other = (
  (cancel s pool target).0,
  other,
  record { owner = false; reservation = record other.reservation { mapping = none } },
)
