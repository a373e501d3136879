-- ===== src/Pool.antt =====
-- ros2_cuda_ipc_core/src/publisher/gpu_buffer_pool.cpp and its header: the operations on a pool that
-- is set up. `locked` says if the pool's mutex could be locked. `Setup` has
-- `initialise`, and `Teardown` `reset`.
pub mod Reserve
pub mod Ownership
pub mod Teardown
pub mod Setup
use ros2_cuda_ipc.Base.{
  ℕ, zero, suc, ◌+◌, ◌%◌, Bool, true, false, not, ◌&&◌, ◌||◌, Option, none, some, List, [], ◌∷◌,
  ltb, ◌==◌, if◌then◌else◌, u32_mod, length, get_elem?,
}
use ros2_cuda_ipc.Metadata.{Mapping, Store}
use ros2_cuda_ipc.Metadata.Ref.{PublisherReservation, commit_publish, cancel_publish}
use ros2_cuda_ipc.Metadata.Ref
use mathlib.Core.Option
use ros2_cuda_ipc.Cuda.{CudaResult, success, failure, invalid_handle, M, pure}
use ros2_cuda_ipc.Cuda.Context.{CudaDeviceContext}
use ros2_cuda_ipc.Cuda.Event.{InterprocessEvent, record_on}
use ros2_cuda_ipc.Transport.{BufferDescriptor}
use ros2_cuda_ipc.Backend.{GpuBufferBlock}
use Prim.Native.String.{String}

pub record BlockReservation : Type 0 where
  pub mapping : Option Mapping
  pub block_id : ℕ
  pub uid : ℕ
  pub publisher_pid : ℕ
  pub pool_index : ℕ

-- `device_index_` is -1, here `none`, unless the pool is set up.
pub record GpuBufferPool : Type 0 where
  pub block_count : ℕ
  pub blocks : List GpuBufferBlock
  pub next_block : ℕ
  pub byte_size : ℕ
  pub device_index : Option ℕ
  pub publisher_pid : ℕ
  pub initialised : Bool
  pub context : Option CudaDeviceContext

-- The reservation that is returned for a block, and one round of the loop of `reserve_for_publish`.
abbrev pub reservation_of :
    GpuBufferPool → ℕ → GpuBufferBlock → PublisherReservation → BlockReservation
reservation_of pool index block r = record {
  mapping = some r.mapping;
  block_id = block.block_id;
  uid = r.uid;
  publisher_pid = pool.publisher_pid;
  pool_index = index % u32_mod;
}

unfoldable pub try_block :
    ℕ → Store → GpuBufferPool → ℕ → GpuBufferBlock → Store × Option BlockReservation
try_block now s pool index block =
    let (s', reservation) = Ref.reserve_for_publish now s block.shared_metadata in
    (s', Option.map (reservation_of pool index block) reservation)

-- The loop, with `k` rounds left: the clock is read once in each round that has metadata. An index
-- is below the size of the vector, so that a block is always there.
unfoldable pub scan :
    (ℕ → ℕ) → ℕ → ℕ → Store → GpuBufferPool → Store × GpuBufferPool × Option BlockReservation
scan clock zero offset s pool = (s, pool, none)
scan clock (suc k) offset s pool =
    let index = (pool.next_block + offset) % length pool.blocks in
    elim (get_elem? pool.blocks index) [
      | none ↦ scan clock k (offset + 1) s pool
      | some block ↦
          let (s', reservation) = try_block (clock offset) s pool index block in
          elim reservation [
            | none ↦ scan clock k (offset + 1) s' pool
            | some r ↦ (s', record pool { next_block = (index + 1) % length pool.blocks }, some r)
          ]
    ]

unfoldable pub reserve_for_publish :
    Bool → (ℕ → ℕ) → Store → GpuBufferPool → Store × GpuBufferPool × Option BlockReservation
reserve_for_publish locked clock s pool =
    if not locked
    then (s, pool, none)
    else if not pool.initialised || length pool.blocks == 0
    then (s, pool, none)
    else scan clock (length pool.blocks) 0 s pool

-- `resources`.
unfoldable pub resources : GpuBufferPool → ℕ → Option GpuBufferBlock
resources pool index = get_elem? pool.blocks index

-- Do two shared pointers point at the same object?
unfoldable pub same_mapping : Option Mapping → Option Mapping → Bool
same_mapping (some m) (some n) = m.address == n.address
same_mapping none none = true
same_mapping _ _ = false

is_null : Option Mapping → Bool
is_null none = true
is_null (some _) = false

owns_block : Option GpuBufferBlock → BlockReservation → Bool
owns_block none r = false
owns_block (some b) r = b.block_id == r.block_id && same_mapping b.shared_metadata r.mapping

unfoldable pub owns : GpuBufferPool → BlockReservation → Bool
unfolding is_null owns_block resources
owns pool r =
    if not pool.initialised || not (r.publisher_pid == pool.publisher_pid) || is_null r.mapping
    then false
    else owns_block (resources pool r.pool_index) r

owned_block : GpuBufferPool → BlockReservation → Option GpuBufferBlock
owned_block pool r = if owns pool r then resources pool r.pool_index else none

-- `device_ptr` of a reservation; 0 is null.
unfoldable pub device_ptr : Bool → GpuBufferPool → BlockReservation → ℕ
unfolding owned_block resources
device_ptr locked pool r =
    if not locked then 0 else elim (owned_block pool r) [ none ↦ 0 | some b ↦ b.device_ptr ]

record_event : Option InterprocessEvent → ℕ → M (CudaResult (Unit {0}))
record_event none stream = pure (failure invalid_handle)
record_event (some e) stream = record_on e stream

record_block : Option GpuBufferBlock → ℕ → M (CudaResult (Unit {0}))
unfolding record_event
record_block none stream = pure (failure invalid_handle)
record_block (some b) stream = record_event b.ready_event stream

-- `record_ready` of a reservation.
unfoldable pub record_ready :
    Bool → GpuBufferPool → BlockReservation → ℕ → M (CudaResult (Unit {0}))
unfolding record_block owned_block resources
record_ready locked pool r stream d m =
    if not locked then (failure invalid_handle, m) else record_block (owned_block pool r) stream d m

-- `device_ptr` and `record_ready` of an index.
unfoldable pub device_ptr_at : Bool → GpuBufferPool → ℕ → ℕ
unfolding resources
device_ptr_at locked pool index =
    if not locked then 0 else elim (resources pool index) [ none ↦ 0 | some b ↦ b.device_ptr ]

unfoldable pub record_ready_at : Bool → GpuBufferPool → ℕ → ℕ → M (CudaResult (Unit {0}))
unfolding record_block resources
record_ready_at locked pool index stream d m =
    if not locked || not pool.initialised
    then (failure invalid_handle, m)
    else record_block (resources pool index) stream d m

-- A pool that is set up has a device index; `none` is written as -1 is cast, and never read.
device_of : Option ℕ → ℕ
device_of none = 4294967295
device_of (some i) = i

descriptor_of : GpuBufferPool → BlockReservation → GpuBufferBlock → Option BufferDescriptor
unfolding device_of
descriptor_of pool r b = elim b.ready_event [
  | none ↦ none
  | some e ↦ some (record {
    publisher_pid = r.publisher_pid;
    block_id = b.block_id;
    uid = r.uid;
    device_id = device_of pool.device_index;
    byte_size = pool.byte_size;
    vmm_socket_path = b.vmm_socket_path;
    ready_event_handle = e.ipc_handle;
  })
]

describe_block : GpuBufferPool → BlockReservation → Option GpuBufferBlock → Option BufferDescriptor
unfolding descriptor_of
describe_block pool r none = none
describe_block pool r (some b) = descriptor_of pool r b

unfoldable pub try_build_descriptor :
    Bool → GpuBufferPool → BlockReservation → Option BufferDescriptor
unfolding describe_block owned_block resources
try_build_descriptor locked pool r =
    if not locked then none else describe_block pool r (owned_block pool r)

-- `commit` and `cancel`. Cancelling needs neither the mutex nor a pool that still has the block.
unfoldable pub commit : Bool → ℕ → Store → GpuBufferPool → BlockReservation → Store × Bool
commit locked now s pool r =
    if not locked
    then (s, false)
    else if not (owns pool r)
    then (s, false)
    else commit_publish now s r.mapping r.uid

unfoldable pub cancel : Store → GpuBufferPool → BlockReservation → Store × Bool
unfolding is_null
cancel s pool r =
    if r.publisher_pid == pool.publisher_pid && not (is_null r.mapping)
    then cancel_publish s r.mapping r.uid
    else (s, false)
