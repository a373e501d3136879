-- ===== src/Backend.antt =====
-- ros2_cuda_ipc_core/src/backend/memory_backend.cpp and its header: the GPU memory of a publisher's
-- blocks. The text of a UUID is libuuid's matter, and a parameter. `fcntl`, which only sets the
-- close-on-exec flag, is left out.
pub mod Server
pub mod Laws
pub mod Mapped
pub mod Served
use ros2_cuda_ipc.Base.{
  ℕ, not, ◌&&◌, Bool, true, false, Option, none, some, List, [], ◌∷◌, ◌++◌, map, ◌==◌,
  if◌then◌else◌,
}
use ros2_cuda_ipc.Metadata.{Mapping}
use ros2_cuda_ipc.Cuda.{
  Call, cu_init, cu_mem_get_allocation_granularity, cu_mem_release, cu_mem_address_reserve,
  cu_mem_address_free, cu_mem_map, cu_mem_unmap, cu_mem_set_access, cu_mem_create, cu_mem_export,
  close, uuid_generate, cuda_success, Answer, Machine, M, pure, ◌>>=◌, ◌>>◌, perform, is_ok,
}
use ros2_cuda_ipc.Cuda.Event.{InterprocessEvent}
use ros2_cuda_ipc.Importer.{align_up_size}
use ros2_cuda_ipc.Backend.Server.{UnixFdServer, start, stop}
use Prim.Native.String.{String, ◌++◌ as ◌<>◌}

-- `VmmFdBlockState`; null handles and addresses are 0. Its `uuid` is in the path of the server only.
pub record VmmFdBlockState : Type 0 where
  pub allocation : ℕ
  pub address : ℕ
  pub allocation_size : ℕ
  pub shareable_fd : Option ℕ
  pub server : Option UnixFdServer

-- `GpuBufferBlock`; a null pointer is 0.
pub record GpuBufferBlock : Type 0 where
  pub block_id : ℕ
  pub shared_metadata : Option Mapping
  pub device_ptr : ℕ
  pub ready_event : Option InterprocessEvent
  pub vmm_socket_path : String
  pub vmm_fd_state : Option VmmFdBlockState

abbrev pub empty_block : GpuBufferBlock
empty_block = record {
  block_id = 0;
  shared_metadata = none;
  device_ptr = 0;
  ready_event = none;
  vmm_socket_path = "";
  vmm_fd_state = none;
}

-- `build_socket_path` of a UUID that libuuid has made, and so can parse.
unfoldable pub build_socket_path : String → String
build_socket_path uuid = ("/tmp/cuda_memory_pool_" <> uuid) <> ".sock"

-- `ensure_driver`: the driver is asked once, and its answer kept.
unfoldable pub ensure_driver : M Bool
ensure_driver d m = elim m.backend_status [
  | some status ↦ (status == cuda_success, m)
  | none ↦
      let (a, m') = perform cu_init d m in
      (a.code == cuda_success, record m' { backend_status = some a.code })
]

-- `~VmmFdBlockState`. The server is stopped, and stopped again by its own destructor.
drop_server : Option UnixFdServer → M (Unit {0})
drop_server none = pure tt
drop_server (some server) = do stopped ← stop server; stop stopped; pure tt

drop_fd : Option ℕ → M (Unit {0})
drop_fd none = pure tt
drop_fd (some fd) = do perform (close fd); pure tt

drop_address : VmmFdBlockState → M (Unit {0})
drop_address s =
    if not (s.address == 0) && not (s.allocation_size == 0)
    then (do
      perform (cu_mem_unmap s.address s.allocation_size)
      perform (cu_mem_address_free s.address s.allocation_size)
      pure tt)
    else pure tt

drop_allocation : VmmFdBlockState → M (Unit {0})
drop_allocation s =
    if s.allocation == 0 then pure tt else do perform (cu_mem_release s.allocation); pure tt

unfoldable pub drop_state : VmmFdBlockState → M (Unit {0})
unfolding drop_server drop_fd drop_address drop_allocation
drop_state s = do drop_server s.server; drop_fd s.shareable_fd; drop_address s; drop_allocation s

unfoldable pub drop_owned : Option VmmFdBlockState → M (Unit {0})
drop_owned none = pure tt
drop_owned (some s) = drop_state s

-- `destroy_vmm_fd_memory`.
unfoldable pub cleared : GpuBufferBlock → GpuBufferBlock
cleared b = record b { device_ptr = 0; vmm_fd_state = none; vmm_socket_path = "" }

unfoldable pub destroy_vmm_fd_memory : List GpuBufferBlock → M (List GpuBufferBlock)
unfolding cleared
destroy_vmm_fd_memory [] = pure []
destroy_vmm_fd_memory (b ∷ rest) = do
  drop_owned b.vmm_fd_state
  rest' ← destroy_vmm_fd_memory rest
  pure (cleared b ∷ rest')

-- The state of one block, made step by step: complete, with the path of its socket, or what there is
-- of it when a step fails.
pub data Attempt : Type 0 where
  complete : String → VmmFdBlockState → Attempt
  incomplete : VmmFdBlockState → Attempt

abbrev pub new_state : ℕ → VmmFdBlockState
new_state size = record {
  allocation = 0;
  address = 0;
  allocation_size = size;
  shareable_fd = none;
  server = none;
}

-- The body of the loop of `allocate_vmm_fd_memory`: the socket, once the memory is exported.
unfoldable pub serve : (ℕ → String) → VmmFdBlockState → ℕ → M Attempt
serve unparse s fd = do
  uuid ← perform uuid_generate
  let path = build_socket_path (unparse uuid.value)
  started ← start (record { path = path; fd = fd; listen_fd = none })
  pure (
      if started.1
      then complete path (record s { server = some started.0 })
      else incomplete (record s { server = some started.0 }))

-- The memory, once the address range is reserved and the allocation is made.
unfoldable pub share : (ℕ → String) → VmmFdBlockState → M Attempt
unfolding serve
share unparse s = do
  mapped ← perform (cu_mem_map s.address s.allocation_size s.allocation)
  if not (is_ok mapped) then pure (incomplete s) else do
    accessible ← perform (cu_mem_set_access s.address s.allocation_size)
    if not (is_ok accessible) then pure (incomplete s) else do
      fd ← perform (cu_mem_export s.allocation)
      if not (is_ok fd)
          then pure (incomplete s)
          else serve unparse (record s { shareable_fd = some fd.value }) fd.value

unfoldable pub make_state : (ℕ → String) → ℕ → ℕ → M Attempt
unfolding share
make_state unparse device_index size = do
  address ← perform (cu_mem_address_reserve size)
  if not (is_ok address) then pure (incomplete (new_state size)) else do
    allocation ← perform (cu_mem_create size)
    if not (is_ok allocation)
        then pure (incomplete (record (new_state size) { address = address.value }))
        else share unparse
            (record (new_state size) { address = address.value; allocation = allocation.value })

-- A failure first destroys what the blocks have, and then the state that is under construction.
unfoldable pub abandon : List GpuBufferBlock → VmmFdBlockState → M (List GpuBufferBlock × Bool)
abandon blocks s = do blocks' ← destroy_vmm_fd_memory blocks; drop_state s; pure (blocks', false)

unfoldable pub with_state : GpuBufferBlock → String → VmmFdBlockState → GpuBufferBlock
with_state b path s = record b {
  vmm_socket_path = path;
  device_ptr = s.address;
  vmm_fd_state = some s;
}

-- The loop, with the blocks that are done and the others.
unfoldable pub allocate_each :
    (ℕ → String)
    → ℕ
    → ℕ
    → List GpuBufferBlock
    → List GpuBufferBlock
    → M (List GpuBufferBlock × Bool)
allocate_each unparse device_index size before [] = pure (before, true)
allocate_each unparse device_index size before (b ∷ after) = do
  attempt ← make_state unparse device_index size
  elim attempt [
    | incomplete s ↦ abandon (before ++ b ∷ after) s
    | complete path s ↦ do
      drop_owned b.vmm_fd_state
      allocate_each unparse device_index size (before ++ with_state b path s ∷ []) after
  ]

-- `allocate_vmm_fd_memory`.
unfoldable pub allocate_vmm_fd_memory :
    (ℕ → String) → ℕ → ℕ → List GpuBufferBlock → M (List GpuBufferBlock × Bool)
allocate_vmm_fd_memory unparse frame_size_bytes device_index blocks = do
  ready ← ensure_driver
  if not ready then pure (blocks, false) else do
    granularity ← perform (cu_mem_get_allocation_granularity device_index)
    if not (is_ok granularity)
        then pure (blocks, false)
        else allocate_each unparse device_index (align_up_size frame_size_bytes granularity.value)
            [] blocks
