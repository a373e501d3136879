-- ===== src/Importer.antt =====
-- ros2_cuda_ipc_core/src/backend/memory_importer.cpp and include/.../backend/memory_importer.hpp.
pub mod Size
pub mod Laws
pub mod Memory
use ros2_cuda_ipc.Base.{
  ℕ, ◌+◌, ◌-◌, ◌%◌, Bool, true, false, not, ◌&&◌, ◌||◌, Option, none, some, List, [], ◌∷◌, ltb, leb,
  ◌==◌, if◌then◌else◌, u64_mod,
}
use ros2_cuda_ipc.Cuda.{
  Call, cu_mem_import, cu_mem_get_allocation_granularity, cu_mem_release, cu_mem_address_reserve,
  cu_mem_address_free, cu_mem_map, cu_mem_unmap, cu_mem_set_access, cu_ipc_open_event_handle,
  cu_event_destroy, socket, connect, recvmsg, close, Answer, Machine, CudaResult, success, failure,
  M, pure, ◌>>=◌, ◌>>◌, perform, is_ok,
}
use ros2_cuda_ipc.Cuda.Context.{
  CudaDeviceContext, retain_primary, push_current, pop, release_primary, within,
}
use ros2_cuda_ipc.Transport.{BufferCore}
use Prim.Native.String.{String, len}

-- `align_up_size`, and `align_up` of memory_backend.cpp, in 64-bit arithmetic.
unfoldable pub align_up_size : ℕ → ℕ → ℕ
align_up_size value alignment =
    if alignment == 0
    then value
    else if value % alignment == 0
    then value
    else (value + alignment - value % alignment) % u64_mod

-- `ImportedResources`; null pointers and handles are 0.
pub record ImportedResources : Type 0 where
  pub dev_ptr : ℕ
  pub event : ℕ
  pub context : Option CudaDeviceContext
  pub vmm_address : ℕ
  pub vmm_allocation : ℕ
  pub allocation_size : ℕ

-- `EINVAL` and `EPROTOTYPE`, after which a plain socket is tried, and `sizeof(sun_path)`.
abbrev pub socket_retry : ℕ → Bool
socket_retry e = e == 22 || e == 91

abbrev pub sun_path_size : ℕ
sun_path_size = 108

unfoldable pub open_socket : M Answer
open_socket = do
  first ← perform socket
  if not (is_ok first) && socket_retry first.code then perform socket else pure first

-- `request_fd_from_publisher`. The kernel attaches no negative descriptor.
unfoldable pub request_fd_from_publisher : String → M (Option ℕ)
unfolding open_socket
request_fd_from_publisher path = do
  sock ← open_socket
  if not (is_ok sock)
      then pure none
      else if leb sun_path_size (len path)
      then (do perform (close sock.value); pure none)
      else do
        connected ← perform (connect sock.value path)
        if not (is_ok connected) then (do perform (close sock.value); pure none) else do
          received ← perform (recvmsg sock.value)
          perform (close sock.value)
          pure (if is_ok received && received.attached then some received.value else none)

-- The cleanup of the failing branches of `import`, from the last to the first.
drop_allocation : ℕ → M (Option ImportedResources)
drop_allocation allocation = do perform (cu_mem_release allocation); pure none

drop_address : ℕ → ℕ → ℕ → M (Option ImportedResources)
unfolding drop_allocation
drop_address allocation address size = do
  perform (cu_mem_address_free address size)
  drop_allocation allocation

drop_mapping : ℕ → ℕ → ℕ → M (Option ImportedResources)
unfolding drop_address
drop_mapping allocation address size = do
  perform (cu_mem_unmap address size)
  drop_address allocation address size

-- The size that is mapped for a message of `byte_size` bytes.
unfoldable pub mapped_size : ℕ → ℕ → ℕ
unfolding align_up_size
mapped_size byte_size granularity =
    if align_up_size byte_size granularity == 0
    then granularity
    else align_up_size byte_size granularity

-- `import` once the address range is reserved: map it, make it accessible, open the event.
map_reserved : CudaDeviceContext → BufferCore → ℕ → ℕ → ℕ → M (Option ImportedResources)
unfolding drop_mapping
map_reserved context msg allocation size address = do
  mapped ← perform (cu_mem_map address size allocation)
  if not (is_ok mapped) then drop_address allocation address size else do
    accessible ← perform (cu_mem_set_access address size)
    if not (is_ok accessible) then drop_mapping allocation address size else do
      event ← perform (cu_ipc_open_event_handle msg.event_handle)
      if not (is_ok event)
          then drop_mapping allocation address size
          else pure (
              some (record {
                dev_ptr = address;
                event = event.value;
                context = some context;
                vmm_address = address;
                vmm_allocation = allocation;
                allocation_size = size;
              }))

-- `import` under the context guard.
unfoldable pub import_current : CudaDeviceContext → BufferCore → ℕ → M (Option ImportedResources)
unfolding map_reserved mapped_size
import_current context msg fd = do
  allocation ← perform (cu_mem_import fd)
  perform (close fd)
  if not (is_ok allocation) then pure none else do
    granularity ← perform (cu_mem_get_allocation_granularity msg.device_id)
    if not (is_ok granularity) then drop_allocation allocation.value else do
      let size = mapped_size msg.byte_size granularity.value
      address ← perform (cu_mem_address_reserve size)
      if not (is_ok address)
          then drop_allocation allocation.value
          else map_reserved context msg allocation.value size address.value

-- `import` with the primary context: its reference goes with the resources, or is given back.
unfoldable pub import_retained : CudaDeviceContext → BufferCore → ℕ → M (Option ImportedResources)
unfolding pop release_primary
import_retained context msg fd = do
  guard ← push_current context
  elim guard [
    | failure e ↦ do perform (close fd); release_primary context; pure none
    | success _ ↦ do
      imported ← import_current context msg fd
      pop
      elim imported [ none ↦ do release_primary context; pure none | some r ↦ pure (some r) ]
  ]

-- `import` with the descriptor, and with the primary context or its error.
unfoldable pub import_with_context :
    BufferCore → ℕ → CudaResult CudaDeviceContext → M (Option ImportedResources)
import_with_context msg fd (failure e) = do perform (close fd); pure none
import_with_context msg fd (success context) = import_retained context msg fd

unfoldable pub import_with_fd : BufferCore → Option ℕ → M (Option ImportedResources)
import_with_fd msg none = pure none
import_with_fd msg (some fd) = do
  context ← retain_primary msg.device_id
  import_with_context msg fd context

-- `VmmFdMemoryImporter::import`. A `device_id` that is negative as an `int` is above every device
-- count, and refused alike.
unfoldable pub import_resources : BufferCore → M (Option ImportedResources)
import_resources msg d m =
    if leb sun_path_size (len msg.vmm_socket_path)
    then (none, m)
    else (do fd ← request_fd_from_publisher msg.vmm_socket_path; import_with_fd msg fd) d m

unfoldable pub release_address : ImportedResources → M Bool
release_address r =
    if not (r.vmm_address == 0) && not (r.allocation_size == 0)
    then (do
      unmapped ← perform (cu_mem_unmap r.vmm_address r.allocation_size)
      freed ← perform (cu_mem_address_free r.vmm_address r.allocation_size)
      pure (is_ok unmapped && is_ok freed))
    else pure true

unfoldable pub release_allocation : ImportedResources → M Bool
release_allocation r =
    if r.vmm_allocation == 0
    then pure true
    else do released ← perform (cu_mem_release r.vmm_allocation); pure (is_ok released)

unfoldable pub release_event : ImportedResources → M Bool
release_event r =
    if r.event == 0
    then pure true
    else do destroyed ← perform (cu_event_destroy r.event); pure (is_ok destroyed)

-- `release_imported_resources`: every part is released, whatever became of the others.
unfoldable pub release_imported_resources : ImportedResources → M Bool
unfolding pop
release_imported_resources r = elim r.context [
  | none ↦ pure true
  | some context ↦
      within context (λ _. false)
        do
          address ← release_address r
          allocation ← release_allocation r
          event ← release_event r
          pure (address && allocation && event)
]
