-- ===== src/Importer/Memory.antt =====
-- Importing and releasing GPU memory leaves the shared blocks alone.
use ros2_cuda_ipc.Base.{ℕ, ◌≡◌, refl, ◌∙◌, inl, inr, Option-cases, Option, none, some, arith}
use ros2_cuda_ipc.Cuda.{Driver, Machine, CudaResult, success, failure}
use ros2_cuda_ipc.Cuda.Context.{CudaDeviceContext, retain_primary, push_current, initialize}
use ros2_cuda_ipc.Transport.{BufferCore}
use ros2_cuda_ipc.Importer.{
  ImportedResources, request_fd_from_publisher, import_current, import_retained,
  import_with_context, import_with_fd, import_resources, release_imported_resources,
  release_address, release_allocation, release_event,
}
use Prim.Native.String.{String}

module _ (d : Driver) where
  request_fd-store :
      (path : String) (m : Machine) → (request_fd_from_publisher path d m).1.store ≡ m.store
  unfolding request_fd_from_publisher
  request_fd-store path m = ground arith

  pub push_current-store :
      (c : CudaDeviceContext) (m : Machine) → (push_current c d m).1.store ≡ m.store
  unfolding push_current initialize
  push_current-store c m = ground arith

  pub retain_primary-store : (id : ℕ) (m : Machine) → (retain_primary id d m).1.store ≡ m.store
  unfolding retain_primary initialize
  retain_primary-store id m = ground arith

  import_current-store :
      (c : CudaDeviceContext) (msg : BufferCore) (fd : ℕ) (m : Machine)
      → (import_current c msg fd d m).1.store ≡ m.store
  unfolding import_current
  import_current-store c msg fd m = ground arith

  import_retained-store :
      (c : CudaDeviceContext) (msg : BufferCore) (fd : ℕ) (m : Machine)
      → (import_retained c msg fd d m).1.store ≡ m.store
  unfolding import_retained
  import_retained-store c msg fd m =
      ground (arith, push_current-store c m, import_current-store c msg fd (push_current c d m).1)

  import_with_context-store :
      (msg : BufferCore) (fd : ℕ) (x : CudaResult CudaDeviceContext) (m : Machine)
      → (import_with_context msg fd x d m).1.store ≡ m.store
  unfolding import_with_context
  import_with_context-store msg fd (success c) m = import_retained-store c msg fd m
  import_with_context-store msg fd (failure e) m = refl

  import_with_fd-store :
      (msg : BufferCore) (fd : Option ℕ) (m : Machine)
      → (import_with_fd msg fd d m).1.store ≡ m.store
  unfolding import_with_fd
  import_with_fd-store msg none m = refl
  import_with_fd-store msg (some fd) m =
      let retained = retain_primary msg.device_id d m in
      import_with_context-store msg fd retained.0 retained.1 ∙ retain_primary-store msg.device_id m

  pub import_resources-store :
      (msg : BufferCore) (m : Machine) → (import_resources msg d m).1.store ≡ m.store
  unfolding import_resources
  import_resources-store msg m = ground (
    arith,
    request_fd-store msg.vmm_socket_path m,
    import_with_fd-store msg (request_fd_from_publisher msg.vmm_socket_path d m).0
        (request_fd_from_publisher msg.vmm_socket_path d m).1,
  )

pub release_imported_resources-store :
    (i : ImportedResources) (d : Driver) (m : Machine)
    → (release_imported_resources i d m).1.store ≡ m.store
unfolding release_imported_resources release_address release_allocation release_event
release_imported_resources-store i d m = elim (Option-cases i.context) [
  | inl e ↦ rw (e, release_imported_resources) refl
  | inr (c, e) ↦ rw (e, release_imported_resources) (ground (arith, push_current-store d c m))
]
