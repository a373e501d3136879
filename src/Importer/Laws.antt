-- ===== src/Importer/Laws.antt =====
-- What importing and releasing do to the resources of the process.
use ros2_cuda_ipc.Base.{ℕ, ◌+◌, ◌≡◌, ◌≢◌, false, Option, none, some, arith}
use ros2_cuda_ipc.Cuda.{Driver, Machine, CudaResult, success, failure}
use ros2_cuda_ipc.Cuda.Balance.{
  Resource, current, primary, event, allocation, address, mapping, descriptor, Keeps, Moves,
}
use ros2_cuda_ipc.Cuda.Context.{CudaDeviceContext, retain_primary, push_current}
use ros2_cuda_ipc.Cuda.Laws.{push_current-Keeps, retain_primary-Keeps, of_primary, if_success}
use ros2_cuda_ipc.Transport.{BufferCore}
use ros2_cuda_ipc.Importer.{
  ImportedResources, request_fd_from_publisher, map_reserved, import_current, import_retained,
  import_with_context, import_with_fd, import_resources, release_imported_resources,
  release_address, release_allocation, release_event,
}
use Prim.Native.String.{String}

abbrev pub if_some : {A : Type 0} → Option A → ℕ
if_some (some _) = 1
if_some none = 0

abbrev pub unless_some : {A : Type 0} → Option A → ℕ
unless_some (some _) = 0
unless_some none = 1

-- What a publication that is imported consists of.
abbrev pub of_import : Resource → ℕ → ℕ
of_import primary n = n
of_import event n = n
of_import allocation n = n
of_import address n = n
of_import mapping n = n
of_import _ n = 0

abbrev if_retained : {A : Type 0} → CudaResult A → ℕ → ℕ
if_retained (success _) n = n
if_retained (failure _) n = 0

abbrev of_descriptor : Resource → ℕ → ℕ
of_descriptor descriptor n = n
of_descriptor _ n = 0

abbrev of_mapped : Resource → ℕ → ℕ
of_mapped event n = n
of_mapped mapping n = n
of_mapped _ n = 0

abbrev of_reserved : Resource → ℕ → ℕ
of_reserved allocation n = n
of_reserved address n = n
of_reserved _ n = 0

abbrev of_current : Resource → ℕ → ℕ
of_current primary n = 0
of_current r n = of_import r n

module _ (d : Driver) where
  request_fd-Keeps :
      (path : String) (m : Machine) (r : Resource)
      → Keeps
          (of_descriptor r (if_some (request_fd_from_publisher path d m).0))
          r
          m.log
          (request_fd_from_publisher path d m).1.log
  unfolding request_fd_from_publisher
  request_fd-Keeps path m current = ground arith
  request_fd-Keeps path m r = ground arith

  map_reserved-Moves :
      (c : CudaDeviceContext) (msg : BufferCore) (al size ad : ℕ) (m : Machine) (r : Resource)
      → let result = map_reserved c msg al size ad d m in
        Moves
          (of_mapped r (if_some result.0))
          (of_reserved r (unless_some result.0))
          r
          m.log
          result.1.log
  unfolding map_reserved
  map_reserved-Moves c msg al size ad m current = ground arith
  map_reserved-Moves c msg al size ad m r = ground arith

  import_current-Moves :
      (c : CudaDeviceContext) (msg : BufferCore) (fd : ℕ) (m : Machine) (r : Resource)
      → let result = import_current c msg fd d m in
        Moves (of_current r (if_some result.0)) (of_descriptor r 1) r m.log result.1.log
  unfolding import_current
  import_current-Moves c msg fd m current = ground arith
  import_current-Moves c msg fd m r = ground arith

  -- Under the reference to the primary context and with the descriptor that was received.
  import_retained-Moves :
      (c : CudaDeviceContext) (msg : BufferCore) (fd : ℕ) (m : Machine) (r : Resource)
      → let result = import_retained c msg fd d m in
        Moves
          (of_current r (if_some result.0))
          (of_descriptor r 1 + of_primary r (unless_some result.0))
          r
          m.log
          result.1.log
  unfolding import_retained
  import_retained-Moves c msg fd m current = ground (
    arith,
    push_current-Keeps d m c current,
    import_current-Moves c msg fd (push_current c d m).1 current,
  )
  import_retained-Moves c msg fd m r =
      ground
        (arith, push_current-Keeps d m c r, import_current-Moves c msg fd (push_current c d m).1 r)

  import_with_context-Moves :
      (msg : BufferCore) (fd : ℕ) (x : CudaResult CudaDeviceContext) (m : Machine) (r : Resource)
      → let result = import_with_context msg fd x d m in
        Moves
          (of_current r (if_some result.0))
          (of_descriptor r 1 + of_primary r (if_retained x (unless_some result.0)))
          r
          m.log
          result.1.log
  unfolding import_with_context
  import_with_context-Moves msg fd (success c) m r = import_retained-Moves c msg fd m r
  import_with_context-Moves msg fd (failure e) m current = ground arith
  import_with_context-Moves msg fd (failure e) m r = ground arith

  import_with_fd-Moves :
      (msg : BufferCore) (fd : Option ℕ) (m : Machine) (r : Resource)
      → let result = import_with_fd msg fd d m in
        Moves (of_import r (if_some result.0)) (of_descriptor r (if_some fd)) r m.log result.1.log
  unfolding import_with_fd import_with_context
  import_with_fd-Moves msg none m current = ground arith
  import_with_fd-Moves msg none m r = ground arith
  import_with_fd-Moves msg (some fd) m r =
      let retained = retain_primary msg.device_id d m in
      ground (
        arith,
        retain_primary-Keeps d m msg.device_id r,
        import_with_context-Moves msg fd retained.0 retained.1 r,
      )

  -- Whatever the driver and the operating system answer, an import that succeeds keeps one reference
  -- to the primary context, one allocation handle, one address range, one mapping of it and one
  -- event, and no file descriptor; an import that fails keeps nothing; neither leaves a context
  -- current.
  pub import_resources-Keeps :
      (msg : BufferCore) (m : Machine) (r : Resource)
      → let result = import_resources msg d m in
        Keeps (of_import r (if_some result.0)) r m.log result.1.log
  unfolding import_resources
  import_resources-Keeps msg m r = ground (
    arith,
    request_fd-Keeps msg.vmm_socket_path m r,
    import_with_fd-Moves msg (request_fd_from_publisher msg.vmm_socket_path d m).0
        (request_fd_from_publisher msg.vmm_socket_path d m).1 r,
  )

-- What a release gives back.
abbrev pub of_release : Resource → ℕ → ℕ
of_release event n = n
of_release allocation n = n
of_release address n = n
of_release mapping n = n
of_release _ n = 0

-- If the context can be made current, releasing imported resources gives back the mapping, the
-- address range, the allocation handle and the event, whichever of these calls report a failure. If
-- it cannot, nothing is given back and the release reports that it failed.
pub release_imported_resources-Moves :
    (d : Driver) (m : Machine) (i : ImportedResources) (c : CudaDeviceContext) (r : Resource)
    → i.context ≡ some c
    → i.vmm_address ≢ 0
    → i.allocation_size ≢ 0
    → i.vmm_allocation ≢ 0
    → i.event ≢ 0
    → let pushed = if_success (push_current c d m).0 in
      let result = release_imported_resources i d m in
      Moves 0 (of_release r pushed) r m.log result.1.log × (pushed ≡ 0 → result.0 ≡ false)
unfolding release_imported_resources release_address release_allocation release_event
release_imported_resources-Moves d m i c current e a s h v =
    rw (e, release_imported_resources) (ground (arith, push_current-Keeps d m c current))
release_imported_resources-Moves d m i c r e a s h v =
    rw (e, release_imported_resources) (ground (arith, push_current-Keeps d m c r))
