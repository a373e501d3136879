-- ===== src/Pool/Setup/Store.antt =====
-- Allocating the memory of blocks, and their events, changes no shared-memory object.
use ros2_cuda_ipc.Base.{ℕ, ◌≡◌, refl, ◌∙◌, inl, inr, Option, none, some, List, [], ◌∷◌, ◌++◌, arith}
use ros2_cuda_ipc.Cuda.{
  cu_mem_map, cu_mem_set_access, cu_mem_export, cu_mem_address_reserve, cu_mem_create,
  cu_mem_get_allocation_granularity, Driver, Machine, ◌>>=◌,
}
use ros2_cuda_ipc.Cuda.Context.{CudaDeviceContext, push_current, initialize}
use ros2_cuda_ipc.Cuda.Event
use ros2_cuda_ipc.Cuda.Laws.{CudaResult-cases}
use ros2_cuda_ipc.Backend.Server.{UnixFdServer, start, stop}
use ros2_cuda_ipc.Backend.{
  VmmFdBlockState, GpuBufferBlock, drop_state, drop_owned, destroy_vmm_fd_memory, abandon,
  with_state, serve, share, make_state, allocate_each, allocate_vmm_fd_memory, ensure_driver,
}
use ros2_cuda_ipc.Backend.Laws.{Attempt-cases, after, made}
use ros2_cuda_ipc.Backend.Served.{granted}
use ros2_cuda_ipc.Importer.{align_up_size}
use ros2_cuda_ipc.Importer.Memory.{push_current-store}
use ros2_cuda_ipc.Pool.Setup.{create_events, allocate_memory, allocate_blocks}
use Prim.Native.String.{String}

module _ (d : Driver) where
  drop_state-store : (s : VmmFdBlockState) (m : Machine) → (drop_state s d m).1.store ≡ m.store
  unfolding drop_state stop
  drop_state-store s m = ground arith

  drop_owned-store :
      (s : Option VmmFdBlockState) (m : Machine) → (drop_owned s d m).1.store ≡ m.store
  unfolding drop_owned
  drop_owned-store none m = refl
  drop_owned-store (some s) m = drop_state-store s m

  destroy-store :
      (blocks : List GpuBufferBlock) (m : Machine)
      → (destroy_vmm_fd_memory blocks d m).1.store ≡ m.store
  unfolding destroy_vmm_fd_memory
  destroy-store [] m = refl
  destroy-store (b ∷ rest) m =
      destroy-store rest (drop_owned b.vmm_fd_state d m).1 ∙ drop_owned-store b.vmm_fd_state m

  start-store : (s : UnixFdServer) (m : Machine) → (start s d m).1.store ≡ m.store
  unfolding start stop
  start-store s m = ground arith

  module _ (unparse : ℕ → String) (device_index size : ℕ) where
    serve-store :
        (s : VmmFdBlockState) (fd : ℕ) (m : Machine) → (serve unparse s fd d m).1.store ≡ m.store
    unfolding serve
    serve-store s fd m = start-store _ _

    share-store : (s : VmmFdBlockState) (m : Machine) → (share unparse s d m).1.store ≡ m.store
    unfolding share
    share-store s m =
        let mapped = after (cu_mem_map s.address s.allocation_size s.allocation) d m in
        let accessible = after (cu_mem_set_access s.address s.allocation_size) d mapped in
        let fd = (d accessible.log (cu_mem_export s.allocation)).value in
        let shared = record s { shareable_fd = some fd } in
        ground (arith, serve-store shared fd (after (cu_mem_export s.allocation) d accessible))

    make_state-store : (m : Machine) → (make_state unparse device_index size d m).1.store ≡ m.store
    unfolding make_state
    make_state-store m =
        let reserved = after (cu_mem_address_reserve size) d m in
        let created = after (cu_mem_create size) d reserved in
        let al = (d reserved.log (cu_mem_create size)).value in
        let ad = (d m.log (cu_mem_address_reserve size)).value in
        ground (arith, share-store (made al ad size) created)

    allocate_each-store :
        (before blocks : List GpuBufferBlock) (m : Machine)
        → (allocate_each unparse device_index size before blocks d m).1.store ≡ m.store
    unfolding allocate_each abandon
    allocate_each-store before [] m = refl
    allocate_each-store before (b ∷ blocks) m =
        let attempt = make_state unparse device_index size d m in
        let same = make_state-store m in
        elim (Attempt-cases attempt.0) [
          | inl (path, s, e) ↦
              let dropped = drop_owned b.vmm_fd_state d attempt.1 in
              let rest =
                allocate_each-store (before ++ with_state b path s ∷ []) blocks dropped.1 in
              rw (e, allocate_each, ◌>>=◌) (rest ∙ drop_owned-store b.vmm_fd_state attempt.1 ∙ same)
          | inr (s, e) ↦
              let destroyed = destroy_vmm_fd_memory (before ++ b ∷ blocks) d attempt.1 in
              rw (e, allocate_each, ◌>>=◌)
                (drop_state-store s destroyed.1
                  ∙ destroy-store (before ++ b ∷ blocks) attempt.1
                  ∙ same)
        ]

  allocate_vmm-store :
      (unparse : ℕ → String) (frame_size_bytes device_index : ℕ) (blocks : List GpuBufferBlock)
      (m : Machine)
      → (allocate_vmm_fd_memory unparse frame_size_bytes device_index blocks d m).1.store ≡ m.store
  unfolding allocate_vmm_fd_memory ensure_driver
  allocate_vmm-store unparse frame_size_bytes device_index blocks m =
      let ready = granted d m device_index in
      let granularity =
        (d (ensure_driver d m).1.log (cu_mem_get_allocation_granularity device_index)).value in
      ground (
        arith,
        allocate_each-store unparse device_index (align_up_size frame_size_bytes granularity) []
            blocks ready,
      )

  allocate_memory-store :
      (unparse : ℕ → String) (byte_size device_index : ℕ) (c : CudaDeviceContext)
      (blocks : List GpuBufferBlock) (m : Machine)
      → (allocate_memory unparse byte_size device_index c blocks d m).1.store ≡ m.store
  unfolding allocate_memory
  allocate_memory-store unparse byte_size device_index c blocks m =
      let pushed = push_current c d m in
      ground (
        arith,
        push_current-store d c m,
        allocate_vmm-store unparse byte_size device_index blocks pushed.1,
      )

  create-store :
      (c : Option CudaDeviceContext) (m : Machine) → (Event.create c d m).1.store ≡ m.store
  unfolding Event.create initialize
  create-store none m = ground arith
  create-store (some c) m = ground arith

  create_events-store :
      (c : Option CudaDeviceContext) (before blocks : List GpuBufferBlock) (m : Machine)
      → (create_events c before blocks d m).1.store ≡ m.store
  unfolding create_events
  create_events-store c before [] m = refl
  create_events-store c before (b ∷ blocks) m =
      let created = Event.create c d m in
      elim (CudaResult-cases created.0) [
        | inl (e, f) ↦
            let one = record b { ready_event = some e } in
            rw (f, create_events, ◌>>=◌)
              (create_events-store c (before ++ one ∷ []) blocks created.1 ∙ create-store c m)
        | inr (e, f) ↦ rw (f, create_events, ◌>>=◌) (create-store c m)
      ]

  pub allocate_blocks-store :
      (unparse : ℕ → String) (byte_size device_index : ℕ) (c : CudaDeviceContext)
      (blocks : List GpuBufferBlock) (m : Machine)
      → (allocate_blocks unparse byte_size device_index c blocks d m).1.store ≡ m.store
  unfolding allocate_blocks
  allocate_blocks-store unparse byte_size device_index c blocks m =
      let allocated = allocate_memory unparse byte_size device_index c blocks d m in
      ground (
        arith,
        allocate_memory-store unparse byte_size device_index c blocks m,
        create_events-store (some c) [] allocated.0.0 allocated.1,
      )
