-- ===== src/Backend/Served.antt =====
-- What the blocks are like after memory_backend.cpp has allocated their memory, or has failed to.
use ros2_cuda_ipc.Base.{
  ℕ, ◌≡◌, refl, sym, ap, subst, ◌≢◌, ◌⊎◌, inl, inr, Bool, true, false, Option, none, some, List, [],
  ◌∷◌, ◌++◌, map, arith, All, total,
}
use mathlib.Core.List
use ros2_cuda_ipc.Cuda.{
  cu_mem_get_allocation_granularity, ◌>>=◌, cu_mem_map, cu_mem_set_access, cu_mem_export,
  cu_mem_address_reserve, cu_mem_create, uuid_generate, Driver, Machine,
}
use ros2_cuda_ipc.Cuda.Balance.{Resource, current, Moves}
use ros2_cuda_ipc.Importer.{align_up_size}
use ros2_cuda_ipc.Backend.Server.{UnixFdServer, start, stop}
use ros2_cuda_ipc.Backend.{
  VmmFdBlockState, GpuBufferBlock, drop_owned, cleared, with_state, Attempt, complete, incomplete,
  serve, share, make_state, allocate_each, allocate_vmm_fd_memory, ensure_driver,
}
use ros2_cuda_ipc.Backend.Laws.{
  HandsBack, Counted, block_holds, made, exported, offered, after, Attempt-cases,
  allocate_each-Moves, abandon-Moves,
}
use ros2_cuda_ipc.Backend.Mapped.{IsAccessible, allocate_each-IsAccessible}
use Prim.Native.String.{String}

-- A server listens at the path and hands out the descriptor.
abbrev pub Listens : String → Option ℕ → Option UnixFdServer → Type 0
Listens path fd none = ⊥
Listens path fd (some s) = (s.path ≡ path) × (some s.fd ≡ fd) × (s.listen_fd ≢ none)

abbrev pub ServedState : String → ℕ → Option VmmFdBlockState → Type 0
ServedState path ptr none = ⊥
ServedState path ptr (some s) =
    (s.address ≡ ptr) × (s.shareable_fd ≢ none) × Listens path s.shareable_fd s.server

-- The block has memory, and a server at the path that it announces hands out the descriptor of that
-- memory.
abbrev pub Served : GpuBufferBlock → Type 0
Served b = ServedState b.vmm_socket_path b.device_ptr b.vmm_fd_state

abbrev IsServed : Attempt → Type 0
IsServed (complete path s) = (s.shareable_fd ≢ none) × Listens path s.shareable_fd s.server
IsServed (incomplete s) = Unit {0}

module _ (d : Driver) (unparse : ℕ → String) where
  start_listens :
      (s : UnixFdServer) (m : Machine)
      → (start s d m).0.1 ≡ true
      → ((start s d m).0.0.path ≡ s.path)
        × ((start s d m).0.0.fd ≡ s.fd)
        × ((start s d m).0.0.listen_fd ≢ none)
  unfolding start stop
  start_listens s m e = ground arith

  serve-IsServed :
      (al ad size fd : ℕ) (m : Machine) → IsServed (serve unparse (exported al ad size fd) fd d m).0
  unfolding serve
  serve-IsServed al ad size fd m = ground (
    arith,
    start_listens (offered unparse fd (d m.log uuid_generate).value) (after uuid_generate d m),
  )

  share-IsServed : (al ad size : ℕ) (m : Machine) → IsServed (share unparse (made al ad size) d m).0
  unfolding share
  share-IsServed al ad size m =
      let mapped = after (cu_mem_map ad size al) d m in
      let accessible = after (cu_mem_set_access ad size) d mapped in
      let fd = (d accessible.log (cu_mem_export al)).value in
      ground (arith, serve-IsServed al ad size fd (after (cu_mem_export al) d accessible))

  make_state-IsServed :
      (device_index size : ℕ) (m : Machine) → IsServed (make_state unparse device_index size d m).0
  unfolding make_state
  make_state-IsServed device_index size m =
      let reserved = after (cu_mem_address_reserve size) d m in
      let created = after (cu_mem_create size) d reserved in
      let al = (d reserved.log (cu_mem_create size)).value in
      let ad = (d m.log (cu_mem_address_reserve size)).value in
      ground (arith, share-IsServed al ad size created)

cleared_twice : (xs : List GpuBufferBlock) → map cleared (map cleared xs) ≡ map cleared xs
unfolding cleared
cleared_twice [] = refl
cleared_twice (x ∷ xs) = ap (λ ys. cleared x ∷ ys) (cleared_twice xs)

cleared_replaced :
    (before after : List GpuBufferBlock) (b : GpuBufferBlock) (path : String) (s : VmmFdBlockState)
    → map cleared ((before ++ with_state b path s ∷ []) ++ after)
      ≡ map cleared (before ++ b ∷ after)
unfolding cleared with_state
cleared_replaced [] after b path s = refl
cleared_replaced (x ∷ xs) after b path s =
    ap (λ ys. cleared x ∷ ys) (cleared_replaced xs after b path s)

All-snoc :
    (xs : List GpuBufferBlock) (b : GpuBufferBlock)
    → All Served xs
    → Served b
    → All Served (xs ++ b ∷ [])
All-snoc [] b all one = (one, tt)
All-snoc (x ∷ xs) b all one = (all.0, All-snoc xs b all.1 one)

-- The blocks after an attempt to allocate them: all served, or none with anything left; their ids,
-- metadata and events are as they were.
abbrev pub Settled : List GpuBufferBlock → List GpuBufferBlock × Bool → Type 0
Settled cs (done, true) = All Served done × (map cleared done ≡ cs)
Settled cs (done, false) = done ≡ cs

abbrev pub Outcome : List GpuBufferBlock → List GpuBufferBlock × Bool → Type 0
Outcome blocks result = Settled (map cleared blocks) result

complete-Served :
    (b : GpuBufferBlock) (path : String) (s : VmmFdBlockState)
    → IsServed (complete path s)
    → Served (with_state b path s)
unfolding with_state
complete-Served b path s served = (refl, served.0, served.1)

module _ (d : Driver) (h : HandsBack d) (unparse : ℕ → String) (device_index size : ℕ) where
  allocate_each-Outcome :
      (before blocks : List GpuBufferBlock) (m : Machine)
      → All Served before
      → Outcome (before ++ blocks) (allocate_each unparse device_index size before blocks d m).0
  unfolding allocate_each
  allocate_each-Outcome before [] m all = (all, ap (map cleared) (sym (List.append-nil before)))
  allocate_each-Outcome before (b ∷ blocks) m all =
      let attempt = make_state unparse device_index size d m in
      let shape = make_state-IsServed d unparse device_index size m in
      elim (Attempt-cases attempt.0) [
        | inl (path, s, e) ↦
            let dropped = drop_owned b.vmm_fd_state d attempt.1 in
            let done = before ++ with_state b path s ∷ [] in
            let served =
              All-snoc before (with_state b path s) all
                (complete-Served b path s (subst IsServed e shape)) in
            let ih = allocate_each-Outcome done blocks dropped.1 served in
            rw (e, allocate_each, ◌>>=◌)
              (subst
                (λ cs.
                  Settled cs (allocate_each unparse device_index size done blocks d dropped.1).0)
                (cleared_replaced before blocks b path s) ih)
        | inr (s, e) ↦
            let left =
              abandon-Moves d h unparse device_index size (before ++ b ∷ blocks) s attempt.1 current
                tt in
            rw (e, allocate_each, ◌>>=◌, left.1) refl
      ]

abbrev pub granted : Driver → Machine → ℕ → Machine
granted d m device_index =
    after (cu_mem_get_allocation_granularity device_index) d (ensure_driver d m).1

-- With a driver that hands back no null handle and reserves no empty range, whatever fails: the blocks
-- hold afterwards exactly what was taken and not given back, but for mappings of ranges, which are
-- not counted. If the allocation succeeds, every block has memory that was mapped at its address and
-- opened to its device, and a server at the path that it announces, which hands out the descriptor of
-- that memory. If it fails, either nothing was touched, or no block has anything left of
-- it.
pub allocate_vmm_fd_memory-Outcome :
    (d : Driver) (unparse : ℕ → String) (frame_size_bytes device_index : ℕ)
    (blocks : List GpuBufferBlock) (m : Machine) (r : Resource)
    → HandsBack d
    → Counted r
    → let result = allocate_vmm_fd_memory unparse frame_size_bytes device_index blocks d m in
      Moves (total (block_holds r) result.0.0) (total (block_holds r) blocks) r m.log result.1.log
      × ((result.0 ≡ (blocks, false)) ⊎ Outcome blocks result.0)
      × (result.0.1 ≡ true → All (IsAccessible result.1.log) result.0.0)
unfolding allocate_vmm_fd_memory ensure_driver
allocate_vmm_fd_memory-Outcome d unparse frame_size_bytes device_index blocks m r h c =
    let granularity =
      (d (ensure_driver d m).1.log (cu_mem_get_allocation_granularity device_index)).value in
    let size = align_up_size frame_size_bytes granularity in
    let ready = granted d m device_index in
    ground (
      arith,
      c,
      allocate_each-Moves d h unparse device_index size [] blocks ready r c,
      allocate_each-Outcome d h unparse device_index size [] blocks ready tt,
      allocate_each-IsAccessible d unparse device_index size [] blocks ready tt,
    )
