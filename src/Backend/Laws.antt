-- ===== src/Backend/Laws.antt =====
-- What memory_backend.cpp takes and gives back, whatever the driver and the operating system answer.
use ros2_cuda_ipc.Base.{
  subst, map, ap, ℕ, zero, suc, ◌+◌, ◌≡◌, refl, ◌≢◌, ◌⊎◌, inl, inr, true, false, not, ◌&&◌, Option,
  none, some, List, [], ◌∷◌, ◌++◌, arith, ◌==◌, if◌then◌else◌, total,
}
use ros2_cuda_ipc.Cuda.{
  Call, ◌>>=◌, perform, cu_mem_map, cu_mem_set_access, cu_mem_export, uuid_generate,
  cu_mem_address_reserve, cu_mem_create, Driver, Log, Machine, is_ok,
}
use ros2_cuda_ipc.Cuda.Balance.{
  Resource, current, allocation, address, mapping, descriptor, Keeps, Moves,
}
use ros2_cuda_ipc.Backend.Server.{UnixFdServer, start, stop, run, serve_client}
use ros2_cuda_ipc.Backend.{
  build_socket_path, VmmFdBlockState, GpuBufferBlock, drop_state, drop_owned, cleared, abandon,
  with_state, destroy_vmm_fd_memory, Attempt, complete, incomplete, serve, share, make_state,
  allocate_each,
}
use Prim.Native.String.{String}

-- The driver hands back no null address and no null handle, and reserves no empty range.
abbrev pub HandsBack : Driver → Type 0
HandsBack d =
    (log : Log) (size : ℕ)
    → (is_ok (d log (cu_mem_address_reserve size)) ≡ true
        → ((d log (cu_mem_address_reserve size)).value ≢ 0) × (size ≢ 0))
      × (is_ok (d log (cu_mem_create size)) ≡ true → (d log (cu_mem_create size)).value ≢ 0)

abbrev listens : Option UnixFdServer → ℕ
listens none = 0
listens (some s) = elim s.listen_fd [ none ↦ 0 | some _ ↦ 1 ]

-- What the state of a block gives back when it is destroyed. A range is unmapped whether or not it is
-- mapped, so that mappings are not counted.
abbrev pub holds : Resource → VmmFdBlockState → ℕ
holds address s = if not (s.address == 0) && not (s.allocation_size == 0) then 1 else 0
holds allocation s = if s.allocation == 0 then 0 else 1
holds descriptor s = elim s.shareable_fd [ none ↦ 0 | some _ ↦ 1 ] + listens s.server
holds _ s = 0

abbrev pub holds_owned : Resource → Option VmmFdBlockState → ℕ
holds_owned r none = 0
holds_owned r (some s) = holds r s

abbrev pub block_holds : Resource → GpuBufferBlock → ℕ
block_holds r b = holds_owned r b.vmm_fd_state

abbrev of_listener : Resource → ℕ → ℕ
of_listener descriptor n = n
of_listener _ n = 0

abbrev pub Counted : Resource → Type 0
Counted mapping = ⊥
Counted _ = Unit {0}

abbrev pub made : ℕ → ℕ → ℕ → VmmFdBlockState
made al ad size = record {
  allocation = al;
  address = ad;
  allocation_size = size;
  shareable_fd = none;
  server = none;
}

abbrev pub exported : ℕ → ℕ → ℕ → ℕ → VmmFdBlockState
exported al ad size fd = record (made al ad size) { shareable_fd = some fd }

abbrev pub offered : (ℕ → String) → ℕ → ℕ → UnixFdServer
offered unparse fd uuid = record {
  path = build_socket_path (unparse uuid);
  fd = fd;
  listen_fd = none;
}

abbrev pub after : Call → Driver → Machine → Machine
after c d m = (perform c d m).1

abbrev pub attempt_state : Attempt → VmmFdBlockState
attempt_state (complete path s) = s
attempt_state (incomplete s) = s

module _ (d : Driver) where
  drop_state-Moves :
      (s : VmmFdBlockState) (m : Machine) (r : Resource)
      → Counted r
      → Moves 0 (holds r s) r m.log (drop_state s d m).1.log
  unfolding drop_state stop
  drop_state-Moves s m current c = ground arith
  drop_state-Moves s m r c = ground arith

  start-Keeps :
      (s : UnixFdServer) (m : Machine) (r : Resource)
      → s.listen_fd ≡ none
      → let result = start s d m in
        Keeps (of_listener r (listens (some result.0.0))) r m.log result.1.log
  unfolding start stop
  start-Keeps s m current e = rw (e, start, stop) (ground arith)
  start-Keeps s m r e = rw (e, start, stop) (ground arith)

  serve-Moves :
      (unparse : ℕ → String) (al ad size fd : ℕ) (m : Machine) (r : Resource)
      → let result = serve unparse (exported al ad size fd) fd d m in
        Moves
          (holds r (attempt_state result.0))
          (holds r (exported al ad size fd))
          r
          m.log
          result.1.log
  unfolding serve
  serve-Moves unparse al ad size fd m current = ground (
    arith,
    start-Keeps (offered unparse fd (d m.log uuid_generate).value) (after uuid_generate d m) current
        refl,
  )
  serve-Moves unparse al ad size fd m r = ground (
    arith,
    start-Keeps (offered unparse fd (d m.log uuid_generate).value) (after uuid_generate d m) r refl,
  )

  share-Moves :
      (unparse : ℕ → String) (al ad size : ℕ) (m : Machine) (r : Resource)
      → Counted r
      → let result = share unparse (made al ad size) d m in
        Moves (holds r (attempt_state result.0)) (holds r (made al ad size)) r m.log result.1.log
  unfolding share
  share-Moves unparse al ad size m r c =
      let mapped = after (cu_mem_map ad size al) d m in
      let accessible = after (cu_mem_set_access ad size) d mapped in
      let fd = (d accessible.log (cu_mem_export al)).value in
      ground (arith, c, serve-Moves unparse al ad size fd (after (cu_mem_export al) d accessible) r)

  make_state-Moves :
      (unparse : ℕ → String) (device_index size : ℕ) (m : Machine) (r : Resource)
      → Counted r
      → HandsBack d
      → let result = make_state unparse device_index size d m in
        Keeps (holds r (attempt_state result.0)) r m.log result.1.log
  unfolding make_state
  make_state-Moves unparse device_index size m r c h =
      let reserved = after (cu_mem_address_reserve size) d m in
      let created = after (cu_mem_create size) d reserved in
      let al = (d reserved.log (cu_mem_create size)).value in
      let ad = (d m.log (cu_mem_address_reserve size)).value in
      let first = (h m.log size).0 in
      let second = (h reserved.log size).1 in
      ground (arith, c, first, second, share-Moves unparse al ad size created r c)

  drop_owned-Moves :
      (o : Option VmmFdBlockState) (m : Machine) (r : Resource)
      → Counted r
      → Moves 0 (holds_owned r o) r m.log (drop_owned o d m).1.log
  unfolding drop_owned
  drop_owned-Moves none m current c = ground arith
  drop_owned-Moves none m r c = ground arith
  drop_owned-Moves (some s) m r c = drop_state-Moves s m r c

  pub destroy-Moves :
      (blocks : List GpuBufferBlock) (m : Machine) (r : Resource)
      → Counted r
      → Moves 0 (total (block_holds r) blocks) r m.log (destroy_vmm_fd_memory blocks d m).1.log
  unfolding destroy_vmm_fd_memory
  destroy-Moves [] m r c = ground arith
  destroy-Moves (b ∷ rest) m r c =
      let dropped = drop_owned b.vmm_fd_state d m in
      ground (arith, drop_owned-Moves b.vmm_fd_state m r c, destroy-Moves rest dropped.1 r c)

  pub destroy_cleared :
      (blocks : List GpuBufferBlock) (m : Machine)
      → (destroy_vmm_fd_memory blocks d m).0 ≡ map cleared blocks
  unfolding destroy_vmm_fd_memory
  destroy_cleared [] m = refl
  destroy_cleared (b ∷ rest) m =
      ap (λ bs. cleared b ∷ bs) (destroy_cleared rest (drop_owned b.vmm_fd_state d m).1)

pub total_append :
    (f : GpuBufferBlock → ℕ) (xs ys : List GpuBufferBlock)
    → total f (xs ++ ys) ≡ total f xs + total f ys
total_append f [] ys = ground arith
total_append f (x ∷ xs) ys = ground (arith, total_append f xs ys)

pub cleared_holds :
    (r : Resource) (xs : List GpuBufferBlock) → total (block_holds r) (map cleared xs) ≡ 0
unfolding cleared
cleared_holds r [] = refl
cleared_holds r (x ∷ xs) = ground (arith, cleared_holds r xs)

pub Attempt-cases :
    (x : Attempt)
    → ((path : String) × (s : VmmFdBlockState) × (x ≡ complete path s))
      ⊎ ((s : VmmFdBlockState) × (x ≡ incomplete s))
Attempt-cases (complete path s) = inl (path, s, refl)
Attempt-cases (incomplete s) = inr (s, refl)

with_state-holds :
    (r : Resource) (b : GpuBufferBlock) (path : String) (s : VmmFdBlockState)
    → block_holds r (with_state b path s) ≡ holds r s
unfolding with_state
with_state-holds r b path s = refl

module _ (d : Driver) (h : HandsBack d) (unparse : ℕ → String) (device_index size : ℕ) where
  pub abandon-Moves :
      (blocks : List GpuBufferBlock) (s : VmmFdBlockState) (m : Machine) (r : Resource)
      → Counted r
      → let result = abandon blocks s d m in
        Moves 0 (total (block_holds r) blocks + holds r s) r m.log result.1.log
        × (result.0 ≡ (map cleared blocks, false))
  unfolding abandon
  abandon-Moves blocks s m r c =
      let destroyed = destroy_vmm_fd_memory blocks d m in
      ground (
        arith,
        destroy-Moves d blocks m r c,
        drop_state-Moves d s destroyed.1 r c,
        destroy_cleared d blocks m,
      )

  pub allocate_each-Moves :
      (before blocks : List GpuBufferBlock) (m : Machine) (r : Resource)
      → Counted r
      → let result = allocate_each unparse device_index size before blocks d m in
        Moves
          (total (block_holds r) result.0.0)
          (total (block_holds r) before + total (block_holds r) blocks)
          r
          m.log
          result.1.log
  unfolding allocate_each
  allocate_each-Moves before [] m r c = ground arith
  allocate_each-Moves before (b ∷ blocks) m r c =
      let attempt = make_state unparse device_index size d m in
      let kept = make_state-Moves d unparse device_index size m r c h in
      elim (Attempt-cases attempt.0) [
        | inl (path, s, e) ↦
            let dropped = drop_owned b.vmm_fd_state d attempt.1 in
            let freed = drop_owned-Moves d b.vmm_fd_state attempt.1 r c in
            let done = before ++ with_state b path s ∷ [] in
            let ih = allocate_each-Moves done blocks dropped.1 r c in
            let total = total_append (block_holds r) before (with_state b path s ∷ []) in
            let one = with_state-holds r b path s in
            let kept' =
              subst (λ x. Keeps (holds r (attempt_state x)) r m.log attempt.1.log) e kept in
            rw (e, allocate_each, ◌>>=◌) (ground (arith, freed, ih, total, one, kept'))
        | inr (s, e) ↦
            let kept' =
              subst (λ x. Keeps (holds r (attempt_state x)) r m.log attempt.1.log) e kept in
            let left = abandon-Moves (before ++ b ∷ blocks) s attempt.1 r c in
            let total = total_append (block_holds r) before (b ∷ blocks) in
            let none_left = cleared_holds r (before ++ b ∷ blocks) in
            rw (e, allocate_each, ◌>>=◌, left.1) (ground (arith, left.0, total, none_left, kept'))
      ]

-- However many clients it serves, the worker keeps no connection open.
pub run-Balanced :
    (d : Driver) (turns : ℕ) (s : UnixFdServer) (listen_fd : ℕ) (m : Machine) (r : Resource)
    → Keeps 0 r m.log (run turns s listen_fd d m).1.log
unfolding run serve_client
run-Balanced d zero s listen_fd m r = ground arith
run-Balanced d (suc turns) s listen_fd m current =
    ground (arith, run-Balanced d turns s listen_fd (serve_client s listen_fd d m).1 current)
run-Balanced d (suc turns) s listen_fd m r =
    ground (arith, run-Balanced d turns s listen_fd (serve_client s listen_fd d m).1 r)
