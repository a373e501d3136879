-- ===== src/Backend/Mapped.antt =====
-- That the memory which memory_backend.cpp gives to blocks was mapped and opened to its device.
use ros2_cuda_ipc.Base.{
  ℕ, ◌+◌, ◌≤◌, ◌<◌, ◌≡◌, refl, subst, inl, inr, Bool, true, false, ◌&&◌, Option, none, some, List,
  [], ◌∷◌, ◌++◌, arith, All, ◌==◌, if◌then◌else◌,
}
use ros2_cuda_ipc.Cuda.{
  Call, Answer, Log, Driver, Machine, is_ok, ◌>>=◌, cu_mem_map, cu_mem_set_access, cu_mem_export,
  cu_mem_address_reserve, cu_mem_create, uuid_generate,
}
use ros2_cuda_ipc.Backend.Server.{UnixFdServer, start, stop}
use ros2_cuda_ipc.Backend.{
  VmmFdBlockState, GpuBufferBlock, drop_state, drop_owned, with_state, Attempt, complete,
  incomplete, serve, share, make_state, allocate_each, abandon,
}
use ros2_cuda_ipc.Backend.Laws.{made, exported, offered, after, Attempt-cases}
use Prim.Native.String.{String}

-- The call maps the allocation over its whole range, or opens the range to the device.
abbrev pub maps : ℕ → ℕ → ℕ → Call → Answer → Bool
maps ad size al (cu_mem_map x n y) a = x == ad && n == size && y == al && is_ok a
maps ad size al _ a = false

abbrev pub opens : ℕ → ℕ → Call → Answer → Bool
opens ad size (cu_mem_set_access x n) a = x == ad && n == size && is_ok a
opens ad size _ a = false

abbrev pub mapped : ℕ → ℕ → ℕ → Log → ℕ
mapped ad size al [] = 0
mapped ad size al ((c, a) ∷ l) = (if maps ad size al c a then 1 else 0) + mapped ad size al l

abbrev pub opened : ℕ → ℕ → Log → ℕ
opened ad size [] = 0
opened ad size ((c, a) ∷ l) = (if opens ad size c a then 1 else 0) + opened ad size l

abbrev IsMapped : ℕ → ℕ → ℕ → Log → Type 0
IsMapped ad size al l = (0 < mapped ad size al l) × (0 < opened ad size l)

abbrev MappedState : Log → Option VmmFdBlockState → Type 0
MappedState l none = ⊥
MappedState l (some s) = IsMapped s.address s.allocation_size s.allocation l

-- The log says that the block's allocation was mapped at its address and opened.
abbrev pub IsAccessible : Log → GpuBufferBlock → Type 0
IsAccessible l b = MappedState l b.vmm_fd_state

abbrev IsMade : Log → Attempt → Type 0
IsMade l (complete path s) = IsMapped s.address s.allocation_size s.allocation l
IsMade l (incomplete s) = Unit {0}

module _ (ad size al : ℕ) (d : Driver) where
  -- What was mapped stays in the log.
  abbrev Grows : Log → Log → Type 0
  Grows l k = (mapped ad size al l ≤ mapped ad size al k) × (opened ad size l ≤ opened ad size k)

  drop_state-Grows : (s : VmmFdBlockState) (m : Machine) → Grows m.log (drop_state s d m).1.log
  unfolding drop_state stop
  drop_state-Grows s m = ground arith

  drop_owned-Grows :
      (o : Option VmmFdBlockState) (m : Machine) → Grows m.log (drop_owned o d m).1.log
  unfolding drop_owned
  drop_owned-Grows none m = ground arith
  drop_owned-Grows (some s) m = drop_state-Grows s m

  start-Grows : (s : UnixFdServer) (m : Machine) → Grows m.log (start s d m).1.log
  unfolding start stop
  start-Grows s m = ground arith

  serve-Grows :
      (unparse : ℕ → String) (s : VmmFdBlockState) (fd : ℕ) (m : Machine)
      → Grows m.log (serve unparse s fd d m).1.log
  unfolding serve
  serve-Grows unparse s fd m = ground (
    arith,
    start-Grows (offered unparse fd (d m.log uuid_generate).value) (after uuid_generate d m),
  )

  share-Grows :
      (unparse : ℕ → String) (s : VmmFdBlockState) (m : Machine)
      → Grows m.log (share unparse s d m).1.log
  unfolding share
  share-Grows unparse s m =
      let mapped = after (cu_mem_map s.address s.allocation_size s.allocation) d m in
      let accessible = after (cu_mem_set_access s.address s.allocation_size) d mapped in
      let fd = (d accessible.log (cu_mem_export s.allocation)).value in
      ground (
        arith,
        serve-Grows unparse (record s { shareable_fd = some fd }) fd
            (after (cu_mem_export s.allocation) d accessible),
      )

  make_state-Grows :
      (unparse : ℕ → String) (device_index n : ℕ) (m : Machine)
      → Grows m.log (make_state unparse device_index n d m).1.log
  unfolding make_state
  make_state-Grows unparse device_index n m =
      let reserved = after (cu_mem_address_reserve n) d m in
      let created = after (cu_mem_create n) d reserved in
      let x = (d reserved.log (cu_mem_create n)).value in
      let y = (d m.log (cu_mem_address_reserve n)).value in
      ground (arith, share-Grows unparse (made x y n) created)

module _ (d : Driver) (unparse : ℕ → String) where
  serve-IsMade :
      (al ad size fd : ℕ) (m : Machine)
      → IsMapped ad size al m.log
      → let result = serve unparse (exported al ad size fd) fd d m in IsMade result.1.log result.0
  unfolding serve
  serve-IsMade al ad size fd m h =
      let generated = after uuid_generate d m in
      ground (
        arith,
        h,
        start-Grows ad size al d (offered unparse fd (d m.log uuid_generate).value) generated,
      )

  share-IsMade :
      (al ad size : ℕ) (m : Machine)
      → let result = share unparse (made al ad size) d m in IsMade result.1.log result.0
  unfolding share
  share-IsMade al ad size m =
      let mapped = after (cu_mem_map ad size al) d m in
      let accessible = after (cu_mem_set_access ad size) d mapped in
      let fd = (d accessible.log (cu_mem_export al)).value in
      ground (arith, serve-IsMade al ad size fd (after (cu_mem_export al) d accessible))

  make_state-IsMade :
      (device_index size : ℕ) (m : Machine)
      → let result = make_state unparse device_index size d m in IsMade result.1.log result.0
  unfolding make_state
  make_state-IsMade device_index size m =
      let reserved = after (cu_mem_address_reserve size) d m in
      let created = after (cu_mem_create size) d reserved in
      let al = (d reserved.log (cu_mem_create size)).value in
      let ad = (d m.log (cu_mem_address_reserve size)).value in
      ground (arith, share-IsMade al ad size created)

module _ (l k : Log)
    (grows : (ad size al : ℕ) → IsMapped ad size al l → IsMapped ad size al k) where
  kept-IsAccessible : (bs : List GpuBufferBlock) → All (IsAccessible l) bs → All (IsAccessible k) bs
  kept-IsAccessible [] all = tt
  kept-IsAccessible (b ∷ bs) (one, all) = (still b.vmm_fd_state one, kept-IsAccessible bs all)
    where
      still : (o : Option VmmFdBlockState) → MappedState l o → MappedState k o
      still none h = h
      still (some s) h = grows s.address s.allocation_size s.allocation h

with_state-IsAccessible :
    (l : Log) (b : GpuBufferBlock) (path : String) (s : VmmFdBlockState)
    → IsMapped s.address s.allocation_size s.allocation l
    → IsAccessible l (with_state b path s)
unfolding with_state
with_state-IsAccessible l b path s h = h

one_more :
    (l : Log) (bs : List GpuBufferBlock) (b : GpuBufferBlock)
    → All (IsAccessible l) bs
    → IsAccessible l b
    → All (IsAccessible l) (bs ++ b ∷ [])
one_more l [] b all one = (one, tt)
one_more l (x ∷ bs) b (first, all) one = (first, one_more l bs b all one)

module _ (d : Driver) (unparse : ℕ → String) (device_index size : ℕ) where
  abandon_fails :
      (blocks : List GpuBufferBlock) (s : VmmFdBlockState) (m : Machine)
      → (abandon blocks s d m).0.1 ≡ false
  unfolding abandon
  abandon_fails blocks s m = refl

  -- An allocation that succeeds has mapped and opened the memory of every block.
  pub allocate_each-IsAccessible :
      (before blocks : List GpuBufferBlock) (m : Machine)
      → All (IsAccessible m.log) before
      → let result = allocate_each unparse device_index size before blocks d m in
        result.0.1 ≡ true → All (IsAccessible result.1.log) result.0.0
  unfolding allocate_each
  allocate_each-IsAccessible before [] m all = λ e. all
  allocate_each-IsAccessible before (b ∷ blocks) m all =
      let attempt = make_state unparse device_index size d m in
      let made = make_state-IsMade d unparse device_index size m in
      elim (Attempt-cases attempt.0) [
        | inl (path, s, e) ↦
            let dropped = drop_owned b.vmm_fd_state d attempt.1 in
            let own = subst (IsMade attempt.1.log) e made in
            let first =
              kept-IsAccessible m.log attempt.1.log
                (λ ad n al h.
                  let g = make_state-Grows ad n al d unparse device_index size m in
                  (omega (arith, g, h), omega (arith, g, h)))
                before all in
            let both =
              one_more attempt.1.log before (with_state b path s) first
                (with_state-IsAccessible attempt.1.log b path s own) in
            let done = before ++ with_state b path s ∷ [] in
            let later =
              kept-IsAccessible attempt.1.log dropped.1.log
                (λ ad n al h.
                  let g = drop_owned-Grows ad n al d b.vmm_fd_state attempt.1 in
                  (omega (arith, g, h), omega (arith, g, h)))
                done both in
            rw (e, allocate_each, ◌>>=◌) (allocate_each-IsAccessible done blocks dropped.1 later)
        | inr (s, e) ↦
            rw (e, allocate_each, ◌>>=◌)
              (λ yes. ground (arith, yes, abandon_fails (before ++ b ∷ blocks) s attempt.1))
      ]
