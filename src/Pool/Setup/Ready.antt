-- ===== src/Pool/Setup/Ready.antt =====
-- A pool that `initialise` of gpu_buffer_pool.cpp has set up, and what its publisher can do with it.
use ros2_cuda_ipc.Base.{
  ℕ, ◌≡◌, refl, sym, ap, subst, ◌∙◌, inl, inr, Bool, true, false, Option, none, some, List, [], ◌∷◌,
  ◌++◌, map, arith, All, Bool-cases,
}
use mathlib.Core.List
use ros2_cuda_ipc.Metadata.{Store}
use ros2_cuda_ipc.Cuda.{Driver, Machine, ◌>>=◌}
use ros2_cuda_ipc.Cuda.Context.{CudaDeviceContext, push_current}
use ros2_cuda_ipc.Cuda.Event.{InterprocessEvent}
use ros2_cuda_ipc.Cuda.Event
use ros2_cuda_ipc.Cuda.Balance.{current}
use ros2_cuda_ipc.Cuda.Laws.{CudaResult-cases}
use ros2_cuda_ipc.Backend.{GpuBufferBlock, cleared, allocate_vmm_fd_memory}
use ros2_cuda_ipc.Backend.Laws.{HandsBack}
use ros2_cuda_ipc.Backend.Served.{Served, Settled, allocate_vmm_fd_memory-Outcome}
use ros2_cuda_ipc.Pool.Setup.{create_events, allocate_memory, allocate_blocks}
use ros2_cuda_ipc.Pool.Setup.Numbered.{HasMetadata, ids_of}
use Prim.Native.String.{String}

abbrev pub HasEvent : Option InterprocessEvent → Type 0
HasEvent none = ⊥
HasEvent (some _) = Unit {0}

-- The block has free metadata under its id, memory that its server hands out, and an event.
abbrev pub IsReady : ℕ → Store → GpuBufferBlock → Type 0
IsReady pid s b = (Served b × HasMetadata pid s b) × HasEvent b.ready_event

same_ids :
    (before after : List GpuBufferBlock) (b b' : GpuBufferBlock)
    → b'.block_id ≡ b.block_id
    → ids_of ((before ++ b' ∷ []) ++ after) ≡ ids_of (before ++ b ∷ after)
same_ids [] after b b' e = ap (λ n. n ∷ ids_of after) e
same_ids (x ∷ xs) after b b' e = ap (λ ns. x.block_id ∷ ns) (same_ids xs after b b' e)

module _ (pid : ℕ) (s : Store) where
  metadata_cleared :
      (xs : List GpuBufferBlock)
      → All (HasMetadata pid s) xs
      → All (HasMetadata pid s) (map cleared xs)
  unfolding cleared
  metadata_cleared [] p = tt
  metadata_cleared (x ∷ xs) p = (p.0, metadata_cleared xs p.1)

  metadata_restored :
      (xs : List GpuBufferBlock)
      → All (HasMetadata pid s) (map cleared xs)
      → All (HasMetadata pid s) xs
  unfolding cleared
  metadata_restored [] p = tt
  metadata_restored (x ∷ xs) p = (p.0, metadata_restored xs p.1)

  both :
      (xs : List GpuBufferBlock)
      → All Served xs
      → All (HasMetadata pid s) xs
      → All (λ b. Served b × HasMetadata pid s b) xs
  both [] p q = tt
  both (x ∷ xs) p q = ((p.0, q.0), both xs p.1 q.1)

  IsReady-snoc :
      (xs : List GpuBufferBlock) (b : GpuBufferBlock)
      → All (IsReady pid s) xs
      → IsReady pid s b
      → All (IsReady pid s) (xs ++ b ∷ [])
  IsReady-snoc [] b all one = (one, tt)
  IsReady-snoc (x ∷ xs) b all one = (all.0, IsReady-snoc xs b all.1 one)

  create_events-IsReady :
      (d : Driver) (context : Option CudaDeviceContext) (before blocks : List GpuBufferBlock)
      (m : Machine)
      → All (IsReady pid s) before
      → All (λ b. Served b × HasMetadata pid s b) blocks
      → let result = create_events context before blocks d m in
        result.0.1 ≡ true
        → All (IsReady pid s) result.0.0 × (ids_of result.0.0 ≡ ids_of (before ++ blocks))
  unfolding create_events
  create_events-IsReady d context before [] m p q =
      λ done. (p, ap ids_of (sym (List.append-nil before)))
  create_events-IsReady d context before (b ∷ blocks) m p q =
      let created = Event.create context d m in
      elim (CudaResult-cases created.0) [
        | inl (e, f) ↦
            let one = record b { ready_event = some e } in
            let ih =
              create_events-IsReady d context (before ++ one ∷ []) blocks created.1
                (IsReady-snoc before one p (q.0, tt)) q.1 in
            rw (f, create_events, ◌>>=◌)
              (λ done. ((ih done).0, (ih done).1 ∙ same_ids before blocks b one refl))
        | inr (e, f) ↦ rw (f, create_events, ◌>>=◌) (λ done. ground (arith, done))
      ]

ids_cleared : (xs : List GpuBufferBlock) → ids_of (map cleared xs) ≡ ids_of xs
unfolding cleared
ids_cleared [] = refl
ids_cleared (x ∷ xs) = ap (λ ns. x.block_id ∷ ns) (ids_cleared xs)

Settled-true :
    (cs : List GpuBufferBlock) (x : List GpuBufferBlock × Bool)
    → Settled cs x
    → x.1 ≡ true
    → All Served x.0 × (map cleared x.0 ≡ cs)
Settled-true cs (done, true) s e = s
Settled-true cs (done, false) s e = ground (arith, e)

module _ (d : Driver) (h : HandsBack d) (unparse : ℕ → String) (byte_size device_index : ℕ)
    (c : CudaDeviceContext) where
  allocate_memory-Served :
      (blocks : List GpuBufferBlock) (m : Machine)
      → let result = allocate_memory unparse byte_size device_index c blocks d m in
        result.0.1 ≡ true → All Served result.0.0 × (map cleared result.0.0 ≡ map cleared blocks)
  unfolding allocate_memory
  allocate_memory-Served blocks m =
      let pushed = push_current c d m in
      let result = allocate_vmm_fd_memory unparse byte_size device_index blocks d pushed.1 in
      let inner =
        allocate_vmm_fd_memory-Outcome d unparse byte_size device_index blocks pushed.1 current h
          tt in
      elim (CudaResult-cases pushed.0) [
        | inl (x, f) ↦
            rw (f, allocate_memory, ◌>>=◌)
              (λ done. elim inner.1 [
                | inl e ↦ ground (arith, done, e)
                | inr o ↦ Settled-true (map cleared blocks) result.0 o done
              ])
        | inr (x, f) ↦ rw (f, allocate_memory, ◌>>=◌) (λ done. ground (arith, done))
      ]

  pub allocate_blocks-IsReady :
      (pid : ℕ) (blocks : List GpuBufferBlock) (m : Machine)
      → All (HasMetadata pid m.store) blocks
      → let result = allocate_blocks unparse byte_size device_index c blocks d m in
        result.0.1 ≡ true
        → All (IsReady pid m.store) result.0.0 × (ids_of result.0.0 ≡ ids_of blocks)
  unfolding allocate_blocks
  allocate_blocks-IsReady pid blocks m p =
      let allocated = allocate_memory unparse byte_size device_index c blocks d m in
      elim (Bool-cases allocated.0.1) [
        | inl e ↦
            let made = allocate_memory-Served blocks m e in
            let kept = metadata_restored pid m.store allocated.0.0 (
              subst (All (HasMetadata pid m.store)) (sym made.1)
                (metadata_cleared pid m.store blocks p)) in
            let ready =
              create_events-IsReady pid m.store d (some c) [] allocated.0.0 allocated.1 tt
                (both pid m.store allocated.0.0 made.0 kept) in
            let ids = sym (ids_cleared allocated.0.0) ∙ ap ids_of made.1 ∙ ids_cleared blocks in
            rw (e, allocate_blocks, ◌>>=◌) (λ done. ((ready done).0, (ready done).1 ∙ ids))
        | inr e ↦ rw (e, allocate_blocks, ◌>>=◌) (λ done. ground (arith, done))
      ]
