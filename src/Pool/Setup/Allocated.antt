-- ===== src/Pool/Setup/Allocated.antt =====
-- What `allocate_blocks` of gpu_buffer_pool.cpp takes and keeps.
use ros2_cuda_ipc.Base.{
  ℕ, ◌+◌, ◌≡◌, refl, sym, ap, subst, ◌∙◌, ◌⊎◌, inl, inr, Bool, true, false, Option, some, List, [],
  ◌∷◌, ◌++◌, arith, total,
}
use mathlib.Core.List
use ros2_cuda_ipc.Cuda.{Driver, Machine, ◌>>=◌}
use ros2_cuda_ipc.Cuda.Balance.{Resource, current, Keeps, Moves}
use ros2_cuda_ipc.Cuda.Context.{CudaDeviceContext, push_current}
use ros2_cuda_ipc.Cuda.Event.{InterprocessEvent}
use ros2_cuda_ipc.Cuda.Event
use Prim.Native.String.{String}
use ros2_cuda_ipc.Cuda.Laws.{
  of_event, if_success, push_current-Keeps, create-Keeps, CudaResult-cases,
}
use ros2_cuda_ipc.Backend.{GpuBufferBlock, allocate_vmm_fd_memory}
use ros2_cuda_ipc.Backend.Laws.{HandsBack, block_holds}
use ros2_cuda_ipc.Backend.Served.{Outcome, allocate_vmm_fd_memory-Outcome}
use ros2_cuda_ipc.Pool.Setup.{create_events, allocate_memory, allocate_blocks}
use ros2_cuda_ipc.Pool.Setup.Laws.{Tracked, Tracked-Counted, meta_holds, cleared_meta}

-- The metadata is as it was, and what the blocks hold besides is what was taken.
abbrev pub Grown : Resource → List GpuBufferBlock → List GpuBufferBlock → Machine → Machine → Type 0
Grown r old new before after =
    Moves (total (block_holds r) new) (total (block_holds r) old) r before.log after.log
    × (total (meta_holds r) new ≡ total (meta_holds r) old)

Outcome-meta :
    (blocks : List GpuBufferBlock) (result : List GpuBufferBlock × Bool) (r : Resource)
    → (result ≡ (blocks, false)) ⊎ Outcome blocks result
    → total (meta_holds r) result.0 ≡ total (meta_holds r) blocks
Outcome-meta blocks result r (inl e) = ap (λ x. total (meta_holds r) x.0) e
Outcome-meta blocks (done, true) r (inr o) =
    sym (cleared_meta done r) ∙ ap (total (meta_holds r)) o.1 ∙ cleared_meta blocks r
Outcome-meta blocks (done, false) r (inr o) = ap (total (meta_holds r)) o ∙ cleared_meta blocks r

same_totals :
    (f : GpuBufferBlock → ℕ) (before after : List GpuBufferBlock) (b b' : GpuBufferBlock)
    → f b' ≡ f b
    → total f ((before ++ b' ∷ []) ++ after) ≡ total f (before ++ b ∷ after)
same_totals f [] after b b' e = ap (λ n. n + total f after) e
same_totals f (x ∷ xs) after b b' e = ap (λ n. f x + n) (same_totals f xs after b b' e)

module _ (d : Driver) where
  allocate_memory-Grown :
      (unparse : ℕ → String) (byte_size device_index : ℕ) (c : CudaDeviceContext)
      (blocks : List GpuBufferBlock) (m : Machine) (r : Resource)
      → HandsBack d
      → Tracked r
      → let result = allocate_memory unparse byte_size device_index c blocks d m in
        Grown r blocks result.0.0 m result.1
  unfolding allocate_memory
  allocate_memory-Grown unparse byte_size device_index c blocks m current h t =
      let pushed = push_current c d m in
      let inner =
        allocate_vmm_fd_memory-Outcome d unparse byte_size device_index blocks pushed.1 current h
          (Tracked-Counted current t) in
      let result = allocate_vmm_fd_memory unparse byte_size device_index blocks d pushed.1 in
      let metas = Outcome-meta blocks result.0 current inner.1 in
      ground (arith, inner.0, metas, push_current-Keeps d m c current)
  allocate_memory-Grown unparse byte_size device_index c blocks m r h t =
      let pushed = push_current c d m in
      let inner =
        allocate_vmm_fd_memory-Outcome d unparse byte_size device_index blocks pushed.1 r h
          (Tracked-Counted r t) in
      let result = allocate_vmm_fd_memory unparse byte_size device_index blocks d pushed.1 in
      let metas = Outcome-meta blocks result.0 r inner.1 in
      ground (arith, inner.0, metas, push_current-Keeps d m c r)

  create_events-Grown :
      (context : Option CudaDeviceContext) (before blocks : List GpuBufferBlock) (m : Machine)
      (r : Resource)
      → Tracked r
      → let result = create_events context before blocks d m in
        Grown r (before ++ blocks) result.0.0 m result.1
  unfolding create_events
  create_events-Grown context before [] m r t =
      let same = List.append-nil before in rw (same) (ground arith)
  create_events-Grown context before (b ∷ blocks) m r t =
      let created = Event.create context d m in
      let kept = create-Keeps d m context r in
      elim (CudaResult-cases created.0) [
        | inl (e, f) ↦
            let one = record b { ready_event = some e } in
            let ih = create_events-Grown context (before ++ one ∷ []) blocks created.1 r t in
            let metas = same_totals (meta_holds r) before blocks b one refl in
            let helds = same_totals (block_holds r) before blocks b one refl in
            let kept' =
              subst (λ x. Keeps (of_event r (if_success x)) r m.log created.1.log) f kept in
            rw (f, create_events, ◌>>=◌) (ground (arith, metas, helds, kept', t, ih))
        | inr (e, f) ↦
            let kept' =
              subst (λ x. Keeps (of_event r (if_success x)) r m.log created.1.log) f kept in
            rw (f, create_events, ◌>>=◌) (ground (arith, kept', t))
      ]

  -- Allocating keeps, but for mappings and events, exactly what the blocks hold afterwards.
  pub allocate_blocks-Grown :
      (unparse : ℕ → String) (byte_size device_index : ℕ) (c : CudaDeviceContext)
      (blocks : List GpuBufferBlock) (m : Machine) (r : Resource)
      → HandsBack d
      → Tracked r
      → let result = allocate_blocks unparse byte_size device_index c blocks d m in
        Grown r blocks result.0.0 m result.1
  unfolding allocate_blocks
  allocate_blocks-Grown unparse byte_size device_index c blocks m r h t =
      let allocated = allocate_memory unparse byte_size device_index c blocks d m in
      ground (
        arith,
        allocate_memory-Grown unparse byte_size device_index c blocks m r h t,
        create_events-Grown (some c) [] allocated.0.0 allocated.1 r t,
      )
