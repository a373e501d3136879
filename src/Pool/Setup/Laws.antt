-- ===== src/Pool/Setup/Laws.antt =====
-- What gpu_buffer_pool.cpp takes and gives back when it sets a pool up or takes it down.
use ros2_cuda_ipc.Base.{
  ℕ, ◌+◌, ◌≡◌, refl, sym, subst, Option, none, some, List, [], ◌∷◌, map, arith, ◌==◌, if◌then◌else◌,
  total,
}
use ros2_cuda_ipc.Metadata.{Mapping}
use ros2_cuda_ipc.Metadata.Object.{drop_mapping}
use ros2_cuda_ipc.Cuda.{Driver, Machine}
use ros2_cuda_ipc.Cuda.Balance.{
  Resource, current, event, mapping, file_mapping, object, Keeps, Moves,
}
use ros2_cuda_ipc.Cuda.Context.{CudaDeviceContext, push_current, release_primary, initialize}
use ros2_cuda_ipc.Cuda.Event.{InterprocessEvent, reset}
use ros2_cuda_ipc.Cuda.Laws.{push_current-Keeps, of_primary}
use ros2_cuda_ipc.Backend.{GpuBufferBlock, cleared, destroy_vmm_fd_memory}
use ros2_cuda_ipc.Backend.Laws.{Counted, block_holds, destroy-Moves, destroy_cleared}
use ros2_cuda_ipc.Pool.{GpuBufferPool}
use ros2_cuda_ipc.Pool.Teardown.{
  reset_events, unlink_all, destroy_memory, destroy_guarded, destroy_blocks, drop_event,
  drop_metadata, drop_context,
}

-- All but mappings of GPU memory, which a range loses unasked, and events, which outlive a context
-- that cannot be made current.
abbrev pub Tracked : Resource → Type 0
Tracked mapping = ⊥
Tracked event = ⊥
Tracked _ = Unit {0}

pub Tracked-Counted : (r : Resource) → Tracked r → Counted r
Tracked-Counted r t = ground arith

-- What a mapped object holds, and a pool.
abbrev pub of_mapping : Resource → ℕ → ℕ
of_mapping file_mapping n = if n == 0 then 0 else 1
of_mapping object n = 1
of_mapping _ n = 0

abbrev pub metadata_holds : Resource → Option Mapping → ℕ
metadata_holds r none = 0
metadata_holds r (some m) = of_mapping r m.address

abbrev pub meta_holds : Resource → GpuBufferBlock → ℕ
meta_holds r b = metadata_holds r b.shared_metadata

abbrev pub if_held : Option CudaDeviceContext → ℕ
if_held none = 0
if_held (some c) = 1

abbrev pub pool_holds : Resource → GpuBufferPool → ℕ
pool_holds r pool =
    of_primary r (if_held pool.context)
    + total (block_holds r) pool.blocks
    + total (meta_holds r) pool.blocks

pub cleared_meta :
    (blocks : List GpuBufferBlock) (r : Resource)
    → total (meta_holds r) (map cleared blocks) ≡ total (meta_holds r) blocks
unfolding cleared
cleared_meta [] r = refl
cleared_meta (b ∷ rest) r = ground (arith, cleared_meta rest r)

module _ (d : Driver) where
  drop_event-Keeps :
      (e : Option InterprocessEvent) (m : Machine) (r : Resource)
      → Tracked r
      → Keeps 0 r m.log (drop_event e d m).1.log
  unfolding drop_event reset initialize
  drop_event-Keeps none m r t = ground arith
  drop_event-Keeps (some e) m current t = ground arith
  drop_event-Keeps (some e) m r t = ground arith

  reset_events-Keeps :
      (blocks : List GpuBufferBlock) (m : Machine) (r : Resource)
      → Tracked r
      → let result = reset_events blocks d m in
        Keeps 0 r m.log result.1.log
        × (total (block_holds r) result.0 ≡ total (block_holds r) blocks)
        × (total (meta_holds r) result.0 ≡ total (meta_holds r) blocks)
  unfolding reset_events
  reset_events-Keeps [] m r t = ground arith
  reset_events-Keeps (b ∷ rest) m r t = ground (
    arith,
    drop_event-Keeps b.ready_event m r t,
    reset_events-Keeps rest (drop_event b.ready_event d m).1 r t,
  )

  unlink_all-Moves :
      (blocks : List GpuBufferBlock) (m : Machine) (r : Resource)
      → Tracked r
      → Moves 0 (total (meta_holds r) blocks) r m.log (unlink_all blocks d m).1.log
  unfolding unlink_all drop_metadata drop_mapping
  unlink_all-Moves [] m r t = ground arith
  unlink_all-Moves (b ∷ rest) m current t =
      ground (arith, unlink_all-Moves rest (drop_metadata b.shared_metadata d m).1 current t)
  unlink_all-Moves (b ∷ rest) m r t =
      ground (arith, unlink_all-Moves rest (drop_metadata b.shared_metadata d m).1 r t)

  destroy_memory-Moves :
      (blocks : List GpuBufferBlock) (m : Machine) (r : Resource)
      → Tracked r
      → Moves 0
          (total (block_holds r) blocks + total (meta_holds r) blocks)
          r
          m.log
          (destroy_memory blocks d m).1.log
  unfolding destroy_memory
  destroy_memory-Moves blocks m r t =
      let destroyed = destroy_vmm_fd_memory blocks d m in
      let kept =
        subst (λ bs. total (meta_holds r) bs ≡ total (meta_holds r) blocks)
          (sym (destroy_cleared d blocks m)) (cleared_meta blocks r) in
      ground (
        arith,
        kept,
        destroy-Moves d blocks m r (Tracked-Counted r t),
        unlink_all-Moves destroyed.0 destroyed.1 r t,
      )

  destroy_guarded-Moves :
      (context : Option CudaDeviceContext) (blocks : List GpuBufferBlock) (m : Machine)
      (r : Resource)
      → Tracked r
      → Moves 0
          (of_primary r (if_held context)
            + total (block_holds r) blocks
            + total (meta_holds r) blocks)
          r
          m.log
          (destroy_guarded context blocks d m).1.log
  unfolding destroy_guarded drop_context release_primary
  destroy_guarded-Moves none blocks m r t = ground (arith, destroy_memory-Moves blocks m r t)
  destroy_guarded-Moves (some c) blocks m current t =
      let pushed = push_current c d m in
      ground
        (arith, push_current-Keeps d m c current, destroy_memory-Moves blocks pushed.1 current t)
  destroy_guarded-Moves (some c) blocks m r t =
      let pushed = push_current c d m in
      ground (arith, push_current-Keeps d m c r, destroy_memory-Moves blocks pushed.1 r t)

  -- Destroying the blocks gives back everything that the pool holds.
  pub destroy_blocks-Moves :
      (pool : GpuBufferPool) (m : Machine) (r : Resource)
      → Tracked r
      → Moves 0 (pool_holds r pool) r m.log (destroy_blocks pool d m).1.log
  unfolding destroy_blocks
  destroy_blocks-Moves pool m r t =
      let reset = reset_events pool.blocks d m in
      ground (
        arith,
        reset_events-Keeps pool.blocks m r t,
        destroy_guarded-Moves pool.context reset.0 reset.1 r t,
      )
