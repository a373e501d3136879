-- ===== src/Pool/Setup/Initialise.antt =====
-- What `initialise` of gpu_buffer_pool.cpp leaves behind, on every branch.
use ros2_cuda_ipc.Base.{
  ℕ, ◌+◌, ◌≡◌, refl, ap, subst, ◌∙◌, ◌⊎◌, inl, inr, false, not, ◌||◌, Option, none, some, [], arith,
  ◌==◌, ltb, length, total, Bool-cases, u32_max,
}
use ros2_cuda_ipc.Cuda.{Driver, Machine, ◌>>=◌, ◌>>◌}
use ros2_cuda_ipc.Cuda.Balance.{Resource, current, Keeps, Moves}
use ros2_cuda_ipc.Cuda.Context.{CudaDeviceContext, retain_primary, release_primary}
use ros2_cuda_ipc.Cuda.Laws.{of_primary, if_success, retain_primary-Keeps, CudaResult-cases}
use ros2_cuda_ipc.Backend.Laws.{block_holds}
use ros2_cuda_ipc.Pool.{GpuBufferPool}
use ros2_cuda_ipc.Pool.Setup.{
  clear_first, Environment, allocate_blocks, number_blocks, empty_blocks, finish, prepare,
  initialise,
}
use ros2_cuda_ipc.Pool.Teardown.{emptied, destroy_blocks, drop_context, cleanup_orphaned}
use ros2_cuda_ipc.Pool.Setup.Laws.{Tracked, if_held, meta_holds, pool_holds, destroy_blocks-Moves}
use ros2_cuda_ipc.Pool.Setup.Allocated.{allocate_blocks-Grown}
use ros2_cuda_ipc.Pool.Setup.Kept.{HandsOut, Leaves, cleanup-Leaves, number_blocks-Leaves}

emptied_holds : (r : Resource) (pool : GpuBufferPool) → pool_holds r (emptied pool) ≡ 0
unfolding emptied
emptied_holds current pool = refl
emptied_holds r pool = ground arith

no_blocks :
    (pool : GpuBufferPool)
    → (pool.initialised || not (length pool.blocks == 0)) ≡ false
    → pool.blocks ≡ []
no_blocks pool e = ground arith

module _ (d : Driver) where
  destroyed : (pool : GpuBufferPool) (m : Machine) → (destroy_blocks pool d m).0 ≡ emptied pool
  unfolding destroy_blocks
  destroyed pool m = refl

  drop_context-Moves :
      (context : Option CudaDeviceContext) (m : Machine) (r : Resource)
      → Moves 0 (of_primary r (if_held context)) r m.log (drop_context context d m).1.log
  unfolding drop_context release_primary
  drop_context-Moves none m r = ground arith
  drop_context-Moves (some c) m current = ground arith
  drop_context-Moves (some c) m r = ground arith

  module _ (h : HandsOut d) (env : Environment) where
    finish-Leaves :
        (c : CudaDeviceContext) (device_index next : ℕ) (pool : GpuBufferPool) (m : Machine)
        (r : Resource)
        → Tracked r
        → let result = finish env c device_index next pool d m in
          Moves (pool_holds r result.0.0) (pool_holds r pool) r m.log result.1.log
          × (result.0.1 ≡ false → result.0.0 ≡ emptied pool)
    unfolding finish emptied
    finish-Leaves c device_index next pool m r t =
        let allocated = allocate_blocks env.unparse pool.byte_size device_index c pool.blocks d m in
        let grown =
          allocate_blocks-Grown d env.unparse pool.byte_size device_index c pool.blocks m r h.0 t in
        let held = record pool { blocks = allocated.0.0 } in
        let freed = destroy_blocks-Moves d held allocated.1 r t in
        let gone = emptied_holds r held in
        elim (Bool-cases allocated.0.1) [
          | inl e ↦ rw (e, finish, ◌>>=◌) (ground (arith, grown))
          | inr e ↦
              rw (e, finish, ◌>>=◌, destroyed held allocated.1)
                (ground (arith, grown, freed, gone), λ _. refl)
        ]

    prepare-Leaves :
        (byte_size device_index : ℕ) (pool : GpuBufferPool) (c : CudaDeviceContext) (m : Machine)
        (r : Resource)
        → Tracked r
        → pool.blocks ≡ []
        → let result = prepare env byte_size device_index pool c d m in
          Leaves (pool_holds r result.0.0) (pool_holds r pool + of_primary r 1) r m.log result.1.log
          × (result.0.1 ≡ false → result.0.0 ≡ emptied pool)
    unfolding prepare emptied
    prepare-Leaves byte_size device_index pool c m r t empty =
        let dropped = drop_context pool.context d m in
        let freed = drop_context-Moves pool.context m r in
        let numbered =
          number_blocks env.object_at pool.publisher_pid env.next_id []
            (empty_blocks pool.block_count) d dropped.1 in
        let taken =
          number_blocks-Leaves d h env.object_at pool.publisher_pid env.next_id [] pool.block_count
            dropped.1 r in
        let held = record pool {
          context = some c;
          byte_size = byte_size;
          device_index = some device_index;
          blocks = numbered.0.0;
        } in
        let none_held = ap (total (block_holds r)) empty in
        let none_mapped = ap (total (meta_holds r)) empty in
        elim (Bool-cases numbered.0.1) [
          | inl e ↦
              let finished = finish-Leaves c device_index numbered.0.2 held numbered.1 r t in
              rw (e, prepare, ◌>>=◌, ◌>>◌)
                (ground (arith, freed, taken, none_held, none_mapped, finished.0), finished.1)
          | inr e ↦
              let gone = emptied_holds r held in
              let destroyed_held = destroy_blocks-Moves d held numbered.1 r t in
              rw (e, prepare, ◌>>=◌, ◌>>◌, destroyed held numbered.1)
                (
                  ground (arith, freed, taken, none_held, none_mapped, destroyed_held, gone),
                  λ _. refl,
                )
        ]

    clear_first-Moves :
        (pool : GpuBufferPool) (m : Machine) (r : Resource)
        → Tracked r
        → let result = clear_first pool d m in
          Moves (pool_holds r result.0) (pool_holds r pool) r m.log result.1.log
          × (result.0.blocks ≡ [])
          × ((result.0 ≡ pool) ⊎ (result.0 ≡ emptied pool))
          × (emptied result.0 ≡ emptied pool)
    unfolding clear_first emptied
    clear_first-Moves pool m r t =
        elim (Bool-cases (pool.initialised || not (length pool.blocks == 0))) [
          | inl e ↦
              let freed = destroy_blocks-Moves d pool m r t in
              let gone = emptied_holds r pool in
              rw (e, clear_first, destroyed pool m)
                (ground (arith, freed, gone), refl, inr refl, refl)
          | inr e ↦ rw (e, clear_first) (ground arith, no_blocks pool e, inl refl, refl)
        ]

    -- Whatever the driver and the operating system answer, and whichever step fails, a set-up keeps no
    -- more of any resource, but for mappings of GPU memory and for events, than the pool that it leaves
    -- holds; and when it returns false, the pool is as it was or has nothing in it. Of mappings and
    -- events nothing is said: an event is lost when its context cannot be made current. The driver hands back
    -- no null handle and reserves no empty range, and no file is mapped at the null address.
    pub initialise-Leaves :
        (byte_size device_index : ℕ) (pool : GpuBufferPool) (m : Machine) (r : Resource)
        → Tracked r
        → let result = initialise env byte_size device_index pool d m in
          Leaves (pool_holds r result.0.0) (pool_holds r pool) r m.log result.1.log
          × (result.0.1 ≡ false → (result.0.0 ≡ pool) ⊎ (result.0.0 ≡ emptied pool))
    unfolding initialise
    initialise-Leaves byte_size device_index pool m r t =
        let clean = clear_first pool d m in
        let cleared = clear_first-Moves pool m r t in
        let swept = cleanup_orphaned env.scan env.entries d clean.1 in
        let orphans = cleanup-Leaves d env.scan env.entries clean.1 r in
        let retained = retain_primary device_index d swept.1 in
        let kept = retain_primary-Keeps d swept.1 device_index r in
        elim (Bool-cases
          (pool.block_count == 0 || ltb u32_max pool.block_count || byte_size == 0)) [
            | inl e ↦ rw (e, initialise) (ground arith, λ _. inl refl)
            | inr e ↦ elim (CudaResult-cases retained.0) [
              | inl (c, f) ↦
                  let kept' =
                    subst (λ x. Keeps (of_primary r (if_success x)) r swept.1.log retained.1.log) f
                      kept in
                  let prepared =
                    prepare-Leaves byte_size device_index clean.0 c retained.1 r t cleared.1 in
                  rw (e, initialise, ◌>>=◌, ◌>>◌, f)
                    (
                      ground (arith, cleared.0, orphans, kept', prepared.0),
                      λ x. inr (prepared.1 x ∙ cleared.3),
                    )
              | inr (c, f) ↦
                  let kept' =
                    subst (λ x. Keeps (of_primary r (if_success x)) r swept.1.log retained.1.log) f
                      kept in
                  rw (e, initialise, ◌>>=◌, ◌>>◌, f)
                    (ground (arith, cleared.0, orphans, kept'), λ _. cleared.2)
            ]
          ]
