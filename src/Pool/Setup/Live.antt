-- ===== src/Pool/Setup/Live.antt =====
-- A publisher can reserve a block as soon as `initialise` of gpu_buffer_pool.cpp has set its pool up.
use ros2_cuda_ipc.Base.{
  ℕ, suc, ◌+◌, ◌%◌, ◌≡◌, refl, sym, ap, subst, ◌∙◌, ◌≢◌, ◌⊎◌, inl, inr, true, ◌||◌, Option, none,
  some, List, [], ◌∷◌, arith, ◌==◌, ltb, u32_max, length, All, Bool-cases,
}
use ros2_cuda_ipc.Metadata.{Store, Mapping}
use ros2_cuda_ipc.Metadata.Ref
use ros2_cuda_ipc.Metadata.Object.{shm_name_for_block}
use ros2_cuda_ipc.Cuda.{Driver, Machine, ◌>>=◌, ◌>>◌}
use ros2_cuda_ipc.Cuda.Context.{CudaDeviceContext, retain_primary}
use ros2_cuda_ipc.Cuda.Laws.{CudaResult-cases}
use ros2_cuda_ipc.Backend.{GpuBufferBlock}
use ros2_cuda_ipc.Backend.Laws.{HandsBack}
use ros2_cuda_ipc.Pool.{GpuBufferPool, BlockReservation, reserve_for_publish, scan, try_block}
use ros2_cuda_ipc.Pool.Setup.{
  Environment, allocate_blocks, number_blocks, empty_blocks, clear_first, fail, finish, prepare,
  initialise,
}
use ros2_cuda_ipc.Pool.Teardown.{emptied, drop_context, destroy_blocks, cleanup_orphaned}
use ros2_cuda_ipc.Pool.Setup.Store.{allocate_blocks-store}
use ros2_cuda_ipc.Pool.Setup.Numbered.{
  Mapped, Consecutive, ids_of, Numbered, number_blocks-Numbered,
}
use ros2_cuda_ipc.Pool.Setup.Ready.{IsReady, allocate_blocks-IsReady}

-- The pool after a set-up of `count` blocks, numbered from `first` on.
pub record PoolReady (pid count first byte_size device_index : ℕ) (s : Store) (pool : GpuBufferPool)
    : Type 0 where
  pub initialised : pool.initialised ≡ true
  pub from_start : pool.next_block ≡ 0
  pub same_size : pool.byte_size ≡ byte_size
  pub same_device : pool.device_index ≡ some device_index
  pub same_pid : pool.publisher_pid ≡ pid
  pub ready : All (IsReady pid s) pool.blocks
  pub consecutive : Consecutive first (ids_of pool.blocks)
  pub all_blocks : length pool.blocks ≡ count

renamed :
    (pid pid' count count' first byte_size device_index : ℕ) (s : Store) (pool : GpuBufferPool)
    → pid ≡ pid'
    → count ≡ count'
    → PoolReady pid count first byte_size device_index s pool
    → PoolReady pid' count' first byte_size device_index s pool
renamed pid pid' count count' first byte_size device_index s pool e f r = record {
  initialised = r.initialised;
  from_start = r.from_start;
  same_size = r.same_size;
  same_device = r.same_device;
  same_pid = r.same_pid ∙ e;
  ready = subst (λ k. All (IsReady k s) pool.blocks) e r.ready;
  consecutive = r.consecutive;
  all_blocks = r.all_blocks ∙ f;
}

length_ids : (xs : List GpuBufferBlock) → length (ids_of xs) ≡ length xs
length_ids [] = refl
length_ids (x ∷ xs) = ap suc (length_ids xs)

module _ (d : Driver) (h : HandsBack d) (env : Environment) where
  finish_ready :
      (c : CudaDeviceContext) (byte_size device_index next : ℕ) (pool : GpuBufferPool) (m : Machine)
      → Numbered pool.publisher_pid env.next_id m.store pool.blocks
      → pool.byte_size ≡ byte_size
      → pool.device_index ≡ some device_index
      → let result = finish env c device_index next pool d m in
        result.0.1 ≡ true
        → PoolReady pool.publisher_pid
            (length pool.blocks)
            env.next_id
            byte_size
            device_index
            result.1.store
            result.0.0
  unfolding finish fail
  finish_ready c byte_size device_index next pool m t e f =
      let allocated = allocate_blocks env.unparse pool.byte_size device_index c pool.blocks d m in
      let same = allocate_blocks-store d env.unparse pool.byte_size device_index c pool.blocks m in
      let made =
        allocate_blocks-IsReady d h env.unparse pool.byte_size device_index c pool.publisher_pid
          pool.blocks m t.mapped in
      elim (Bool-cases allocated.0.1) [
        | inl g ↦
            rw (g, finish, ◌>>=◌)
              (λ done.
                let blocks = made g in
                record {
                  initialised = refl;
                  from_start = refl;
                  same_size = e;
                  same_device = f;
                  same_pid = refl;
                  ready =
                      subst (λ s. All (IsReady pool.publisher_pid s) allocated.0.0) (sym same)
                        blocks.0;
                  consecutive = subst (Consecutive env.next_id) (sym blocks.1) t.consecutive;
                  all_blocks =
                      sym (length_ids allocated.0.0) ∙ ap length blocks.1 ∙ length_ids pool.blocks;
                })
        | inr g ↦ rw (g, finish, ◌>>=◌) (λ done. ground (arith, done))
      ]

  prepare_ready :
      (byte_size device_index : ℕ) (pool : GpuBufferPool) (c : CudaDeviceContext) (m : Machine)
      → let result = prepare env byte_size device_index pool c d m in
        result.0.1 ≡ true
        → PoolReady pool.publisher_pid pool.block_count env.next_id byte_size device_index
            result.1.store result.0.0
  unfolding prepare fail
  prepare_ready byte_size device_index pool c m =
      let dropped = drop_context pool.context d m in
      let numbered =
        number_blocks env.object_at pool.publisher_pid env.next_id []
          (empty_blocks pool.block_count) d dropped.1 in
      let none_yet : Numbered pool.publisher_pid env.next_id dropped.1.store [] = record {
        consecutive = tt;
        mapped = tt;
      } in
      let metas =
        number_blocks-Numbered d env.object_at pool.publisher_pid env.next_id env.next_id []
          pool.block_count dropped.1 none_yet (ground arith) in
      let held = record pool {
        context = some c;
        byte_size = byte_size;
        device_index = some device_index;
        blocks = numbered.0.0;
      } in
      elim (Bool-cases numbered.0.1) [
        | inl g ↦
            let finished =
              finish_ready c byte_size device_index numbered.0.2 held numbered.1 (metas g).0 refl
                refl in
            rw (g, prepare, ◌>>=◌, ◌>>◌)
              (λ done.
                let result = finish env c device_index numbered.0.2 held d numbered.1 in
                renamed pool.publisher_pid pool.publisher_pid (length numbered.0.0) pool.block_count
                  env.next_id byte_size device_index result.1.store result.0.0 refl
                  (ground (arith, (metas g).1)) (finished done))
        | inr g ↦ rw (g, prepare, ◌>>=◌, ◌>>◌) (λ done. ground (arith, done))
      ]

  clear_same :
      (pool : GpuBufferPool) (m : Machine)
      → ((clear_first pool d m).0.publisher_pid ≡ pool.publisher_pid)
        × ((clear_first pool d m).0.block_count ≡ pool.block_count)
  unfolding clear_first destroy_blocks emptied
  clear_same pool m = ground arith

  initialise_ready :
      (byte_size device_index : ℕ) (pool : GpuBufferPool) (m : Machine)
      → let result = initialise env byte_size device_index pool d m in
        result.0.1 ≡ true
        → PoolReady pool.publisher_pid pool.block_count env.next_id byte_size device_index
            result.1.store result.0.0
          × (pool.block_count ≢ 0)
  unfolding initialise
  initialise_ready byte_size device_index pool m =
      let clean = clear_first pool d m in
      let same = clear_same pool m in
      let swept = cleanup_orphaned env.scan env.entries d clean.1 in
      let retained = retain_primary device_index d swept.1 in
      elim (Bool-cases (pool.block_count == 0 || ltb u32_max pool.block_count || byte_size == 0)) [
        | inl e ↦ rw (e, initialise) (λ done. ground (arith, done))
        | inr e ↦ elim (CudaResult-cases retained.0) [
          | inl (c, f) ↦
              let prepared = prepare_ready byte_size device_index clean.0 c retained.1 in
              let result = prepare env byte_size device_index clean.0 c d retained.1 in
              rw (e, initialise, ◌>>=◌, ◌>>◌, f)
                (λ done. (
                  renamed clean.0.publisher_pid pool.publisher_pid clean.0.block_count
                      pool.block_count env.next_id byte_size device_index result.1.store result.0.0
                      same.0 same.1 (prepared done),
                  ground (arith, e),
                ))
          | inr (c, f) ↦ rw (e, initialise, ◌>>=◌, ◌>>◌, f) (λ done. ground (arith, done))
        ]
      ]

-- The reservation of the first block.
abbrev pub Reserves : GpuBufferPool → ℕ → ℕ → Option BlockReservation → Type 0
Reserves pool pid id none = ⊥
Reserves pool pid id (some r) = (r.block_id ≡ id) × (r.publisher_pid ≡ pid) × (r.pool_index ≡ 0)

List-cases :
    (xs : List GpuBufferBlock)
    → (xs ≡ []) ⊎ ((b : GpuBufferBlock) × (rest : List GpuBufferBlock) × (xs ≡ b ∷ rest))
List-cases [] = inl refl
List-cases (b ∷ rest) = inr (b, rest, refl)

first_index : (k : ℕ) → (0 + 0) % suc k ≡ 0
first_index k = ground arith

scan_first :
    (pid first : ℕ) (s : Store) (pool : GpuBufferPool) (clock : ℕ → ℕ) (b : GpuBufferBlock)
    (rest : List GpuBufferBlock) (x : Option Mapping)
    → pool.initialised ≡ true
    → pool.publisher_pid ≡ pid
    → pool.next_block ≡ 0
    → pool.blocks ≡ b ∷ rest
    → b.block_id ≡ first
    → b.shared_metadata ≡ x
    → Mapped (shm_name_for_block pid b.block_id) s x
    → Reserves pool pid first (reserve_for_publish true clock s pool).2
unfolding reserve_for_publish scan try_block Ref.reserve_for_publish
scan_first pid first s pool clock b rest none i p n e f g t = absurd t
scan_first pid first s pool clock b rest (some x) i p n e f g t =
    rw
      (
        i,
        e,
        scan,
        n,
        first_index (length rest),
        try_block,
        g,
        Ref.reserve_for_publish,
        t.1 (clock 0),
      )
      (ground (arith, f, p, n, first_index (length rest)))

first_reserved :
    (pid count first byte_size device_index : ℕ) (s : Store) (pool : GpuBufferPool) (clock : ℕ → ℕ)
    → PoolReady pid count first byte_size device_index s pool
    → count ≢ 0
    → Reserves pool pid first (reserve_for_publish true clock s pool).2
first_reserved pid count first byte_size device_index s pool clock r n =
    elim (List-cases pool.blocks) [
      | inl e ↦ absurd (n (sym r.all_blocks ∙ ap length e))
      | inr (b, rest, e) ↦
          let one = subst (All (IsReady pid s)) e r.ready in
          let ids = subst (λ bs. Consecutive first (ids_of bs)) e r.consecutive in
          scan_first pid first s pool clock b rest b.shared_metadata r.initialised r.same_pid
            r.from_start e ids.0 refl one.0.0.1
    ]

-- When a set-up returns true, the pool has as many blocks as it was made for, with consecutive ids,
-- each with free metadata under its name, with memory that a server hands out at the path that the
-- block announces, and with an event; and the next reservation, at any time, gets the first block.
pub initialise-PoolReady :
    (d : Driver) (h : HandsBack d) (env : Environment) (byte_size device_index : ℕ)
    (pool : GpuBufferPool) (m : Machine) (clock : ℕ → ℕ)
    → (initialise env byte_size device_index pool d m).0.1 ≡ true
    → let result = initialise env byte_size device_index pool d m in
      PoolReady pool.publisher_pid pool.block_count env.next_id byte_size device_index
        result.1.store result.0.0
      × Reserves result.0.0 pool.publisher_pid env.next_id
          (reserve_for_publish true clock result.1.store result.0.0).2
initialise-PoolReady d h env byte_size device_index pool m clock done =
    let result = initialise env byte_size device_index pool d m in
    let ready = initialise_ready d h env byte_size device_index pool m done in
    (
      ready.0,
      first_reserved pool.publisher_pid pool.block_count env.next_id byte_size device_index
          result.1.store result.0.0 clock ready.0 ready.1,
    )
