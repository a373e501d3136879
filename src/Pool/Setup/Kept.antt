-- ===== src/Pool/Setup/Kept.antt =====
-- What `initialise` of gpu_buffer_pool.cpp takes and keeps.
use ros2_cuda_ipc.Base.{
  ℕ, zero, suc, ◌+◌, ◌≤◌, ◌≡◌, refl, subst, ◌≢◌, inl, inr, true, Option, none, some, List, [], ◌∷◌,
  ◌++◌, arith, total, Option-cases,
}
use ros2_cuda_ipc.Metadata.{Mapping}
use ros2_cuda_ipc.Metadata.Object.{create, shm_name_for_block}
use ros2_cuda_ipc.Metadata.Object.Created.{if_some, of_create, create-Created}
use ros2_cuda_ipc.Cuda.{shm_create, ftruncate, mmap, shm_unlink, Driver, Log, Machine, ◌>>=◌, is_ok}
use ros2_cuda_ipc.Cuda.Balance.{Resource, current, taken, given}
use ros2_cuda_ipc.Backend.{GpuBufferBlock, empty_block}
use ros2_cuda_ipc.Backend.Laws.{HandsBack, block_holds, after, total_append}
use ros2_cuda_ipc.Pool.Setup.{
  block_metadata, create_or_replace, replace_object, empty_blocks, number_blocks, with_metadata,
  allocate_process_block_id,
}
use ros2_cuda_ipc.Pool.Teardown.{cleanup_orphaned, clean_entry}
use ros2_cuda_ipc.Pool.Setup.Laws.{metadata_holds, meta_holds}
use Prim.Native.String.{String}

-- `HandsBack`, and no file is mapped at the null address.
abbrev pub HandsOut : Driver → Type 0
HandsOut d =
    HandsBack d
    × ((log : Log) (fd : ℕ) → is_ok (d log (mmap fd)) ≡ true → (d log (mmap fd)).value ≢ 0)

-- No more than `n` resources of the kind were taken and kept, with `k` of those that were held given
-- back.
abbrev pub Leaves : ℕ → ℕ → Resource → Log → Log → Type 0
Leaves n k r before after = taken r after + given r before + k ≤ taken r before + given r after + n

with_metadata_holds :
    (r : Resource) (b : GpuBufferBlock) (id : ℕ) (m : Mapping)
    → (meta_holds r (with_metadata b id m) ≡ metadata_holds r (some m))
      × (block_holds r (with_metadata b id m) ≡ block_holds r b)
unfolding with_metadata
with_metadata_holds r b id m = (refl, refl)

empty_holds :
    (r : Resource) (n : ℕ)
    → (total (meta_holds r) (empty_blocks n) ≡ 0) × (total (block_holds r) (empty_blocks n) ≡ 0)
unfolding empty_blocks
empty_holds r zero = (refl, refl)
empty_holds r (suc n) = ground (arith, empty_holds r n)

module _ (d : Driver) where
  pub cleanup-Leaves :
      (scan : String → Option (ℕ × ℕ)) (entries : List String) (m : Machine) (r : Resource)
      → Leaves 0 0 r m.log (cleanup_orphaned scan entries d m).1.log
  unfolding cleanup_orphaned clean_entry
  cleanup-Leaves scan [] m r = ground arith
  cleanup-Leaves scan (name ∷ names) m current =
      ground (arith, cleanup-Leaves scan names (clean_entry scan name d m).1 current)
  cleanup-Leaves scan (name ∷ names) m r =
      ground (arith, cleanup-Leaves scan names (clean_entry scan name d m).1 r)

  module _ (h : HandsOut d) (object_at : ℕ → ℕ) where
    create_holds :
        (name : String) (m : Machine) (r : Resource)
        → let result = create object_at name d m in
          of_create r (if_some result.0) ≤ metadata_holds r result.0
    unfolding create
    create_holds name m r =
        let made = after (shm_create name) d m in
        let fd = (d m.log (shm_create name)).value in
        let sized = after (ftruncate fd) d made in let mapped = h.1 sized.log fd in ground arith

    create-Leaves :
        (name : String) (m : Machine) (r : Resource)
        → let result = create object_at name d m in
          Leaves (metadata_holds r result.0) 0 r m.log result.1.log
    create-Leaves name m r =
        let kept = (create-Created object_at name d m r).0 in
        ground (arith, kept, create_holds name m r)

    create_or_replace-Leaves :
        (name : String) (first : Option Mapping) (m : Machine) (r : Resource)
        → let result = create_or_replace object_at name first d m in
          Leaves (metadata_holds r result.0) (metadata_holds r first) r m.log result.1.log
    unfolding create_or_replace replace_object
    create_or_replace-Leaves name (some old) m r = ground arith
    create_or_replace-Leaves name none m current =
        ground (arith, create-Leaves name (after (shm_unlink name) d m) current)
    create_or_replace-Leaves name none m r =
        ground (arith, create-Leaves name (after (shm_unlink name) d m) r)

    block_metadata-Leaves :
        (name : String) (m : Machine) (r : Resource)
        → let result = block_metadata object_at name d m in
          Leaves (metadata_holds r result.0) 0 r m.log result.1.log
    unfolding block_metadata
    block_metadata-Leaves name m r =
        let created = create object_at name d m in
        ground (arith, create-Leaves name m r, create_or_replace-Leaves name created.0 created.1 r)

    pub number_blocks-Leaves :
        (pid next : ℕ) (before : List GpuBufferBlock) (n : ℕ) (m : Machine) (r : Resource)
        → let result = number_blocks object_at pid next before (empty_blocks n) d m in
          Leaves
            (total (meta_holds r) result.0.0)
            (total (meta_holds r) before)
            r
            m.log
            result.1.log
          × (total (block_holds r) result.0.0 ≡ total (block_holds r) before)
    unfolding number_blocks empty_blocks
    number_blocks-Leaves pid next before zero m r = ground arith
    number_blocks-Leaves pid next before (suc n) m r =
        let numbered = allocate_process_block_id next in
        let all = empty_block ∷ empty_blocks n in
        let metas = total_append (meta_holds r) before all in
        let helds = total_append (block_holds r) before all in
        let nothing = empty_holds r n in
        elim (Option-cases numbered.1) [
          | inl e ↦ rw (e, number_blocks, ◌>>=◌) (ground (arith, metas, helds, nothing))
          | inr (id, e) ↦
              let made = block_metadata object_at (shm_name_for_block pid id) d m in
              let kept = block_metadata-Leaves (shm_name_for_block pid id) m r in
              elim (Option-cases made.0) [
                | inl f ↦
                    let kept' =
                      subst (λ x. Leaves (metadata_holds r x) 0 r m.log made.1.log) f kept in
                    rw (e, number_blocks, ◌>>=◌, f) (ground (arith, metas, helds, nothing, kept'))
                | inr (x, f) ↦
                    let kept' =
                      subst (λ x. Leaves (metadata_holds r x) 0 r m.log made.1.log) f kept in
                    let one = with_metadata empty_block id x in
                    let ih = number_blocks-Leaves pid numbered.0 (before ++ one ∷ []) n made.1 r in
                    let metas' = total_append (meta_holds r) before (one ∷ []) in
                    let helds' = total_append (block_holds r) before (one ∷ []) in
                    let new = with_metadata_holds r empty_block id x in
                    rw (e, number_blocks, ◌>>=◌, f) (ground (arith, metas', helds', new, kept', ih))
              ]
        ]
