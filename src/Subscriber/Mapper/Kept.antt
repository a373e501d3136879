-- ===== src/Subscriber/Mapper/Kept.antt =====
-- `map_descriptor` of buffer_mapper.cpp holds one reference if it succeeds, and none if it fails.
use ros2_cuda_ipc.Base.{
  ap, ℕ, ◌≤◌, ◌≡◌, refl, ◌∙◌, subst, ◌⊎◌, inl, inr, true, false, Option, none, some, arith, ◌==◌,
  u32_max, Bool-cases, Option-cases, ==_iff,
}
use ros2_cuda_ipc.Metadata.{BlockMetadata, Mapping, Store, write}
use ros2_cuda_ipc.Metadata.Ref.{BufferRef, acquire, release, acquire_block, release_block}
use ros2_cuda_ipc.Metadata.Ref
use ros2_cuda_ipc.Metadata.Lifecycle.{counted, acquire_block_lem, release_block-acquire_block}
use ros2_cuda_ipc.Cuda.{Driver, Machine}
use ros2_cuda_ipc.Transport.{BufferCore}
use ros2_cuda_ipc.Importer.{ImportedResources, import_resources, release_imported_resources}
use ros2_cuda_ipc.Importer.Memory.{import_resources-store, release_imported_resources-store}
use ros2_cuda_ipc.Pool.Reserve.{write_self}
use ros2_cuda_ipc.Subscriber.MetadataCache.{Cache, get_or_attach}
use ros2_cuda_ipc.Subscriber.HandleCache.{
  IpcHandleKey, HandleCache, find, keep_first, insert_or_discard_duplicate,
}
use ros2_cuda_ipc.Subscriber.ReadHandle.{MappedPublication, drop_ref, make_publication, has_ptr}
use ros2_cuda_ipc.Subscriber.Mapper.{
  publish, keep_import, map_found, map_acquired, map_mapping, map_descriptor, key_of,
}
use mathlib.Core.Path.{fun_ext}

-- A second write hides the first, and writing back what was there undoes it.
write_back : (s : Store) (i : ℕ) (b c : BlockMetadata) → c ≡ s i → write (write s i b) i c ≡ s
write_back s i b c h = fun_ext λ j. elim (Bool-cases (i == j)) [
  | inl e ↦ rw e (h ∙ ap s ((==_iff i j).0 e))
  | inr e ↦ rw e refl
]

-- Releasing what `acquire` returned restores the memory, whether the reference is valid or not.
release-acquire :
    (spurious : ℕ) (s : Store) (mapping : Option Mapping) (uid : ℕ)
    → ((i : ℕ) → (s i).refcount ≤ u32_max)
    → let (s', ref) = acquire spurious s mapping uid in
      ((release s' ref).0 ≡ s)
      × (Ref.valid ref ≡ false → s' ≡ s)
      × (Ref.valid ref ≡ true → ref.uid ≡ uid)
unfolding acquire release Ref.valid
release-acquire spurious s none uid small = (refl, (λ _. refl), λ e. absurd (ground (arith, e)))
release-acquire spurious s (some m) uid small =
    let restored = release_block-acquire_block spurious uid 0 (s m.block) (small m.block) in
    elim (acquire_block_lem spurious uid (s m.block) (small m.block)) [
      | inl (same, room, e) ↦
          let i : ℕ = m.block in
          let look : write s i (counted (s i)) i ≡ counted (s i) = ground arith in
          let back : release_block (counted (s i)) ≡ s i = ground (arith, e, restored) in
          rw e (
            write_back s i (counted (s i)) (release_block (write s i (counted (s i)) i))
                (rw look back),
            (λ f. absurd (ground (arith, f))),
            λ _. refl,
          )
      | inr (_, e) ↦
          rw e (write_self s m.block, (λ _. write_self s m.block), λ f. absurd (ground (arith, f)))
    ]

-- A mapping that ends holds the reference in a publication, or has given it back.
abbrev pub Kept : Store → BufferRef → Option MappedPublication → Store → Type 0
Kept s ref publication s' =
    ((p : MappedPublication) × (publication ≡ some p) × (p.buffer_ref ≡ some ref) × (s' ≡ s))
    ⊎ ((publication ≡ none) × (s' ≡ (release s ref).0))

module _ (msg : BufferCore) (ref : BufferRef) (d : Driver) where
  drop_ref_lem : (m : Machine) → (drop_ref (some ref) d m).1.store ≡ (release m.store ref).0
  unfolding drop_ref
  drop_ref_lem m = refl

  publish-Kept :
      (kept : ImportedResources × HandleCache) (m : Machine)
      → Kept m.store ref (publish msg ref kept d m).0.0 (publish msg ref kept d m).1.store
  unfolding publish make_publication
  publish-Kept (r, l) m = elim (Bool-cases (has_ptr (some r))) [
    | inl e ↦ rw e (inl (_, refl, refl, refl))
    | inr e ↦ rw e (inr (refl, drop_ref_lem m))
  ]

  insert-store :
      (key : IpcHandleKey) (i : ImportedResources) (l : HandleCache) (m : Machine)
      → (insert_or_discard_duplicate release_imported_resources key i l d m).1.store ≡ m.store
  unfolding insert_or_discard_duplicate keep_first
  insert-store key i l m = elim (Option-cases (find key l)) [
    | inl e ↦ rw e refl
    | inr (r, e) ↦ rw e (release_imported_resources-store i d m)
  ]

  keep_import-Kept :
      (l : HandleCache) (opened : Option ImportedResources) (m : Machine)
      → Kept m.store ref
          (keep_import msg ref l opened d m).0.0
          (keep_import msg ref l opened d m).1.store
  unfolding keep_import
  keep_import-Kept l none m = inr (refl, drop_ref_lem m)
  keep_import-Kept l (some i) m =
      let kept = insert_or_discard_duplicate release_imported_resources (key_of msg) i l d m in
      subst
        (λ s.
          Kept s ref (publish msg ref kept.0 d kept.1).0.0
            (publish msg ref kept.0 d kept.1).1.store)
        (insert-store (key_of msg) i l m) (publish-Kept kept.0 kept.1)

  map_found-Kept :
      (others : HandleCache → HandleCache) (l : HandleCache) (found : Option ImportedResources)
      (m : Machine)
      → Kept m.store ref
          (map_found msg ref others l found d m).0.0
          (map_found msg ref others l found d m).1.store
  unfolding map_found
  map_found-Kept others l (some r) m = publish-Kept (r, l) m
  map_found-Kept others l none m =
      let opened = import_resources msg d m in
      subst
        (λ s.
          Kept s ref (keep_import msg ref (others l) opened.0 d opened.1).0.0
            (keep_import msg ref (others l) opened.0 d opened.1).1.store)
        (import_resources-store d msg m) (keep_import-Kept (others l) opened.0 opened.1)

-- Mapping a message holds one reference of its generation, or none.
abbrev pub Mapped : Store → ℕ → Option MappedPublication → Store → Type 0
Mapped s uid publication s' =
    ((p : MappedPublication) × (ref : BufferRef) × (publication ≡ some p)
      × (p.buffer_ref ≡ some ref)
      × (ref.uid ≡ uid)
      × ((release s' ref).0 ≡ s))
    ⊎ ((publication ≡ none) × (s' ≡ s))

map_mapping-Mapped :
    (spurious : ℕ) (msg : BufferCore) (others : HandleCache → HandleCache) (l : HandleCache)
    (mapping : Option Mapping) (d : Driver) (m : Machine)
    → ((i : ℕ) → (m.store i).refcount ≤ u32_max)
    → let result = map_mapping spurious msg others l mapping d m in
      Mapped m.store msg.uid result.0.0 result.1.store
unfolding map_mapping map_acquired
map_mapping-Mapped spurious msg others l mapping d m small =
    let taken = acquire spurious m.store mapping msg.uid in
    let m1 : Machine = record m { store = taken.0 } in
    let (restored, same, uid) = release-acquire spurious m.store mapping msg.uid small in
    elim (Bool-cases (Ref.valid taken.1)) [
      | inr e ↦ rw e (inr (refl, same e))
      | inl e ↦ rw e (elim (map_found-Kept msg taken.1 d others l (find (key_of msg) l) m1) [
        | inl (p, is, held, kept) ↦
            inl (p, taken.1, is, held, uid e, ap (λ s. (release s taken.1).0) kept ∙ restored)
        | inr (is, gone) ↦ inr (is, gone ∙ restored)
      ])
    ]

-- Whatever the driver answers, and whatever other threads do to the caches in between, mapping a message
-- either gives a publication with one reference to the message's generation, which restores the
-- shared blocks when it is released, or gives nothing and leaves every shared block as it was.
pub map_descriptor-Mapped :
    (attach : ℕ → ℕ → Option Mapping) (spurious : ℕ) (msg : BufferCore) (others : Cache → Cache)
    (others' : HandleCache → HandleCache) (cache : Cache) (l : HandleCache) (d : Driver)
    (m : Machine)
    → ((i : ℕ) → (m.store i).refcount ≤ u32_max)
    → let result = map_descriptor attach spurious msg others others' cache l d m in
      Mapped m.store msg.uid result.0.0 result.1.store
unfolding map_descriptor
map_descriptor-Mapped attach spurious msg others others' cache l d m small =
    elim (Bool-cases (msg.publisher_pid == 0)) [
      | inl e ↦ rw e (inr (refl, refl))
      | inr e ↦ rw e (
          map_mapping-Mapped spurious msg others' l
            (get_or_attach attach m.store m.store m.store msg.publisher_pid msg.block_id msg.uid
              others cache).0
            d m small)
    ]
