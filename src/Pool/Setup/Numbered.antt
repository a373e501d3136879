-- ===== src/Pool/Setup/Numbered.antt =====
-- The ids and the metadata that `initialise` of gpu_buffer_pool.cpp gives to its blocks.
use ros2_cuda_ipc.Base.{
  ◌||◌, ltb, ℕ, zero, suc, ◌+◌, ◌≡◌, refl, sym, subst, ◌∙◌, ◌≢◌, inl, inr, true, Option, none, some,
  List, [], ◌∷◌, ◌++◌, map, arith, ◌==◌, length, All, Bool-cases, Option-cases, ==_iff,
}
use ros2_cuda_ipc.Metadata.{BlockMetadata, Mapping, Store}
use ros2_cuda_ipc.Metadata.Ref.{reserve_block}
use ros2_cuda_ipc.Metadata.Reserve.{reserved}
use ros2_cuda_ipc.Metadata.Object.{create, shm_name_for_block}
use ros2_cuda_ipc.Metadata.Object.Created.{Created, create_store}
use ros2_cuda_ipc.Cuda.{is_ok, shm_unlink, Driver, Machine, ◌>>=◌}
use ros2_cuda_ipc.Backend.{GpuBufferBlock, empty_block}
use ros2_cuda_ipc.Backend.Laws.{after}
use ros2_cuda_ipc.Pool.Setup.{
  no_entry, file_exists, name_max, errno, block_metadata, create_or_replace, replace_object,
  number_blocks, empty_blocks, with_metadata, allocate_process_block_id,
}
use Prim.Native.String.{String, len}

-- Any publisher can reserve the block, at any time.
abbrev pub Reservable : BlockMetadata → Type 0
Reservable b = (now : ℕ) → reserve_block now b ≡ (reserved (b.uid + 1), some (b.uid + 1))

-- A mapping of the object that is named for the block, which is free.
abbrev pub Mapped : String → Store → Option Mapping → Type 0
Mapped name s none = ⊥
Mapped name s (some m) = (m.shm_name ≡ name) × Reservable (s m.block)

abbrev pub HasMetadata : ℕ → Store → GpuBufferBlock → Type 0
HasMetadata pid s b = Mapped (shm_name_for_block pid b.block_id) s b.shared_metadata

-- The ids are consecutive, and so different from each other.
abbrev pub Consecutive : ℕ → List ℕ → Type 0
Consecutive first [] = Unit {0}
Consecutive first (id ∷ ids) = (id ≡ first) × Consecutive (first + 1) ids

abbrev pub ids_of : List GpuBufferBlock → List ℕ
ids_of blocks = map (λ b. b.block_id) blocks

-- After an attempt to make an object for a block: with one, only it has changed.
abbrev Made : String → Option Mapping → Store → Store → Type 0
Made name none before after = (i : ℕ) → after i ≡ before i
Made name (some m) before after =
    (m.shm_name ≡ name) × ((i : ℕ) → i ≢ m.block → after i ≡ before i) × Reservable (after m.block)

Made-twice :
    (name : String) (o : Option Mapping) (s s' s'' : Store)
    → Made name none s s'
    → Made name o s' s''
    → Made name o s s''
Made-twice name none s s' s'' a b = λ i. b i ∙ a i
Made-twice name (some x) s s' s'' a b = (b.0, λ i n. b.1 i n ∙ a i, b.2)

module _ (d : Driver) (object_at : ℕ → ℕ) (name : String) where
  create_named :
      (m : Machine) → (x : Mapping) → (create object_at name d m).0 ≡ some x → x.shm_name ≡ name
  unfolding create
  create_named m x e = ground arith

  create-Made :
      (m : Machine)
      → let result = create object_at name d m in Made name result.0 m.store result.1.store
  create-Made m =
      let result = create object_at name d m in
      of_created result.0 result.1.store (create_named m) (create_store object_at name d m)
    where
      of_created :
          (o : Option Mapping) (s : Store)
          → ((x : Mapping) → o ≡ some x → x.shm_name ≡ name)
          → Created o m.store s
          → Made name o m.store s
      of_created none s n c = c
      of_created (some x) s n c = (n x refl, c.0, c.2)

  replace-Made :
      (m : Machine)
      → let result = replace_object object_at name d m in Made name result.0 m.store result.1.store
  unfolding replace_object
  replace-Made m =
      let unlinked = d m.log (shm_unlink name) in
      elim (Bool-cases (is_ok unlinked || unlinked.code == no_entry)) [
        | inl e ↦ rw (e, replace_object, ◌>>=◌) (create-Made (after (shm_unlink name) d m))
        | inr e ↦ rw (e, replace_object, ◌>>=◌) (λ i. refl)
      ]

  create_or_replace-Made :
      (first : Option Mapping) (s : Store) (m : Machine)
      → Made name first s m.store
      → let result = create_or_replace object_at name first d m in
        Made name result.0 s result.1.store
  unfolding create_or_replace
  create_or_replace-Made (some x) s m made = made
  create_or_replace-Made none s m made = elim (Bool-cases (errno m.log == file_exists)) [
    | inl e ↦
        let result = replace_object object_at name d m in
        rw (e, create_or_replace)
          (Made-twice name result.0 s m.store result.1.store made (replace-Made m))
    | inr e ↦ rw (e, create_or_replace) made
  ]

  block_metadata-Made :
      (m : Machine)
      → let result = block_metadata object_at name d m in Made name result.0 m.store result.1.store
  unfolding block_metadata
  block_metadata-Made m =
      let created = create object_at name d m in
      elim (Bool-cases (ltb name_max (len name))) [
        | inl e ↦ rw (e, block_metadata) (λ i. refl)
        | inr e ↦
            rw (e, block_metadata)
              (create_or_replace-Made created.0 m.store created.1 (create-Made m))
      ]

-- A block that is free stays free when an object is made.
Made-Mapped :
    (name name' : String) (x : Mapping) (s s' : Store) (o : Option Mapping)
    → Made name' (some x) s s'
    → Mapped name s o
    → Mapped name s' o
Made-Mapped name name' x s s' none made held = absurd held
Made-Mapped name name' x s s' (some m) made held = (
  held.0,
  elim (Bool-cases (m.block == x.block)) [
    | inl e ↦ subst (λ i. Reservable (s' i)) (sym ((==_iff m.block x.block).0 e)) made.2
    | inr e ↦ subst Reservable (sym (made.1 m.block (ground (arith, e)))) held.1
  ],
)

Made-All :
    (pid : ℕ) (name : String) (x : Mapping) (s s' : Store) (blocks : List GpuBufferBlock)
    → Made name (some x) s s'
    → All (HasMetadata pid s) blocks
    → All (HasMetadata pid s') blocks
Made-All pid name x s s' [] made held = tt
Made-All pid name x s s' (b ∷ bs) made held = (
  Made-Mapped (shm_name_for_block pid b.block_id) name x s s' b.shared_metadata made held.0,
  Made-All pid name x s s' bs made held.1,
)

All-snoc :
    (P : GpuBufferBlock → Type 0) (xs : List GpuBufferBlock) (b : GpuBufferBlock)
    → All P xs
    → P b
    → All P (xs ++ b ∷ [])
All-snoc P [] b all one = (one, tt)
All-snoc P (x ∷ xs) b all one = (all.0, All-snoc P xs b all.1 one)

Consecutive-snoc :
    (first : ℕ) (xs : List GpuBufferBlock) (b : GpuBufferBlock)
    → Consecutive first (ids_of xs)
    → b.block_id ≡ first + length xs
    → Consecutive first (ids_of (xs ++ b ∷ []))
Consecutive-snoc first [] b c e = (ground (arith, e), tt)
Consecutive-snoc first (x ∷ xs) b c e =
    (c.0, Consecutive-snoc (first + 1) xs b c.1 (ground (arith, e)))

length-snoc :
    (xs : List GpuBufferBlock) (b : GpuBufferBlock) → length (xs ++ b ∷ []) ≡ length xs + 1
length-snoc [] b = refl
length-snoc (x ∷ xs) b = ground (arith, length-snoc xs b)

-- The blocks that are numbered from `first` on.
pub record Numbered (pid first : ℕ) (s : Store) (blocks : List GpuBufferBlock) : Type 0 where
  pub consecutive : Consecutive first (ids_of blocks)
  pub mapped : All (HasMetadata pid s) blocks

allocate_next :
    (next id : ℕ)
    → (allocate_process_block_id next).1 ≡ some id
    → (id ≡ next) × ((allocate_process_block_id next).0 ≡ next + 1)
unfolding allocate_process_block_id
allocate_next next id e = ground arith

module _ (d : Driver) (object_at : ℕ → ℕ) (pid first : ℕ) where
  Numbered-snoc :
      (before : List GpuBufferBlock) (next : ℕ) (x : Mapping) (s s' : Store)
      → Numbered pid first s before
      → next ≡ first + length before
      → Made (shm_name_for_block pid next) (some x) s s'
      → Numbered pid first s' (before ++ with_metadata empty_block next x ∷ [])
  unfolding with_metadata
  Numbered-snoc before next x s s' t e made =
      let one = with_metadata empty_block next x in
      record {
        consecutive = Consecutive-snoc first before one t.consecutive e;
        mapped =
            All-snoc (HasMetadata pid s') before one
              (Made-All pid (shm_name_for_block pid next) x s s' before made t.mapped)
              (made.0, made.2);
      }

  pub number_blocks-Numbered :
      (next : ℕ) (before : List GpuBufferBlock) (n : ℕ) (m : Machine)
      → Numbered pid first m.store before
      → next ≡ first + length before
      → let result = number_blocks object_at pid next before (empty_blocks n) d m in
        result.0.1 ≡ true
        → Numbered pid first result.1.store result.0.0 × (length result.0.0 ≡ length before + n)
  unfolding number_blocks empty_blocks
  number_blocks-Numbered next before zero m t e = λ done. (t, ground arith)
  number_blocks-Numbered next before (suc n) m t e =
      let numbered = allocate_process_block_id next in
      elim (Option-cases numbered.1) [
        | inl f ↦ rw (f, number_blocks) (λ done. ground (arith, done))
        | inr (id, f) ↦
            let name = shm_name_for_block pid id in
            let made = block_metadata object_at name d m in
            let ids = allocate_next next id f in
            elim (Option-cases made.0) [
              | inl g ↦ rw (f, number_blocks, ◌>>=◌, g) (λ done. ground (arith, done))
              | inr (x, g) ↦
                  let made' =
                    subst (λ o. Made name o m.store made.1.store) g
                      (block_metadata-Made d object_at name m) in
                  let one = with_metadata empty_block id x in
                  let grown = Numbered-snoc before id x m.store made.1.store t (ids.0 ∙ e) made' in
                  let longer = length-snoc before one in
                  let ih =
                    number_blocks-Numbered numbered.0 (before ++ one ∷ []) n made.1 grown
                      (ground (arith, e, ids, longer)) in
                  rw (f, number_blocks, ◌>>=◌, g)
                    (λ done. ((ih done).0, ground (arith, (ih done).1, longer)))
            ]
      ]
