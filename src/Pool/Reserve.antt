-- ===== src/Pool/Reserve.antt =====
-- The round-robin search of `GpuBufferPool::reserve_for_publish`.
use ros2_cuda_ipc.Base.{
  ℕ, zero, suc, ◌+◌, ◌%◌, ◌≤◌, ◌<◌, ◌≡◌, refl, ◌≢◌, ◌⊎◌, inl, inr, true, Option, none, some, arith,
  u64_max, length, get_elem?, Option-cases, ◌==◌, ap, sym, subst, Bool-cases, ==_iff,
}
use ros2_cuda_ipc.Metadata.{Mapping, Store, write}
use ros2_cuda_ipc.Metadata.Ref.{reserve_block, PublisherReservation}
use ros2_cuda_ipc.Metadata.Ref
use ros2_cuda_ipc.Metadata.Reserve.{Reusable, reserved, reserve_block-Reusable}
use ros2_cuda_ipc.Backend.{GpuBufferBlock}
use ros2_cuda_ipc.Pool.{
  BlockReservation, GpuBufferPool, reservation_of, try_block, scan, reserve_for_publish,
}
use mathlib.Core.Path.{fun_ext}

-- Can this block be handed out at that time?
abbrev pub IsFree : ℕ → Store → Option Mapping → Type 0
IsFree now s none = ⊥
IsFree now s (some m) = Reusable now (s m.block) × ((s m.block).uid ≢ u64_max)

pub write_self : (s : Store) (i : ℕ) → write s i (s i) ≡ s
write_self s i =
    fun_ext
      λ j. elim (Bool-cases (i == j)) [ inl e ↦ rw e (ap s ((==_iff i j).0 e)) | inr e ↦ rw e ]

-- One round: a block that is free is reserved, and any other changes nothing.
abbrev pub Tried : ℕ → Store → GpuBufferPool → ℕ → GpuBufferBlock → Type 0
Tried now s pool index block =
    ((m : Mapping) × (block.shared_metadata ≡ some m)
      × IsFree now s (some m)
      × (try_block now s pool index block ≡ (
        write s m.block (reserved ((s m.block).uid + 1)),
        some (reservation_of pool index block (record { mapping = m; uid = (s m.block).uid + 1 })),
      )))
    ⊎ ((¬ IsFree now s block.shared_metadata) × (try_block now s pool index block ≡ (s, none)))

try_block_lem :
    (now : ℕ) (s : Store) (pool : GpuBufferPool) (index : ℕ) (block : GpuBufferBlock)
    → Tried now s pool index block
unfolding try_block Ref.reserve_for_publish
try_block_lem now s pool index block = elim (Option-cases block.shared_metadata) [
  | inl e ↦ inr (rw e (λ x. x), rw (e, Ref.reserve_for_publish))
  | inr (m, e) ↦ elim (reserve_block-Reusable now (s m.block)) [
    | inl (f, u, eq) ↦ inl (m, e, (f, u), rw (e, eq, Ref.reserve_for_publish))
    | inr (f, eq) ↦ inr (rw e f, rw (e, eq, Ref.reserve_for_publish) (rw (write_self s m.block)))
  ]
]

module _ (clock : ℕ → ℕ) (s : Store) (pool : GpuBufferPool) where
  abbrev pub nth : ℕ → ℕ
  nth i = (pool.next_block + i) % length pool.blocks

  -- In the rounds from `first` up to `last`, each at its own time, no block is free.
  abbrev pub Busy : ℕ → ℕ → Type 0
  Busy first last =
      (i : ℕ)
      → first ≤ i
      → i < last
      → (b : GpuBufferBlock) → get_elem? pool.blocks (nth i) ≡ some b
      → ¬ IsFree (clock i) s b.shared_metadata

  -- The search stops in round `j` at the block `b`.
  pub record Picked (first last j : ℕ) (b : GpuBufferBlock) (m : Mapping)
      (result : Store × GpuBufferPool × Option BlockReservation) : Type 0 where
    pub from : first ≤ j
    pub below : j < last
    pub here : get_elem? pool.blocks (nth j) ≡ some b
    pub mapped : b.shared_metadata ≡ some m
    pub free : IsFree (clock j) s (some m)
    pub skipped : Busy first j
    pub outcome : result ≡ (
      write s m.block (reserved ((s m.block).uid + 1)),
      record pool { next_block = (nth j + 1) % length pool.blocks },
      some (reservation_of pool (nth j) b (record { mapping = m; uid = (s m.block).uid + 1 })),
    )

  abbrev pub Searched : ℕ → ℕ → Store × GpuBufferPool × Option BlockReservation → Type 0
  Searched first last result =
      ((j : ℕ) × (b : GpuBufferBlock) × (m : Mapping) × Picked first last j b m result)
      ⊎ (Busy first last × (result ≡ (s, pool, none)))

  Busy-none : (first last : ℕ) → last ≤ first → Busy first last
  Busy-none first last h i p q = absurd (omega arith)

  -- A round that fails extends the busy part at its front.
  Busy-cons :
      (first last : ℕ)
      → ((b : GpuBufferBlock)
          → get_elem? pool.blocks (nth first) ≡ some b
          → ¬ IsFree (clock first) s b.shared_metadata)
      → Busy (first + 1) last
      → Busy first last
  Busy-cons first last now later i p q b e = elim (Bool-cases (i == first)) [
    | inl same ↦
        let eq : first ≡ i = ground arith in
        subst
          (λ k. (get_elem? pool.blocks (nth k) ≡ some b) → ¬ IsFree (clock k) s b.shared_metadata)
          eq (now b) e
    | inr other ↦ later i (ground arith) q b e
  ]

  Searched-cons :
      (first last : ℕ) (result : Store × GpuBufferPool × Option BlockReservation)
      → ((b : GpuBufferBlock)
          → get_elem? pool.blocks (nth first) ≡ some b
          → ¬ IsFree (clock first) s b.shared_metadata)
      → Searched (first + 1) last result
      → Searched first last result
  Searched-cons first last result now (inl (j, b, m, p)) = inl (
    j,
    b,
    m,
    record {
      from = omega (arith, p.from);
      below = p.below;
      here = p.here;
      mapped = p.mapped;
      free = p.free;
      skipped = Busy-cons first j now p.skipped;
      outcome = p.outcome;
    },
  )
  Searched-cons first last result now (inr (busy, e)) = inr (Busy-cons first last now busy, e)

  scan-Searched :
      (k first last : ℕ) → first + k ≡ last → Searched first last (scan clock k first s pool)
  unfolding scan
  scan-Searched zero first last e = inr (Busy-none first last (omega arith), refl)
  scan-Searched (suc k) first last e =
      let later = scan-Searched k (first + 1) last (omega arith) in
      elim (Option-cases (get_elem? pool.blocks (nth first))) [
        | inl out ↦ rw (out, scan) (Searched-cons first last _ (λ b h. cc) later)
        | inr (b, here) ↦ elim (try_block_lem (clock first) s pool (nth first) b) [
          | inl (m, mapped, free, done) ↦ inl (
            first,
            b,
            m,
            record {
              from = omega arith;
              below = omega arith;
              here = here;
              mapped = mapped;
              free = free;
              skipped = Busy-none first first (omega arith);
              outcome = ground (arith, here, done);
            },
          )
          | inr (taken, same) ↦
              let skip : scan clock (suc k) first s pool ≡ scan clock k (first + 1) s pool =
                ground (arith, here, same) in
              subst (Searched first last) (sym skip) (
                Searched-cons first last _
                  (λ c h. let same_block : c ≡ b = ground (arith, here, h) in rw same_block taken)
                  later)
        ]
      ]

  -- A pool that is set up is searched from `next_block` on, once around. The first block that is free
  -- when its turn comes is reserved under its next generation, the search continues behind it next
  -- time, and no other block is touched; if none is free, nothing changes.
  pub reserve_for_publish-Searched :
      pool.initialised ≡ true
      → Searched 0 (length pool.blocks) (reserve_for_publish true clock s pool)
  unfolding reserve_for_publish
  reserve_for_publish-Searched up = elim (Bool-cases (length pool.blocks == 0)) [
    | inl empty ↦ inr (Busy-none 0 (length pool.blocks) (ground arith), ground arith)
    | inr some_block ↦
        let all : reserve_for_publish true clock s pool ≡ scan clock (length pool.blocks) 0 s pool =
          ground arith in
        subst (Searched 0 (length pool.blocks)) (sym all)
          (scan-Searched (length pool.blocks) 0 (length pool.blocks) (omega arith))
  ]
