-- ===== src/Manager/Prepare.antt =====
-- What a preparation of gpu_buffer_manager.cpp does to its block, on every path.
use ros2_cuda_ipc.Base.{
  ap, sym, subst, ◌∙◌, ℕ, ◌≡◌, refl, ◌⊎◌, inl, inr, Bool, true, false, arith, Option-cases,
}
use ros2_cuda_ipc.Metadata.{BlockMetadata, Mapping, Store, write}
use ros2_cuda_ipc.Cuda.{Driver, Machine, CudaResult, success, failure, invalid_handle}
use ros2_cuda_ipc.Cuda.Laws.{CudaResult-cases}
use ros2_cuda_ipc.Transport.{BufferDescriptor}
use ros2_cuda_ipc.Pool.{BlockReservation, GpuBufferPool, record_ready, try_build_descriptor, owns}
use ros2_cuda_ipc.Pool
use ros2_cuda_ipc.Pool.Ownership.{
  Held, Held-commit, record_ready-store, Describes, try_build_descriptor-Describes,
}
use ros2_cuda_ipc.Manager.{
  PublishBlock, Locks, let_go, prepare_publish, describe_and_commit, commit_prepared,
}

-- The block of a committed reservation.
abbrev pub committed : ℕ → BlockReservation → BlockMetadata
committed now r = record { uid = r.uid; refcount = 0; publish_timestamp_us = now }

-- What an attempt with the reservation `r` comes to: either the descriptor of the reservation, with
-- the publisher's reference given up, or an error, with every shared block as it was.
abbrev pub Prepared :
    ℕ
    → GpuBufferPool
    → BlockReservation
    → Mapping
    → Store
    → CudaResult BufferDescriptor
    → Store
    → Type 0
Prepared now pool r m s result s' =
    ((x : BufferDescriptor) × (result ≡ success x)
      × Describes pool r x
      × (s' ≡ write s m.block (committed now r)))
    ⊎ ((e : ℕ) × (result ≡ failure e) × (s' ≡ s))

module _ (now : ℕ) (pool : GpuBufferPool) (p : PublishBlock) (s : Store)
    (h : Held s pool p.reservation) (accepted : owns pool p.reservation ≡ true) where
  abbrev r : BlockReservation
  r = p.reservation

  -- At a machine with the store `s`.
  commit_prepared-Prepared :
      (locked : Bool) (x : BufferDescriptor) (d : Driver) (m : Machine)
      → m.store ≡ s
      → Describes pool r x
      → let result = commit_prepared locked now pool p x d m in
        Prepared now pool r h.mapping s result.0.0 result.1.store × (result.0.1 ≡ let_go p)
  unfolding commit_prepared Pool.commit
  commit_prepared-Prepared false x d m e w = (inr (invalid_handle, refl, e), refl)
  commit_prepared-Prepared true x d m e w =
      let done : Pool.commit true now m.store pool r
          ≡ (write s h.mapping.block (committed now r), true) =
        ap (λ t. Pool.commit true now t pool r) e ∙ Held-commit s pool r h now accepted in
      (inl (x, ground (arith, done), w, ground (arith, done)), refl)

  describe_and_commit-Prepared :
      (locks : Locks) (d : Driver) (m : Machine)
      → m.store ≡ s
      → let result = describe_and_commit locks now pool p d m in
        Prepared now pool r h.mapping s result.0.0 result.1.store × (result.0.1 ≡ let_go p)
  unfolding describe_and_commit
  describe_and_commit-Prepared locks d m e =
      elim (Option-cases (try_build_descriptor locks.describing pool r)) [
        | inl missing ↦ rw (missing, describe_and_commit) (inr (invalid_handle, refl, e), refl)
        | inr (x, built) ↦
            rw (built, describe_and_commit)
              (commit_prepared-Prepared locks.committing x d m e
                (try_build_descriptor-Describes locks.describing s pool r x h built))
      ]

-- The claim of `Prepared`, on a whole result of a preparation.
abbrev Outcome :
    ℕ
    → GpuBufferPool
    → PublishBlock
    → Mapping
    → Store
    → (CudaResult BufferDescriptor × PublishBlock) × Machine
    → Type 0
Outcome now pool p m s z = Prepared now pool p.reservation m s z.0.0 z.1.store × (z.0.1 ≡ let_go p)

-- Preparing a publication with an accepted reservation either succeeds, with a descriptor that names
-- the publisher, the block, the generation and the size, and with the publisher's reference given up
-- at the time of the commit; or it fails and changes no shared block, so that the reservation stays
-- in force. In both cases the publish block lets go of its manager.
pub prepare_publish-Prepared :
    (locks : Locks) (now stream : ℕ) (pool : GpuBufferPool) (p : PublishBlock) (d : Driver)
    (m : Machine) (h : Held m.store pool p.reservation)
    → owns pool p.reservation ≡ true
    → p.owner ≡ true
    → let result = prepare_publish locks now pool p stream d m in
      Prepared now pool p.reservation h.mapping m.store result.0.0 result.1.store
      × (result.0.1 ≡ let_go p)
unfolding prepare_publish
prepare_publish-Prepared locks now stream pool p d m h accepted own =
    let ready = record_ready locks.recording pool p.reservation stream d m in
    let same : ready.1.store ≡ m.store =
      record_ready-store locks.recording pool p.reservation stream d m in
    elim (CudaResult-cases ready.0) [
      | inl (x, e) ↦
          let whole : prepare_publish locks now pool p stream d m
              ≡ describe_and_commit locks now pool p d ready.1 =
            ground (arith, e, own) in
          subst (Outcome now pool p h.mapping m.store) (sym whole)
            (describe_and_commit-Prepared now pool p m.store h accepted locks d ready.1 same)
      | inr (code, e) ↦
          let whole : prepare_publish locks now pool p stream d m
              ≡ ((failure code, let_go p), ready.1) =
            ground (arith, e, own) in
          subst (Outcome now pool p h.mapping m.store) (sym whole) (inr (code, refl, same), refl)
    ]
