-- ===== src/Manager/Deliver.antt =====
-- From the publisher's preparation to the subscriber's reference.
use ros2_cuda_ipc.Base.{ap, ℕ, ◌≡◌, refl, ◌⊎◌, inl, inr, true, some, arith}
use ros2_cuda_ipc.Metadata.{Mapping, Store, write}
use ros2_cuda_ipc.Metadata.Ref.{acquire, acquire_block}
use ros2_cuda_ipc.Metadata.Lifecycle.{counted, acquire_block_lem}
use ros2_cuda_ipc.Cuda.{Driver, Machine, CudaResult, success, failure}
use ros2_cuda_ipc.Transport.{BufferDescriptor, fill_buffer_core_message}
use ros2_cuda_ipc.Pool.{BlockReservation, GpuBufferPool, owns}
use ros2_cuda_ipc.Pool.Ownership.{Held}
use ros2_cuda_ipc.Manager.{PublishBlock, Locks, prepare_publish}
use ros2_cuda_ipc.Manager.Prepare.{committed, prepare_publish-Prepared}

-- A reader that finds the generation and an unread block gets the block's first reference.
acquire-committed :
    (spurious now : ℕ) (s : Store) (m : Mapping) (r : BlockReservation)
    → acquire spurious (write s m.block (committed now r)) (some m) r.uid ≡ (
      write (write s m.block (committed now r)) m.block (counted (committed now r)),
      record { mapping = some m; block_meta = some m.block; uid = r.uid },
    )
unfolding acquire
acquire-committed spurious now s m r =
    let look : write s m.block (committed now r) m.block ≡ committed now r = ground arith in
    let taken : acquire_block spurious r.uid (committed now r) ≡ (counted (committed now r), true) =
      ground (arith, acquire_block_lem spurious r.uid (committed now r) (omega arith)) in
    rw (look, taken) refl

-- What a subscriber meets that has the publisher's block mapped as `m`, after a preparation for the
-- generation `uid`, before anything else happens to the block.
abbrev pub Delivered :
    ℕ → Store → Mapping → ℕ → (CudaResult BufferDescriptor × PublishBlock) × Machine → Type 0
Delivered spurious s m uid result =
    ((x : BufferDescriptor) × (result.0.0 ≡ success x)
      × ((acquire spurious result.1.store (some m) (fill_buffer_core_message x).uid).1
          ≡ record { mapping = some m; block_meta = some m.block; uid = uid }))
    ⊎ ((e : ℕ) × (result.0.0 ≡ failure e) × (result.1.store ≡ s))

-- When preparing a publication succeeds, a subscriber that acquires the uid of the wire message on the
-- same block gets a valid reference to that generation; when it fails, no shared block has changed.
pub prepare_publish-Delivered :
    (spurious : ℕ) (locks : Locks) (now stream : ℕ) (pool : GpuBufferPool) (p : PublishBlock)
    (d : Driver) (m : Machine) (h : Held m.store pool p.reservation)
    → owns pool p.reservation ≡ true
    → p.owner ≡ true
    → Delivered spurious m.store h.mapping p.reservation.uid
        (prepare_publish locks now pool p stream d m)
unfolding fill_buffer_core_message
prepare_publish-Delivered spurious locks now stream pool p d m h accepted own =
    elim (prepare_publish-Prepared locks now stream pool p d m h accepted own).0 [
      | inl (x, e, w, same) ↦
          let uid : x.uid ≡ p.reservation.uid = w.same_uid in
          inl (
            x,
            e,
            rw (same, uid)
                (ap (λ z. z.1) (acquire-committed spurious now m.store h.mapping p.reservation)),
          )
      | inr failed ↦ inr failed
    ]
