-- ===== src/Pool/Ownership.antt =====
-- Which reservations a pool of gpu_buffer_pool.cpp accepts, and what it does with them.
use ros2_cuda_ipc.Base.{
  ℕ, zero, suc, ◌%◌, ◌≤◌, ◌<◌, ◌≡◌, refl, inl, inr, Bool, true, false, Option, none, some, List, [],
  ◌∷◌, arith, u32_mod, u32_max, length, get_elem?, Option-cases, if◌then◌else◌,
}
use ros2_cuda_ipc.Metadata.{Mapping, Store, write}
use ros2_cuda_ipc.Metadata.Ref.{commit_publish, cancel_publish, release_publisher_reservation}
use ros2_cuda_ipc.Metadata.Reserve.{reserved}
use ros2_cuda_ipc.Cuda.{Driver, Machine}
use ros2_cuda_ipc.Cuda.Context.{initialize}
use ros2_cuda_ipc.Cuda.Event.{InterprocessEvent, record_on}
use ros2_cuda_ipc.Transport.{BufferDescriptor}
use ros2_cuda_ipc.Backend.{GpuBufferBlock}
use ros2_cuda_ipc.Pool.{
  record_block, record_ready, BlockReservation, GpuBufferPool, reserve_for_publish, owns, commit,
  cancel, try_build_descriptor, resources, same_mapping,
}
use ros2_cuda_ipc.Pool.Reserve.{reserve_for_publish-Searched, nth}
use native.Mathlib.Nat.{mod-eq_of_lt}

get_elem?-lt {ℓ} : {A : Type ℓ} (l : List A) (i : ℕ) (a : A) → get_elem? l i ≡ some a → i < length l
get_elem?-lt [] i a e = cc
get_elem?-lt (x ∷ l) zero a e = omega arith
get_elem?-lt (x ∷ l) (suc i) a e = omega (arith, get_elem?-lt l i a e)

-- What holds of a reservation `r` that a search returned, in the store and pool that it left.
pub record Held (s : Store) (pool : GpuBufferPool) (r : BlockReservation) : Type 0 where
  pub mapping : Mapping
  pub block : GpuBufferBlock
  pub mapped : r.mapping ≡ some mapping
  pub found : get_elem? pool.blocks r.pool_index ≡ some block
  pub shared : block.shared_metadata ≡ some mapping
  pub same_id : block.block_id ≡ r.block_id
  pub same_pid : r.publisher_pid ≡ pool.publisher_pid
  pub state : s mapping.block ≡ reserved r.uid

-- A reservation that a pool returns names the block by its index and its identity, the block carries
-- the reserved generation with the publisher's one reference, and the pool accepts the reservation.
pub reserve_for_publish-Held :
    (clock : ℕ → ℕ) (s : Store) (pool : GpuBufferPool) (s' : Store) (pool' : GpuBufferPool)
    (r : BlockReservation)
    → length pool.blocks ≤ u32_max
    → pool.initialised ≡ true
    → reserve_for_publish true clock s pool ≡ (s', pool', some r)
    → Held s' pool' r × (owns pool' r ≡ true) × (pool'.blocks ≡ pool.blocks)
unfolding owns same_mapping
reserve_for_publish-Held clock s pool s' pool' r small up e =
    elim (reserve_for_publish-Searched clock s pool up) [
      | inr (_, none_free) ↦ ground arith
      | inl (j, b, m, p) ↦
          let fits : nth clock s pool j % u32_mod ≡ nth clock s pool j =
            mod-eq_of_lt (omega (arith, get_elem?-lt pool.blocks (nth clock s pool j) b p.here)) in
          let index : r.pool_index ≡ nth clock s pool j = ground (arith, p.outcome, fits) in
          let kept : pool'.blocks ≡ pool.blocks = ground (arith, p.outcome) in
          let found : get_elem? pool'.blocks r.pool_index ≡ some b = cc (index, kept, p.here) in
          (
            record {
              mapping = m;
              block = b;
              mapped = ground (arith, p.outcome);
              found = found;
              shared = p.mapped;
              same_id = ground (arith, p.outcome);
              same_pid = ground (arith, p.outcome);
              state = ground (arith, p.outcome);
            },
            ground (arith, p.outcome, found, p.mapped),
            kept,
          )
    ]

module _ (s : Store) (pool : GpuBufferPool) (r : BlockReservation) (h : Held s pool r) where
  -- A pool that is set up accepts a reservation for one of its blocks.
  pub Held-owns : pool.initialised ≡ true → owns pool r ≡ true
  unfolding owns same_mapping
  Held-owns up = ground (arith, h.mapped, h.found, h.shared, h.same_id, h.same_pid)

  -- Committing an accepted reservation gives up the publisher's reference and stamps the block.
  pub Held-commit :
      (now : ℕ)
      → owns pool r ≡ true
      → commit true now s pool r ≡ (
        write s h.mapping.block (record { uid = r.uid; refcount = 0; publish_timestamp_us = now }),
        true,
      )
  unfolding commit commit_publish release_publisher_reservation
  Held-commit now o = rw (o, h.mapped) (ground (arith, h.state))

  -- Cancelling gives up the reference alone, and needs no pool that still has the block.
  pub Held-cancel : cancel s pool r ≡ (
    write s h.mapping.block (record { uid = r.uid; refcount = 0; publish_timestamp_us = 0 }),
    true,
  )
  unfolding cancel cancel_publish release_publisher_reservation
  Held-cancel = rw (h.mapped) (ground (arith, h.same_pid, h.state))

record_on-store :
    (e : InterprocessEvent) (stream : ℕ) (d : Driver) (m : Machine)
    → (record_on e stream d m).1.store ≡ m.store
unfolding record_on initialize
record_on-store e stream d m = ground arith

record_block-store :
    (b : Option GpuBufferBlock) (stream : ℕ) (d : Driver) (m : Machine)
    → (record_block b stream d m).1.store ≡ m.store
unfolding record_block
record_block-store none stream d m = refl
record_block-store (some b) stream d m = elim (Option-cases b.ready_event) [
  | inl e ↦ rw (e, record_block)
  | inr (v, e) ↦ rw (e, record_block) (record_on-store v stream d m)
]

-- Recording the ready event touches no shared block.
pub record_ready-store :
    (locked : Bool) (pool : GpuBufferPool) (r : BlockReservation) (stream : ℕ) (d : Driver)
    (m : Machine)
    → (record_ready locked pool r stream d m).1.store ≡ m.store
unfolding record_ready
record_ready-store true pool r stream d m =
    record_block-store (if owns pool r then resources pool r.pool_index else none) stream d m
record_ready-store false pool r stream d m = refl

-- A descriptor names the publisher, the block and the generation of the reservation, and the pool's
-- size and device.
pub record Describes (pool : GpuBufferPool) (r : BlockReservation) (x : BufferDescriptor)
    : Type 0 where
  pub same_pid : x.publisher_pid ≡ r.publisher_pid
  pub same_block : x.block_id ≡ r.block_id
  pub same_uid : x.uid ≡ r.uid
  pub same_size : x.byte_size ≡ pool.byte_size
  pub same_device : (i : ℕ) → pool.device_index ≡ some i → x.device_id ≡ i

pub try_build_descriptor-Describes :
    (locked : Bool) (s : Store) (pool : GpuBufferPool) (r : BlockReservation) (x : BufferDescriptor)
    → Held s pool r
    → try_build_descriptor locked pool r ≡ some x
    → Describes pool r x
unfolding try_build_descriptor
try_build_descriptor-Describes locked s pool r x h e = record {
  same_pid = ground (arith, h.found, h.same_id);
  same_block = ground (arith, h.found, h.same_id);
  same_uid = ground (arith, h.found, h.same_id);
  same_size = ground (arith, h.found, h.same_id);
  same_device = λ i di. ground (arith, h.found, h.same_id);
}
