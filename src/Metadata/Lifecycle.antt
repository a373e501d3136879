-- ===== src/Metadata/Lifecycle.antt =====
-- Runs of several operations of buffer_ref.cpp on one block: publishing, cancelling, and reading.
use ros2_cuda_ipc.Base.{
  ℕ, zero, suc, ◌+◌, ◌≤◌, ◌<◌, ◌≡◌, ◌≢◌, ◌⊎◌, ◌↔◌, Bool, true, false, none, some, arith, ◌==◌,
  u32_max, u64_max, if◌then◌else◌,
}
use ros2_cuda_ipc.Metadata.{BlockMetadata}
use ros2_cuda_ipc.Metadata.Ref.{
  grace_period_us, reserve_block, release_publisher_reservation, count_reference, acquire_block,
  release_block,
}
use ros2_cuda_ipc.Metadata.Reserve.{reserved}

-- One more reader.
abbrev pub counted : BlockMetadata → BlockMetadata
counted b = record b { refcount = b.refcount + 1 }

-- However often the exchange fails spuriously, the loop ends as if it never did.
pub count_reference_lem :
    (spurious : ℕ) (b : BlockMetadata)
    → count_reference spurious b.refcount b
      ≡ (if b.refcount == u32_max then (b, false) else (counted b, true))
unfolding count_reference
count_reference_lem zero b = ground arith
count_reference_lem (suc spurious) b = ground (arith, count_reference_lem spurious b)

-- A reader gets its reference exactly when the block still holds the generation of its message and
-- the count has room; the count then goes up by one. Otherwise the block is as it was.
pub acquire_block_lem :
    (spurious uid : ℕ) (b : BlockMetadata)
    → b.refcount ≤ u32_max
    → ((b.uid ≡ uid) × (b.refcount < u32_max) × (acquire_block spurious uid b ≡ (counted b, true)))
      ⊎ (((b.uid ≢ uid) ⊎ (b.refcount ≡ u32_max)) × (acquire_block spurious uid b ≡ (b, false)))
unfolding acquire_block
acquire_block_lem spurious uid b h = ground (arith, count_reference_lem spurious b)

-- Giving a reference back undoes taking it, and while it is held no publisher gets the block.
pub release_block-acquire_block :
    (spurious uid now : ℕ) (b : BlockMetadata)
    → b.refcount ≤ u32_max
    → (acquire_block spurious uid b).1 ≡ true
    → (release_block (acquire_block spurious uid b).0 ≡ b)
      × ((reserve_block now (acquire_block spurious uid b).0).1 ≡ none)
unfolding release_block reserve_block
release_block-acquire_block spurious uid now b h held =
    ground (arith, acquire_block_lem spurious uid b h)

-- A reservation that is committed at `time` ends: the block has no reference left and keeps its new
-- generation, and it is handed out again from `time + grace_period_us` on and not before.
pub commit_grace :
    (now time later uid : ℕ) (b : BlockMetadata)
    → (reserve_block now b).1 ≡ some uid
    → time ≢ 0
    → uid ≢ u64_max
    → let done = release_publisher_reservation time uid true (reserve_block now b).0 in
      (done ≡ (record { uid = uid; refcount = 0; publish_timestamp_us = time }, true))
      × ((time + grace_period_us ≤ later) ↔ ((reserve_block later done.0).1 ≡ some (uid + 1)))
unfolding reserve_block release_publisher_reservation
commit_grace now time later uid b r t u = ground arith

-- A reservation that is cancelled ends with no wait: whoever asks next, at any time, gets the block
-- under the generation after the one that was given up.
pub cancel_reusable :
    (now later uid : ℕ) (b : BlockMetadata)
    → (reserve_block now b).1 ≡ some uid
    → uid ≢ u64_max
    → let done = release_publisher_reservation 0 uid false (reserve_block now b).0 in
      (done.1 ≡ true) × (reserve_block later done.0 ≡ (reserved (uid + 1), some (uid + 1)))
unfolding reserve_block release_publisher_reservation
cancel_reusable now later uid b r u = ground arith

-- Ending a reservation of another generation is refused and changes nothing.
pub release_publisher_reservation_mismatch :
    (now uid : ℕ) (published : Bool) (b : BlockMetadata)
    → b.uid ≢ uid
    → release_publisher_reservation now uid published b ≡ (b, false)
unfolding release_publisher_reservation
release_publisher_reservation_mismatch now uid published b h = ground arith
