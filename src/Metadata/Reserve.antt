-- ===== src/Metadata/Reserve.antt =====
-- When buffer_ref.cpp hands a block out for writing: the rule of doc/buffer_metadata_protocol.md,
-- section 4, against the code of `reserve_for_publish`.
use ros2_cuda_ipc.Base.{ℕ, ◌+◌, ◌≤◌, ◌≡◌, ◌≢◌, ◌⊎◌, none, some, arith, u64_max}
use ros2_cuda_ipc.Metadata.{BlockMetadata}
use ros2_cuda_ipc.Metadata.Ref.{grace_period_us, reserve_block}

-- The documented condition for reuse.
abbrev pub Reusable : ℕ → BlockMetadata → Type 0
Reusable now b =
    (b.refcount ≡ 0)
    × ((b.publish_timestamp_us ≡ 0) ⊎ (b.publish_timestamp_us + grace_period_us ≤ now))

-- The block while its publisher writes generation `uid`.
abbrev pub reserved : ℕ → BlockMetadata
reserved uid = record { uid = uid; refcount = 1; publish_timestamp_us = 0 }

-- Reserving succeeds exactly on a reusable block whose generation number is not used up. It then
-- counts one reference, takes the next generation and clears the timestamp; a refusal leaves the
-- block as it was.
pub reserve_block-Reusable :
    (now : ℕ) (b : BlockMetadata)
    → (Reusable now b
        × (b.uid ≢ u64_max)
        × (reserve_block now b ≡ (reserved (b.uid + 1), some (b.uid + 1))))
      ⊎ ((¬ (Reusable now b × (b.uid ≢ u64_max))) × (reserve_block now b ≡ (b, none)))
unfolding reserve_block
reserve_block-Reusable now b = ground arith
