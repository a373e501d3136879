-- ===== src/Metadata/Protocol/Stale.antt =====
-- The window of `reserve_for_publish`: between its exchange of the count and its store of the uid,
-- both checks of `acquire` see the old uid.
use ros2_cuda_ipc.Base.{ℕ, ◌+◌, ◌≡◌, ◌≢◌, true, List, [], ◌∷◌, arith, u64_max}
use ros2_cuda_ipc.Metadata.{BlockMetadata}
use ros2_cuda_ipc.Metadata.Reserve.{Reusable}
use ros2_cuda_ipc.Metadata.Protocol.Safety.{start_system}
use ros2_cuda_ipc.Metadata.Protocol.{
  Choice, go, reserve, acquire, idle, holding, writing, step, run, thread_step,
}

-- Thread 0 reserves up to its exchange; thread 1 acquires from end to end; thread 0 goes on.
abbrev pub overtaken : ℕ → ℕ → List (ℕ × Choice)
overtaken now uid =
    (0, reserve now)
    ∷ (0, go)
    ∷ (0, go)
    ∷ (1, acquire uid)
    ∷ (1, go)
    ∷ (1, go)
    ∷ (1, go)
    ∷ (0, go)
    ∷ (0, go)
    ∷ (0, go)
    ∷ []

-- On every reusable block there is a schedule by which a reader gets a valid reference to the old
-- generation while the publisher is writing the next one.
pub stale_reader :
    (now : ℕ) (b : BlockMetadata)
    → Reusable now b
    → b.uid ≢ u64_max
    → run (start_system b 2) (overtaken now b.uid) ≡ record {
      block = record { uid = b.uid + 1; refcount = 2; publish_timestamp_us = 0 };
      threads = writing (b.uid + 1) ∷ holding b.uid true ∷ [];
    }
unfolding run step thread_step
stale_reader now b r u = ground arith

-- On every reusable block without a uid left, the same schedule ends with a reader whose reference is
-- not counted: the reservation that gives up stores 0 over the reader's count.
exhausted_reader :
    (now : ℕ) (b : BlockMetadata)
    → Reusable now b
    → b.uid ≡ u64_max
    → run (start_system b 2) (overtaken now b.uid)
      ≡ record { block = b; threads = idle ∷ holding b.uid true ∷ [] }
unfolding run step thread_step
exhausted_reader now b r u = ground (arith, r, u)
