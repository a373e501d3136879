-- ===== src/Tests/Metadata.antt =====
-- The reference protocol of buffer_ref.cpp at concrete blocks and schedules.
use ros2_cuda_ipc.Base.{
  ℕ, ◌+◌, ◌≤◌, ◌≡◌, refl, ◌≢◌, inr, true, false, some, none, List, [], ◌∷◌, arith, u32_max,
  get_elem?, total,
}
use ros2_cuda_ipc.Metadata.{BlockMetadata, fresh_block}
use ros2_cuda_ipc.Metadata.Object.{create}
use ros2_cuda_ipc.Metadata.Object.Created.{if_some, of_create, Created, create-Created}
use ros2_cuda_ipc.Cuda.{Driver, Machine}
use ros2_cuda_ipc.Cuda.Balance.{object, Keeps}
use ros2_cuda_ipc.Metadata.Ref.{reserve_block}
use ros2_cuda_ipc.Metadata.Protocol.{
  idle, holding, writing, underflowed, Choice, go, reserve, acquire, commit, opening, run, step,
  thread_step,
}
use ros2_cuda_ipc.Metadata.Protocol.Invariant.{holds, claims}
use ros2_cuda_ipc.Metadata.Protocol.Safety.{
  start_system, reader_safe, one_publisher, refcount-holds,
}
use ros2_cuda_ipc.Metadata.Protocol.Stale.{overtaken, stale_reader}
use ros2_cuda_ipc.Metadata.Protocol.Solo.{alone, reserve_schedule, outcome, run-reserve_block}

abbrev block7 : BlockMetadata
block7 = record { uid = 7; refcount = 0; publish_timestamp_us = 500 }

-- A publisher publishes generation 8 at time 200000, and then a reader reads it.
abbrev published : List (ℕ × Choice)
published =
    (0, reserve 100500)
    ∷ (0, go)
    ∷ (0, go)
    ∷ (0, go)
    ∷ (0, go)
    ∷ (0, go)
    ∷ (0, commit 200000)
    ∷ (0, go)
    ∷ (0, go)
    ∷ (1, acquire 8)
    ∷ (1, go)
    ∷ (1, go)
    ∷ (1, go)
    ∷ []

published_state : run (start_system block7 2) published ≡ record {
  block = record { uid = 8; refcount = 1; publish_timestamp_us = 200000 };
  threads = idle ∷ holding 8 false ∷ [];
}
unfolding run step thread_step
published_state = refl

reader_safe_example :
    ((run (start_system block7 2) published).block.uid ≡ 8)
    × ((now : ℕ) → (reserve_block now (run (start_system block7 2) published).block).1 ≡ none)
    × (total opening (run (start_system block7 2) published).threads ≡ 0)
    × ((j u : ℕ)
        → get_elem? (run (start_system block7 2) published).threads j ≡ some (writing u)
        → u ≡ 8)
unfolding run step thread_step
reader_safe_example = reader_safe block7 2 published refl (omega arith) 1 8 refl

abbrev writer : List (ℕ × Choice)
writer = (0, reserve 100500) ∷ (0, go) ∷ (0, go) ∷ (0, go) ∷ (0, go) ∷ (0, go) ∷ []

one_publisher_example : claims (writing 8) + claims idle ≤ 1
unfolding run step thread_step
one_publisher_example =
    one_publisher block7 2 writer refl (omega arith) 0 1 (writing 8) idle (omega arith) refl refl

refcount-holds_example :
    ((run (start_system block7 2) published).block.refcount
      ≡ total holds (run (start_system block7 2) published).threads)
    × ((run (start_system block7 2) published).block.refcount ≤ u32_max)
    × ((i : ℕ) → get_elem? (run (start_system block7 2) published).threads i ≢ some underflowed)
refcount-holds_example = refcount-holds block7 2 published refl (omega arith)

stale_reader_example : run (start_system block7 2) (overtaken 100500 7) ≡ record {
  block = record { uid = 8; refcount = 2; publish_timestamp_us = 0 };
  threads = writing 8 ∷ holding 7 true ∷ [];
}
stale_reader_example = stale_reader 100500 block7 (refl, inr (omega arith)) (omega arith)

run-reserve_block_example :
    run (alone block7 idle) (reserve_schedule 100500)
    ≡ alone (reserve_block 100500 block7).0 (outcome (reserve_block 100500 block7).1)
run-reserve_block_example = run-reserve_block 100500 block7

-- Every call succeeds and hands back 4.
abbrev willing : Driver
willing log c = record { code = 0; value = 4; bytes = []; attached = true }

abbrev machine : Machine
machine = record { log = []; store = λ _. fresh_block; driver_status = none; backend_status = none }

create-Created_example :
    let result = create (λ addr. addr) "/ros2_cuda_ipc_12_0" willing machine in
    Keeps (of_create object (if_some result.0)) object [] result.1.log
    × Created result.0 (λ _. fresh_block) result.1.store
create-Created_example = create-Created (λ addr. addr) "/ros2_cuda_ipc_12_0" willing machine object
