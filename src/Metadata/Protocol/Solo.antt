-- ===== src/Metadata/Protocol/Solo.antt =====
-- A thread that is never interrupted does what the operations of `Metadata.Ref` say.
use ros2_cuda_ipc.Base.{
  ℕ, zero, suc, ◌≤◌, ◌≡◌, refl, Bool, true, false, Option, none, some, List, [], ◌∷◌, arith,
  u32_max, if◌then◌else◌, ◌==◌,
}
use ros2_cuda_ipc.Metadata.{BlockMetadata}
use ros2_cuda_ipc.Metadata.Ref.{reserve_block, acquire_block}
use ros2_cuda_ipc.Metadata.Lifecycle.{counted, acquire_block_lem}
use ros2_cuda_ipc.Metadata.Protocol.{
  Thread, idle, holding, writing, observed, Choice, go, spurious, reserve, acquire, System, step,
  run, thread_step,
}

abbrev pub alone : BlockMetadata → Thread → System
alone b t = record { block = b; threads = t ∷ [] }

abbrev pub reserve_schedule : ℕ → List (ℕ × Choice)
reserve_schedule now = (0, reserve now) ∷ (0, go) ∷ (0, go) ∷ (0, go) ∷ (0, go) ∷ (0, go) ∷ []

abbrev pub outcome : Option ℕ → Thread
outcome none = idle
outcome (some uid) = writing uid

-- Six uninterrupted steps are `reserve_for_publish`, its success and its refusals included.
pub run-reserve_block :
    (now : ℕ) (b : BlockMetadata)
    → run (alone b idle) (reserve_schedule now)
      ≡ alone (reserve_block now b).0 (outcome (reserve_block now b).1)
unfolding run step thread_step reserve_block
run-reserve_block now b = ground arith

-- The exchange of `acquire`, after `n` spurious failures.
abbrev pub exchange_schedule : ℕ → List (ℕ × Choice)
exchange_schedule zero = (0, go) ∷ (0, go) ∷ (0, go) ∷ []
exchange_schedule (suc n) = (0, spurious) ∷ exchange_schedule n

abbrev pub acquire_schedule : ℕ → ℕ → List (ℕ × Choice)
acquire_schedule n uid = (0, acquire uid) ∷ (0, go) ∷ exchange_schedule n

abbrev pub reader : ℕ → Bool → Thread
reader uid held = if held then holding uid false else idle

stay_idle : (b : BlockMetadata) (n : ℕ) → run (alone b idle) (exchange_schedule n) ≡ alone b idle
unfolding run step thread_step
stay_idle b zero = refl
stay_idle b (suc n) = stay_idle b n

run-exchange :
    (n uid : ℕ) (b : BlockMetadata)
    → b.uid ≡ uid
    → b.refcount ≤ u32_max
    → run (alone b (observed uid b.refcount)) (exchange_schedule n)
      ≡ alone
          (if b.refcount == u32_max then b else counted b)
          (reader uid (if b.refcount == u32_max then false else true))
unfolding run step thread_step
run-exchange zero uid b e h = ground arith
run-exchange (suc n) uid b e h = ground (arith, run-exchange n uid b e h, stay_idle b n)

-- Uninterrupted, with any number of spurious failures, the steps of a reader are `acquire`.
pub run-acquire_block :
    (n uid : ℕ) (b : BlockMetadata)
    → b.refcount ≤ u32_max
    → run (alone b idle) (acquire_schedule n uid)
      ≡ alone (acquire_block n uid b).0 (reader uid (acquire_block n uid b).1)
unfolding run step thread_step
run-acquire_block n uid b h =
    ground
      (arith, acquire_block_lem n uid b h, run-exchange n uid b, stay_idle b n, stay_idle b (suc n))
