-- ===== src/Fanout.antt =====
-- examples/multi_process_image_fanout: the CUDA kernels of src/cuda/kernels.cu on device memory, and
-- the encoder node that runs them. A launch runs the threads of its grid in some order.
pub mod Checksum
pub mod Encoder
pub mod Gray
pub mod Kernels
pub mod Launch
pub mod Linear
pub mod Luma
pub mod Memory
pub mod Pattern
pub mod Plane
pub mod Runtime
pub mod Schedule
pub mod Stats
pub mod Threads
use ros2_cuda_ipc.Base.{
  ℕ, ◌+◌, ◌*◌, ◌%◌, ◌≡◌, Bool, ◌&&◌, Option, none, some, List, [], ◌∷◌, ltb, ◌==◌, if◌then◌else◌,
  u32_mod,
}

-- An allocation of device memory, by element.
pub record Array (V : Type 0) : Type 0 where
  pub size : ℕ
  pub at : ℕ → V

-- An allocation of bytes.
abbrev pub Buffer : Type 0
Buffer = Array ℕ

module _ {V : Type 0} where
  -- An access outside of the allocation is a fault.
  unfoldable pub load : Array V → ℕ → Option V
  load b a = if ltb a b.size then some (b.at a) else none

  -- The memory with one element changed.
  abbrev pub written : Array V → ℕ → V → Array V
  written b a v = record { size = b.size; at = λ i. if i == a then v else b.at i }

  unfoldable pub store : Array V → ℕ → V → Option (Array V)
  store b a v = if ltb a b.size then some (written b a v) else none

-- The execution configuration of a launch, and a thread by `blockIdx` and `threadIdx`.
pub record Grid : Type 0 where
  pub grid_x : ℕ
  pub grid_y : ℕ
  pub block_x : ℕ
  pub block_y : ℕ

pub record Thread : Type 0 where
  pub block_x : ℕ
  pub block_y : ℕ
  pub thread_x : ℕ
  pub thread_y : ℕ

abbrev pub same : Thread → Thread → Bool
same s t =
    s.block_x == t.block_x
    && s.block_y == t.block_y
    && s.thread_x == t.thread_x
    && s.thread_y == t.thread_y

abbrev pub in_grid : Grid → Thread → Bool
in_grid g t =
    ltb t.block_x g.grid_x
    && ltb t.block_y g.grid_y
    && ltb t.thread_x g.block_x
    && ltb t.thread_y g.block_y

-- `blockIdx.x * blockDim.x + threadIdx.x`, and the same for y, in `unsigned int`.
abbrev pub global_x : Grid → Thread → ℕ
global_x g t = (t.block_x * g.block_x + t.thread_x) % u32_mod

abbrev pub global_y : Grid → Thread → ℕ
global_y g t = (t.block_y * g.block_y + t.thread_y) % u32_mod

-- The threads of a launch, one after the other in the given order; a fault ends it.
unfoldable pub run {ℓ} : {S : Type ℓ} → (Thread → S → Option S) → List Thread → S → Option S
run step [] s = some s
run step (t ∷ ts) s = elim (step t s) [ none ↦ none | some s' ↦ run step ts s' ]

abbrev pub occurrences : Thread → List Thread → ℕ
occurrences t [] = 0
occurrences t (u ∷ us) = (if same t u then 1 else 0) + occurrences t us

-- Every thread of the grid runs exactly once, in any order, and no other thread does.
abbrev pub IsSchedule : Grid → List Thread → Type 0
IsSchedule g ts = (t : Thread) → occurrences t ts ≡ (if in_grid g t then 1 else 0)
