-- ===== src/Fanout/Runtime.antt =====
-- The CUDA runtime, which is not part of the repository: any answer to each call, any contents of new
-- memory, and for each launch any order of the threads. The model keeps a log of the calls, with
-- their answers, newest first. A pointer to memory that the node has allocated is that memory, a null
-- pointer `none`; a successful call that makes a stream or an event makes one that is not null.
use ros2_cuda_ipc.Base.{ℕ, ◌+◌, Bool, true, false, not, ◌&&◌, List, [], ◌∷◌, ◌==◌, if◌then◌else◌}
use ros2_cuda_ipc.Fanout.{Grid, Thread, IsSchedule}

pub data RuntimeCall : Type 0 where
  cuda_set_device cuda_malloc cuda_malloc_host cuda_stream_synchronize cuda_stream_destroy :
      ℕ → RuntimeCall
  cuda_stream_create cuda_free cuda_free_host cuda_event_create : RuntimeCall
  cuda_event_destroy cuda_event_record : ℕ → RuntimeCall
  cuda_memset cuda_memcpy_to_host cuda_memcpy_to_device cuda_event_elapsed_time : RuntimeCall
  launch_kernel : Grid → RuntimeCall

-- `code` is a `cudaError_t`, 0 for success; `value` the handle that the call hands back.
pub record Reply : Type 0 where
  pub code : ℕ
  pub value : ℕ

abbrev pub RuntimeLog : Type 0
RuntimeLog = List (RuntimeCall × Reply)

pub record Runtime : Type 0 where
  pub reply : RuntimeLog → RuntimeCall → Reply
  pub contents : RuntimeLog → ℕ → ℕ
  pub schedule : RuntimeLog → Grid → List Thread

-- Documented of a launch: every thread of its grid runs once.
abbrev pub RunsGrids : Runtime → Type 0
RunsGrids d = (l : RuntimeLog) (g : Grid) → IsSchedule g (d.schedule l g)

abbrev pub Rt : Type 0 → Type 0
Rt A = Runtime → RuntimeLog → A × RuntimeLog

abbrev pub pure : {A : Type 0} → A → Rt A
pure a d l = (a, l)

infixl 5 ◌>>=◌ ◌>>◌
abbrev pub ◌>>=◌ : {A B : Type 0} → Rt A → (A → Rt B) → Rt B
◌>>=◌ x f d l = let (a, l') = x d l in f a d l'

abbrev pub ◌>>◌ : {A B : Type 0} → Rt A → Rt B → Rt B
◌>>◌ x y d l = let (a, l') = x d l in y d l'

abbrev pub perform : RuntimeCall → Rt Reply
perform c d l = let a = d.reply l c in (a, (c, a) ∷ l)

-- `err == cudaSuccess`.
abbrev pub is_ok : Reply → Bool
is_ok a = a.code == 0

-- How many calls of the log were refused.
abbrev pub failures : RuntimeLog → ℕ
failures [] = 0
failures ((c, a) ∷ l) = (if is_ok a then 0 else 1) + failures l

-- `cudaErrorInvalidValue`.
abbrev pub invalid_value : ℕ
invalid_value = 1

-- What the calls take and give back.
pub data RuntimeResource : Type 0 where
  memory stream event : RuntimeResource

abbrev pub takes : RuntimeResource → RuntimeCall → Reply → Bool
takes memory (cuda_malloc _) a = is_ok a
takes stream cuda_stream_create a = is_ok a
takes event cuda_event_create a = is_ok a
takes _ _ a = false

-- Is it the call that gives one back?
abbrev pub gives : RuntimeResource → RuntimeCall → Bool
gives memory cuda_free = true
gives stream (cuda_stream_destroy _) = true
gives event (cuda_event_destroy _) = true
gives _ _ = false

abbrev pub taken : RuntimeResource → RuntimeLog → ℕ
taken r [] = 0
taken r ((c, a) ∷ l) = (if takes r c a then 1 else 0) + taken r l

-- The calls that gave one back, and those of them that the runtime refused.
abbrev pub given : RuntimeResource → RuntimeLog → ℕ
given r [] = 0
given r ((c, a) ∷ l) = (if gives r c then 1 else 0) + given r l

abbrev pub refused : RuntimeResource → RuntimeLog → ℕ
refused r [] = 0
refused r ((c, a) ∷ l) = (if gives r c && not (is_ok a) then 1 else 0) + refused r l
