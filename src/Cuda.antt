-- ===== src/Cuda.antt =====
-- The CUDA driver and the POSIX calls, which are not part of the repository: a driver answers each
-- call by any function of what was called before. The model keeps a log of the calls that the code
-- makes, in order, with their answers; detail/cuda_driver_context.hpp has the result type.
pub mod Context
pub mod Event
pub mod Balance
pub mod Laws
use ros2_cuda_ipc.Base.{ℕ, Bool, Option, none, some, List, [], ◌∷◌, ◌==◌, if◌then◌else◌}
use ros2_cuda_ipc.Metadata.{Store}
use Prim.Native.String.{String}

-- The calls, each with the arguments that the code chooses.
pub data Call : Type 0 where
  cu_init cu_ctx_pop_current cu_device_get_count cu_ctx_get_device : Call
  cu_device_get cu_device_primary_ctx_retain cu_device_primary_ctx_release : ℕ → Call
  cu_ctx_push_current cu_stream_get_ctx : ℕ → Call
  cu_event_create cu_event_destroy cu_event_synchronize cu_ipc_get_event_handle : ℕ → Call
  cu_event_record cu_stream_wait_event : ℕ → ℕ → Call
  cu_ipc_open_event_handle : List ℕ → Call
  cu_mem_get_allocation_granularity cu_mem_import cu_mem_release cu_mem_address_reserve : ℕ → Call
  cu_mem_create cu_mem_export : ℕ → Call
  cu_mem_address_free cu_mem_unmap cu_mem_set_access : ℕ → ℕ → Call
  cu_mem_map : ℕ → ℕ → ℕ → Call
  shm_create shm_open shm_unlink : String → Call
  ftruncate mmap fstat_size close shutdown recvmsg listen accept kill : ℕ → Call
  socket uuid_generate now_us : Call
  connect bind : ℕ → String → Call
  unlink : String → Call
  munmap sendmsg : ℕ → ℕ → Call

-- `code` is a `CUresult`, or 0 for a POSIX call that did not fail and its `errno` for one that did.
-- `value` is the handle, number or pointer that the call hands back; `bytes` an exported event handle;
-- `attached` says if a received message carries a descriptor.
pub record Answer : Type 0 where
  pub code : ℕ
  pub value : ℕ
  pub bytes : List ℕ
  pub attached : Bool

abbrev pub Log : Type 0
Log = List (Call × Answer)

-- Any behaviour of the driver and the operating system; the log is newest first.
abbrev pub Driver : Type 0
Driver = Log → Call → Answer

-- What the code's calls act on: the log, the shared-memory objects, and the two static variables that
-- hold the result of the one `cuInit` of `CudaDriver::initialize` and of `ensure_driver`.
pub record Machine : Type 0 where
  pub log : Log
  pub store : Store
  pub driver_status : Option ℕ
  pub backend_status : Option ℕ

-- `CUDA_SUCCESS`, and the error codes that the code itself returns.
abbrev pub cuda_success : ℕ
cuda_success = 0

abbrev pub invalid_device : ℕ
invalid_device = 101

abbrev pub invalid_context : ℕ
invalid_context = 201

abbrev pub invalid_handle : ℕ
invalid_handle = 400

-- `CudaResult`.
pub data CudaResult (A : Type 0) : Type 0 where
  success : A → CudaResult A
  failure : ℕ → CudaResult A

-- Code that makes calls.
abbrev pub M : Type 0 → Type 0
M A = Driver → Machine → A × Machine

abbrev pub pure : {A : Type 0} → A → M A
pure a d m = (a, m)

infixl 5 ◌>>=◌ ◌>>◌
abbrev pub ◌>>=◌ : {A B : Type 0} → M A → (A → M B) → M B
◌>>=◌ x f d m = let (a, m') = x d m in f a d m'

abbrev pub ◌>>◌ : {A B : Type 0} → M A → M B → M B
◌>>◌ x y d m = let (a, m') = x d m in y d m'

-- One call: its answer, and the log with both.
abbrev pub perform : Call → M Answer
perform c d m = let a = d m.log c in (a, record m { log = (c, a) ∷ m.log })

-- `code == CUDA_SUCCESS`.
abbrev pub is_ok : Answer → Bool
is_ok a = a.code == cuda_success
