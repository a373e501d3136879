-- ===== src/Cuda/Balance.antt =====
-- What the log says of the resources that the code has taken and not given back.
use ros2_cuda_ipc.Base.{ℕ, ◌+◌, ◌≡◌, Bool, true, false, ◌&&◌, [], ◌∷◌, if◌then◌else◌}
use ros2_cuda_ipc.Cuda.{
  Call, cu_ctx_push_current, cu_ctx_pop_current, cu_device_primary_ctx_retain,
  cu_device_primary_ctx_release, cu_event_create, cu_event_destroy, cu_ipc_open_event_handle,
  cu_mem_import, cu_mem_create, cu_mem_release, cu_mem_address_reserve, cu_mem_address_free,
  cu_mem_map, cu_mem_unmap, shm_create, shm_open, shm_unlink, cu_mem_export, accept, close, socket,
  recvmsg, mmap, munmap, Answer, Log, is_ok,
}

-- The kinds of resources: the current-context stack, references to a primary context, events,
-- allocation handles, reserved address ranges, mapped ranges, file descriptors, mapped files, and the
-- names of shared-memory objects.
pub data Resource : Type 0 where
  current primary event allocation address mapping descriptor file_mapping object : Resource

-- Does this call, with this answer, take one?
abbrev pub takes : Resource → Call → Answer → Bool
takes current (cu_ctx_push_current _) a = is_ok a
takes primary (cu_device_primary_ctx_retain _) a = is_ok a
takes event (cu_event_create _) a = is_ok a
takes event (cu_ipc_open_event_handle _) a = is_ok a
takes allocation (cu_mem_import _) a = is_ok a
takes allocation (cu_mem_create _) a = is_ok a
takes address (cu_mem_address_reserve _) a = is_ok a
takes mapping (cu_mem_map _ _ _) a = is_ok a
takes descriptor (shm_create _) a = is_ok a
takes descriptor (shm_open _) a = is_ok a
takes descriptor (cu_mem_export _) a = is_ok a
takes descriptor (accept _) a = is_ok a
takes descriptor socket a = is_ok a
takes descriptor (recvmsg _) a = is_ok a && a.attached
takes file_mapping (mmap _) a = is_ok a
takes object (shm_create _) a = is_ok a
takes _ _ a = false

-- Is this the call that gives one back?
abbrev pub gives : Resource → Call → Bool
gives current cu_ctx_pop_current = true
gives primary (cu_device_primary_ctx_release _) = true
gives event (cu_event_destroy _) = true
gives allocation (cu_mem_release _) = true
gives address (cu_mem_address_free _ _) = true
gives mapping (cu_mem_unmap _ _) = true
gives descriptor (close _) = true
gives file_mapping (munmap _ _) = true
gives object (shm_unlink _) = true
gives _ _ = false

abbrev pub taken : Resource → Log → ℕ
taken r [] = 0
taken r ((c, a) ∷ l) = (if takes r c a then 1 else 0) + taken r l

abbrev pub given : Resource → Log → ℕ
given r [] = 0
given r ((c, a) ∷ l) = (if gives r c then 1 else 0) + given r l

-- Between two logs, `n` resources of the kind were taken and kept.
abbrev pub Keeps : ℕ → Resource → Log → Log → Type 0
Keeps n r before after = taken r after + given r before ≡ taken r before + given r after + n

-- Everything that was taken was given back.
abbrev pub Balanced : Log → Log → Type 0
Balanced before after = (r : Resource) → Keeps 0 r before after

-- `n` were taken and kept, and `k` that were held before were given back.
abbrev pub Moves : ℕ → ℕ → Resource → Log → Log → Type 0
Moves n k r before after = taken r after + given r before + k ≡ taken r before + given r after + n
