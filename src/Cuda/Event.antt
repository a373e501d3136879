-- ===== src/Cuda/Event.antt =====
-- ros2_cuda_ipc_core/src/detail/interprocess_event.cpp.
use ros2_cuda_ipc.Base.{ℕ, not, Option, none, some, List, ◌==◌, if◌then◌else◌}
use ros2_cuda_ipc.Cuda.{
  cu_event_create, cu_event_destroy, cu_event_record, cu_ipc_get_event_handle, invalid_context,
  invalid_handle, CudaResult, success, failure, M, pure, ◌>>=◌, ◌>>◌, perform, is_ok,
}
use ros2_cuda_ipc.Cuda.Context.{CudaDeviceContext, push_current, pop, within}

-- A null event is 0.
pub record InterprocessEvent : Type 0 where
  pub context : Option CudaDeviceContext
  pub event : ℕ
  pub ipc_handle : List ℕ

-- `CU_EVENT_DISABLE_TIMING | CU_EVENT_INTERPROCESS`, and `CU_EVENT_DISABLE_TIMING`.
abbrev pub interprocess_flags : ℕ
interprocess_flags = 6

abbrev pub disable_timing : ℕ
disable_timing = 2

create_pushed : CudaDeviceContext → M (CudaResult InterprocessEvent)
create_pushed context = do
  event ← perform (cu_event_create interprocess_flags)
  if not (is_ok event) then pure (failure event.code) else do
    handle ← perform (cu_ipc_get_event_handle event.value)
    if not (is_ok handle)
        then (do perform (cu_event_destroy event.value); pure (failure handle.code))
        else pure (
            success
              (record { context = some context; event = event.value; ipc_handle = handle.bytes }))

unfoldable pub create : Option CudaDeviceContext → M (CudaResult InterprocessEvent)
unfolding push_current pop create_pushed
create none = pure (failure invalid_context)
create (some context) = within context failure (create_pushed context)

-- `record`.
unfoldable pub record_on : InterprocessEvent → ℕ → M (CudaResult (Unit {0}))
unfolding push_current pop
record_on e stream = elim e.context [
  | none ↦ pure (failure invalid_handle)
  | some context ↦
      if e.event == 0
      then pure (failure invalid_handle)
      else within context failure do
        a ← perform (cu_event_record e.event stream)
        pure (if is_ok a then success tt else failure a.code)
]

-- `reset_noexcept`. The object has no event after it, on every path.
unfoldable pub reset : InterprocessEvent → M (Unit {0})
unfolding push_current pop
reset e = if e.event == 0 then pure tt else elim e.context [
  | none ↦ pure tt
  | some context ↦ within context (λ _. tt) do perform (cu_event_destroy e.event); pure tt
]
