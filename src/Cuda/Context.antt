-- ===== src/Cuda/Context.antt =====
-- ros2_cuda_ipc_core/src/detail/cuda_driver_context.cpp. A context guard is the context that it
-- pushed; its destructor, on the thread that made it, is `pop`.
use ros2_cuda_ipc.Base.{ℕ, not, none, some, ◌==◌, ltb, if◌then◌else◌}
use ros2_cuda_ipc.Cuda.{
  cu_init, cu_ctx_push_current, cu_ctx_pop_current, cu_device_get_count, cu_device_get,
  cu_device_primary_ctx_retain, cu_device_primary_ctx_release, cuda_success, invalid_device,
  invalid_context, CudaResult, success, failure, M, pure, ◌>>=◌, ◌>>◌, perform, is_ok,
}

-- `CudaDeviceContext`; a null `CUcontext` is 0.
pub record CudaDeviceContext : Type 0 where
  pub device_id : ℕ
  pub device : ℕ
  pub context : ℕ

-- `CudaDriver::initialize`: the driver is asked once, and its answer kept.
unfoldable pub initialize : M ℕ
initialize d m = elim m.driver_status [
  | some status ↦ (status, m)
  | none ↦ let (a, m') = perform cu_init d m in (a.code, record m' { driver_status = some a.code })
]

-- `CudaContextGuard::push`.
unfoldable pub push : ℕ → M (CudaResult ℕ)
unfolding initialize
push context = do
  status ← initialize
  if not (status == cuda_success)
      then pure (failure status)
      else if context == 0
      then pure (failure invalid_context)
      else do
        a ← perform (cu_ctx_push_current context)
        pure (if is_ok a then success context else failure a.code)

-- `CudaDeviceContext::push_current`.
unfoldable pub push_current : CudaDeviceContext → M (CudaResult ℕ)
unfolding push
push_current c = push c.context

-- `pop_noexcept` of an active guard on its own thread: a failure is only reported.
unfoldable pub pop : M (Unit {0})
pop = do perform cu_ctx_pop_current; pure tt

-- `~CudaDeviceContext`.
unfoldable pub release_primary : CudaDeviceContext → M (Unit {0})
release_primary c = do perform (cu_device_primary_ctx_release c.device); pure tt

-- `CudaDeviceContext::retain_primary`. `device_id` is an `int` that is not negative.
unfoldable pub retain_primary : ℕ → M (CudaResult CudaDeviceContext)
unfolding initialize
retain_primary device_id = do
  status ← initialize
  if not (status == cuda_success) then pure (failure status) else do
    count ← perform cu_device_get_count
    if not (is_ok count)
        then pure (failure count.code)
        else if not (ltb device_id count.value)
        then pure (failure invalid_device)
        else do
          device ← perform (cu_device_get device_id)
          if not (is_ok device) then pure (failure device.code) else do
            context ← perform (cu_device_primary_ctx_retain device.value)
            if not (is_ok context)
                then pure (failure context.code)
                else pure (
                    success (record {
                      device_id = device_id;
                      device = device.value;
                      context = context.value;
                    }))

-- `auto guard_result = context->push_current(); if (!guard_result) return failed; auto guard = …;`
-- around the rest of a scope, at whose end the guard pops.
abbrev pub within : {A : Type 0} → CudaDeviceContext → (ℕ → A) → M A → M A
within c failed body = do
  guard ← push_current c
  elim guard [ failure e ↦ pure (failed e) | success _ ↦ do result ← body; pop; pure result ]
