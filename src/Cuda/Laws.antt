-- ===== src/Cuda/Laws.antt =====
-- The context and the event wrappers of detail/ give back what they take, whatever the driver answers.
use ros2_cuda_ipc.Base.{ℕ, ◌≡◌, refl, ◌⊎◌, inl, inr, Option, none, some, arith}
use ros2_cuda_ipc.Cuda.{Driver, Machine, CudaResult, success, failure}
use ros2_cuda_ipc.Cuda.Balance.{Resource, current, primary, event, Keeps, Balanced}
use ros2_cuda_ipc.Cuda.Context.{CudaDeviceContext, retain_primary, push_current, initialize}
use ros2_cuda_ipc.Cuda.Event.{InterprocessEvent, create, record_on}

pub CudaResult-cases :
    {A : Type 0} (x : CudaResult A) → ((a : A) × (x ≡ success a)) ⊎ ((e : ℕ) × (x ≡ failure e))
CudaResult-cases (success a) = inl (a, refl)
CudaResult-cases (failure e) = inr (e, refl)

-- One more, if the result is a success.
abbrev pub if_success : {A : Type 0} → CudaResult A → ℕ
if_success (success _) = 1
if_success (failure _) = 0

-- What creating an event keeps, by kind.
abbrev pub of_event : Resource → ℕ → ℕ
of_event event n = n
of_event _ n = 0

abbrev pub of_primary : Resource → ℕ → ℕ
of_primary primary n = n
of_primary _ n = 0

abbrev pub of_pushed : Resource → ℕ → ℕ
of_pushed current n = n
of_pushed _ n = 0

module _ (d : Driver) (m : Machine) where
  pub push_current-Keeps :
      (c : CudaDeviceContext) (r : Resource)
      → Keeps (of_pushed r (if_success (push_current c d m).0)) r m.log (push_current c d m).1.log
  unfolding push_current initialize
  push_current-Keeps c current = ground arith
  push_current-Keeps c r = ground arith

  -- Creating an event keeps that event if it succeeds, and nothing at all if it fails.
  pub create-Keeps :
      (c : Option CudaDeviceContext) (r : Resource)
      → Keeps (of_event r (if_success (create c d m).0)) r m.log (create c d m).1.log
  unfolding create initialize
  create-Keeps none r = ground arith
  create-Keeps (some c) current = ground arith
  create-Keeps (some c) r = ground arith

  -- Recording an event leaves the context stack and every other resource as they were.
  pub record_on-Balanced :
      (e : InterprocessEvent) (stream : ℕ) → Balanced m.log (record_on e stream d m).1.log
  unfolding record_on initialize
  record_on-Balanced e stream current = ground arith
  record_on-Balanced e stream r = ground arith

  -- Retaining a primary context keeps one reference if it succeeds, and nothing if it fails.
  pub retain_primary-Keeps :
      (id : ℕ) (r : Resource)
      → Keeps
          (of_primary r (if_success (retain_primary id d m).0))
          r
          m.log
          (retain_primary id d m).1.log
  unfolding retain_primary initialize
  retain_primary-Keeps id current = ground arith
  retain_primary-Keeps id r = ground arith
