-- ===== src/Tests/Capsule.antt =====
-- A consumer that takes the tensor of a DLPack capsule, outlives the capsule, and releases it.
use ros2_cuda_ipc.Base.{◌≡◌, ◌⊎◌, true, false, none, some, [], ◌∷◌}
use ros2_cuda_ipc.Dlpack.Capsule.{Shared, export_capsule, take, release, collect, run}
use ros2_cuda_ipc.Dlpack.Capsule.Once.{Released, export-Released}

export-Released_example :
    ((true ≡ true)
      × ((first s : Shared) × (export_capsule true false ≡ some first)
          × (run (take ∷ collect ∷ release ∷ []) first ≡ some s)
          × Released s))
    ⊎ ((true ≡ false) × (export_capsule true false ≡ none))
export-Released_example = export-Released true false (take ∷ collect ∷ release ∷ [])
