-- ===== src/Metadata/Object/Created.antt =====
-- What creating and attaching an object of buffer_metadata.cpp leave behind.
use ros2_cuda_ipc.Base.{ℕ, ◌+◌, ◌≡◌, ◌≢◌, Option, none, some, arith}
use ros2_cuda_ipc.Metadata.{Mapping, Store}
use ros2_cuda_ipc.Metadata.Ref.{reserve_block}
use ros2_cuda_ipc.Metadata.Reserve.{reserved}
use ros2_cuda_ipc.Metadata.Object.{initial_uid, create, attach}
use ros2_cuda_ipc.Cuda.{Driver, Machine}
use ros2_cuda_ipc.Cuda.Balance.{Resource, current, file_mapping, object, Keeps}
use Prim.Native.String.{String}

abbrev pub if_some : {A : Type 0} → Option A → ℕ
if_some (some _) = 1
if_some none = 0

-- What a mapping of a new object consists of, and one of an old object.
abbrev pub of_create : Resource → ℕ → ℕ
of_create file_mapping n = n
of_create object n = n
of_create _ n = 0

abbrev pub of_attach : Resource → ℕ → ℕ
of_attach file_mapping n = n
of_attach _ n = 0

-- The store after an attempt to create an object: as it was without one; with one, only the object
-- has changed, and any publisher can reserve it at any time.
abbrev pub Created : Option Mapping → Store → Store → Type 0
Created none before after = (i : ℕ) → after i ≡ before i
Created (some m) before after =
    ((i : ℕ) → i ≢ m.block → after i ≡ before i)
    × ((after m.block).uid ≢ 0)
    × ((now : ℕ)
        → reserve_block now (after m.block)
          ≡ (reserved ((after m.block).uid + 1), some ((after m.block).uid + 1)))

module _ (object_at : ℕ → ℕ) (shm_name : String) (d : Driver) (m : Machine) where
  create-Keeps :
      (r : Resource)
      → let result = create object_at shm_name d m in
        Keeps (of_create r (if_some result.0)) r m.log result.1.log
  unfolding create
  create-Keeps current = ground arith
  create-Keeps r = ground arith

  pub create_store :
      let result = create object_at shm_name d m in Created result.0 m.store result.1.store
  unfolding create initial_uid reserve_block
  create_store = ground arith

  -- Creating an object keeps its mapping and its name, and no descriptor, if it succeeds, and nothing
  -- if it fails, on every branch. A new object has a uid, and any publisher can reserve it at any
  -- time; no other object changes, and none at all without a new one.
  pub create-Created :
      (r : Resource)
      → let result = create object_at shm_name d m in
        Keeps (of_create r (if_some result.0)) r m.log result.1.log
        × Created result.0 m.store result.1.store
  create-Created r = (create-Keeps r, create_store)

  -- Attaching keeps the mapping if it succeeds, and nothing if it fails.
  pub attach-Keeps :
      (r : Resource)
      → let result = attach object_at shm_name d m in
        Keeps (of_attach r (if_some result.0)) r m.log result.1.log
  unfolding attach
  attach-Keeps current = ground arith
  attach-Keeps r = ground arith
