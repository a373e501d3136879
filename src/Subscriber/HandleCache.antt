-- ===== src/Subscriber/HandleCache.antt =====
-- ros2_cuda_ipc_core/src/subscriber/ipc_handle_cache.cpp and its header. The hash of a key decides only
-- where an entry is looked for.
use ros2_cuda_ipc.Base.{
  ℕ, Bool, true, false, ◌&&◌, Option, none, some, List, [], ◌∷◌, ◌==◌, if◌then◌else◌,
}
use ros2_cuda_ipc.Cuda.{M, pure, ◌>>◌}
use ros2_cuda_ipc.Importer.{ImportedResources}
use Prim.Native.String.{String, compare}
use Prim.Native.Nat.{Ordering}

pub record IpcHandleKey : Type 0 where
  pub publisher_pid : ℕ
  pub block_id : ℕ
  pub device_id : ℕ
  pub vmm_socket_path : String
  pub event : List ℕ

abbrev pub same_bytes : List ℕ → List ℕ → Bool
same_bytes [] [] = true
same_bytes (x ∷ l) (y ∷ k) = let rest = same_bytes l k in if x == y then rest else false
same_bytes _ _ = false

abbrev pub same_text : String → String → Bool
same_text s t = elim (compare s t) [ Ordering.eq ↦ true | _ ↦ false ]

-- `IpcHandleKey::operator==`.
unfoldable pub same_key : IpcHandleKey → IpcHandleKey → Bool
same_key j k =
    j.publisher_pid == k.publisher_pid
    && j.block_id == k.block_id
    && j.device_id == k.device_id
    && same_text j.vmm_socket_path k.vmm_socket_path
    && same_bytes j.event k.event

abbrev pub HandleCache : Type 0
HandleCache = List (IpcHandleKey × ImportedResources)

-- `find`.
unfoldable pub find : IpcHandleKey → HandleCache → Option ImportedResources
find key [] = none
find key ((k, r) ∷ l) = let rest = find key l in if same_key key k then some r else rest

-- The outcome of `emplace`: the entry that was there stays, and the duplicate is released by `release`
-- once the mutex is free; or the candidate becomes the entry.
unfoldable pub keep_first :
    (ImportedResources → M Bool)
    → IpcHandleKey
    → ImportedResources
    → HandleCache
    → Option ImportedResources
    → M (ImportedResources × HandleCache)
keep_first release key imported l none = pure (imported, (key, imported) ∷ l)
keep_first release key imported l (some first) = do release imported; pure (first, l)

-- `insert_or_discard_duplicate`.
unfoldable pub insert_or_discard_duplicate :
    (ImportedResources → M Bool)
    → IpcHandleKey
    → ImportedResources
    → HandleCache
    → M (ImportedResources × HandleCache)
insert_or_discard_duplicate release key imported l = keep_first release key imported l (find key l)
