-- ===== src/Subscriber/Mapper.antt =====
-- ros2_cuda_ipc_core/src/subscriber/buffer_mapper.cpp: `map_descriptor` and `map`. What other threads do
-- to the two caches in the meantime is a parameter, and so is attaching.
pub mod Kept
pub mod Read
use ros2_cuda_ipc.Base.{ℕ, Bool, Option, none, some, ◌==◌, if◌then◌else◌}
use ros2_cuda_ipc.Metadata.{Mapping}
use ros2_cuda_ipc.Metadata.Ref.{BufferRef, acquire}
use ros2_cuda_ipc.Metadata.Ref
use ros2_cuda_ipc.Cuda.{Machine, M, pure, ◌>>=◌, ◌>>◌}
use ros2_cuda_ipc.Transport.{BufferCore}
use ros2_cuda_ipc.Importer.{ImportedResources, import_resources, release_imported_resources}
use ros2_cuda_ipc.Subscriber.MetadataCache.{Cache, get_or_attach}
use ros2_cuda_ipc.Subscriber.HandleCache.{
  IpcHandleKey, HandleCache, find, insert_or_discard_duplicate,
}
use ros2_cuda_ipc.Subscriber.ReadHandle.{
  MappedPublication, ReadHandle, drop_ref, make_publication, make_bound,
}

abbrev pub key_of : BufferCore → IpcHandleKey
key_of msg = record {
  publisher_pid = msg.publisher_pid;
  block_id = msg.block_id;
  device_id = msg.device_id;
  vmm_socket_path = msg.vmm_socket_path;
  event = msg.event_handle;
}

-- The end of `map_descriptor`.
unfoldable pub publish :
    BufferCore
    → BufferRef
    → ImportedResources × HandleCache
    → M (Option MappedPublication × HandleCache)
publish msg ref (r, l) = do
  publication ← make_publication (some r) (some ref) msg.byte_size msg.device_id
  pure (publication, l)

-- After an import, which may have failed.
unfoldable pub keep_import :
    BufferCore
    → BufferRef
    → HandleCache
    → Option ImportedResources
    → M (Option MappedPublication × HandleCache)
keep_import msg ref l none = do drop_ref (some ref); pure (none, l)
keep_import msg ref l (some imported) = do
  kept ← insert_or_discard_duplicate release_imported_resources (key_of msg) imported l
  publish msg ref kept

-- After the search of the handle cache.
unfoldable pub map_found :
    BufferCore
    → BufferRef
    → (HandleCache → HandleCache)
    → HandleCache
    → Option ImportedResources
    → M (Option MappedPublication × HandleCache)
map_found msg ref others l (some r) = publish msg ref (r, l)
map_found msg ref others l none = do
  opened ← import_resources msg
  keep_import msg ref (others l) opened

-- With the reference that `acquire` returned.
unfoldable pub map_acquired :
    BufferCore
    → BufferRef
    → (HandleCache → HandleCache)
    → HandleCache
    → M (Option MappedPublication × HandleCache)
map_acquired msg ref others l =
    if Ref.valid ref then map_found msg ref others l (find (key_of msg) l) else pure (none, l)

-- `map_descriptor`, with the metadata cache's answer.
unfoldable pub map_mapping :
    ℕ
    → BufferCore
    → (HandleCache → HandleCache)
    → HandleCache
    → Option Mapping
    → M (Option MappedPublication × HandleCache)
map_mapping spurious msg others l mapping d m =
    let (s, ref) = acquire spurious m.store mapping msg.uid in
    map_acquired msg ref others l d (record m { store = s })

-- `map_descriptor`: the publication, and the two caches.
unfoldable pub map_descriptor :
    (ℕ → ℕ → Option Mapping)
    → ℕ
    → BufferCore
    → (Cache → Cache)
    → (HandleCache → HandleCache)
    → Cache
    → HandleCache
    → M (Option MappedPublication × Cache × HandleCache)
map_descriptor attach spurious msg others others' cache l d m =
    if msg.publisher_pid == 0
    then ((none, cache, l), m)
    else let (mapping, cache') =
        get_or_attach attach m.store m.store m.store msg.publisher_pid msg.block_id msg.uid others
          cache in
      let ((publication, l'), m') = map_mapping spurious msg others' l mapping d m in
      ((publication, cache', l'), m')

-- `BufferMapper::map`, with the publication. One that is not bound is destroyed.
unfoldable pub bind_publication : ℕ → Option MappedPublication → M ReadHandle
bind_publication stream none = pure none
bind_publication stream (some p) = do
  (read, left) ← make_bound p stream
  drop_ref left.buffer_ref
  pure read

unfoldable pub map :
    (ℕ → ℕ → Option Mapping)
    → ℕ
    → BufferCore
    → ℕ
    → (Cache → Cache)
    → (HandleCache → HandleCache)
    → Cache
    → HandleCache
    → M (ReadHandle × Cache × HandleCache)
map attach spurious msg stream others others' cache l = do
  (publication, cache', l') ← map_descriptor attach spurious msg others others' cache l
  read ← bind_publication stream publication
  pure (read, cache', l')
