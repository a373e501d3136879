-- ===== src/Metadata/Object.antt =====
-- ros2_cuda_ipc_core/src/buffer_metadata/buffer_metadata.cpp: the shared-memory object of a block. Which
-- object is mapped at an address is the operating system's matter, and a parameter.
pub mod Created
use ros2_cuda_ipc.Base.{
  ℕ, zero, suc, ◌+◌, ◌/◌, ◌%◌, Bool, not, ◌||◌, Option, none, some, List, [], ◌∷◌, ◌==◌,
  if◌then◌else◌, u64_max, u64_mod,
}
use ros2_cuda_ipc.Metadata.{BlockMetadata, fresh_block, Mapping, write}
use ros2_cuda_ipc.Cuda.{
  Call, shm_create, shm_open, shm_unlink, ftruncate, mmap, munmap, fstat_size, close, uuid_generate,
  Answer, Machine, M, pure, ◌>>=◌, ◌>>◌, perform, is_ok,
}
use Prim.Native.String.{String, slice, ◌++◌ as ◌<>◌}

-- `kMetadataSize`: two 64-bit numbers and a 32-bit one, with the padding.
abbrev pub metadata_size : ℕ
metadata_size = 24

-- `initial_uid`, of the first eight bytes of a random UUID.
unfoldable pub initial_uid : ℕ → ℕ
initial_uid random =
    let value = random % u64_mod in if value == 0 || value == u64_max then 1 else value

-- A number of 32 bits as `operator<<` prints it, with at most ten digits.
unfoldable pub decimal : ℕ → ℕ → String
decimal zero n = ""
decimal (suc digits) n =
    let front = decimal digits (n / 10) in
    (if n / 10 == 0 then "" else front) <> slice "0123456789" (n % 10) (n % 10 + 1)

-- `shm_name_for_block`.
unfoldable pub shm_name_for_block : ℕ → ℕ → String
unfolding decimal
shm_name_for_block publisher_pid block_id =
    (("/ros2_cuda_ipc_" <> decimal 10 publisher_pid) <> "_") <> decimal 10 block_id

-- `make_mapping`.
abbrev pub make_mapping : (ℕ → ℕ) → String → ℕ → Mapping
make_mapping object_at shm_name addr = record {
  address = addr;
  shm_name = shm_name;
  block = object_at addr;
}

-- The failing branches of `create` after the object is made.
drop_object : String → ℕ → M (Option Mapping)
drop_object shm_name fd = do perform (close fd); perform (shm_unlink shm_name); pure none

-- The placement `new` and the first uid.
write_fresh : ℕ → ℕ → M (Unit {0})
write_fresh block uid d m =
    (tt, record m { store = write m.store block (record fresh_block { uid = uid }) })

-- `BufferMetadata::create`.
unfoldable pub create : (ℕ → ℕ) → String → M (Option Mapping)
unfolding drop_object write_fresh initial_uid
create object_at shm_name = do
  fd ← perform (shm_create shm_name)
  if not (is_ok fd) then pure none else do
    sized ← perform (ftruncate fd.value)
    if not (is_ok sized) then drop_object shm_name fd.value else do
      addr ← perform (mmap fd.value)
      if not (is_ok addr) then drop_object shm_name fd.value else do
        perform (close fd.value)
        random ← perform uuid_generate
        write_fresh (object_at addr.value) (initial_uid random.value)
        pure (some (make_mapping object_at shm_name addr.value))

-- `BufferMetadata::attach`. The answer to `fstat` has the size of the object.
unfoldable pub attach : (ℕ → ℕ) → String → M (Option Mapping)
attach object_at shm_name = do
  fd ← perform (shm_open shm_name)
  if not (is_ok fd) then pure none else do
    size ← perform (fstat_size fd.value)
    if not (is_ok size) || not (size.value == metadata_size)
        then (do perform (close fd.value); pure none)
        else do
          addr ← perform (mmap fd.value)
          perform (close fd.value)
          if not (is_ok addr)
              then pure none
              else pure (some (make_mapping object_at shm_name addr.value))

-- `~BufferMetadata`. A mapping is made with `metadata_size` bytes.
unfoldable pub drop_mapping : Mapping → M (Unit {0})
drop_mapping m =
    if m.address == 0 then pure tt else do perform (munmap m.address metadata_size); pure tt
