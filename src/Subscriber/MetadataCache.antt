-- ===== src/Subscriber/MetadataCache.antt =====
-- ros2_cuda_ipc_core/src/subscriber/buffer_metadata_cache.cpp and its header. `get_or_attach` holds the
-- mutex twice: `lookup` and `settle` are its two critical sections, and `others` is what other threads
-- do to the cache between them. Attaching is a parameter: it opens a shared-memory object.
pub mod Fresh
use ros2_cuda_ipc.Base.{
  ℕ, Bool, true, false, ◌&&◌, Option, none, some, List, [], ◌∷◌, ◌==◌, if◌then◌else◌, length,
}
use ros2_cuda_ipc.Metadata.{Mapping, Store}
use ros2_cuda_ipc.Metadata.Ref.{current_uid}

-- An entry of `mappings_`, with its `Key`.
pub record Entry : Type 0 where
  pub publisher_pid : ℕ
  pub block_id : ℕ
  pub mapping : Mapping

abbrev pub Cache : Type 0
Cache = List Entry

-- `Key::operator==`.
abbrev pub has_key : ℕ → ℕ → Entry → Bool
has_key pid block e = e.publisher_pid == pid && e.block_id == block

-- `find`, `erase` and `emplace` of an `std::unordered_map`.
unfoldable pub find : ℕ → ℕ → Cache → Option Mapping
find pid block [] = none
find pid block (e ∷ l) =
    let rest = find pid block l in if has_key pid block e then some e.mapping else rest

unfoldable pub erase : ℕ → ℕ → Cache → Cache
erase pid block [] = []
erase pid block (e ∷ l) =
    let rest = erase pid block l in if has_key pid block e then l else e ∷ rest

unfoldable pub emplace : ℕ → ℕ → Mapping → Cache → Cache
emplace pid block m l = elim (find pid block l) [
  | some _ ↦ l
  | none ↦ record { publisher_pid = pid; block_id = block; mapping = m } ∷ l
]

-- `current_uid && *current_uid == expected_uid`.
abbrev pub has_uid : Store → ℕ → Mapping → Bool
has_uid s uid m = (s m.block).uid == uid

-- An entry that was found: it is returned, or dropped.
unfoldable pub trusted : Store → ℕ → ℕ → ℕ → Cache → Option Mapping → Option Mapping × Cache
trusted s pid block uid l none = (none, l)
trusted s pid block uid l (some m) =
    if has_uid s uid m then (some m, l) else (none, erase pid block l)

-- The first critical section.
unfoldable pub lookup : Store → ℕ → ℕ → ℕ → Cache → Option Mapping × Cache
lookup s pid block uid l = trusted s pid block uid l (find pid block l)

-- The last critical section, on the candidate `m`, once the entry of another thread is looked at.
unfoldable pub settle_with : ℕ → ℕ → Mapping → Option Mapping × Cache → Option Mapping × Cache
settle_with pid block m (some found, l) = (some found, l)
settle_with pid block m (none, l) = (some m, emplace pid block m l)

unfoldable pub settle : Store → ℕ → ℕ → ℕ → Mapping → Cache → Option Mapping × Cache
settle s pid block uid m l = settle_with pid block m (lookup s pid block uid l)

-- The attempt to attach: `s` is the memory when the candidate is tested, `s'` in the last section.
unfoldable pub attach_candidate :
    Store → Store → ℕ → ℕ → ℕ → Cache → Option Mapping → Option Mapping × Cache
attach_candidate s s' pid block uid l none = (none, l)
attach_candidate s s' pid block uid l (some m) =
    if has_uid s uid m then settle s' pid block uid m l else (none, l)

unfoldable pub after_lookup :
    Store
    → Store
    → ℕ
    → ℕ
    → ℕ
    → (Cache → Cache)
    → Option Mapping
    → Option Mapping × Cache
    → Option Mapping × Cache
after_lookup s s' pid block uid others attached (some m, l) = (some m, l)
after_lookup s s' pid block uid others attached (none, l) =
    attach_candidate s s' pid block uid (others l) attached

-- `get_or_attach`. The memory may be another at each of the three tests of a uid.
unfoldable pub get_or_attach :
    (ℕ → ℕ → Option Mapping)
    → Store
    → Store
    → Store
    → ℕ
    → ℕ
    → ℕ
    → (Cache → Cache)
    → Cache
    → Option Mapping × Cache
get_or_attach attach s0 s1 s2 pid block uid others l =
    after_lookup s1 s2 pid block uid others (attach pid block) (lookup s0 pid block uid l)

-- `clear` and `size`.
unfoldable pub clear : Cache → Cache
clear l = []

unfoldable pub size : Cache → ℕ
size l = length l
