-- ===== src/Metadata/Ref.antt =====
-- ros2_cuda_ipc_core/src/buffer_metadata/buffer_ref.cpp: the operations on one block, each run with
-- no other process in between. `Protocol` has the same operations interleaved.
use ros2_cuda_ipc.Base.{
  ℕ, zero, suc, ◌+◌, ◌-◌, Bool, true, false, not, ◌&&◌, ◌||◌, Option, none, some, ltb, ◌==◌,
  if◌then◌else◌, u32_max, u64_max,
}
use mathlib.Core.Option
use ros2_cuda_ipc.Metadata.{BlockMetadata, Mapping, Store, write, fetch_sub, compare_exchange}

-- `kGracePeriodUs`.
abbrev pub grace_period_us : ℕ
grace_period_us = 100000

-- `reserve_for_publish` on a mapped block, at the time `now`: the new uid, if it is reserved.
unfoldable pub reserve_block : ℕ → BlockMetadata → BlockMetadata × Option ℕ
unfolding compare_exchange
reserve_block now b =
    if not (b.refcount == 0)
    then (b, none)
    else if not (published_at == 0)
        && (ltb now published_at || ltb (now - published_at) grace_period_us)
    then (b, none)
    else let (b', claimed) = compare_exchange 0 1 b in
      if not claimed
      then (b', none)
      else if b'.uid == u64_max
      then (record b' { refcount = 0 }, none)
      else (record b' { uid = b'.uid + 1; publish_timestamp_us = 0 }, some (b'.uid + 1))
  where
    published_at : ℕ
    published_at = b.publish_timestamp_us

-- `release`, the part that touches the block: an underflow is reported and repaired.
unfoldable pub release_block : BlockMetadata → BlockMetadata
unfolding fetch_sub
release_block b = if b.refcount == 0 then record (fetch_sub b) { refcount = 0 } else fetch_sub b

-- `release_publisher_reservation` on a mapped block. `now` is read if `published` only.
unfoldable pub release_publisher_reservation : ℕ → ℕ → Bool → BlockMetadata → BlockMetadata × Bool
unfolding fetch_sub
release_publisher_reservation now uid published b =
    if not (b.uid == uid)
    then (b, false)
    else if b'.refcount == 0
    then (record (fetch_sub b') { refcount = 0 }, false)
    else (fetch_sub b', true)
  where
    b' : BlockMetadata
    b' = if published then record b { publish_timestamp_us = now } else b

-- The loop of `acquire`. `compare_exchange_weak` may fail spuriously and is then tried again with
-- the value that it read: `spurious` counts those failures. The result is the block, and whether the
-- count went up.
unfoldable pub count_reference : ℕ → ℕ → BlockMetadata → BlockMetadata × Bool
unfolding compare_exchange
count_reference zero observed b =
    if observed == u32_max then (b, false) else compare_exchange observed (observed + 1) b
count_reference (suc spurious) observed b =
    if observed == u32_max then (b, false) else count_reference spurious b.refcount b

-- `acquire` on a mapped block: whether the reference is valid.
unfoldable pub acquire_block : ℕ → ℕ → BlockMetadata → BlockMetadata × Bool
unfolding fetch_sub count_reference
acquire_block spurious uid b =
    if not (b.uid == uid)
    then (b, false)
    else let (b', counted) = count_reference spurious b.refcount b in
      if not counted
      then (b', false)
      else if not (b'.uid == uid)
      then (fetch_sub b', false)
      else (b', true)

-- The operations on a mapping, which may be null.
pub record PublisherReservation : Type 0 where
  pub mapping : Mapping
  pub uid : ℕ

unfoldable pub current_uid : Store → Option Mapping → Option ℕ
current_uid s none = none
current_uid s (some m) = some (s m.block).uid

unfoldable pub current_refcount : Store → Option Mapping → Option ℕ
current_refcount s none = none
current_refcount s (some m) = some (s m.block).refcount

unfoldable pub current_publish_timestamp_us : Store → Option Mapping → Option ℕ
current_publish_timestamp_us s none = none
current_publish_timestamp_us s (some m) = some (s m.block).publish_timestamp_us

unfoldable pub reserve_for_publish :
    ℕ → Store → Option Mapping → Store × Option PublisherReservation
reserve_for_publish now s none = (s, none)
reserve_for_publish now s (some m) =
    let (b, reserved) = reserve_block now (s m.block) in
    (write s m.block b, Option.map (λ uid. record { mapping = m; uid = uid }) reserved)

unfoldable pub end_reservation : ℕ → Bool → Store → Option Mapping → ℕ → Store × Bool
end_reservation now published s none uid = (s, false)
end_reservation now published s (some m) uid =
    let (b, done) = release_publisher_reservation now uid published (s m.block) in
    (write s m.block b, done)

unfoldable pub commit_publish : ℕ → Store → Option Mapping → ℕ → Store × Bool
unfolding end_reservation
commit_publish now = end_reservation now true

unfoldable pub cancel_publish : Store → Option Mapping → ℕ → Store × Bool
unfolding end_reservation
cancel_publish = end_reservation 0 false

-- A `BufferRef`: `block_meta` is null in the empty reference.
pub record BufferRef : Type 0 where
  pub mapping : Option Mapping
  pub block_meta : Option ℕ
  pub uid : ℕ

abbrev pub no_ref : BufferRef
no_ref = record { mapping = none; block_meta = none; uid = 0 }

unfoldable pub valid : BufferRef → Bool
valid r = elim r.block_meta [ none ↦ false | some _ ↦ true ]

unfoldable pub acquire : ℕ → Store → Option Mapping → ℕ → Store × BufferRef
acquire spurious s none uid = (s, no_ref)
acquire spurious s (some m) uid =
    let (b, held) = acquire_block spurious uid (s m.block) in
    (
      write s m.block b,
      if held then record { mapping = some m; block_meta = some m.block; uid = uid } else no_ref,
    )

-- `release`, which the destructor and the move assignment call.
unfoldable pub release : Store → BufferRef → Store × BufferRef
release s r = elim r.block_meta [
  | none ↦ (s, r)
  | some i ↦ (write s i (release_block (s i)), no_ref)
]

-- Move assignment between two objects: the new target, and the source that is left.
unfoldable pub move_assign : Store → BufferRef → BufferRef → Store × BufferRef × BufferRef
unfolding release
move_assign s target other =
    ((release s target).0, other, record { mapping = none; block_meta = none; uid = 0 })
