-- ===== src/Metadata/Protocol.antt =====
-- buffer_ref.cpp with any number of threads and processes at work on one block: each step is one
-- atomic instruction of one thread, and a schedule is any sequence of steps.
pub mod Lists
pub mod Invariant
pub mod Safety
pub mod Stale
pub mod Solo
use ros2_cuda_ipc.Base.{
  ℕ, zero, suc, ◌+◌, ◌-◌, Bool, true, false, not, ◌&&◌, ◌||◌, Option, none, some, List, [], ◌∷◌,
  ltb, ◌==◌, if◌then◌else◌, u32_max, u64_max, get_elem?, set, total,
}
use ros2_cuda_ipc.Metadata.{BlockMetadata, fetch_sub}
use ros2_cuda_ipc.Metadata.Ref.{grace_period_us}

-- Where a thread stands. A thread that is between two calls and owns nothing is `idle`.
pub data Thread : Type 0 where
  idle : Thread
  -- `reserve_for_publish`: the count was seen at 0; the timestamp was accepted; the exchange is
  -- made; the uid is read; the next uid is stored; the reservation is returned.
  reading_time : ℕ → Thread
  claiming : Thread
  claimed : Thread
  giving_up : Thread
  numbered : ℕ → Thread
  stored : ℕ → Thread
  writing : ℕ → Thread
  -- `release_publisher_reservation`: the uid was checked and the timestamp is due; the count is due.
  stamping : ℕ → ℕ → Thread
  ending : ℕ → Thread
  -- A failed preparation keeps its reservation for good.
  quarantined : ℕ → Thread
  -- A count went below 0 and is to be reset.
  underflowed : Thread
  -- `acquire`: the uid was checked; the count was read; the count is raised; the uid was checked
  -- again, or had changed. The mark on `holding` says if a publisher was between its exchange and its
  -- store of the uid at that second check; the program does not see the mark.
  seen : ℕ → Thread
  observed : ℕ → ℕ → Thread
  counted : ℕ → Thread
  undoing : Thread
  holding : ℕ → Bool → Thread

-- What the surroundings decide at a step: the call that an idle thread makes, what a publisher does
-- with its reservation, that a reader is done, or that a weak exchange fails spuriously.
pub data Choice : Type 0 where
  go spurious cancel quarantine release : Choice
  reserve acquire commit : ℕ → Choice

start : Choice → BlockMetadata → BlockMetadata × Thread
start (reserve now) b = if b.refcount == 0 then (b, reading_time now) else (b, idle)
start (acquire uid) b = if b.uid == uid then (b, seen uid) else (b, idle)
start _ b = (b, idle)

-- A publisher that holds generation `uid`.
publish : Choice → ℕ → BlockMetadata → BlockMetadata × Thread
publish (commit now) uid b = if b.uid == uid then (b, stamping uid now) else (b, quarantined uid)
publish cancel uid b = if b.uid == uid then (b, ending uid) else (b, quarantined uid)
publish quarantine uid b = (b, quarantined uid)
publish _ uid b = (b, writing uid)

-- `fetch_sub`, and the test for an underflow that follows it.
drop_reference : BlockMetadata → BlockMetadata × Thread
drop_reference b = (fetch_sub b, if b.refcount == 0 then underflowed else idle)

exchange : Choice → ℕ → ℕ → BlockMetadata → BlockMetadata × Thread
exchange spurious uid r b = (b, observed uid b.refcount)
exchange _ uid r b =
    if b.refcount == r
    then (record b { refcount = r + 1 }, counted uid)
    else (b, observed uid b.refcount)

finish_read : Choice → ℕ → Bool → BlockMetadata → BlockMetadata × Thread
unfolding drop_reference
finish_read release uid w b = drop_reference b
finish_read _ uid w b = (b, holding uid w)

-- One atomic step of a thread. `window` is the mark for a second check that is made now.
unfoldable pub thread_step : Choice → Bool → BlockMetadata → Thread → BlockMetadata × Thread
unfolding start publish drop_reference exchange finish_read fetch_sub
thread_step c window b idle = start c b
thread_step c window b (reading_time now) =
    if not (b.publish_timestamp_us == 0)
      && (ltb now b.publish_timestamp_us || ltb (now - b.publish_timestamp_us) grace_period_us)
    then (b, idle)
    else (b, claiming)
thread_step c window b claiming =
    if b.refcount == 0 then (record b { refcount = 1 }, claimed) else (b, idle)
thread_step c window b claimed = (b, if b.uid == u64_max then giving_up else numbered b.uid)
thread_step c window b giving_up = (record b { refcount = 0 }, idle)
thread_step c window b (numbered uid) = (record b { uid = uid + 1 }, stored (uid + 1))
thread_step c window b (stored uid) = (record b { publish_timestamp_us = 0 }, writing uid)
thread_step c window b (writing uid) = publish c uid b
thread_step c window b (stamping uid now) = (record b { publish_timestamp_us = now }, ending uid)
thread_step c window b (ending uid) = drop_reference b
thread_step c window b (quarantined uid) = (b, quarantined uid)
thread_step c window b underflowed = (record b { refcount = 0 }, idle)
thread_step c window b (seen uid) = (b, observed uid b.refcount)
thread_step c window b (observed uid r) = if r == u32_max then (b, idle) else exchange c uid r b
thread_step c window b (counted uid) = (b, if b.uid == uid then holding uid window else undoing)
thread_step c window b undoing = (fetch_sub b, idle)
thread_step c window b (holding uid w) = finish_read c uid w b

-- The threads between the exchange 0 → 1 of a reservation and its store of the new uid.
abbrev pub opening : Thread → ℕ
opening claimed = 1
opening (numbered _) = 1
opening _ = 0

pub record System : Type 0 where
  pub block : BlockMetadata
  pub threads : List Thread

-- The mark is a fact of the whole system.
abbrev pub in_window : System → Bool
in_window s = ltb 0 (total opening s.threads)

-- Thread `i` makes one step; a number that no thread has makes none.
unfoldable pub step : System → ℕ × Choice → System
step s (i, c) = elim (get_elem? s.threads i) [
  | none ↦ s
  | some t ↦
      let (b, t') = thread_step c (in_window s) s.block t in
      record { block = b; threads = set s.threads i t' }
]

unfoldable pub run : System → List (ℕ × Choice) → System
run s [] = s
run s (c ∷ cs) = run (step s c) cs

-- `n` threads before their first call.
abbrev pub idle_threads : ℕ → List Thread
idle_threads zero = []
idle_threads (suc n) = idle ∷ idle_threads n
