-- ===== src/Metadata/Protocol/Invariant.antt =====
-- What every schedule of the operations of buffer_ref.cpp keeps that leaves the block a uid.
pub mod Steps
use ros2_cuda_ipc.Base.{
  ℕ, zero, suc, ◌+◌, ◌≤◌, ◌<◌, ◌≡◌, refl, sym, subst, ◌⊎◌, inl, inr, Bool, false, some, List, [],
  ◌∷◌, arith, u32_max, u64_max, get_elem?, set, All, total, length, Option-cases,
}
use ros2_cuda_ipc.Metadata.{BlockMetadata}
use ros2_cuda_ipc.Metadata.Protocol.Lists.{total-set, le-total, All-set, All-get}
use ros2_cuda_ipc.Metadata.Protocol.{
  Thread, idle, reading_time, claiming, claimed, giving_up, numbered, stored, writing, stamping,
  ending, quarantined, underflowed, seen, observed, holding, Choice, thread_step, opening, System,
  in_window, step, run, idle_threads,
}

-- The references that a thread has counted.
abbrev pub holds : Thread → ℕ
holds idle = 0
holds (reading_time _) = 0
holds claiming = 0
holds underflowed = 0
holds (seen _) = 0
holds (observed _ _) = 0
holds _ = 1

-- The threads that have the block for writing, or keep it from being written.
abbrev pub claims : Thread → ℕ
claims claimed = 1
claims giving_up = 1
claims (numbered _) = 1
claims (stored _) = 1
claims (writing _) = 1
claims (stamping _ _) = 1
claims (ending _) = 1
claims (quarantined _) = 1
claims _ = 0

-- The readers whose second check was made outside every publisher's window.
abbrev pub fresh : Thread → ℕ
fresh (holding _ false) = 1
fresh _ = 0

-- The generation that a thread relies on is the block's, and no thread is on the way to a reset.
abbrev pub Agrees : ℕ → Thread → Type 0
Agrees uid (numbered u) = u ≡ uid
Agrees uid (stored u) = u ≡ uid
Agrees uid (writing u) = u ≡ uid
Agrees uid (stamping u _) = u ≡ uid
Agrees uid (ending u) = u ≡ uid
Agrees uid (holding u false) = u ≡ uid
Agrees uid giving_up = ⊥
Agrees uid underflowed = ⊥
Agrees uid _ = Unit

pub record Inv (s : System) : Type 0 where
  pub count : s.block.refcount ≡ total holds s.threads
  pub bound : s.block.refcount ≤ u32_max
  pub single : total claims s.threads ≤ 1
  pub window : (total opening s.threads ≡ 0) ⊎ (total fresh s.threads ≡ 0)
  pub agrees : All (Agrees s.block.uid) s.threads

-- What one step of one thread does to its block and to the measures above.
pub record Effect (window : Bool) (b : BlockMetadata) (t : Thread) (b' : BlockMetadata)
    (t' : Thread) : Type 0 where
  pub count : b'.refcount + holds t ≡ b.refcount + holds t'
  pub bound : b'.refcount ≤ u32_max
  pub claim : (claims t' ≤ claims t) ⊎ ((b.refcount ≡ 0) × (claims t' ≡ 1))
  pub open_window :
      (opening t' ≤ opening t) ⊎ ((b.refcount ≡ 0) × (opening t' ≡ 1) × (fresh t' ≡ 0))
  pub validate : (fresh t' ≤ fresh t) ⊎ ((window ≡ false) × (opening t' ≡ 0))
  pub agree : Agrees b'.uid t'
  pub renumber :
      (b'.uid ≡ b.uid) ⊎ ((b'.uid ≡ b.uid + 1) × (claims t ≡ 1) × (opening t ≡ 1) × (fresh t ≡ 0))

module _ (c : Choice) (w : Bool) (b : BlockMetadata) where
  abbrev Effects : Thread → Type 0
  Effects t = Effect w b t (thread_step c w b t).0 (thread_step c w b t).1

  pub thread_step-Effect :
      (t : Thread)
      → b.refcount ≤ u32_max
      → b.uid < u64_max
      → holds t ≤ b.refcount
      → Agrees b.uid t
      → Effects t
  unfolding thread_step
  thread_step-Effect idle r u h a = ground arith
  thread_step-Effect (holding uid false) r u h a = ground arith
  thread_step-Effect _ r u h a = ground arith
