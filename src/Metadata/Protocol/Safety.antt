-- ===== src/Metadata/Protocol/Safety.antt =====
-- What the reference protocol of buffer_ref.cpp promises, for every schedule that leaves the block a
-- uid: a reservation that finds none left stores 0 over the counts of readers.
use ros2_cuda_ipc.Base.{
  ℕ, ◌+◌, ◌≤◌, ◌≡◌, ◌≢◌, false, none, some, List, arith, u32_max, u64_max, get_elem?, total, length,
}
use ros2_cuda_ipc.Metadata.{BlockMetadata}
use ros2_cuda_ipc.Metadata.Ref.{reserve_block}
use ros2_cuda_ipc.Metadata.Protocol.Lists.{le-total, le-total_two, All-get}
use ros2_cuda_ipc.Metadata.Protocol.Invariant.{holds, claims, fresh, Agrees, Inv}
use ros2_cuda_ipc.Metadata.Protocol.Invariant.Steps.{run-Inv, start-Inv}
use ros2_cuda_ipc.Metadata.Protocol.{
  Thread, writing, holding, underflowed, Choice, opening, System, run, idle_threads,
}

-- A block that nobody refers to, before the first call of `n` threads.
abbrev pub start_system : BlockMetadata → ℕ → System
start_system b n = record { block = b; threads = idle_threads n }

module _ (b : BlockMetadata) (n : ℕ) (cs : List (ℕ × Choice)) (unused : b.refcount ≡ 0)
    (room : b.uid + length cs ≤ u64_max) where
  abbrev reached : System
  reached = run (start_system b n) cs

  reached-Inv : Inv reached
  reached-Inv = (run-Inv (start_system b n) cs room (start-Inv b n unused)).0

  -- A block that nobody refers to at first, and any schedule that is too short for the uid to reach its
  -- last value: `b.uid` and the number of steps add up to at most 2 ^ 64 - 1, so that no reservation
  -- fails for want of a uid. After it, the count is the number of references that threads have taken and not given
  -- back, it is within 32 bits, and no thread ever finds it below zero.
  pub refcount-holds :
      (reached.block.refcount ≡ total holds reached.threads)
      × (reached.block.refcount ≤ u32_max)
      × ((i : ℕ) → get_elem? reached.threads i ≢ some underflowed)
  refcount-holds =
      let v = reached-Inv in
      (
        v.count,
        v.bound,
        λ i e. All-get (Agrees reached.block.uid) reached.threads i underflowed v.agrees e,
      )

  -- After any schedule of a block that nobody refers to at first, too short for the uid to reach its
  -- last value (`b.uid` and the number of steps add up to at most 2 ^ 64 - 1), two different threads never both have the block reserved, from the exchange
  -- of the reservation to the end of the commit or cancellation.
  pub one_publisher :
      (i j : ℕ) (t t' : Thread)
      → i ≢ j
      → get_elem? reached.threads i ≡ some t
      → get_elem? reached.threads j ≡ some t'
      → claims t + claims t' ≤ 1
  one_publisher i j t t' ne e e' =
      omega (arith, reached-Inv.single, le-total_two claims reached.threads i j t t' ne e e')

  -- After any schedule of a block that nobody refers to at first, too short for the uid to reach its
  -- last value (`b.uid` and the number of steps add up to at most 2 ^ 64 - 1), a reader whose second check was made outside every publisher's window refers
  -- to the generation that the block has, nobody can reserve the block, no publisher is about to
  -- change its generation, and a publisher that is writing has that same generation.
  pub reader_safe :
      (i : ℕ) (uid : ℕ)
      → get_elem? reached.threads i ≡ some (holding uid false)
      → (reached.block.uid ≡ uid)
        × ((now : ℕ) → (reserve_block now reached.block).1 ≡ none)
        × (total opening reached.threads ≡ 0)
        × ((j u : ℕ) → get_elem? reached.threads j ≡ some (writing u) → u ≡ uid)
  unfolding reserve_block
  reader_safe i uid e =
      let v = reached-Inv in
      let own : uid ≡ reached.block.uid =
        All-get (Agrees reached.block.uid) reached.threads i (holding uid false) v.agrees e in
      let some_hold = le-total holds reached.threads i (holding uid false) e in
      let some_fresh = le-total fresh reached.threads i (holding uid false) e in
      (
        omega arith,
        λ now. ground (arith, v.count),
        ground (arith, v.window),
        λ j u e'.
            let other : u ≡ reached.block.uid =
              All-get (Agrees reached.block.uid) reached.threads j (writing u) v.agrees e' in
            omega arith,
      )
