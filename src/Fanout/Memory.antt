-- ===== src/Fanout/Memory.antt =====
-- Loads and stores inside of an allocation.
use ros2_cuda_ipc.Base.{ℕ, ◌<◌, ◌≡◌, some, arith}
use ros2_cuda_ipc.Fanout.{Array, load, store, written}

module _ {V : Type 0} (b : Array V) (a : ℕ) (h : a < b.size) where
  pub load-inside : load b a ≡ some (b.at a)
  unfolding load
  load-inside = ground (arith, h)

  pub store-inside : (v : V) → store b a v ≡ some (written b a v)
  unfolding store
  store-inside v = ground (arith, h)
