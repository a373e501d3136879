-- ===== src/Fanout/Checksum.antt =====
-- The number that a launch of checksum_u8_kernel leaves.
use ros2_cuda_ipc.Base.{
  ℕ, ◌+◌, ◌-◌, ◌*◌, ◌%◌, ◌≤◌, ◌<◌, ◌≡◌, ◌∙◌, ap, inl, inr, false, some, ltb, leb, if◌then◌else◌,
  List, [], ◌∷◌, total, Bool-cases, arith, u32_mod, u64_max, u64_mod,
}
use ros2_cuda_ipc.Fanout.{Buffer, Thread, run, IsSchedule}
use ros2_cuda_ipc.Fanout.Kernels.{checksum_u8_kernel, linear_grid, linear_index}
use ros2_cuda_ipc.Fanout.Linear.{total-elements, sum}
use ros2_cuda_ipc.Fanout.Memory.{load-inside}

-- Each byte by its weight, in unbounded arithmetic.
unfoldable pub weighted_sum : (ℕ → ℕ) → ℕ → ℕ
weighted_sum at count = sum count (λ i. at i * (i % 251 + 1))

module _ (input : Buffer) (count : ℕ) (room : count ≤ input.size) (size_max : count ≤ u64_max) where
  abbrev contribution : Thread → ℕ
  contribution t =
      let i = linear_index (linear_grid count) t in
      if ltb i count then input.at i * (i % 251 + 1) else 0

  kernel_adds :
      (t : Thread) (checksum : ℕ)
      → checksum < u64_mod
      → checksum_u8_kernel (linear_grid count) input count t checksum
        ≡ some ((checksum + contribution t) % u64_mod)
  unfolding checksum_u8_kernel
  kernel_adds t checksum h =
      let i = linear_index (linear_grid count) t in
      elim (Bool-cases (ltb i count)) [
        | inl p ↦
            let near : leb count i ≡ false = ground (arith, p) in
            rw (p, near, load-inside input i (ground (arith, p, room))) (ap some (omega arith))
        | inr p ↦ rw (p) (ground (arith, p, h))
      ]

  run_adds :
      (ts : List Thread) (checksum : ℕ)
      → checksum < u64_mod
      → run (checksum_u8_kernel (linear_grid count) input count) ts checksum
        ≡ some ((checksum + total contribution ts) % u64_mod)
  unfolding run
  run_adds [] checksum h = ap some (omega (arith, h))
  run_adds (t ∷ ts) checksum h =
      rw
        (
          kernel_adds t checksum h,
          run,
          run_adds ts ((checksum + contribution t) % u64_mod) (omega arith),
        )
        (ap some (omega arith))

  -- Of at least 1 and at most 2 ^ 32 - 256 elements, any order of the threads of the launcher's grid
  -- leaves the weighted sum of all elements, modulo 2 ^ 64.
  pub run-weighted_sum :
      (ts : List Thread)
      → 0 < count
      → count ≤ u32_mod - 256
      → IsSchedule (linear_grid count) ts
      → run (checksum_u8_kernel (linear_grid count) input count) ts 0
        ≡ some (weighted_sum input.at count % u64_mod)
  unfolding weighted_sum
  run-weighted_sum ts pos most s =
      run_adds ts 0 (omega arith)
      ∙ ap (λ n. some (n % u64_mod))
          (omega arith ∙ total-elements count (λ i. input.at i * (i % 251 + 1)) ts pos most s)
