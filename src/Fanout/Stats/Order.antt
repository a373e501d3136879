-- ===== src/Fanout/Stats/Order.antt =====
-- What the statistics of src/cuda/kernels.cu are, whatever the order of the threads.
use ros2_cuda_ipc.Base.{
  ℕ, ◌+◌, ◌-◌, ◌*◌, ◌%◌, ◌≤◌, ◌<◌, ◌≡◌, refl, ◌∙◌, subst, ap, ◌⊎◌, inl, inr, true, some, ltb, leb,
  List, [], ◌∷◌, All, total, Bool-cases, false, if◌then◌else◌, arith, u32_mod, u64_mod,
}
use ros2_cuda_ipc.Fanout.{Array, Thread, run, IsSchedule}
use ros2_cuda_ipc.Fanout.Kernels.{linear_grid, linear_index}
use ros2_cuda_ipc.Fanout.Linear.{sum, thread_of, thread_of-linear_grid, total-elements}
use ros2_cuda_ipc.Fanout.Memory.{load-inside}
use ros2_cuda_ipc.Fanout.Schedule.{IsSchedule_at}
use ros2_cuda_ipc.Fanout.Stats.{
  Floats, DeviceInferenceStats, inference_stats_accumulate_kernel, host_init,
}
use Prim.Native.Nat.{min, max}

module _ {Float : Type 0} (floats : Floats Float) (input : Array Float) (count : ℕ)
    (room : count ≤ input.size) where
  abbrev index : Thread → ℕ
  index t = linear_index (linear_grid count) t

  abbrev bits : ℕ → ℕ
  bits i = floats.as_uint (input.at i)

  abbrev term : Thread → ℕ
  term t =
      if ltb (index t) count then floats.quantized (input.at (index t)) * (index t % 251 + 1) else 0

  -- The extremes bound the elements of the threads, and are the old ones or elements; the checksum grows
  -- by the terms of the threads.
  abbrev Extends : List Thread → DeviceInferenceStats Float → DeviceInferenceStats Float → Type 0
  Extends ts s s' =
      (s'.min_bits ≤ s.min_bits)
      × (s.max_bits ≤ s'.max_bits)
      × All (λ t. index t < count → (s'.min_bits ≤ bits (index t)) × (bits (index t) ≤ s'.max_bits))
          ts
      × ((s'.min_bits ≡ s.min_bits) ⊎ ((i : ℕ) × (i < count) × (s'.min_bits ≡ bits i)))
      × ((s'.max_bits ≡ s.max_bits) ⊎ ((i : ℕ) × (i < count) × (s'.max_bits ≡ bits i)))
      × (s'.checksum ≡ (s.checksum + total term ts) % u64_mod)

  after : Thread → DeviceInferenceStats Float → DeviceInferenceStats Float
  after t s =
      if ltb (index t) count
      then record {
        mean = floats.add s.mean (input.at (index t));
        min_bits = min s.min_bits (bits (index t));
        max_bits = max s.max_bits (bits (index t));
        checksum =
            (s.checksum + floats.quantized (input.at (index t)) * (index t % 251 + 1) % u64_mod)
            % u64_mod;
      }
      else s

  kernel-after :
      (t : Thread) (s : DeviceInferenceStats Float)
      → inference_stats_accumulate_kernel floats (linear_grid count) input count t s
        ≡ some (after t s)
  unfolding inference_stats_accumulate_kernel after
  kernel-after t s = elim (Bool-cases (ltb (index t) count)) [
    | inl p ↦
        let near : leb count (index t) ≡ false = ground (arith, p) in
        rw (p, near, load-inside input (index t) (ground (arith, p, room))) refl
    | inr p ↦ let far : leb count (index t) ≡ true = ground (arith, p) in rw (p, far) refl
  ]

  step-Extends :
      (t : Thread) (s : DeviceInferenceStats Float)
      → s.checksum < u64_mod
      → Extends (t ∷ []) s (after t s)
  unfolding after
  step-Extends t s small = elim (Bool-cases (ltb (index t) count)) [
    | inl p ↦
        let low : (min s.min_bits (bits (index t)) ≡ s.min_bits)
            ⊎ (min s.min_bits (bits (index t)) ≡ bits (index t)) =
          ground arith in
        let high : (max s.max_bits (bits (index t)) ≡ s.max_bits)
            ⊎ (max s.max_bits (bits (index t)) ≡ bits (index t)) =
          ground arith in
        let here : index t < count = ground (arith, p) in
        rw (p) (
          omega arith,
          omega arith,
          (λ q. (omega arith, omega arith), tt),
          elim low [ inl e ↦ inl e | inr e ↦ inr (index t, here, e) ],
          elim high [ inl e ↦ inl e | inr e ↦ inr (index t, here, e) ],
          omega arith,
        )
    | inr p ↦ rw (p) (
      omega arith,
      omega arith,
      (λ q. ground (arith, p, q), tt),
      inl refl,
      inl refl,
      omega (arith, small),
    )
  ]

  run-Extends :
      (ts : List Thread) (s : DeviceInferenceStats Float)
      → s.checksum < u64_mod
      → (s' : DeviceInferenceStats Float) × (run
            (inference_stats_accumulate_kernel floats (linear_grid count) input count)
            ts
            s
          ≡ some s')
        × Extends ts s s'
  unfolding run
  run-Extends [] s small =
      (s, refl, (omega arith, omega arith, tt, inl refl, inl refl, omega (arith, small)))
  run-Extends (t ∷ ts) s small =
      let (low, high, (own, none_left), least, most, sum) = step-Extends t s small in
      let (s', done, (low', high', all, least', most', sum')) =
        run-Extends ts (after t s) (omega (arith, sum)) in
      (
        s',
        rw (kernel-after t s, run) done,
        (
          omega (arith, low, low'),
          omega (arith, high, high'),
          ((λ p. (omega (arith, (own p).0, low'), omega (arith, (own p).1, high'))), all),
          elim least' [
            | inl e ↦ elim least [ inl f ↦ inl (e ∙ f) | inr (i, p, f) ↦ inr (i, p, e ∙ f) ]
            | inr x ↦ inr x
          ],
          elim most' [
            | inl e ↦ elim most [ inl f ↦ inl (e ∙ f) | inr (i, p, f) ↦ inr (i, p, e ∙ f) ]
            | inr x ↦ inr x
          ],
          omega (arith, sum, sum'),
        ),
      )

  -- Of at least 1 and at most 2 ^ 32 - 256 elements, any order of the threads of the launcher's grid ends
  -- without a fault, with a lower bound of the elements' bits that is infinity or the bits of an element,
  -- an upper bound that is 0 or the bits of an element, and the weighted sum of the quantized elements
  -- modulo 2 ^ 64. Nothing is said of the mean, a sum of floats that depends on the order.
  pub run-statistics :
      (ts : List Thread)
      → 0 < count
      → count ≤ u32_mod - 256
      → IsSchedule (linear_grid count) ts
      → (s : DeviceInferenceStats Float) × (run
            (inference_stats_accumulate_kernel floats (linear_grid count) input count)
            ts
            (host_init floats)
          ≡ some s)
        × ((i : ℕ) → i < count → (s.min_bits ≤ bits i) × (bits i ≤ s.max_bits))
        × ((s.min_bits ≡ 2139095040) ⊎ ((i : ℕ) × (i < count) × (s.min_bits ≡ bits i)))
        × ((s.max_bits ≡ 0) ⊎ ((i : ℕ) × (i < count) × (s.max_bits ≡ bits i)))
        × (s.checksum ≡ sum count (λ i. floats.quantized (input.at i) * (i % 251 + 1)) % u64_mod)
  run-statistics ts pos most sched =
      let g = linear_grid count in
      let (s, done, (low, high, all, least, greatest, checksum)) =
        run-Extends ts (host_init floats) (omega arith) in
      (
        s,
        done,
        λ i p.
            let (there, own) = thread_of-linear_grid count i most p in
            let bound : index (thread_of i) < count
                → (s.min_bits ≤ bits (index (thread_of i)))
                  × (bits (index (thread_of i)) ≤ s.max_bits) =
              IsSchedule_at g
                (λ t.
                  index t < count → (s.min_bits ≤ bits (index t)) × (bits (index t) ≤ s.max_bits))
                (thread_of i) ts sched there all in
            subst (λ k. k < count → (s.min_bits ≤ bits k) × (bits k ≤ s.max_bits)) own bound p,
        least,
        greatest,
        checksum
            ∙ ap (λ n. n % u64_mod)
                (omega arith
                  ∙ total-elements count (λ i. floats.quantized (input.at i) * (i % 251 + 1)) ts pos
                      most sched),
      )
