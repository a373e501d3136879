-- ===== src/Fanout/Launch/Sizes.antt =====
-- No launch of src/cuda/kernels.cu changes the size of an allocation.
use ros2_cuda_ipc.Base.{
  ℕ, ◌/◌, ◌==◌, ◌||◌, not, ◌≡◌, refl, subst, ◌∙◌, ◌⊎◌, inl, inr, Option, none, some, List, [], ◌∷◌,
  Option-cases, Bool-cases, arith,
}
use ros2_cuda_ipc.Fanout.{Buffer, Grid, Thread, run, store}
use ros2_cuda_ipc.Fanout.Kernels.{rgba_to_luma_downscale2_kernel, plane_grid, positive}
use ros2_cuda_ipc.Fanout.Launch.{
  Launched, failed, faulted, finished, launch, launch_rgba_to_luma_downscale2_kernel,
}
use ros2_cuda_ipc.Fanout.Runtime.{Runtime, RuntimeLog, ◌>>=◌, is_ok, launch_kernel}

-- No kernel changes the size of an allocation.
kernel-size :
    (g : Grid) (input : Buffer) (width height stride : ℕ) (t : Thread) (b c : Buffer)
    → rgba_to_luma_downscale2_kernel g input width height stride t b ≡ some c
    → c.size ≡ b.size
unfolding rgba_to_luma_downscale2_kernel store
kernel-size g input width height stride t b c e = ground (arith, e)

run-size :
    (step : Thread → Buffer → Option Buffer)
    → ((t : Thread) (b c : Buffer) → step t b ≡ some c → c.size ≡ b.size)
    → (ts : List Thread) (b c : Buffer) → run step ts b ≡ some c
    → c.size ≡ b.size
unfolding run
run-size step h [] b c e = ground (arith, e)
run-size step h (t ∷ ts) b c e = elim (Option-cases (step t b)) [
  | inl f ↦ ground (arith, e, f)
  | inr (b', f) ↦
      run-size step h ts b' c
        (subst (λ o. elim o [ none ↦ none | some s ↦ run step ts s ] ≡ some c) f e)
      ∙ h t b b' f
]

-- What a launch leaves has the size of what it was given.
abbrev pub SameSize : Option Buffer → Launched Buffer → Type 0
SameSize o result =
    ((e : ℕ) × (result ≡ failed e))
    ⊎ (result ≡ faulted)
    ⊎ ((b : Buffer) × (v : Buffer) × (o ≡ some b) × (result ≡ finished v) × (v.size ≡ b.size))

module _ (d : Runtime) where
  launch-SameSize :
      (step : Thread → Buffer → Option Buffer)
      → ((t : Thread) (b c : Buffer) → step t b ≡ some c → c.size ≡ b.size)
      → (g : Grid) (b : Buffer) (l : RuntimeLog) → SameSize (some b) (launch step g b d l).0
  unfolding launch
  launch-SameSize step h g b l =
      let a = d.reply l (launch_kernel g) in
      let l' = (launch_kernel g, a) ∷ l in
      elim (Bool-cases (is_ok a)) [
        | inr k ↦ rw (◌>>=◌, k) (inl (a.code, refl))
        | inl k ↦ elim (Option-cases (run step (d.schedule l' g) b)) [
          | inl f ↦ rw (◌>>=◌, k, f) (inr (inl refl))
          | inr (v, f) ↦
              rw (◌>>=◌, k, f)
                (inr (inr (b, v, refl, refl, run-size step h (d.schedule l' g) b v f)))
        ]
      ]

  pub launch_luma-SameSize :
      (i o : Option Buffer) (width height stride : ℕ) (l : RuntimeLog)
      → SameSize o (launch_rgba_to_luma_downscale2_kernel i o width height stride d l).0
  unfolding launch_rgba_to_luma_downscale2_kernel
  launch_luma-SameSize none o width height stride l = inl (1, refl)
  launch_luma-SameSize (some i) none width height stride l = inl (1, refl)
  launch_luma-SameSize (some i) (some b) width height stride l =
      let g = plane_grid (width / 2) (height / 2) in
      let sizes =
        launch-SameSize (rgba_to_luma_downscale2_kernel g i width height stride)
          (λ t b c e. kernel-size g i width height stride t b c e) g b l in
      elim (Bool-cases (not (positive width) || not (positive height) || stride == 0)) [
        | inl e ↦ rw (e) (inl (1, refl))
        | inr e ↦ elim (Bool-cases (not (positive (width / 2)) || not (positive (height / 2)))) [
          | inl f ↦ rw (e, f) (inl (1, refl))
          | inr f ↦ rw (e, f) sizes
        ]
      ]
