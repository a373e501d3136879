-- ===== src/Fanout/Threads.antt =====
-- One order of the threads of a grid, row by row. It shows that every grid has a schedule.
use ros2_cuda_ipc.Base.{
  ℕ, zero, suc, ◌+◌, ◌≡◌, refl, ◌∙◌, Bool, ◌&&◌, ltb, ◌==◌, if◌then◌else◌, List, [], ◌∷◌, ◌++◌,
  arith,
}
use ros2_cuda_ipc.Fanout.{Grid, Thread, occurrences, IsSchedule}
use ros2_cuda_ipc.Fanout.Linear.{sum, sum_congr, sum_pick}

unfoldable pub gather : ℕ → (ℕ → List Thread) → List Thread
gather zero f = []
gather (suc n) f = gather n f ++ f n

unfoldable pub threads : Grid → List Thread
threads g = gather g.grid_y λ by. gather g.grid_x λ bx. gather g.block_y λ ty.
    gather g.block_x λ tx. record { block_x = bx; block_y = by; thread_x = tx; thread_y = ty } ∷ []

occurrences-append :
    (t : Thread) (us vs : List Thread)
    → occurrences t (us ++ vs) ≡ occurrences t us + occurrences t vs
occurrences-append t [] vs = omega arith
occurrences-append t (u ∷ us) vs = omega (arith, occurrences-append t us vs)

occurrences-gather :
    (t : Thread) (n : ℕ) (f : ℕ → List Thread)
    → occurrences t (gather n f) ≡ sum n (λ i. occurrences t (f i))
unfolding gather sum
occurrences-gather t zero f = refl
occurrences-gather t (suc n) f =
    omega (arith, occurrences-append t (gather n f) (f n), occurrences-gather t n f)

-- A list for each number, of which only the one for `k` counts.
one_of :
    (t : Thread) (n k v : ℕ) (f : ℕ → List Thread)
    → ((i : ℕ) → occurrences t (f i) ≡ (if i == k then v else 0))
    → occurrences t (gather n f) ≡ (if ltb k n then v else 0)
one_of t n k v f h = occurrences-gather t n f ∙ sum_congr n _ _ (λ i p. h i) ∙ sum_pick n k v

pub threads-IsSchedule : (g : Grid) → IsSchedule g (threads g)
unfolding threads
threads-IsSchedule g t =
    let test : Bool → ℕ = λ b. if b then 1 else 0 in
    one_of t g.grid_y t.block_y
      (test (ltb t.block_x g.grid_x && ltb t.thread_y g.block_y && ltb t.thread_x g.block_x)) _
      (λ by.
        one_of t g.grid_x t.block_x
          (test (by == t.block_y && ltb t.thread_y g.block_y && ltb t.thread_x g.block_x)) _
          (λ bx.
            one_of t g.block_y t.thread_y
              (test (by == t.block_y && bx == t.block_x && ltb t.thread_x g.block_x)) _
              (λ ty.
                one_of t g.block_x t.thread_x
                  (test (by == t.block_y && bx == t.block_x && ty == t.thread_y)) _
                  (λ tx. ground arith)
                ∙ ground arith)
            ∙ ground arith)
        ∙ ground arith)
    ∙ ground arith
