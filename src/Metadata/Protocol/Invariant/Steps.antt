-- ===== src/Metadata/Protocol/Invariant/Steps.antt =====
-- Every step, and so every schedule that leaves a uid, keeps the invariant of a block of buffer_ref.cpp.
use ros2_cuda_ipc.Base.{
  ℕ, zero, suc, ◌+◌, ◌≤◌, ◌<◌, ◌≡◌, refl, sym, subst, ◌⊎◌, inl, inr, false, some, List, [], ◌∷◌,
  arith, u64_max, get_elem?, set, All, total, length, Option-cases,
}
use ros2_cuda_ipc.Metadata.{BlockMetadata}
use ros2_cuda_ipc.Metadata.Protocol.Lists.{total-set, le-total, All-set, All-get}
use ros2_cuda_ipc.Metadata.Protocol.{
  Thread, idle, holding, Choice, thread_step, opening, System, in_window, step, run, idle_threads,
}
use ros2_cuda_ipc.Metadata.Protocol.Invariant.{
  holds, claims, fresh, Agrees, Inv, Effect, thread_step-Effect,
}

-- A thread with no claim and no fresh reading relies on no generation, save on the way to a reset.
Agrees-any : (u v : ℕ) (t : Thread) → claims t ≡ 0 → fresh t ≡ 0 → Agrees u t → Agrees v t
Agrees-any u v idle p q a = tt
Agrees-any u v (holding x false) p q a = ground arith
Agrees-any u v _ p q a = ground arith

All-Agrees-any :
    (u v : ℕ) (l : List Thread)
    → total claims l ≡ 0
    → total fresh l ≡ 0
    → All (Agrees u) l
    → All (Agrees v) l
All-Agrees-any u v [] p q a = tt
All-Agrees-any u v (t ∷ l) p q a = (
  Agrees-any u v t (omega arith) (omega arith) a.0,
  All-Agrees-any u v l (omega arith) (omega arith) a.1,
)

-- The one thread with a claim may change the generation, as long as nobody relies on the old one.
All-Agrees-set :
    (u v : ℕ) (l : List Thread) (i : ℕ) (t t' : Thread)
    → get_elem? l i ≡ some t
    → claims t ≡ 1
    → total claims l ≤ 1
    → total fresh l ≡ 0
    → Agrees v t'
    → All (Agrees u) l
    → All (Agrees v) (set l i t')
All-Agrees-set u v [] i t t' e c p q a' a = tt
All-Agrees-set u v (x ∷ l) zero t t' e c p q a' a =
    (a', All-Agrees-any u v l (ground arith) (ground arith) a.1)
All-Agrees-set u v (x ∷ l) (suc i) t t' e c p q a' a =
    let least : claims t ≤ total claims l = le-total claims l i t e in
    (
      Agrees-any u v x (omega arith) (omega arith) a.0,
      All-Agrees-set u v l i t t' e c (omega arith) (omega arith) a' a.1,
    )

claims-le-holds : (l : List Thread) → total claims l ≤ total holds l
claims-le-holds [] = omega arith
claims-le-holds (t ∷ l) = omega (arith, claims-le-holds l, one t)
  where
    one : (x : Thread) → claims x ≤ holds x
    one idle = omega arith
    one _ = omega arith

fresh-le-holds : (l : List Thread) → total fresh l ≤ total holds l
fresh-le-holds [] = omega arith
fresh-le-holds (t ∷ l) = omega (arith, fresh-le-holds l, one t)
  where
    one : (x : Thread) → fresh x ≤ holds x
    one idle = omega arith
    one (holding _ false) = omega arith
    one _ = omega arith

module _ (s : System) (i : ℕ) (c : Choice) (t : Thread) (e : get_elem? s.threads i ≡ some t) where
  abbrev result : BlockMetadata × Thread
  result = thread_step c (in_window s) s.block t

  abbrev after : System
  after = record { block = result.0; threads = set s.threads i result.1 }

  thread_step-Inv : s.block.uid < u64_max → Inv s → Inv after
  thread_step-Inv room v = record {
    count = omega (arith, sum_holds, f.count);
    bound = f.bound;
    single = omega (arith, sum_claims, f.claim, claims-le-holds s.threads);
    window = ground (
      arith,
      sum_open,
      sum_fresh,
      f.open_window,
      f.validate,
      fresh-le-holds s.threads,
      le-total opening s.threads i t e,
    );
    agrees = elim f.renumber [
      | inl same ↦
          All-set (Agrees result.0.uid) s.threads i result.1
            (subst (λ u. All (Agrees u) s.threads) (sym same) v.agrees) f.agree
      | inr moved ↦
          All-Agrees-set s.block.uid result.0.uid s.threads i t result.1 e moved.1 v.single
            (ground (arith, moved, le-total opening s.threads i t e)) f.agree v.agrees
    ];
  }
    where
      f : Effect (in_window s) s.block t result.0 result.1
      f =
          thread_step-Effect c (in_window s) s.block t v.bound room
            (subst (λ n. holds t ≤ n) (sym v.count) (le-total holds s.threads i t e))
            (All-get (Agrees s.block.uid) s.threads i t v.agrees e)

      sum_holds : total holds after.threads + holds t ≡ total holds s.threads + holds result.1
      sum_holds = total-set holds s.threads i t result.1 e

      sum_claims : total claims after.threads + claims t ≡ total claims s.threads + claims result.1
      sum_claims = total-set claims s.threads i t result.1 e

      sum_open :
          total opening after.threads + opening t ≡ total opening s.threads + opening result.1
      sum_open = total-set opening s.threads i t result.1 e

      sum_fresh : total fresh after.threads + fresh t ≡ total fresh s.threads + fresh result.1
      sum_fresh = total-set fresh s.threads i t result.1 e

-- A step keeps the invariant, and takes at most one generation.
step-Inv :
    (s : System) (x : ℕ × Choice)
    → s.block.uid < u64_max
    → Inv s
    → Inv (step s x)
      × ((step s x).block.uid ≤ s.block.uid + 1)
      × (s.block.uid ≤ (step s x).block.uid)
unfolding step
step-Inv s (i, c) room v = elim (Option-cases (get_elem? s.threads i)) [
  | inl e ↦ rw (e, step) (v, omega arith, omega arith)
  | inr (t, e) ↦
      let f = moved t e in
      rw (e, step) (thread_step-Inv s i c t e room v, omega (arith, f), omega (arith, f))
]
  where
    moved :
        (t : Thread)
        → get_elem? s.threads i ≡ some t
        → ((thread_step c (in_window s) s.block t).0.uid ≡ s.block.uid)
          ⊎ ((thread_step c (in_window s) s.block t).0.uid ≡ s.block.uid + 1)
    moved t e = ground (
      arith,
      (thread_step-Effect c (in_window s) s.block t v.bound room
          (subst (λ n. holds t ≤ n) (sym v.count) (le-total holds s.threads i t e))
          (All-get (Agrees s.block.uid) s.threads i t v.agrees e)).renumber,
    )

-- As long as the generations last, every schedule keeps the invariant, and no generation comes back.
pub run-Inv :
    (s : System) (cs : List (ℕ × Choice))
    → s.block.uid + length cs ≤ u64_max
    → Inv s
    → Inv (run s cs) × (s.block.uid ≤ (run s cs).block.uid)
unfolding run
run-Inv s [] room v = (v, omega arith)
run-Inv s (x ∷ cs) room v =
    let now = step-Inv s x (omega arith) v in
    let later = run-Inv (step s x) cs (omega arith) now.0 in (later.0, omega arith)

idle_total : (f : Thread → ℕ) (n : ℕ) → f idle ≡ 0 → total f (idle_threads n) ≡ 0
idle_total f zero h = refl
idle_total f (suc n) h = omega (arith, idle_total f n h)

idle_Agrees : (uid n : ℕ) → All (Agrees uid) (idle_threads n)
idle_Agrees uid zero = tt
idle_Agrees uid (suc n) = (tt, idle_Agrees uid n)

-- It holds before the first call.
pub start-Inv :
    (b : BlockMetadata) (n : ℕ)
    → b.refcount ≡ 0
    → Inv (record { block = b; threads = idle_threads n })
start-Inv b n h = record {
  count = omega (arith, idle_total holds n refl);
  bound = omega arith;
  single = omega (arith, idle_total claims n refl);
  window = inl (idle_total opening n refl);
  agrees = idle_Agrees b.uid n;
}
