-- ===== src/Dlpack/Capsule/Once.antt =====
-- The read of a DLPack export is released once.
use ros2_cuda_ipc.Base.{
  ◌≡◌, refl, ap, ◌∙◌, ◌&&◌, ◌⊎◌, inl, inr, Bool, true, false, not, Option, none, some, List, [],
  ◌∷◌, if◌then◌else◌,
}
use ros2_cuda_ipc.Dlpack.Capsule.{
  Objects, exported_objects, delete_context, dlpack_deleter, CapsuleName, dltensor,
  dltensor_versioned, other, dlpack_capsule_destructor, finish_export, export_capsule, Shared,
  Event, take, release, collect, named, step, run,
}

abbrev over : Objects
over = record { context_alive = false; managed_alive = false; manager_ctx = false; releases = 1 }

-- The states that the protocol reaches: the capsule has its name; a consumer has taken the tensor; the
-- tensor was deleted. The flag says that the capsule is still there, or, at first, is versioned.
data Phase : Type 0 where
  fresh taken done : Bool → Phase

abbrev left : Bool → Option CapsuleName
left b = if b then some other else none

abbrev state_of : Phase → Shared
state_of (fresh versioned) = record {
  capsule = some (if versioned then dltensor_versioned else dltensor);
  consumer = false;
  objects = exported_objects;
}
state_of (taken b) = record { capsule = left b; consumer = true; objects = exported_objects }
state_of (done b) = record { capsule = left b; consumer = false; objects = over }

step-Phase : (e : Event) (p : Phase) → (p' : Phase) × (step e (state_of p) ≡ some (state_of p'))
unfolding step dlpack_capsule_destructor dlpack_deleter delete_context
step-Phase take (fresh true) = (taken true, refl)
step-Phase take (fresh false) = (taken true, refl)
step-Phase take (taken true) = (taken true, refl)
step-Phase take (taken false) = (taken false, refl)
step-Phase take (done true) = (done true, refl)
step-Phase take (done false) = (done false, refl)
step-Phase release (fresh true) = (fresh true, refl)
step-Phase release (fresh false) = (fresh false, refl)
step-Phase release (taken b) = (done b, refl)
step-Phase release (done b) = (done b, refl)
step-Phase collect (fresh true) = (done false, refl)
step-Phase collect (fresh false) = (done false, refl)
step-Phase collect (taken true) = (taken false, refl)
step-Phase collect (taken false) = (taken false, refl)
step-Phase collect (done true) = (done false, refl)
step-Phase collect (done false) = (done false, refl)

run-Phase :
    (es : List Event) (p : Phase) → (p' : Phase) × (run es (state_of p) ≡ some (state_of p'))
unfolding run
run-Phase [] p = (p, refl)
run-Phase (e ∷ es) p =
    let (p', first) = step-Phase e p in
    let (p'', rest) = run-Phase es p' in
    (p'', ap (λ o. elim o [ none ↦ none | some s ↦ run es s ]) first ∙ rest)

-- Neither the capsule nor a consumer will call the deleter.
abbrev pub let_go : Shared → Bool
let_go s = not s.consumer && elim s.capsule [ none ↦ true | some name ↦ not (named name) ]

-- The objects are whole until they are let go, and from then on deleted, with the read released once.
abbrev pub Released : Shared → Type 0
Released s =
    if let_go s
    then (s.objects.context_alive ≡ false)
      × (s.objects.managed_alive ≡ false)
      × (s.objects.releases ≡ 1)
    else s.objects ≡ exported_objects

state_of-Released : (p : Phase) → Released (state_of p)
state_of-Released (fresh true) = refl
state_of-Released (fresh false) = refl
state_of-Released (taken b) = refl
state_of-Released (done true) = (refl, refl, refl)
state_of-Released (done false) = (refl, refl, refl)

-- When the capsule is made, no sequence of events uses or deletes an object after it was deleted, and the
-- read is released exactly when neither the capsule nor a consumer holds the tensor any more. When the
-- capsule cannot be made, the end of the export deletes the context twice.
pub export-Released :
    (capsule_made versioned : Bool) (es : List Event)
    → ((capsule_made ≡ true)
        × ((first s : Shared) × (export_capsule capsule_made versioned ≡ some first)
            × (run es first ≡ some s)
            × Released s))
      ⊎ ((capsule_made ≡ false) × (export_capsule capsule_made versioned ≡ none))
unfolding export_capsule finish_export dlpack_deleter delete_context
export-Released true versioned es =
    let (p, e) = run-Phase es (fresh versioned) in
    inl (refl, (state_of (fresh versioned), state_of p, refl, e, state_of-Released p))
export-Released false versioned es = inr (refl, refl)
