-- ===== src/Subscriber/Mapper/Read.antt =====
-- What `BufferMapper::map` of buffer_mapper.cpp does to the shared memory.
use ros2_cuda_ipc.Base.{
  ℕ, ◌≤◌, ◌≡◌, refl, sym, ap, subst, ◌∙◌, ◌⊎◌, inl, inr, Option, none, some, arith, u32_max,
  Option-cases,
}
use ros2_cuda_ipc.Metadata.{Mapping, Store}
use ros2_cuda_ipc.Metadata.Ref.{BufferRef, release}
use ros2_cuda_ipc.Cuda.{Driver, Machine, ◌>>=◌, ◌>>◌}
use ros2_cuda_ipc.Transport.{BufferCore}
use ros2_cuda_ipc.Subscriber.MetadataCache.{Cache}
use ros2_cuda_ipc.Subscriber.HandleCache.{HandleCache}
use ros2_cuda_ipc.Subscriber.ReadHandle.{
  CompletionEvent, MappedPublication, Impl, ReadHandle, bound, make_bound, publication_valid,
  drop_ref,
}
use ros2_cuda_ipc.Subscriber.ReadHandle.Binding.{make_bound-Bound}
use ros2_cuda_ipc.Subscriber.Mapper.{bind_publication, map_descriptor, map}
use ros2_cuda_ipc.Subscriber.Mapper.Kept.{Mapped, map_descriptor-Mapped}

-- The publication is whole, or in the handle.
abbrev Moved : MappedPublication → ℕ → Machine → (ReadHandle × MappedPublication) × Machine → Type 0
Moved p stream m result =
    (result.1.store ≡ m.store)
    × ((result.0 ≡ (none, p)) ⊎ ((c : Option CompletionEvent) × (result.0 ≡ bound p stream c)))

make_bound-Moved :
    (p : MappedPublication) (stream : ℕ) (d : Driver) (m : Machine)
    → Moved p stream m (make_bound p stream d m)
unfolding make_bound publication_valid
make_bound-Moved p stream d m = elim (Option-cases p.resource) [
  | inl e ↦
      let whole : make_bound p stream d m ≡ ((none, p), m) = ground (arith, e) in
      subst (Moved p stream m) (sym whole) (refl, inl refl)
  | inr (r, e) ↦
      let made = make_bound-Bound stream d p r e m in
      (
        made.0,
        elim made.1 [ inl whole ↦ inl whole | inr (c, moved, there, waits) ↦ inr (c, moved) ],
      )
]

-- A read holds one reference to the generation, or there is no read.
abbrev pub Held : Store → ℕ → ReadHandle → Store → Type 0
Held s uid read s' =
    ((i : Impl) × (ref : BufferRef) × (read ≡ some i)
      × (i.buffer_ref ≡ some ref)
      × (ref.uid ≡ uid)
      × ((release s' ref).0 ≡ s))
    ⊎ ((read ≡ none) × (s' ≡ s))

dropped :
    (r : Option BufferRef) (ref : BufferRef) (d : Driver) (m : Machine)
    → r ≡ some ref
    → (drop_ref r d m).1.store ≡ (release m.store ref).0
unfolding drop_ref
dropped r ref d m e = rw (e) refl

abbrev ref_of : Option MappedPublication → Option BufferRef
ref_of none = none
ref_of (some p) = p.buffer_ref

abbrev handle_of : MappedPublication → ℕ → Option CompletionEvent → Impl
handle_of p stream c = record {
  resource = p.resource;
  buffer_ref = p.buffer_ref;
  byte_size = p.byte_size;
  device_id = p.device_id;
  consumer_stream = stream;
  completion = c;
}

bind_publication-Held :
    (stream uid : ℕ) (s : Store) (o : Option MappedPublication) (d : Driver) (m : Machine)
    → Mapped s uid o m.store
    → let result = bind_publication stream o d m in Held s uid result.0 result.1.store
unfolding bind_publication drop_ref
bind_publication-Held stream uid s none d m held = elim held [
  | inl (p, ref, e, b, u, back) ↦ ground (arith, e)
  | inr (e, same) ↦ inr (refl, same)
]
bind_publication-Held stream uid s (some p) d m held =
    let made = make_bound p stream d m in
    let moved = make_bound-Moved p stream d m in
    elim held [
      | inl (p', ref, e, b, u, back) ↦
          let own : p.buffer_ref ≡ some ref = ap ref_of e ∙ b in
          let released = ap (λ t. (release t ref).0) moved.0 ∙ back in
          elim moved.1 [
            | inl whole ↦
                rw (whole, bind_publication, ◌>>=◌, ◌>>◌)
                  (inr (refl, dropped p.buffer_ref ref d made.1 own ∙ released))
            | inr (c, whole) ↦
                rw (whole, bind_publication, ◌>>=◌, ◌>>◌)
                  (inl (handle_of p stream c, ref, refl, own, u, released))
          ]
      | inr (e, same) ↦ ground (arith, e)
    ]

-- Whatever the driver answers, and whatever other threads do to the caches in between, mapping a message
-- for a stream either gives a read with one reference to the message's generation, which restores the
-- shared blocks when it is released, or gives nothing and leaves every shared block as it was.
pub map-Held :
    (attach : ℕ → ℕ → Option Mapping) (spurious : ℕ) (msg : BufferCore) (stream : ℕ)
    (others : Cache → Cache) (others' : HandleCache → HandleCache) (cache : Cache) (l : HandleCache)
    (d : Driver) (m : Machine)
    → ((i : ℕ) → (m.store i).refcount ≤ u32_max)
    → let result = map attach spurious msg stream others others' cache l d m in
      Held m.store msg.uid result.0.0 result.1.store
unfolding map
map-Held attach spurious msg stream others others' cache l d m small =
    let mapped = map_descriptor attach spurious msg others others' cache l d m in
    bind_publication-Held stream msg.uid m.store mapped.0.0 d mapped.1
      (map_descriptor-Mapped attach spurious msg others others' cache l d m small)
