-- ===== src/Subscriber/MetadataCache/Fresh.antt =====
-- What `get_or_attach` of buffer_metadata_cache.cpp returns, and what it leaves in the cache.
use ros2_cuda_ipc.Base.{
  ◌≢◌, ℕ, ◌≡◌, refl, sym, subst, ◌⊎◌, inl, inr, Option, none, some, [], ◌∷◌, arith, Bool-cases,
  Option-cases,
}
use ros2_cuda_ipc.Metadata.{Mapping, Store}
use ros2_cuda_ipc.Subscriber.MetadataCache.{
  Entry, Cache, has_key, find, erase, emplace, has_uid, trusted, lookup, settle_with, settle,
  attach_candidate, after_lookup, get_or_attach,
}

-- No key has two entries.
abbrev pub IsUnique : Cache → Type 0
IsUnique [] = Unit
IsUnique (e ∷ l) = (find e.publisher_pid e.block_id l ≡ none) × IsUnique l

find-erase_other :
    (pid block p b : ℕ) (l : Cache) → find p b l ≡ none → find p b (erase pid block l) ≡ none
unfolding find erase
find-erase_other pid block p b [] h = refl
find-erase_other pid block p b (e ∷ l) h = ground (arith, h, find-erase_other pid block p b l)

find-erase : (pid block : ℕ) (l : Cache) → IsUnique l → find pid block (erase pid block l) ≡ none
unfolding find erase
find-erase pid block [] u = refl
find-erase pid block (e ∷ l) (h, u) = elim (Bool-cases (has_key pid block e)) [
  | inl same ↦
      let p : e.publisher_pid ≡ pid = ground (arith, same) in
      let b : e.block_id ≡ block = ground (arith, same) in
      let gone : find pid block l ≡ none = rw (sym p, sym b) h in ground (arith, same, gone)
  | inr other ↦ ground (arith, other, find-erase pid block l u)
]

erase-IsUnique : (pid block : ℕ) (l : Cache) → IsUnique l → IsUnique (erase pid block l)
unfolding erase
erase-IsUnique pid block [] u = tt
erase-IsUnique pid block (e ∷ l) (h, u) = elim (Bool-cases (has_key pid block e)) [
  | inl same ↦ rw same u
  | inr other ↦
      rw other
        (find-erase_other pid block e.publisher_pid e.block_id l h, erase-IsUnique pid block l u)
]

-- What a section of `get_or_attach` leaves: keys are unique; a mapping that is returned is the entry of
-- its key and was seen with the uid in one of the given memories; and nothing is returned only when
-- the key has no entry.
abbrev Sound : ℕ → ℕ → (Mapping → Type 0) → Option Mapping × Cache → Type 0
Sound pid block Seen result =
    IsUnique result.1
    × (((m : Mapping) × (result.0 ≡ some m) × (find pid block result.1 ≡ some m) × Seen m)
        ⊎ ((result.0 ≡ none) × (find pid block result.1 ≡ none)))

lookup-Sound :
    (s : Store) (pid block uid : ℕ) (l : Cache)
    → IsUnique l
    → Sound pid block (λ m. (s m.block).uid ≡ uid) (lookup s pid block uid l)
unfolding lookup trusted
lookup-Sound s pid block uid l u = elim (Option-cases (find pid block l)) [
  | inl e ↦ rw e (u, inr (refl, e))
  | inr (m, e) ↦ elim (Bool-cases (has_uid s uid m)) [
    | inl same ↦ rw (e, same) (u, inl (m, refl, e, ground (arith, same)))
    | inr other ↦ rw (e, other) (erase-IsUnique pid block l u, inr (refl, find-erase pid block l u))
  ]
]

emplace-IsUnique :
    (pid block : ℕ) (m : Mapping) (l : Cache)
    → find pid block l ≡ none
    → IsUnique l
    → IsUnique (emplace pid block m l) × (find pid block (emplace pid block m l) ≡ some m)
unfolding emplace find
emplace-IsUnique pid block m l e u =
    let added : Entry = record { publisher_pid = pid; block_id = block; mapping = m } in
    let whole : emplace pid block m l ≡ added ∷ l = ground (arith, e) in
    subst (λ c. IsUnique c × (find pid block c ≡ some m)) (sym whole) ((e, u), ground arith)

-- As `Sound`, with a mapping returned.
abbrev Found : ℕ → ℕ → (Mapping → Type 0) → Option Mapping × Cache → Type 0
Found pid block Seen result =
    IsUnique result.1
    × ((m : Mapping) × (result.0 ≡ some m) × (find pid block result.1 ≡ some m) × Seen m)

settle_with-Sound :
    (Seen : Mapping → Type 0) (pid block : ℕ) (m : Mapping) (result : Option Mapping × Cache)
    → Seen m
    → Sound pid block Seen result
    → Found pid block Seen (settle_with pid block m result)
unfolding settle_with
settle_with-Sound Seen pid block m (some n, l) seen (u, inl found) = (u, found)
settle_with-Sound Seen pid block m (some n, l) seen (u, inr (e, _)) = absurd (ground (arith, e))
settle_with-Sound Seen pid block m (none, l) seen (u, inl (n, e, _, _)) = absurd (ground (arith, e))
settle_with-Sound Seen pid block m (none, l) seen (u, inr (_, e)) =
    let (u', e') = emplace-IsUnique pid block m l e u in (u', (m, refl, e', seen))

-- The result of `get_or_attach`, with the memories of its three tests.
abbrev pub Fetched :
    Option Mapping → Store → Store → Store → ℕ → ℕ → ℕ → Option Mapping × Cache → Type 0
Fetched attached s0 s1 s2 pid block uid result =
    IsUnique result.1
    × (((m : Mapping) × (result.0 ≡ some m)
          × (find pid block result.1 ≡ some m)
          × (((s0 m.block).uid ≡ uid) ⊎ ((s1 m.block).uid ≡ uid) ⊎ ((s2 m.block).uid ≡ uid)))
        ⊎ ((result.0 ≡ none)
            × ((attached ≡ none)
                ⊎ ((m : Mapping) × (attached ≡ some m) × ((s1 m.block).uid ≢ uid)))))

module _ (s0 s1 s2 : Store) (pid block uid : ℕ) where
  abbrev SeenThen : Mapping → Type 0
  SeenThen m = ((s0 m.block).uid ≡ uid) ⊎ ((s1 m.block).uid ≡ uid) ⊎ ((s2 m.block).uid ≡ uid)

  settle-Sound :
      (m : Mapping) (l : Cache)
      → (s1 m.block).uid ≡ uid
      → IsUnique l
      → Found pid block SeenThen (settle s2 pid block uid m l)
  unfolding settle
  settle-Sound m l seen u =
      let (u', found) = lookup-Sound s2 pid block uid l u in
      settle_with-Sound SeenThen pid block m (lookup s2 pid block uid l) (inr (inl seen))
        (u', elim found [ inl (n, e, f, at) ↦ inl (n, e, f, inr (inr at)) | inr gone ↦ inr gone ])

  Sound-Fetched :
      (attached : Option Mapping) (m : Mapping) (l : Cache)
      → (s1 m.block).uid ≡ uid
      → IsUnique l
      → Fetched attached s0 s1 s2 pid block uid (settle s2 pid block uid m l)
  Sound-Fetched attached m l seen u = let (v, found) = settle-Sound m l seen u in (v, inl found)

  attach_candidate-Fetched :
      (attached : Option Mapping) (l : Cache)
      → IsUnique l
      → Fetched attached s0 s1 s2 pid block uid (attach_candidate s1 s2 pid block uid l attached)
  unfolding attach_candidate
  attach_candidate-Fetched none l u = (u, inr (refl, inl refl))
  attach_candidate-Fetched (some m) l u = elim (Bool-cases (has_uid s1 uid m)) [
    | inl same ↦ rw same (Sound-Fetched (some m) m l (ground (arith, same)) u)
    | inr other ↦ rw other (u, inr (refl, inr (m, refl, ground (arith, other))))
  ]

  -- Whatever other threads do to the cache in between, as long as they keep its keys unique, so does
  -- `get_or_attach`. A mapping that it returns is the entry of its key and showed the expected uid in
  -- one of the three tests; nothing is returned only if nothing could be attached, or the object that
  -- was attached had another uid.
  pub get_or_attach-Fetched :
      (attach : ℕ → ℕ → Option Mapping) (others : Cache → Cache) (l : Cache)
      → ((c : Cache) → IsUnique c → IsUnique (others c))
      → IsUnique l
      → Fetched
          (attach pid block)
          s0
          s1
          s2
          pid
          block
          uid
          (get_or_attach attach s0 s1 s2 pid block uid others l)
  unfolding get_or_attach after_lookup
  get_or_attach-Fetched attach others l keep u =
      go (lookup s0 pid block uid l) (lookup-Sound s0 pid block uid l u)
    where
      go :
          (found : Option Mapping × Cache)
          → Sound pid block (λ m. (s0 m.block).uid ≡ uid) found
          → Fetched
              (attach pid block)
              s0
              s1
              s2
              pid
              block
              uid
              (after_lookup s1 s2 pid block uid others (attach pid block) found)
      go (none, c) (v, _) = attach_candidate-Fetched (attach pid block) (others c) (keep c v)
      go (some m, c) (v, inl (n, e, f, at)) = (v, inl (n, e, f, inl at))
      go (some m, c) (v, inr (e, _)) = absurd (ground (arith, e))
