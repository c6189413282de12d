-- ===== src/Host/View.antt =====
-- The instances that a filtered subscription shows.
use dots_rust.Prelude.{
  ℕ, ◌≡◌, refl, sym, ap, true, false, not, ◌||◌, List, [], ◌∷◌, map, if◌then◌else◌, arith,
  Bool-cases, inl, inr,
}
use dots_rust.Container.Map.{Bytes, insert, remove, same_key, find-insert, find-remove, same_key-eq}
use dots_rust.Host.Writer.{is_empty}
use dots_rust.Host.Types.{Env, FilteredSub}
use dots_rust.Host.Publish.{Incoming, contains, dispatch_sub, now_matches, was_visible}

contains-insert :
    (k j : Bytes) (set : List (Bytes × Unit {0}))
    → contains j (insert k tt set) ≡ (if same_key k j then true else contains j set)
unfolding contains
contains-insert k j set = elim (Bool-cases (same_key k j)) [
  | inl at ↦ rw (find-insert k j tt set, at) refl
  | inr other ↦ rw (find-insert k j tt set, other) refl
]

contains-remove :
    (k j : Bytes) (set : List (Bytes × Unit {0}))
    → contains j (remove k set) ≡ (if same_key k j then false else contains j set)
unfolding contains
contains-remove k j set = elim (Bool-cases (same_key k j)) [
  | inl at ↦ rw (find-remove k j set, at) refl
  | inr other ↦ rw (find-remove k j set, other) refl
]

contains-same :
    (k j : Bytes) (set : List (Bytes × Unit {0}))
    → contains j set ≡ (if same_key k j then contains k set else contains j set)
contains-same k j set = elim (Bool-cases (same_key k j)) [
  | inl at ↦ rw at (ap (λ key. contains key set) (sym (same_key-eq k j at)))
  | inr other ↦ rw other refl
]

module _ (env : Env) where
  -- After a publish of a cached type a subscription shows the instance exactly when the payload of the
  -- publish, as it comes in and before the cache merges it, matches (which that of a removal never
  -- does), and of the other instances the same as before; it sends exactly one frame, to the
  -- subscription's writer, when the payload matches or the instance was shown, and none otherwise.
  pub dispatch_sub-view :
      (sub_id : ℕ) (sub : FilteredSub) (p : Incoming env) (j : Bytes)
      → p.is_cached ≡ true
      → let (sub', sent) = dispatch_sub env sub_id sub p in
        (contains j sub'.visible
          ≡ (if same_key p.key j then now_matches env sub p else contains j sub.visible))
        × (map (λ (q : ℕ × Bytes). q.0) sent
            ≡ (if now_matches env sub p || contains p.key sub.visible then sub.writer ∷ [] else []))
  unfolding dispatch_sub was_visible
  dispatch_sub-view sub_id sub p j h = ground (
    arith,
    contains-insert p.key j sub.visible,
    contains-remove p.key j sub.visible,
    contains-same p.key j sub.visible,
  )

  -- A publish of a type that is not cached leaves the view as it was, and sends a frame exactly when
  -- it matches.
  pub dispatch_sub-uncached :
      (sub_id : ℕ) (sub : FilteredSub) (p : Incoming env)
      → p.is_cached ≡ false
      → let (sub', sent) = dispatch_sub env sub_id sub p in
        (sub' ≡ sub) × (is_empty sent ≡ not (now_matches env sub p))
  unfolding dispatch_sub was_visible
  dispatch_sub-uncached sub_id sub p h = ground arith
