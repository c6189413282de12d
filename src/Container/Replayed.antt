-- ===== src/Container/Replayed.antt =====
-- The replay that a new subscriber gets, and the representation of the stored values.
use dots_rust.Prelude.{
  ℕ, zero, suc, ◌+◌, ◌-◌, ◌%◌, ◌^◌, ◌<◌, ◌≡◌, refl, ap, Option, some, List, [], ◌∷◌, map, length,
  arith, String,
}
use dots_rust.Container.Map.{Bytes}
use dots_rust.Container.{
  Values, ContainerState, ContainerValue, Entry, DotsHeader, CloneInfo, replay, replay_from,
  descriptor_name,
}

-- `n - 1` down to 0
unfoldable pub countdown : ℕ → List (Option ℕ)
countdown zero = []
countdown (suc n) = some n ∷ countdown n

module _ (values : Values) where
  -- What an event of a replay tells: how many come behind it, and the instance.
  abbrev pub left_of : DotsHeader × (ContainerValue values × CloneInfo) → Option ℕ
  left_of event = event.0.from_cache

  abbrev pub instance_of :
      DotsHeader × (ContainerValue values × CloneInfo) → ContainerValue values × CloneInfo
  instance_of event = event.1

  abbrev pub stored_of : Bytes × Entry values → ContainerValue values × CloneInfo
  stored_of item = (item.1.value, item.1.clone_info)

  replay_from-left :
      (name : String) (total i : ℕ) (items : List (Bytes × Entry values))
      → i + length items ≡ total
      → total < 2 ^ 32
      → map left_of (replay_from values name total i items) ≡ countdown (length items)
  unfolding countdown
  replay_from-left name total i [] e h = refl
  replay_from-left name total i (item ∷ rest) e h =
      let left : (total - 1 - i) % 2 ^ 32 ≡ length rest = omega arith in
      rw left (
        ap (λ l. some (length rest) ∷ l) (replay_from-left name total (suc i) rest (omega arith) h))

  replay_from-stored :
      (name : String) (total i : ℕ) (items : List (Bytes × Entry values))
      → map instance_of (replay_from values name total i items) ≡ map stored_of items
  replay_from-stored name total i [] = refl
  replay_from-stored name total i (item ∷ rest) =
      ap (λ l. stored_of item ∷ l) (replay_from-stored name total (suc i) rest)

  -- The replay has one event for each stored instance, in the container's order, and the counts of its
  -- headers go down from one less than their number to 0, so that the last event, and no other, says
  -- 0; the number of entries is below 2^32.
  pub replay_counts_down :
      (state : ContainerState values)
      → length state.entries < 2 ^ 32
      → (map left_of (replay values state) ≡ countdown (length state.entries))
        × (map instance_of (replay values state) ≡ map stored_of state.entries)
  unfolding replay
  replay_counts_down state h =
      let name = descriptor_name values state.descriptor in
      let total = length state.entries in
      (
        replay_from-left name total 0 state.entries (omega arith) h,
        replay_from-stored name total 0 state.entries,
      )
