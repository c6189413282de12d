-- ===== src/Container/Classified.antt =====
-- What subscribers are told of a transmission, and the container behind it.
use dots_rust.Prelude.{
  ℕ, ◌≡◌, refl, sym, ap, ◌∙◌, true, false, Option, none, some, Bool-cases, inl, inr,
}
use dots_rust.PropertySet.{PropertySet}
use dots_rust.Container.Map.{
  Bytes, find, insert, remove, find-insert, find-remove, same_key_refl, remove-absent,
}
use dots_rust.Container.{
  Values, ContainerState, Converted, Transmission, Entry, DispatchOutcome, DotsHeader, CloneInfo,
  Operation, create, removal, update, is_removal, key_bytes, valid_set, convert_payload,
  merged_entry, apply, apply_converted, apply_and_classify, classify_converted, classify_removed,
  stored_outcome, removed_outcome, map_option,
}

module _ (values : Values) where
  classify_removed-state :
      (header : DotsHeader) (fallback : PropertySet) (key : Bytes) (state : ContainerState values)
      (value : Converted values) (old : Option (Entry values))
      → find key state.entries ≡ old
      → (classify_removed values header fallback key state value old).1
        ≡ record state { entries = remove key state.entries }
  classify_removed-state header fallback key state value none e =
      λ i. record state { entries = sym (remove-absent key state.entries e) i }
  classify_removed-state header fallback key state value (some entry) e = refl

  classify_converted-state :
      (header : DotsHeader) (fallback : PropertySet) (key : Bytes) (state : ContainerState values)
      (c : Option (Converted values))
      → (classify_converted values header fallback key state c).1
        ≡ apply_converted values header fallback key state c
  classify_converted-state header fallback key state none = refl
  classify_converted-state header fallback key state (some value) =
      elim (Bool-cases (is_removal header)) [
        | inl gone ↦
            rw gone
              (classify_removed-state header fallback key state value (find key state.entries) refl)
        | inr kept ↦ rw kept refl
      ]

  -- Applying a transmission for its subscribers changes the container as applying it does.
  pub apply_and_classify-state :
      (txn : Transmission values) (state : ContainerState values)
      → (apply_and_classify values txn state).1 ≡ apply values txn state
  unfolding apply_and_classify apply
  apply_and_classify-state txn state =
      classify_converted-state txn.header (valid_set values txn.payload)
        (key_bytes values txn.payload) state (convert_payload values txn.payload state.descriptor)

  -- When and by whom it was created.
  abbrev pub origin : CloneInfo → Option ℕ × Option ℕ
  origin info = (info.created_time, info.created_sender)

  abbrev pub expected_operation : Option (Entry values) → Operation
  expected_operation none = create
  expected_operation (some e) = update

  abbrev pub expected_origin : DotsHeader → Option (Entry values) → Option ℕ × Option ℕ
  expected_origin header none = (header.sent_time, header.sender)
  expected_origin header (some e) = origin e.clone_info

  -- The event that carries an entry.
  abbrev pub event_of : Entry values → DispatchOutcome values
  event_of e = record {
    operation = e.clone_info.last_operation;
    updated_value = e.value;
    clone_info = e.clone_info;
  }

  merged_entry-history :
      (header : DotsHeader) (fallback : PropertySet) (value : Converted values)
      (old : Option (Entry values))
      → let e = merged_entry values header fallback value old in
        (stored_outcome values old e ≡ event_of e)
        × (e.clone_info.last_operation ≡ expected_operation old)
        × (origin e.clone_info ≡ expected_origin header old)
  unfolding merged_entry stored_outcome
  merged_entry-history header fallback value none = (refl, refl, refl)
  merged_entry-history header fallback value (some e) = (refl, refl, refl)

  -- When a transmission that is no removal is admitted, the event that its subscribers get carries the
  -- entry that is stored under the key afterwards: as a creation when nothing was stored there, with
  -- the time and the sender of the header as its origin, and else as an update, with the origin that
  -- the entry had.
  pub apply_and_classify-stored :
      (txn : Transmission values) (state : ContainerState values) (value : Converted values)
      → is_removal txn.header ≡ false
      → convert_payload values txn.payload state.descriptor ≡ some value
      → let key = key_bytes values txn.payload in
        let told = apply_and_classify values txn state in
        (e : Entry values) × (find key told.1.entries ≡ some e)
        × (told.0 ≡ some (event_of e))
        × (e.clone_info.last_operation ≡ expected_operation (find key state.entries))
        × (origin e.clone_info ≡ expected_origin txn.header (find key state.entries))
  unfolding apply_and_classify
  apply_and_classify-stored txn state value kept admitted =
      let key = key_bytes values txn.payload in
      let fallback = valid_set values txn.payload in
      let old = find key state.entries in
      let e = merged_entry values txn.header fallback value old in
      let (event, operation, from) = merged_entry-history txn.header fallback value old in
      let told : classify_converted values txn.header fallback key state
            (convert_payload values txn.payload state.descriptor)
          ≡ (
            some (stored_outcome values old e),
            record state { entries = insert key e state.entries },
          ) =
        ap (classify_converted values txn.header fallback key state) admitted ∙ rw kept refl in
      (
        e,
        ap (λ (r : Option (DispatchOutcome values) × ContainerState values). find key r.1.entries)
              told
            ∙ find-insert key key e state.entries
            ∙ rw (same_key_refl key) refl,
        ap (λ (r : Option (DispatchOutcome values) × ContainerState values). r.0) told
            ∙ ap some event,
        operation,
        from,
      )

  -- The operation and the origin that an event tells.
  abbrev pub told_of : DispatchOutcome values → Operation × (Option ℕ × Option ℕ)
  told_of o = (o.operation, origin o.clone_info)

  classify_removed-told :
      (header : DotsHeader) (fallback : PropertySet) (key : Bytes) (state : ContainerState values)
      (value : Converted values) (old : Option (Entry values))
      → map_option told_of (classify_removed values header fallback key state value old).0
        ≡ map_option (λ (e : Entry values). (removal, origin e.clone_info)) old
  unfolding removed_outcome
  classify_removed-told header fallback key state value none = refl
  classify_removed-told header fallback key state value (some e) = refl

  -- When a removal is admitted, nothing is stored under the key afterwards, and the subscribers get an
  -- event just when something was stored: a removal, with the origin that the entry had.
  pub apply_and_classify-removed :
      (txn : Transmission values) (state : ContainerState values) (value : Converted values)
      → is_removal txn.header ≡ true
      → convert_payload values txn.payload state.descriptor ≡ some value
      → let key = key_bytes values txn.payload in
        let told = apply_and_classify values txn state in
        (find key told.1.entries ≡ none)
        × (map_option told_of told.0
            ≡ map_option
                (λ (e : Entry values). (removal, origin e.clone_info))
                (find key state.entries))
  unfolding apply_and_classify
  apply_and_classify-removed txn state value gone admitted =
      let key = key_bytes values txn.payload in
      let fallback = valid_set values txn.payload in
      let old = find key state.entries in
      let told : classify_converted values txn.header fallback key state
            (convert_payload values txn.payload state.descriptor)
          ≡ classify_removed values txn.header fallback key state value old =
        ap (classify_converted values txn.header fallback key state) admitted ∙ rw gone refl in
      (
        ap (λ (r : Option (DispatchOutcome values) × ContainerState values). find key r.1.entries)
              told
            ∙ ap (λ (s : ContainerState values). find key s.entries)
                (classify_removed-state txn.header fallback key state value old refl)
            ∙ find-remove key key state.entries
            ∙ rw (same_key_refl key) refl,
        ap (λ (r : Option (DispatchOutcome values) × ContainerState values). map_option told_of r.0)
              told
            ∙ classify_removed-told txn.header fallback key state value old,
      )
