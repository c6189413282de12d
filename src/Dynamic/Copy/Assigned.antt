-- ===== src/Dynamic/Copy/Assigned.antt =====
-- `assign_from` and `assign_take` against the exact masked copy that their documentation describes.
use dots_rust.Prelude.{
  ℕ, Bool, ◌≡◌, refl, ◌∙◌, ap, inl, inr, false, Option, none, some, List, [], ◌∷◌, arith, ◌==◌,
  if◌then◌else◌, Bool-cases, is_some,
}
use dots_rust.Prelude.Assoc.{map_option}
use dots_rust.PropertySet
use dots_rust.PropertySet.{PropertySet}
use dots_rust.PropertySet.Tags.{IsTag, has-empty, has-intersection, has-all}
use dots_rust.Dynamic.Kind.{
  DynamicStructDescriptor, DynamicPropertyDescriptor, properties_of, property_at, find_tag,
}
use dots_rust.Dynamic.Value.{DynamicValue, DynamicStruct, lookup, get}
use dots_rust.Dynamic.Copy.{CopyState, move_from, copy_impl}
use dots_rust.Dynamic.Copy.Laws.{AreTagged, TakeLaws, IsSound, contribution, copy_loop_lem}
use dots_rust.Dynamic.Copy.Merged.{copy_loop-Distinct, copy_loop-same, Agree}
use dots_rust.Dynamic.Copy.Overlay.{IsConsistent, move_from-laws, NotMerged-start}
use dots_rust.Dynamic.Copy.Assign.{
  assert_shared_descriptor, assign_clone, assign_from, assign_move, assign_take,
}

-- The value of a tag after an assignment: a key property keeps its own, every other property has the
-- source's where it is in the mask, and none where it is not.
abbrev pub assignment : DynamicStruct → DynamicStruct → PropertySet → ℕ → Option DynamicValue
assignment self src mask t = elim (property_at self.descriptor t) [
  | none ↦ none
  | some p ↦ if p.is_key then get self t else if PropertySet.has mask t then get src t else none
]

masked : PropertySet → DynamicStruct → ℕ → Option DynamicValue
masked mask src t = if PropertySet.has mask t then lookup t src.properties else none

module _ (mask : PropertySet) where
  assign_clone_laws : TakeLaws (assign_clone mask) (masked mask) IsConsistent
  unfolding assign_clone masked get
  assign_clone_laws = record {
    takes = λ s t ok tag. ground (arith, ok.marked t, has-intersection mask s.valid t);
    stays = λ s t ok tag. ok;
    others = λ s t u ok tag h. refl;
  }

  assign_move-laws :
      (src : DynamicStruct) (tag : ℕ)
      → IsTag tag
      → IsConsistent src
      → ((assign_move mask src tag).0 ≡ masked mask src tag)
        × IsConsistent (assign_move mask src tag).1
        × ((u : ℕ)
            → (tag == u) ≡ false
            → masked mask (assign_move mask src tag).1 u ≡ masked mask src u)
  unfolding assign_move masked move_from
  assign_move-laws src tag t ok = elim (Bool-cases (PropertySet.has mask tag)) [
    | inl inside ↦
        let (takes, stays, others, gone) = move_from-laws src tag t ok in
        rw inside (takes, stays, λ u h. rw (others u h) refl)
    | inr outside ↦ rw outside (refl, ok, λ u h. refl)
  ]

  assign_move_laws : TakeLaws (assign_move mask) (masked mask) IsConsistent
  assign_move_laws = record {
    takes = λ s t ok tag. (assign_move-laws s t tag ok).0;
    stays = λ s t ok tag. (assign_move-laws s t tag ok).1;
    others = λ s t u ok tag h. (assign_move-laws s t tag ok).2 u h;
  }

  contribution-assignment :
      (self src : DynamicStruct) (ps : List DynamicPropertyDescriptor) (t : ℕ)
      → AreTagged ps
      → PropertySet.has self.valid t ≡ is_some (lookup t self.properties)
      → contribution assign_clone_laws PropertySet.all self.valid ps t
          (masked mask src t)
          (lookup t self.properties)
        ≡ elim (find_tag t ps) [
          | none ↦ none
          | some p ↦
              if p.is_key then get self t else if PropertySet.has mask t then get src t else none
        ]
  unfolding get find_tag masked
  contribution-assignment self src [] t tagged e = refl
  contribution-assignment self src (p ∷ ps) t (tag, fresh, rest) e =
      elim (Bool-cases (p.tag == t)) [
        | inl here ↦
            let same : p.tag ≡ t = ground arith in
            let every = has-all p.tag tag in rw (here, every, same) (ground (arith, e))
        | inr other ↦ rw other (contribution-assignment self src ps t rest e)
      ]

  Agree-assigned :
      (ps : List DynamicPropertyDescriptor) (valid : PropertySet) (src : DynamicStruct)
      → Agree assign_clone_laws assign_move_laws PropertySet.all valid ps src src
  Agree-assigned [] valid src = tt
  Agree-assigned (p ∷ ps) valid src = (refl, Agree-assigned ps valid src)

module _ (self src : DynamicStruct) (mask : PropertySet)
    (tagged : AreTagged (properties_of self.descriptor)) (ok : IsConsistent self)
    (source_ok : IsConsistent src) where
  abbrev start : CopyState DynamicStruct
  start = record { own = self.properties; merged = []; valid = PropertySet.empty; source = src }

  start-IsSound : IsSound (assign_clone_laws mask) PropertySet.all self.valid start
  unfolding lookup
  start-IsSound = record {
    own_distinct = ok.distinct;
    source_sound = source_ok;
    marked = has-empty;
  }

  pub copied-assignment :
      let made = (copy_impl self PropertySet.all (assign_clone mask) src).0 in
      IsConsistent made
      × ((t : ℕ) → get made t ≡ assignment self src mask t)
      × ((copy_impl self PropertySet.all (assign_move mask) src).0 ≡ made)
  unfolding copy_impl get property_at
  copied-assignment =
      let ps = properties_of self.descriptor in
      let laws = assign_clone_laws mask in
      let (sound, at) =
        copy_loop_lem laws PropertySet.all self.valid ps start tagged start-IsSound in
      let like =
        copy_loop-same laws (assign_move_laws mask) PropertySet.all self.valid ps start start tagged
          source_ok source_ok (Agree-assigned mask ps self.valid src)
          (record { own = refl; merged = refl; marks = refl }) in
      (
        record {
          distinct =
              copy_loop-Distinct (assign_clone mask) PropertySet.all self.valid ps start tagged tt
                (NotMerged-start ps);
          marked = sound.marked;
        },
        λ t. at t ∙ contribution-assignment mask self src ps t tagged (ok.marked t),
        λ i. record self { properties = like.merged i; valid = like.marks i },
      )

-- If the descriptor's tags are 1 to 31 and distinct, and both values are consistent, then `assign_from`
-- panics exactly when the two values do not share their descriptor, and else gives a consistent value
-- in which each key property keeps its own value, a property in the mask that is no key has the source's
-- value, or none when the source has none, a property outside the mask that is no key is cleared, and no
-- other tag is stored; and `assign_take`, which moves the values out of the source, panics when
-- `assign_from` does and else gives the same value.
pub assign_from-assignment :
    (ptr_eq : DynamicStructDescriptor → DynamicStructDescriptor → Bool) (self src : DynamicStruct)
    (mask : PropertySet)
    → AreTagged (properties_of self.descriptor)
    → IsConsistent self
    → IsConsistent src
    → (made : DynamicStruct) × (assign_from ptr_eq self src mask
        ≡ (if ptr_eq self.descriptor src.descriptor then some made else none))
      × IsConsistent made
      × ((t : ℕ) → get made t ≡ assignment self src mask t)
      × (map_option (λ (r : DynamicStruct × DynamicStruct). r.0) (assign_take ptr_eq self src mask)
          ≡ assign_from ptr_eq self src mask)
unfolding assign_from assign_take assert_shared_descriptor
assign_from-assignment ptr_eq self src mask tagged ok source_ok =
    let (consistent, at, taken) = copied-assignment self src mask tagged ok source_ok in
    (
      _,
      refl,
      consistent,
      at,
      elim (Bool-cases (ptr_eq self.descriptor src.descriptor)) [
        | inl shared ↦ rw shared (ap some taken)
        | inr other ↦ rw other refl
      ],
    )
