-- ===== src/Dynamic/Copy/Laws.antt =====
-- `copy_impl` as a statement about each tag of the descriptor.
use mathlib.Core.Path.{subst}
use dots_rust.Prelude.{
  ℕ, ◌≡◌, refl, inl, inr, true, false, not, ◌&&◌, ◌∙◌, Option, none, some, List, [], ◌∷◌, arith,
  ◌==◌, if◌then◌else◌, Bool-cases, is_some,
}
use dots_rust.PropertySet
use dots_rust.PropertySet.{PropertySet}
use dots_rust.PropertySet.Tags.{IsTag, has-with_tag}
use dots_rust.Dynamic.Kind.{DynamicPropertyDescriptor}
use dots_rust.Dynamic.Value.{DynamicValue, lookup}
use dots_rust.Dynamic.Copy.{take_tag, CopyState, push, take_step, keep_step, copy_step, copy_loop}
use dots_rust.Dynamic.Copy.SwapRemove.{Distinct, Taken, take_tag-Taken, lookup-append}

abbrev pub HasNoTag : ℕ → List DynamicPropertyDescriptor → Type 0
HasNoTag t [] = Unit
HasNoTag t (p ∷ ps) = ((p.tag == t) ≡ false) × HasNoTag t ps

-- The tags of the properties are 1 to 31, each at most once.
abbrev pub AreTagged : List DynamicPropertyDescriptor → Type 0
AreTagged [] = Unit
AreTagged (p ∷ ps) = IsTag p.tag × HasNoTag p.tag ps × AreTagged ps

abbrev pub or_else {ℓ} : {A : Type ℓ} → Option A → Option A → Option A
or_else none o = o
or_else (some a) o = some a

-- Equal tags have equal values.
at_tag {ℓ} : {A : Type ℓ} (f : ℕ → A) (a b : ℕ) → (a == b) ≡ true → f a ≡ f b
at_tag f a b h = let e : a ≡ b = ground arith in rw e

-- How the closure `take` behaves: what it hands out, and that the other tags are left alone.
pub record TakeLaws {S : Type 0} (take : S → ℕ → Option DynamicValue × S)
    (value : S → ℕ → Option DynamicValue) (Sound : S → Type 0) : Type 0 where
  pub takes : (s : S) (t : ℕ) → Sound s → IsTag t → (take s t).0 ≡ value s t
  pub stays : (s : S) (t : ℕ) → Sound s → IsTag t → Sound (take s t).1
  pub others :
      (s : S) (t u : ℕ) → Sound s → IsTag t → (t == u) ≡ false → value (take s t).1 u ≡ value s u

module _ {S : Type 0} {take : S → ℕ → Option DynamicValue × S} {value : S → ℕ → Option DynamicValue}
    {Sound : S → Type 0} (laws : TakeLaws take value Sound) (mask valid : PropertySet) where
  -- What the property contributes, from the source's value and the own value of its tag.
  abbrev pub pick :
      DynamicPropertyDescriptor → Option DynamicValue → Option DynamicValue → Option DynamicValue
  pick p theirs mine =
      if not p.is_key && PropertySet.has mask p.tag
      then theirs
      else if PropertySet.has valid p.tag
      then mine
      else none

  abbrev pub contribution :
      List DynamicPropertyDescriptor
      → ℕ
      → Option DynamicValue
      → Option DynamicValue
      → Option DynamicValue
  contribution [] t theirs mine = none
  contribution (p ∷ ps) t theirs mine =
      if p.tag == t then pick p theirs mine else contribution ps t theirs mine

  -- A state of the loop: what is merged is marked as valid, and nothing stands twice.
  pub record IsSound (st : CopyState S) : Type 0 where
    pub own_distinct : Distinct st.own
    pub source_sound : Sound st.source
    pub marked : (t : ℕ) → PropertySet.has st.valid t ≡ is_some (lookup t st.merged)

  -- One step relates two states.
  record Steps (p : DynamicPropertyDescriptor) (st st' : CopyState S) : Type 0 where
    sound : IsSound st'
    merged_at :
        (t : ℕ)
        → lookup t st'.merged
          ≡ or_else
              (lookup t st.merged)
              (if p.tag == t then pick p (value st.source t) (lookup t st.own) else none)
    own_others : (t : ℕ) → (p.tag == t) ≡ false → lookup t st'.own ≡ lookup t st.own
    source_others : (t : ℕ) → (p.tag == t) ≡ false → value st'.source t ≡ value st.source t

  push-lookup :
      (tag : ℕ) (v : DynamicValue) (st : CopyState S) (t : ℕ)
      → lookup t (push tag v st).merged
        ≡ or_else (lookup t st.merged) (if tag == t then some v else none)
  unfolding push lookup
  push-lookup tag v st t = ground (arith, lookup-append t st.merged ((tag, v) ∷ []))

  push-marked :
      (tag : ℕ) (v : DynamicValue) (st : CopyState S) (t : ℕ)
      → IsTag tag
      → PropertySet.has st.valid t ≡ is_some (lookup t st.merged)
      → PropertySet.has (push tag v st).valid t ≡ is_some (lookup t (push tag v st).merged)
  push-marked tag v st t h e =
      rw (push-lookup tag v st t) (unfold push in ground (arith, has-with_tag st.valid tag t h))

  take_step-Steps :
      (p : DynamicPropertyDescriptor) (st : CopyState S) (r : Option DynamicValue × S)
      → IsTag p.tag
      → IsSound st
      → (not p.is_key && PropertySet.has mask p.tag) ≡ true
      → r.0 ≡ value st.source p.tag
      → Sound r.1
      → ((u : ℕ) → (p.tag == u) ≡ false → value r.1 u ≡ value st.source u)
      → Steps p st (take_step p.tag r st)
  unfolding take_step
  take_step-Steps p st (none, src) tagged ok chosen e sound others = record {
    sound = record { own_distinct = ok.own_distinct; source_sound = sound; marked = ok.marked };
    merged_at = λ t. ground (arith, at_tag (value st.source) p.tag t);
    own_others = λ t h. refl;
    source_others = others;
  }
  take_step-Steps p st (some v, src) tagged ok chosen e sound others = record {
    sound = record {
      own_distinct = ok.own_distinct;
      source_sound = sound;
      marked = λ t. push-marked p.tag v (record st { source = src }) t tagged (ok.marked t);
    };
    merged_at = λ t. rw chosen (
        push-lookup p.tag v (record st { source = src }) t
        ∙ ground (arith, at_tag (value st.source) p.tag t));
    own_others = λ t h. refl;
    source_others = others;
  }

  keep_step-Steps :
      (p : DynamicPropertyDescriptor) (st : CopyState S)
      (r : Option (DynamicValue × List (ℕ × DynamicValue)))
      → IsTag p.tag
      → IsSound st
      → (not p.is_key && PropertySet.has mask p.tag) ≡ false
      → PropertySet.has valid p.tag ≡ true
      → Taken p.tag st.own r
      → Steps p st (keep_step p.tag r st)
  unfolding keep_step
  keep_step-Steps p st none tagged ok kept has missing = record {
    sound = ok;
    merged_at = λ t. ground (arith, at_tag (λ u. lookup u st.own) p.tag t);
    own_others = λ t h. refl;
    source_others = λ t h. refl;
  }
  keep_step-Steps p st (some (v, left)) tagged ok kept has (found, distinct, same) = record {
    sound = record {
      own_distinct = unfold push in distinct;
      source_sound = unfold push in ok.source_sound;
      marked = λ t. push-marked p.tag v (record st { own = left }) t tagged (ok.marked t);
    };
    merged_at = λ t.
        push-lookup p.tag v (record st { own = left }) t
        ∙ ground (arith, at_tag (λ u. lookup u st.own) p.tag t);
    own_others = λ t h. unfold push in ground (arith, same t);
    source_others = λ t h. unfold push in refl;
  }

  copy_step-Steps :
      (p : DynamicPropertyDescriptor) (st : CopyState S)
      → IsTag p.tag
      → IsSound st
      → Steps p st (copy_step mask valid take p st)
  unfolding copy_step
  copy_step-Steps p st tagged ok = elim (Bool-cases (not p.is_key && PropertySet.has mask p.tag)) [
    | inl chosen ↦ rw chosen (
        take_step-Steps p st (take st.source p.tag) tagged ok chosen
          (laws.takes st.source p.tag ok.source_sound tagged)
          (laws.stays st.source p.tag ok.source_sound tagged)
          (λ u. laws.others st.source p.tag u ok.source_sound tagged))
    | inr kept ↦ elim (Bool-cases (PropertySet.has valid p.tag)) [
      | inl has ↦
          rw (kept, has)
            (keep_step-Steps p st (take_tag p.tag st.own) tagged ok kept has
              (take_tag-Taken p.tag st.own ok.own_distinct))
      | inr lacks ↦
          rw (kept, lacks)
            (record {
              sound = ok;
              merged_at = λ t. ground arith;
              own_others = λ t h. refl;
              source_others = λ t h. refl;
            })
    ]
  ]

  contribution-none :
      (ps : List DynamicPropertyDescriptor) (t : ℕ) (theirs mine : Option DynamicValue)
      → HasNoTag t ps
      → contribution ps t theirs mine ≡ none
  contribution-none [] t theirs mine h = refl
  contribution-none (p ∷ ps) t theirs mine h = rw (h.0) (contribution-none ps t theirs mine h.1)

  after_step :
      (p : DynamicPropertyDescriptor) (ps : List DynamicPropertyDescriptor) (st st' : CopyState S)
      (t : ℕ)
      → HasNoTag p.tag ps
      → Steps p st st'
      → or_else (lookup t st'.merged) (contribution ps t (value st'.source t) (lookup t st'.own))
        ≡ or_else
            (lookup t st.merged)
            (contribution (p ∷ ps) t (value st.source t) (lookup t st.own))
  after_step p ps st st' t fresh step = elim (Bool-cases (p.tag == t)) [
    | inl here ↦
        let e : p.tag ≡ t = ground arith in
        let gone =
          contribution-none ps t (value st'.source t) (lookup t st'.own)
            (subst (λ u. HasNoTag u ps) e fresh) in
        ground (arith, step.merged_at t, gone)
    | inr other ↦
        rw (other, step.source_others t other, step.own_others t other)
          (ground (arith, step.merged_at t))
  ]

  -- After the loop each tag has what was merged before, or else what its property contributes.
  pub copy_loop_lem :
      (ps : List DynamicPropertyDescriptor) (st : CopyState S)
      → AreTagged ps
      → IsSound st
      → IsSound (copy_loop mask valid take ps st)
        × ((t : ℕ)
            → lookup t (copy_loop mask valid take ps st).merged
              ≡ or_else
                  (lookup t st.merged)
                  (contribution ps t (value st.source t) (lookup t st.own)))
  unfolding copy_loop
  copy_loop_lem [] st tagged ok = (ok, λ t. ground arith)
  copy_loop_lem (p ∷ ps) st (tag, fresh, rest) ok =
      let step = copy_step-Steps p st tag ok in
      let st' = copy_step mask valid take p st in
      let (sound, at) = copy_loop_lem ps st' rest step.sound in
      (sound, λ t. at t ∙ after_step p ps st st' t fresh step)
