-- ===== src/Dynamic/Copy/Merged.antt =====
-- The loop of `copy_impl` merges each tag once, and what it merges depends on the values alone that the
-- closure hands out.
use dots_rust.Prelude.{
  ℕ, ◌≡◌, refl, sym, ◌∙◌, ap, inl, inr, false, not, ◌&&◌, Option, none, some, List, [], ◌∷◌, ◌++◌,
  arith, ◌==◌, Bool-cases,
}
use dots_rust.PropertySet
use dots_rust.PropertySet.{PropertySet}
use dots_rust.PropertySet.Tags.{IsTag}
use dots_rust.Dynamic.Kind.{DynamicPropertyDescriptor}
use dots_rust.Dynamic.Value.{DynamicValue, lookup}
use dots_rust.Dynamic.Copy.{take_tag, CopyState, push, take_step, keep_step, copy_step, copy_loop}
use dots_rust.Dynamic.Copy.SwapRemove.{Distinct, lookup-append}
use dots_rust.Dynamic.Copy.Laws.{HasNoTag, AreTagged, TakeLaws}

Distinct-append :
    (tag : ℕ) (v : DynamicValue) (xs : List (ℕ × DynamicValue))
    → Distinct xs
    → lookup tag xs ≡ none
    → Distinct (xs ++ (tag, v) ∷ [])
unfolding lookup
Distinct-append tag v [] d h = (refl, tt)
Distinct-append tag v ((u, w) ∷ xs) d h = (
  lookup-append u xs ((tag, v) ∷ []) ∙ ground (arith, d.0),
  Distinct-append tag v xs d.1 (ground arith),
)

-- None of the properties has been merged.
abbrev pub NotMerged : List DynamicPropertyDescriptor → List (ℕ × DynamicValue) → Type 0
NotMerged [] merged = Unit
NotMerged (p ∷ ps) merged = (lookup p.tag merged ≡ none) × NotMerged ps merged

NotMerged-append :
    (tag : ℕ) (v : DynamicValue) (ps : List DynamicPropertyDescriptor)
    (xs : List (ℕ × DynamicValue))
    → HasNoTag tag ps
    → NotMerged ps xs
    → NotMerged ps (xs ++ (tag, v) ∷ [])
NotMerged-append tag v [] xs fresh h = tt
NotMerged-append tag v (p ∷ ps) xs fresh h = (
  lookup-append p.tag xs ((tag, v) ∷ []) ∙ unfold lookup in ground (arith, h.0, fresh.0),
  NotMerged-append tag v ps xs fresh.1 h.1,
)

-- What a step may do to the list of merged properties.
data Extends (tag : ℕ) (before after : List (ℕ × DynamicValue)) : Type 0 where
  same : after ≡ before → Extends tag before after
  one_more : (v : DynamicValue) → after ≡ before ++ (tag, v) ∷ [] → Extends tag before after

module _ {S : Type 0} (take : S → ℕ → Option DynamicValue × S) (mask valid : PropertySet) where
  take_step-Extends :
      (tag : ℕ) (r : Option DynamicValue × S) (st : CopyState S)
      → Extends tag st.merged (take_step tag r st).merged
  unfolding take_step push
  take_step-Extends tag (none, src) st = same refl
  take_step-Extends tag (some v, src) st = one_more v refl

  keep_step-Extends :
      (tag : ℕ) (r : Option (DynamicValue × List (ℕ × DynamicValue))) (st : CopyState S)
      → Extends tag st.merged (keep_step tag r st).merged
  unfolding keep_step push
  keep_step-Extends tag none st = same refl
  keep_step-Extends tag (some (v, left)) st = one_more v refl

  copy_step-Extends :
      (p : DynamicPropertyDescriptor) (st : CopyState S)
      → Extends p.tag st.merged (copy_step mask valid take p st).merged
  unfolding copy_step
  copy_step-Extends p st = elim (Bool-cases (not p.is_key && PropertySet.has mask p.tag)) [
    | inl chosen ↦ rw chosen (take_step-Extends p.tag (take st.source p.tag) st)
    | inr kept ↦ elim (Bool-cases (PropertySet.has valid p.tag)) [
      | inl has ↦ rw (kept, has) (keep_step-Extends p.tag (take_tag p.tag st.own) st)
      | inr lacks ↦ rw (kept, lacks) (same refl)
    ]
  ]

  Extends-Distinct :
      (tag : ℕ) (ps : List DynamicPropertyDescriptor) (before after : List (ℕ × DynamicValue))
      → Extends tag before after
      → Distinct before
      → lookup tag before ≡ none
      → HasNoTag tag ps
      → NotMerged ps before
      → Distinct after × NotMerged ps after
  Extends-Distinct tag ps before after (same e) d h fresh n = rw e (d, n)
  Extends-Distinct tag ps before after (one_more v e) d h fresh n =
      rw e (Distinct-append tag v before d h, NotMerged-append tag v ps before fresh n)

  pub copy_loop-Distinct :
      (ps : List DynamicPropertyDescriptor) (st : CopyState S)
      → AreTagged ps
      → Distinct st.merged
      → NotMerged ps st.merged
      → Distinct (copy_loop mask valid take ps st).merged
  unfolding copy_loop
  copy_loop-Distinct [] st tagged d n = d
  copy_loop-Distinct (p ∷ ps) st (tag, fresh, rest) d (missing, n) =
      let (d', n') =
        Extends-Distinct p.tag ps st.merged (copy_step mask valid take p st).merged
          (copy_step-Extends p st) d missing fresh n in
      copy_loop-Distinct ps (copy_step mask valid take p st) rest d' n'

take_step-source {ℓ} :
    {S : Type ℓ} (tag : ℕ) (r : Option DynamicValue × S) (st : CopyState S)
    → (take_step tag r st).source ≡ r.1
unfolding take_step push
take_step-source tag (none, src) st = refl
take_step-source tag (some v, src) st = refl

keep_step-source {ℓ} :
    {S : Type ℓ} (tag : ℕ) (r : Option (DynamicValue × List (ℕ × DynamicValue))) (st : CopyState S)
    → (keep_step tag r st).source ≡ st.source
unfolding keep_step push
keep_step-source tag none st = refl
keep_step-source tag (some (v, left)) st = refl

-- What a step leaves of the source.
module _ {S : Type 0} {take : S → ℕ → Option DynamicValue × S} {value : S → ℕ → Option DynamicValue}
    {Sound : S → Type 0} (laws : TakeLaws take value Sound) (mask valid : PropertySet) where
  abbrev LeavesSource : ℕ → S → S → Type 0
  LeavesSource tag src left =
      Sound left × ((u : ℕ) → (tag == u) ≡ false → value left u ≡ value src u)

  copy_step-LeavesSource :
      (p : DynamicPropertyDescriptor) (st : CopyState S)
      → IsTag p.tag
      → Sound st.source
      → LeavesSource p.tag st.source (copy_step mask valid take p st).source
  unfolding copy_step
  copy_step-LeavesSource p st tag ok =
      elim (Bool-cases (not p.is_key && PropertySet.has mask p.tag)) [
        | inl chosen ↦
            rw (chosen, take_step-source p.tag (take st.source p.tag) st)
              (laws.stays st.source p.tag ok tag, λ u. laws.others st.source p.tag u ok tag)
        | inr kept ↦ elim (Bool-cases (PropertySet.has valid p.tag)) [
          | inl has ↦
              rw (kept, has, keep_step-source p.tag (take_tag p.tag st.own) st) (ok, λ u h. refl)
          | inr lacks ↦ rw (kept, lacks) (ok, λ u h. refl)
        ]
      ]

-- Two loops whose closures hand out the same values.
module _ {S T : Type 0} {take : S → ℕ → Option DynamicValue × S}
    {take' : T → ℕ → Option DynamicValue × T} {value : S → ℕ → Option DynamicValue}
    {value' : T → ℕ → Option DynamicValue} {Sound : S → Type 0} {Sound' : T → Type 0}
    (laws : TakeLaws take value Sound) (laws' : TakeLaws take' value' Sound')
    (mask valid : PropertySet) where
  abbrev pub Agree : List DynamicPropertyDescriptor → S → T → Type 0
  Agree [] s t = Unit
  Agree (p ∷ ps) s t = (value s p.tag ≡ value' t p.tag) × Agree ps s t

  pub record IsLike (st : CopyState S) (st' : CopyState T) : Type 0 where
    pub own : st'.own ≡ st.own
    pub merged : st'.merged ≡ st.merged
    pub marks : st'.valid ≡ st.valid

  take_step-IsLike :
      (tag : ℕ) (r : Option DynamicValue × S) (r' : Option DynamicValue × T) (st : CopyState S)
      (st' : CopyState T)
      → r.0 ≡ r'.0
      → IsLike st st'
      → IsLike (take_step tag r st) (take_step tag r' st')
  unfolding take_step push
  take_step-IsLike tag (none, s) (none, t) st st' e h = record {
    own = h.own;
    merged = h.merged;
    marks = h.marks;
  }
  take_step-IsLike tag (some v, s) (none, t) st st' e h = cc
  take_step-IsLike tag (none, s) (some v, t) st st' e h = cc
  take_step-IsLike tag (some v, s) (some w, t) st st' e h = record {
    own = h.own;
    merged = ground (arith, h.merged);
    marks = ground (arith, h.marks);
  }

  keep_step-IsLike :
      (tag : ℕ) (r : Option (DynamicValue × List (ℕ × DynamicValue)))
      (r' : Option (DynamicValue × List (ℕ × DynamicValue))) (st : CopyState S) (st' : CopyState T)
      → r' ≡ r
      → IsLike st st'
      → IsLike (keep_step tag r st) (keep_step tag r' st')
  unfolding keep_step push
  keep_step-IsLike tag none none st st' e h = h
  keep_step-IsLike tag none (some r) st st' e h = cc
  keep_step-IsLike tag (some r) none st st' e h = cc
  keep_step-IsLike tag (some (v, left)) (some (w, left')) st st' e h = record {
    own = ground arith;
    merged = ground (arith, h.merged);
    marks = ground (arith, h.marks);
  }

  copy_step-IsLike :
      (p : DynamicPropertyDescriptor) (st : CopyState S) (st' : CopyState T)
      → (take st.source p.tag).0 ≡ (take' st'.source p.tag).0
      → IsLike st st'
      → IsLike (copy_step mask valid take p st) (copy_step mask valid take' p st')
  unfolding copy_step
  copy_step-IsLike p st st' e h = elim (Bool-cases (not p.is_key && PropertySet.has mask p.tag)) [
    | inl chosen ↦
        rw chosen
          (take_step-IsLike p.tag (take st.source p.tag) (take' st'.source p.tag) st st' e h)
    | inr kept ↦ elim (Bool-cases (PropertySet.has valid p.tag)) [
      | inl has ↦
          rw (kept, has)
            (keep_step-IsLike p.tag (take_tag p.tag st.own) (take_tag p.tag st'.own) st st'
              (ap (take_tag p.tag) h.own) h)
      | inr lacks ↦ rw (kept, lacks) h
    ]
  ]

  Agree-after :
      (tag : ℕ) (ps : List DynamicPropertyDescriptor) {s s' : S} {t t' : T}
      → HasNoTag tag ps
      → Agree ps s t
      → ((u : ℕ) → (tag == u) ≡ false → value s' u ≡ value s u)
      → ((u : ℕ) → (tag == u) ≡ false → value' t' u ≡ value' t u)
      → Agree ps s' t'
  Agree-after tag [] fresh agree keeps keeps' = tt
  Agree-after tag (p ∷ ps) fresh agree keeps keeps' = (
    ground (arith, keeps p.tag, keeps' p.tag, agree.0, fresh.0),
    Agree-after tag ps fresh.1 agree.1 keeps keeps',
  )

  pub copy_loop-same :
      (ps : List DynamicPropertyDescriptor) (st : CopyState S) (st' : CopyState T)
      → AreTagged ps
      → Sound st.source
      → Sound' st'.source
      → Agree ps st.source st'.source
      → IsLike st st'
      → IsLike (copy_loop mask valid take ps st) (copy_loop mask valid take' ps st')
  unfolding copy_loop
  copy_loop-same [] st st' tagged ok ok' agree h = h
  copy_loop-same (p ∷ ps) st st' (tag, fresh, rest) ok ok' agree h =
      let e =
        laws.takes st.source p.tag ok tag ∙ agree.0 ∙ sym (laws'.takes st'.source p.tag ok' tag) in
      let left = copy_step-LeavesSource laws mask valid p st tag ok in
      let left' = copy_step-LeavesSource laws' mask valid p st' tag ok' in
      copy_loop-same ps (copy_step mask valid take p st) (copy_step mask valid take' p st') rest
        left.0 left'.0 (Agree-after p.tag ps fresh agree.1 left.1 left'.1)
        (copy_step-IsLike p st st' e h)
