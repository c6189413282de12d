-- ===== src/Dynamic/Copy/Overlay.antt =====
-- `copy_from` and `copy_take` against the masked overlay that their documentation describes.
use dots_rust.Prelude.{
  ℕ, ◌≡◌, refl, ◌∙◌, inl, inr, true, false, not, ◌&&◌, Option, none, some, List, [], ◌∷◌, arith,
  ◌==◌, if◌then◌else◌, Bool-cases, is_some,
}
use dots_rust.PropertySet
use dots_rust.PropertySet.{PropertySet}
use dots_rust.PropertySet.Tags.{IsTag, has-empty, has-without_tag}
use dots_rust.Dynamic.Kind.{DynamicPropertyDescriptor, properties_of, property_at, find_tag}
use dots_rust.Dynamic.Value.{DynamicValue, DynamicStruct, lookup, get}
use dots_rust.Dynamic.Copy.{
  take_tag, CopyState, copy_impl, clone_from, copy_from, move_out, move_from, copy_take,
}
use dots_rust.Dynamic.Copy.SwapRemove.{Distinct, Taken, take_tag-Taken}
use dots_rust.Dynamic.Copy.Laws.{AreTagged, TakeLaws, IsSound, contribution, copy_loop_lem}
use dots_rust.Dynamic.Copy.Merged.{copy_loop-Distinct, copy_loop-same, NotMerged, Agree}

-- Each tag is stored once at most, and the valid set holds exactly the tags that are stored.
pub record IsConsistent (s : DynamicStruct) : Type 0 where
  pub distinct : Distinct s.properties
  pub marked : (t : ℕ) → PropertySet.has s.valid t ≡ is_some (lookup t s.properties)

-- The value of a tag after a masked copy: a property in the mask that is no key has the source's value,
-- set or not; every other property keeps its own.
abbrev pub overlay : DynamicStruct → DynamicStruct → PropertySet → ℕ → Option DynamicValue
overlay self src mask t = elim (property_at self.descriptor t) [
  | none ↦ none
  | some p ↦ if not p.is_key && PropertySet.has mask t then get src t else get self t
]

stored : DynamicStruct → ℕ → Option DynamicValue
stored src t = lookup t src.properties

clone_laws : TakeLaws clone_from stored IsConsistent
unfolding clone_from stored
clone_laws = record {
  takes = λ s t ok tag. ground (arith, ok.marked t);
  stays = λ s t ok tag. ok;
  others = λ s t u ok tag h. refl;
}

-- The source after `take_tag` found the value of a valid tag.
pub move_out-laws :
    (tag : ℕ) (r : Option (DynamicValue × List (ℕ × DynamicValue))) (src : DynamicStruct)
    → IsTag tag
    → IsConsistent src
    → PropertySet.has src.valid tag ≡ true
    → Taken tag src.properties r
    → let out = move_out tag r (record src { valid = PropertySet.without_tag src.valid tag }) in
      (out.0 ≡ lookup tag src.properties)
      × IsConsistent out.1
      × ((u : ℕ) → (tag == u) ≡ false → lookup u out.1.properties ≡ lookup u src.properties)
      × (lookup tag out.1.properties ≡ none)
unfolding move_out
move_out-laws tag none src t ok set missing = absurd (ground (arith, ok.marked tag))
move_out-laws tag (some (v, left)) src t ok set (found, distinct, same) = (
  ground arith,
  record {
    distinct = distinct;
    marked = λ u. ground (arith, same u, ok.marked u, has-without_tag src.valid tag u t);
  },
  λ u h. ground (arith, same u),
  ground (arith, same tag),
)

pub move_from-laws :
    (src : DynamicStruct) (tag : ℕ)
    → IsTag tag
    → IsConsistent src
    → ((move_from src tag).0 ≡ lookup tag src.properties)
      × IsConsistent (move_from src tag).1
      × ((u : ℕ)
          → (tag == u) ≡ false
          → lookup u (move_from src tag).1.properties ≡ lookup u src.properties)
      × (lookup tag (move_from src tag).1.properties ≡ none)
unfolding move_from
move_from-laws src tag t ok = elim (Bool-cases (PropertySet.has src.valid tag)) [
  | inl set ↦ rw set (
      move_out-laws tag (take_tag tag src.properties) src t ok set
        (take_tag-Taken tag src.properties ok.distinct))
  | inr unset ↦
      rw unset (ground (arith, ok.marked tag), ok, λ u h. refl, ground (arith, ok.marked tag))
]

move_laws : TakeLaws move_from stored IsConsistent
unfolding stored
move_laws = record {
  takes = λ s t ok tag. (move_from-laws s t tag ok).0;
  stays = λ s t ok tag. (move_from-laws s t tag ok).1;
  others = λ s t u ok tag h. (move_from-laws s t tag ok).2 u h;
}

contribution-overlay :
    (self src : DynamicStruct) (mask : PropertySet) (ps : List DynamicPropertyDescriptor) (t : ℕ)
    → PropertySet.has self.valid t ≡ is_some (lookup t self.properties)
    → contribution clone_laws mask self.valid ps t
        (lookup t src.properties)
        (lookup t self.properties)
      ≡ elim (find_tag t ps) [
        | none ↦ none
        | some p ↦ if not p.is_key && PropertySet.has mask t then get src t else get self t
      ]
unfolding get find_tag
contribution-overlay self src mask [] t e = refl
contribution-overlay self src mask (p ∷ ps) t e = elim (Bool-cases (p.tag == t)) [
  | inl here ↦ let same : p.tag ≡ t = ground arith in rw (here, same) (ground (arith, e))
  | inr other ↦ rw other (contribution-overlay self src mask ps t e)
]

Agree-self :
    (ps : List DynamicPropertyDescriptor) (mask valid : PropertySet) (src : DynamicStruct)
    → Agree clone_laws move_laws mask valid ps src src
Agree-self [] mask valid src = tt
Agree-self (p ∷ ps) mask valid src = (refl, Agree-self ps mask valid src)

pub NotMerged-start : (ps : List DynamicPropertyDescriptor) → NotMerged ps []
unfolding lookup
NotMerged-start [] = tt
NotMerged-start (p ∷ ps) = (refl, NotMerged-start ps)

module _ (self src : DynamicStruct) (mask : PropertySet)
    (tagged : AreTagged (properties_of self.descriptor)) (ok : IsConsistent self)
    (source_ok : IsConsistent src) where
  abbrev start : CopyState DynamicStruct
  start = record { own = self.properties; merged = []; valid = PropertySet.empty; source = src }

  start-IsSound : IsSound clone_laws mask self.valid start
  unfolding lookup
  start-IsSound = record {
    own_distinct = ok.distinct;
    source_sound = source_ok;
    marked = has-empty;
  }

  -- If the descriptor's tags are 1 to 31 and distinct, and both values are consistent (each tag stored
  -- once at most, the valid set the stored tags), then `copy_from` gives a consistent value in which a
  -- masked property that is no key has the source's value, or none when the source has none, every
  -- other property of the descriptor keeps its own, and no other tag is stored.
  pub copy_from-overlay :
      IsConsistent (copy_from self src mask)
      × ((t : ℕ) → get (copy_from self src mask) t ≡ overlay self src mask t)
  unfolding copy_from copy_impl get property_at stored
  copy_from-overlay =
      let ps = properties_of self.descriptor in
      let (sound, at) = copy_loop_lem clone_laws mask self.valid ps start tagged start-IsSound in
      (
        record {
          distinct =
              copy_loop-Distinct clone_from mask self.valid ps start tagged tt (NotMerged-start ps);
          marked = sound.marked;
        },
        λ t. at t ∙ contribution-overlay self src mask ps t (ok.marked t),
      )

  -- Under the same conditions `copy_take`, which moves the values out of the source, gives the same
  -- value as `copy_from`, which clones them, to the order of the stored properties.
  pub copy_take-eq-copy_from : (copy_take self src mask).0 ≡ copy_from self src mask
  unfolding copy_take copy_from copy_impl
  copy_take-eq-copy_from =
      let ps = properties_of self.descriptor in
      let like =
        copy_loop-same clone_laws move_laws mask self.valid ps start start tagged source_ok
          source_ok (Agree-self ps mask self.valid src)
          (record { own = refl; merged = refl; marks = refl }) in
      λ i. record self { properties = like.merged i; valid = like.marks i }
