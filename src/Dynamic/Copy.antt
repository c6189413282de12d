-- ===== src/Dynamic/Copy.antt =====
-- `copy_from`, `copy_take` and their shared core `copy_impl` of crates/dots-rs-core/src/dynamic.rs.
pub mod SwapRemove
pub mod Laws
pub mod Merged
pub mod Overlay
pub mod Assign
pub mod Assigned
mod Examples
use dots_rust.Prelude.{
  ℕ, Bool, true, not, ◌&&◌, Option, none, some, List, [], ◌∷◌, ◌++◌, ◌==◌, if◌then◌else◌,
}
use dots_rust.PropertySet
use dots_rust.PropertySet.{PropertySet}
use dots_rust.Dynamic.Kind.{DynamicPropertyDescriptor, properties_of}
use dots_rust.Dynamic.Value.{DynamicValue, DynamicStruct, lookup}

-- The list without its last item, and that item.
pub split_last {ℓ} : {A : Type ℓ} → List A → Option (List A × A)
split_last [] = none
split_last (x ∷ xs) = elim (split_last xs) [
  | none ↦ some ([], x)
  | some (front, last) ↦ some (x ∷ front, last)
]

-- `swap_remove(0)` on what is left of the list: the last item takes the place of the first.
pub swap_head {ℓ} : {A : Type ℓ} → List A → List A
unfolding split_last
swap_head xs = elim (split_last xs) [ none ↦ [] | some (front, last) ↦ last ∷ front ]

-- `position` of the tag, and `swap_remove` there.
pub take_tag {ℓ} : {V : Type ℓ} → ℕ → List (ℕ × V) → Option (V × List (ℕ × V))
take_tag tag [] = none
take_tag tag ((t, v) ∷ rest) =
    if t == tag
    then some (v, swap_head rest)
    else elim (take_tag tag rest) [ none ↦ none | some (w, left) ↦ some (w, (t, v) ∷ left) ]

-- The variables of the loop: the properties of `self` that are left, those that have been merged, the
-- valid set of these, and what the closure `take` has captured.
pub record CopyState {ℓ} (S : Type ℓ) : Type ℓ where
  pub own : List (ℕ × DynamicValue)
  pub merged : List (ℕ × DynamicValue)
  pub valid : PropertySet
  pub source : S

module _ {ℓ} {S : Type ℓ} where
  pub push : ℕ → DynamicValue → CopyState S → CopyState S
  push tag v st = record st {
    merged = st.merged ++ (tag, v) ∷ [];
    valid = PropertySet.with_tag st.valid tag;
  }

  pub take_step : ℕ → Option DynamicValue × S → CopyState S → CopyState S
  unfolding push
  take_step tag (none, src) st = record st { source = src }
  take_step tag (some v, src) st = push tag v (record st { source = src })

  pub keep_step : ℕ → Option (DynamicValue × List (ℕ × DynamicValue)) → CopyState S → CopyState S
  unfolding push
  keep_step tag none st = st
  keep_step tag (some (v, left)) st = push tag v (record st { own = left })

module _ {ℓ} {S : Type ℓ} (mask valid : PropertySet) (take : S → ℕ → Option DynamicValue × S) where
  -- One turn of the loop over the descriptor's properties.
  pub copy_step : DynamicPropertyDescriptor → CopyState S → CopyState S
  unfolding take_step keep_step
  copy_step prop st =
      if not prop.is_key && PropertySet.has mask prop.tag
      then take_step prop.tag (take st.source prop.tag) st
      else if PropertySet.has valid prop.tag
      then keep_step prop.tag (take_tag prop.tag st.own) st
      else st

  pub copy_loop : List DynamicPropertyDescriptor → CopyState S → CopyState S
  copy_loop [] st = st
  copy_loop (prop ∷ props) st = copy_loop props (copy_step prop st)

-- `copy_impl`: the new `self`, and what is left of the source.
pub copy_impl {ℓ} :
    {S : Type ℓ}
    → DynamicStruct
    → PropertySet
    → (S → ℕ → Option DynamicValue × S)
    → S
    → DynamicStruct × S
copy_impl self mask take source =
    let st =
      copy_loop mask self.valid take (properties_of self.descriptor) (record {
        own = self.properties;
        merged = [];
        valid = PropertySet.empty;
        source = source;
      }) in
    (record self { properties = st.merged; valid = st.valid }, st.source)

-- The closure of `copy_from`: the value is cloned.
pub clone_from : DynamicStruct → ℕ → Option DynamicValue × DynamicStruct
clone_from src tag =
    (if PropertySet.has src.valid tag then lookup tag src.properties else none, src)

unfoldable pub copy_from : DynamicStruct → DynamicStruct → PropertySet → DynamicStruct
unfolding copy_impl clone_from
copy_from self src mask = (copy_impl self mask clone_from src).0

pub move_out :
    ℕ
    → Option (DynamicValue × List (ℕ × DynamicValue))
    → DynamicStruct
    → Option DynamicValue × DynamicStruct
move_out tag none src = (none, src)
move_out tag (some (v, left)) src = (some v, record src { properties = left })

-- The closure of `copy_take`: the value is moved out, and the source's valid bit is cleared first.
pub move_from : DynamicStruct → ℕ → Option DynamicValue × DynamicStruct
unfolding move_out
move_from src tag =
    if PropertySet.has src.valid tag
    then move_out tag (take_tag tag src.properties)
        (record src { valid = PropertySet.without_tag src.valid tag })
    else (none, src)

-- The new `self`, and what is left of the source.
unfoldable pub copy_take :
    DynamicStruct → DynamicStruct → PropertySet → DynamicStruct × DynamicStruct
unfolding copy_impl move_from
copy_take self src mask = copy_impl self mask move_from src
