-- ===== src/Dynamic/Kind.antt =====
-- The descriptors: `DynamicFieldKind`, `DynamicPropertyDescriptor`, `DynamicStructDescriptor` and the
-- enum descriptors. A data type cannot hold a list of itself, so the properties of a nested struct
-- are a list type of their own; `descriptor.properties` reads them as a list.
use dots_rust.Prelude.{ℕ, String, Bool, Option, none, some, List, [], ◌∷◌, ◌==◌, if◌then◌else◌}
use dots_rust.Prelude.Int.{ℤ}
use dots_rust.PropertySet
use dots_rust.PropertySet.{PropertySet}
use dots_rust.Dynamic.Flags.{StructFlags}

pub record DynamicEnumElement : Type 0 where
  pub name : String
  pub tag : ℕ
  pub value : ℤ

pub record DynamicEnumDescriptor : Type 0 where
  pub name : String
  pub elements : List DynamicEnumElement

mutual
  pub data DynamicFieldKind : Type 0 where
    bool u8 u16 u32 u64 i8 i16 i32 i64 f32 f64 : DynamicFieldKind
    property_set string uuid timepoint duration : DynamicFieldKind
    vec : DynamicFieldKind → DynamicFieldKind
    struct : DynamicStructDescriptor → DynamicFieldKind
    enum : DynamicEnumDescriptor → DynamicFieldKind
    any instance_ref : DynamicFieldKind
    instance_ref_to : String → DynamicFieldKind

  -- name, flags, properties
  pub data DynamicStructDescriptor : Type 0 where
    descriptor : String → StructFlags → Properties → DynamicStructDescriptor

  -- name, tag, is_key, kind, and the properties after this one
  pub data Properties : Type 0 where
    end : Properties
    property : String → ℕ → Bool → DynamicFieldKind → Properties → Properties

pub record DynamicPropertyDescriptor : Type 0 where
  pub name : String
  pub tag : ℕ
  pub is_key : Bool
  pub kind : DynamicFieldKind

abbrev property_list : Properties → List DynamicPropertyDescriptor
property_list end = []
property_list (property name tag is_key kind rest) =
    record { name = name; tag = tag; is_key = is_key; kind = kind } ∷ property_list rest

abbrev pub name_of : DynamicStructDescriptor → String
name_of (descriptor name flags properties) = name

abbrev pub flags_of : DynamicStructDescriptor → StructFlags
flags_of (descriptor name flags properties) = flags

abbrev pub properties_of : DynamicStructDescriptor → List DynamicPropertyDescriptor
properties_of (descriptor name flags properties) = property_list properties

unfoldable pub find_tag : ℕ → List DynamicPropertyDescriptor → Option DynamicPropertyDescriptor
find_tag tag [] = none
find_tag tag (p ∷ ps) = if p.tag == tag then some p else find_tag tag ps

unfoldable pub property_at : DynamicStructDescriptor → ℕ → Option DynamicPropertyDescriptor
unfolding find_tag
property_at d tag = find_tag tag (properties_of d)

key_loop : PropertySet → List DynamicPropertyDescriptor → PropertySet
key_loop set [] = set
key_loop set (p ∷ ps) = key_loop (if p.is_key then PropertySet.with_tag set p.tag else set) ps

unfoldable pub key_mask : DynamicStructDescriptor → PropertySet
unfolding key_loop
key_mask d = key_loop PropertySet.empty (properties_of d)

mask_loop : PropertySet → List DynamicPropertyDescriptor → PropertySet
mask_loop set [] = set
mask_loop set (p ∷ ps) = mask_loop (PropertySet.with_tag set p.tag) ps

unfoldable pub property_mask : DynamicStructDescriptor → PropertySet
unfolding mask_loop
property_mask d = mask_loop PropertySet.empty (properties_of d)

find_element : (DynamicEnumElement → Bool) → List DynamicEnumElement → Option DynamicEnumElement
find_element p [] = none
find_element p (e ∷ es) = if p e then some e else find_element p es

unfoldable pub element_by_tag : DynamicEnumDescriptor → ℕ → Option DynamicEnumElement
unfolding find_element
element_by_tag d tag = find_element (λ e. e.tag == tag) d.elements
