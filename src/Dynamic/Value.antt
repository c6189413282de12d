-- ===== src/Dynamic/Value.antt =====
-- `DynamicValue` and `DynamicStruct`. A float is its bit pattern, an `f32` in 32 bits and an `f64` in
-- 64; a signed integer is a `ℤ`, an unsigned one a number; `[u8; 16]` and `Vec<u8>` are lists of bytes.
use dots_rust.Prelude.{ℕ, String, Bool, Option, none, some, List, [], ◌∷◌, ◌==◌, if◌then◌else◌}
use dots_rust.Prelude.Int.{ℤ}
use dots_rust.PropertySet.{PropertySet}
use dots_rust.Dynamic.Kind.{DynamicStructDescriptor}

mutual
  pub data DynamicValue : Type 0 where
    bool : Bool → DynamicValue
    u8 u16 u32 u64 : ℕ → DynamicValue
    i8 i16 i32 i64 : ℤ → DynamicValue
    f32 f64 : ℕ → DynamicValue
    string : String → DynamicValue
    property_set : PropertySet → DynamicValue
    uuid : List ℕ → DynamicValue
    vec : Items → DynamicValue
    -- descriptor, valid, properties
    struct : DynamicStructDescriptor → PropertySet → Fields → DynamicValue
    enum : ℕ → DynamicValue
    timepoint duration : ℕ → DynamicValue
    -- type name, payload
    any : String → List ℕ → DynamicValue
    -- type name, key
    instance_ref : Option String → List ℕ → DynamicValue

  pub data Items : Type 0 where
    nil : Items
    cons : DynamicValue → Items → Items

  pub data Fields : Type 0 where
    end : Fields
    field : ℕ → DynamicValue → Fields → Fields

pub record DynamicStruct : Type 0 where
  pub descriptor : DynamicStructDescriptor
  pub valid : PropertySet
  pub properties : List (ℕ × DynamicValue)

-- The first entry of a tag.
unfoldable pub lookup {ℓ} : {V : Type ℓ} → ℕ → List (ℕ × V) → Option V
lookup tag [] = none
lookup tag ((t, v) ∷ rest) = if t == tag then some v else lookup tag rest

unfoldable pub get : DynamicStruct → ℕ → Option DynamicValue
unfolding lookup
get s tag = lookup tag s.properties
