-- ===== src/Parser/Ast.antt =====
-- The syntax tree of crates/dots-rs-build/src/ast.rs.
use dots_rust.Prelude.{
  ℕ, Bool, true, false, String, str_eq, ◌&&◌, ◌||◌, Option, none, some, List, [], ◌∷◌,
  if◌then◌else◌,
}
use dots_rust.Prelude.Int.{ℤ}

pub data OptValue : Type 0 where
  bool : Bool → OptValue
  text : String → OptValue

pub record Opt : Type 0 where
  pub name : String
  pub value : OptValue

pub data PropertyType : Type 0 where
  named : String → PropertyType
  vector : PropertyType → PropertyType
  instance_ref : Option String → PropertyType

pub record Property : Type 0 where
  pub docs : List String
  pub trailing_doc : List String
  pub tag : ℕ
  pub options : List Opt
  pub ty : PropertyType
  pub name : String

pub record EnumItem : Type 0 where
  pub docs : List String
  pub tag : ℕ
  pub name : String
  pub value : Option ℤ
  pub trailing_doc : List String

pub record StructDef : Type 0 where
  pub docs : List String
  pub name : String
  pub options : List Opt
  pub properties : List Property

pub record EnumDef : Type 0 where
  pub docs : List String
  pub name : String
  pub items : List EnumItem

pub data Item : Type 0 where
  struct : StructDef → Item
  enum : EnumDef → Item
  import_of package_of : String → Item

pub record File : Type 0 where
  pub items : List Item

abbrev pub is_true : OptValue → Bool
is_true (bool b) = b
is_true (text s) = false

unfoldable pub has_key : List Opt → Bool
has_key [] = false
has_key (o ∷ os) = (str_eq o.name "key" && is_true o.value) || has_key os

unfoldable pub is_key : Property → Bool
is_key p = has_key p.options

unfoldable pub option_named : String → List Opt → Option Opt
option_named name [] = none
option_named name (o ∷ os) = if str_eq o.name name then some o else option_named name os

abbrev pub flag_value : Bool → Option Opt → Bool
flag_value default none = default
flag_value default (some o) = of_value default o.value
  where
    of_value : Bool → OptValue → Bool
    of_value default (bool b) = b
    of_value default (text s) = default

unfoldable pub flag : StructDef → String → Bool → Bool
flag s name default = flag_value default (option_named name s.options)

unfoldable pub is_internal : StructDef → Bool
is_internal s = flag s "internal" false

unfoldable pub is_cached : StructDef → Bool
is_cached s = flag s "cached" true

unfoldable pub is_persistent : StructDef → Bool
is_persistent s = flag s "persistent" false

unfoldable pub is_cleanup : StructDef → Bool
is_cleanup s = flag s "cleanup" false

unfoldable pub is_local : StructDef → Bool
is_local s = flag s "local" false

unfoldable pub is_substruct_only : StructDef → Bool
is_substruct_only s = flag s "substruct_only" false
