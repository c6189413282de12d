-- ===== src/Container/Promoted.antt =====
-- `promote_to_static` of crates/dots-rs-transport/src/container.rs.
use dots_rust.Prelude.{ℕ, ◌+◌, List, [], ◌∷◌, length, is_some, if◌then◌else◌}
use dots_rust.Container.Map.{Bytes}
use dots_rust.Container.{Values, typed, ContainerDescriptor, static, dynamic, ContainerValue, Entry}

module _ (values : Values) where
  -- The static type of a container behind a promotion.
  abbrev pub static_of : values.Static → ContainerDescriptor values → values.Static
  static_of d (static e) = e
  static_of d (dynamic e) = d

  -- The number of the values that are typed or decode at the static type.
  abbrev pub decodable : values.Static → ContainerValue values → ℕ
  decodable d (typed a) = 1
  decodable d (dynamic s) = if is_some (values.decode_any d (values.encode_dynamic s)) then 1 else 0

  abbrev pub decodables : values.Static → List (Bytes × Entry values) → ℕ
  decodables d [] = 0
  decodables d ((key, e) ∷ rest) = decodable d e.value + decodables d rest

  -- How many entries are kept.
  abbrev pub kept_count :
      values.Static → ContainerDescriptor values → List (Bytes × Entry values) → ℕ
  kept_count d (static e) items = length items
  kept_count d (dynamic e) items = decodables d items
