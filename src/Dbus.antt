-- ===== src/Dbus.antt =====
-- The parts of sdbus-c++ that the clients use, which is not part of the repository: a variant and
-- its `get<T>()`, which throws sdbus::Error if the variant holds another type (`none` here).
-- A double is the number of its bits. Then src/utils/property_utils.h on top of it, for any such `get<T>()`.
pub mod Tables
use sdbus_cpp_examples.Prelude.{
  ℕ, ◌≡◌, Bool, Option, none, some, List, bind, arith, Option-cases, inl, inr, ◌⊎◌,
}
use sdbus_cpp_examples.Prelude.Text.{Text}
use sdbus_cpp_examples.Prelude.Map.{lookup, has_key, text_key}
use sdbus_cpp_examples.Prelude.Int.{ℤ}

pub record Variants : Type 1 where
  pub Variant : Type 0
  pub get_string : Variant → Option Text
  pub get_object_path : Variant → Option Text
  pub get_bool : Variant → Option Bool
  pub get_int16 : Variant → Option ℤ
  pub get_int32 : Variant → Option ℤ
  pub get_uint64 : Variant → Option ℕ
  pub get_uint32 : Variant → Option ℕ
  pub get_int64 : Variant → Option ℤ
  pub get_byte : Variant → Option ℕ
  pub get_double : Variant → Option ℕ
  pub get_timestamp : Variant → Option (ℕ × ℕ)
  pub get_object_paths : Variant → Option (List Text)
  pub get_bytes : Variant → Option (List ℕ)
  pub get_byte_lists : Variant → Option (List (List ℕ))
  pub get_strings : Variant → Option (List Text)
  pub get_variant_map : Variant → Option (List (Text × Variant))

-- `get_or_throw` is `it->second.get<T>()`; both catch clauses answer nullopt.
module _ {V T : Type 0} (get_or_throw : V → Option T) where
  unfoldable pub get_property : List (Text × V) → Text → Option T
  get_property properties key = bind (lookup key properties) get_or_throw

  unfoldable pub get_property_or : List (Text × V) → Text → T → T
  get_property_or properties key default_value = elim (get_property properties key) [
    | none ↦ default_value
    | some value ↦ value
  ]

  -- `none` where it throws std::runtime_error.
  unfoldable pub get_required_property : List (Text × V) → Text → Option T
  get_required_property properties key = elim (get_property properties key) [
    | none ↦ none
    | some value ↦ some value
  ]

  -- The four accessors tell one story: with a value of the right type under the key, it is what each
  -- returns; else the default, an exception, or nothing.
  pub property_accessors :
      (properties : List (Text × V)) (key : Text) (d : T)
      → ((x : T) × (get_property properties key ≡ some x)
          × (get_property_or properties key d ≡ x)
          × (get_required_property properties key ≡ some x))
        ⊎ ((get_property properties key ≡ none)
            × (get_property_or properties key d ≡ d)
            × (get_required_property properties key ≡ none))
  unfolding get_property_or get_required_property
  property_accessors properties key d = elim (Option-cases (get_property properties key)) [
    | inl e ↦ inr (e, ground arith, ground arith)
    | inr (x, e) ↦ inl (x, e, ground arith, ground arith)
  ]

unfoldable pub has_property {ℓ} : {V : Type ℓ} → List (Text × V) → Text → Bool
has_property properties key = has_key key properties
