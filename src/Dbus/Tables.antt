-- ===== src/Dbus/Tables.antt =====
-- The loop of the clients' onPropertiesChanged: `for (const auto& [key, value] : changed)` with an
-- else-if chain over the key, each branch `properties_.field = value.get<T>()`. The chain is a table
-- of the keys with what their branch does, `none` where `get<T>()` throws.
pub mod Latest
use sdbus_cpp_examples.Prelude.{
  Bool, true, false, Option, none, some, List, [], ◌∷◌, bind, if◌then◌else◌,
}
use sdbus_cpp_examples.Prelude.Text.{Text, text_eq}

abbrev pub Setter : Type 0 → Type 0 → Type 0
Setter V P = V → P → Option P

abbrev pub Table : Type 0 → Type 0 → Type 0
Table V P = List (Text × Setter V P)

-- A member written, if `get<T>()` does not throw.
abbrev pub field : {V P A : Type 0} → (V → Option A) → (A → P → P) → Setter V P
field read write value p = bind (read value) λ a. some (write a p)

module _ {V P : Type 0} where
  -- The chain for one key: a key that is not in it changes nothing.
  unfoldable pub set_field : Table V P → Text → V → P → Option P
  set_field [] key value p = some p
  set_field ((k, setter) ∷ table) key value p =
      let rest = set_field table key value p in if text_eq key k then setter value p else rest

  -- The loop: the members after it, and whether it ended without an exception, which keeps what was
  -- written before.
  unfoldable pub on_changed : Table V P → List (Text × V) → P → P × Bool
  on_changed table [] p = (p, true)
  on_changed table ((key, value) ∷ changed) p = elim (set_field table key value p) [
    | none ↦ (p, false)
    | some p' ↦ on_changed table changed p'
  ]
