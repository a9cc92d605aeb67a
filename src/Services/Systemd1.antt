-- ===== src/Services/Systemd1.antt =====
-- src/systemd1/systemd1_manager_client.cc: the names of the active units.
pub mod Units
use sdbus_cpp_examples.Prelude.{ℕ, Bool, true, false, List, [], ◌∷◌, ◌++◌, if◌then◌else◌, length}
use sdbus_cpp_examples.Prelude.Text.{Text, text_eq}
use sdbus_cpp_examples.ResourceLimits.{is_at_capacity, max_units}

-- Systemd1ManagerClient::activeUnits_.
abbrev pub Units : Type 0
Units = List Text

-- `std::ranges::find(units, id) != units.end()`.
unfoldable pub has_unit : Text → Units → Bool
has_unit id [] = false
has_unit id (unit ∷ units) = if text_eq unit id then true else has_unit id units

-- std::ranges::remove, and the erase of what it leaves behind.
unfoldable pub without_unit : Text → Units → Units
without_unit id [] = []
without_unit id (unit ∷ units) =
    let rest = without_unit id units in if text_eq unit id then rest else unit ∷ rest

unfoldable pub on_unit_new : Text → Units → Units
on_unit_new id units =
    if has_unit id units
    then units
    else if is_at_capacity (length units) max_units
    then units
    else units ++ id ∷ []

unfoldable pub on_unit_removed : Text → Units → Units
on_unit_removed id units = without_unit id units

-- The signals that change the state; the others are only logged.
pub data Signal : Type 0 where
  unit_new unit_removed : Text → Signal

unfoldable pub handle : Signal → Units → Units
handle (unit_new id) units = on_unit_new id units
handle (unit_removed id) units = on_unit_removed id units

unfoldable pub run : List Signal → Units → Units
run [] units = units
run (signal ∷ signals) units = run signals (handle signal units)
