-- ===== src/Services/Geoclue.antt =====
-- src/geoclue2/geoclue2_manager.cc, geoclue2_client.h and geoclue2_location.h: where the computer is.
-- In the loops over changed properties an unknown key prints the whole change.
pub mod Prints
use sdbus_cpp_examples.Prelude.{
  ℕ, suc, Bool, true, false, not, Option, none, some, List, [], ◌∷◌, if◌then◌else◌, is_empty,
}
use sdbus_cpp_examples.Prelude.Text.{Text, text}
use sdbus_cpp_examples.Prelude.Map.{has_key, text_key}
use sdbus_cpp_examples.Dbus.{Variants}
use sdbus_cpp_examples.Dbus.Tables.{Table, field, set_field}

-- What a change of properties does: the members after it, how often the whole change was printed,
-- and whether it ended without an exception.
pub record Changed (P : Type 0) : Type 0 where
  pub members : P
  pub prints : ℕ
  pub ended : Bool

-- The final else of the chain.
abbrev pub printed_once : {P : Type 0} → Bool → Changed P → Changed P
printed_once known c = if known then c else record c { prints = suc c.prints }

module _ {V P : Type 0} where
  unfoldable pub change : Table V P → List (Text × V) → P → Changed P
  change table [] p = record { members = p; prints = 0; ended = true }
  change table ((key, value) ∷ changed) p = elim (set_field table key value p) [
    | none ↦ record { members = p; prints = 0; ended = false }
    | some p' ↦ printed_once (has_key key table) (change table changed p')
  ]

-- GeoClue2Manager::properties_, GeoClue2Client::properties_t and GeoClue2Location::properties_t; a
-- double is the number of its bits.
pub record ManagerProperties : Type 0 where
  pub in_use : Bool
  pub available_accuracy_level : ℕ

pub record ClientProperties : Type 0 where
  pub active : Bool
  pub desktop_id : Text
  pub distance_threshold : ℕ
  pub location_path : Text
  pub requested_accuracy_level : ℕ
  pub time_threshold : ℕ

pub record Location : Type 0 where
  pub accuracy : ℕ
  pub altitude : ℕ
  pub description : Text
  pub heading : ℕ
  pub latitude : ℕ
  pub longitude : ℕ
  pub speed : ℕ
  pub timestamp : ℕ × ℕ

abbrev pub no_location : Location
no_location = record {
  accuracy = 0;
  altitude = 0;
  description = [];
  heading = 0;
  latitude = 0;
  longitude = 0;
  speed = 0;
  timestamp = (0, 0);
}

-- The members of GeoClue2Client, with whether it was given a callback, and the locations that the
-- callback was called with, the last first.
pub record Client : Type 0 where
  pub properties : ClientProperties
  pub has_callback : Bool
  pub location : Option Location
  pub reported : List Location

module _ (v : Variants) where
  open v use {Variant, get_string, get_object_path, get_bool, get_uint32, get_double, get_timestamp}

  unfoldable pub manager_table : Table Variant ManagerProperties
  manager_table =
      (text "InUse", field get_bool (λ x p. record p { in_use = x }))
      ∷ (
        text "AvailableAccuracyLevel",
        field get_uint32 (λ x p. record p { available_accuracy_level = x }),
      )
      ∷ []

  unfoldable pub client_table : Table Variant ClientProperties
  client_table =
      (text "Active", field get_bool (λ x p. record p { active = x }))
      ∷ (text "DesktopId", field get_string (λ x p. record p { desktop_id = x }))
      ∷ (text "DistanceThreshold", field get_uint32 (λ x p. record p { distance_threshold = x }))
      ∷ (text "Location", field get_object_path (λ x p. record p { location_path = x }))
      ∷ (
        text "RequestedAccuracyLevel",
        field get_uint32 (λ x p. record p { requested_accuracy_level = x }),
      )
      ∷ (text "TimeThreshold", field get_uint32 (λ x p. record p { time_threshold = x }))
      ∷ []

  unfoldable pub location_table : Table Variant Location
  location_table =
      (text "Accuracy", field get_double (λ x p. record p { accuracy = x }))
      ∷ (text "Altitude", field get_double (λ x p. record p { altitude = x }))
      ∷ (text "Description", field get_string (λ x p. record p { description = x }))
      ∷ (text "Heading", field get_double (λ x p. record p { heading = x }))
      ∷ (text "Latitude", field get_double (λ x p. record p { latitude = x }))
      ∷ (text "Longitude", field get_double (λ x p. record p { longitude = x }))
      ∷ (text "Speed", field get_double (λ x p. record p { speed = x }))
      ∷ (text "Timestamp", field get_timestamp (λ x p. record p { timestamp = x }))
      ∷ []

  -- GeoClue2Location::GeoClue2Location, given what GetAll answers, `none` where it throws.
  unfoldable pub new_location : Option (List (Text × Variant)) → Option Location
  new_location none = none
  new_location (some properties) =
      let c = change location_table properties no_location in
      if c.ended then some c.members else none

  -- GeoClue2Client::onLocationUpdated, given what becomes of the new location: without it the old one
  -- stays.
  unfoldable pub on_location_updated : Option Location → Client → Client
  on_location_updated none c = c
  on_location_updated (some l) c = record c {
    location = some l;
    reported = if c.has_callback then l ∷ c.reported else c.reported;
  }

-- The construction of GeoClue2Manager asks for a client, unless the path is empty.
unfoldable pub wants_client : Text → Bool
wants_client client_path = not (is_empty client_path)
