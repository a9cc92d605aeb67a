-- ===== src/Services/Login1.antt =====
-- src/login1/login1_manager_client.cc: the maps of seats, sessions and users. An exception of a
-- constructor leaves a signal's handler, and leaves the map as it is.
use sdbus_cpp_examples.Prelude.{Bool, true, false, Option, none, some, List}
use sdbus_cpp_examples.Prelude.Text.{Text}
use sdbus_cpp_examples.Prelude.Map.{remove, text_key}
use sdbus_cpp_examples.Services.Objects.{Objects, add_object, add_objects}

pub record Client : Type 0 where
  pub seats : Objects
  pub sessions : Objects
  pub users : Objects

-- onSeatNew, onSessionNew and onUserNew: the id is only logged.
unfoldable pub on_seat_new : Bool → Text → Client → Client × Bool
on_seat_new made path c = let r = add_object made path c.seats in (record c { seats = r.0 }, r.1)

unfoldable pub on_session_new : Bool → Text → Client → Client × Bool
on_session_new made path c =
    let r = add_object made path c.sessions in (record c { sessions = r.0 }, r.1)

unfoldable pub on_user_new : Bool → Text → Client → Client × Bool
on_user_new made path c = let r = add_object made path c.users in (record c { users = r.0 }, r.1)

-- onSeatRemoved, onSessionRemoved and onUserRemoved.
unfoldable pub on_seat_removed : Text → Client → Client
on_seat_removed path c = record c { seats = remove path c.seats }

unfoldable pub on_session_removed : Text → Client → Client
on_session_removed path c = record c { sessions = remove path c.sessions }

unfoldable pub on_user_removed : Text → Client → Client
on_user_removed path c = record c { users = remove path c.users }

-- The map after one listing and whether the next one is still made; `none` is a listing that throws.
unfoldable pub listed : (Text → Bool) → Option (List Text) → Objects → Objects × Bool
listed makes none m = (m, false)
listed makes (some paths) m = add_objects makes paths m

abbrev pub then_users : (Text → Bool) → Option (List Text) → Client × Bool → Client
then_users makes users (c, false) = c
then_users makes users (c, true) = record c { users = (listed makes users c.users).0 }

abbrev pub then_sessions : (Text → Bool) → Option (List Text) → Client × Bool → Client × Bool
then_sessions makes sessions (c, false) = (c, false)
then_sessions makes sessions (c, true) =
    let r = listed makes sessions c.sessions in (record c { sessions = r.0 }, r.1)

-- The reply of GetAllAsync: ListSeats, ListSessions and ListUsers in turn. An exception of any of
-- them, or of a constructor, ends the enumeration and is caught.
unfoldable pub enumerate :
    (Text → Bool)
    → (Text → Bool)
    → (Text → Bool)
    → Option (List Text)
    → Option (List Text)
    → Option (List Text)
    → Client
    → Client
enumerate makes_seat makes_session makes_user seats sessions users c =
    let r = listed makes_seat seats c.seats in
    then_users makes_user users
      (then_sessions makes_session sessions (record c { seats = r.0 }, r.1))
