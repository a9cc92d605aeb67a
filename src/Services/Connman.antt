-- ===== src/Services/Connman.antt =====
-- src/connman/connman_client.cc, ConnmanManagerClient: the maps of technologies and services. The
-- handlers catch every exception; the constructor lets it through. One thread runs the callbacks, so
-- the mutex is left out, and what is only logged is too.
pub mod Changes
use sdbus_cpp_examples.Prelude.{Bool, true, false, Option, none, some, List, [], bind}
use sdbus_cpp_examples.Prelude.Text.{Text}
use sdbus_cpp_examples.Prelude.Map.{remove, text_key}
use sdbus_cpp_examples.Services.Objects.{Objects, add_object, add_objects, remove_objects}

pub record Client : Type 0 where
  pub technologies : Objects
  pub services : Objects

-- The map that a loop leaves, `none` if it threw.
abbrev pub if_ended : Objects × Bool → Option Objects
if_ended (m, false) = none
if_ended (m, true) = some m

-- ConnmanManagerClient::ConnmanManagerClient, of the answers of GetTechnologies and GetServices.
unfoldable pub new_client :
    (Text → Bool) → (Text → Bool) → Option (List Text) → Option (List Text) → Option Client
new_client makes_technology makes_service technologies services = bind technologies λ techs.
    bind (if_ended (add_objects makes_technology techs [])) λ ts. bind services λ servs.
      bind (if_ended (add_objects makes_service servs []))
        λ ss. some (record { technologies = ts; services = ss })

unfoldable pub on_technology_added : Bool → Text → Client → Client
on_technology_added made path c = record c {
  technologies = (add_object made path c.technologies).0;
}

unfoldable pub on_technology_removed : Text → Client → Client
on_technology_removed path c = record c { technologies = remove path c.technologies }

-- The second loop of onServicesChanged is left out if the first has thrown.
unfoldable pub then_remove : List Text → Objects × Bool → Objects
then_remove removed (m, false) = m
then_remove removed (m, true) = remove_objects removed m

unfoldable pub on_services_changed : (Text → Bool) → List Text → List Text → Client → Client
on_services_changed makes changed removed c = record c {
  services = then_remove removed (add_objects makes changed c.services);
}
