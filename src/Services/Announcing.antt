-- ===== src/Services/Announcing.antt =====
-- The clients that log what the bus says: src/networkmanager/networkmanager_client.cc,
-- src/fwupd/fwupd_client.cc, the objects of login1 in src/login1, and the handlers of
-- src/network1/network1_client.cc and src/wpa_supplicant/wpa_supplicant1_client.cc.
use sdbus_cpp_examples.Prelude.{ℕ, Option, none, some, List, [], ◌∷◌, ◌++◌}
use sdbus_cpp_examples.Prelude.Text.{Text, text}
use sdbus_cpp_examples.Printing.Values.{Variant}
use sdbus_cpp_examples.Printing.Streams.{Writes, new_stream, ◌>>◌, idle, put, endl, for_each}
use sdbus_cpp_examples.Printing.Properties.{append_properties, print_changed_properties}

-- `[path] Remove - interface` for each interface, with a line break between them.
unfoldable pub removed_lines : Text → List Text → Writes
removed_lines path [] = idle
removed_lines path (interface ∷ []) = put (b'[' ∷ path ++ (text "] Remove - " ++ interface))
removed_lines path (interface ∷ next ∷ interfaces) =
    put (b'[' ∷ path ++ (text "] Remove - " ++ interface))
    >> endl
    >> removed_lines path (next ∷ interfaces)

-- NetworkManagerClient::onInterfacesRemoved.
unfoldable pub on_interfaces_removed : Text → List Text → Text
on_interfaces_removed path interfaces = ((endl >> removed_lines path interfaces) new_stream).out

abbrev pub rule : Writes
rule = put (text "========================================") >> endl

-- `double_text` is std::to_string of a double, as in Printing.
module _ (double_text : ℕ → Text) where
  abbrev added_lines : Text → Text × List (Text × Variant) → Writes
  added_lines path (interface, properties) =
      put (b'[' ∷ path ++ (text "] Add - " ++ interface))
      >> endl
      >> append_properties double_text properties

  -- NetworkManagerClient::onInterfacesAdded: one stream for all interfaces.
  unfoldable pub on_interfaces_added : Text → List (Text × List (Text × Variant)) → Text
  on_interfaces_added path interfaces_and_properties =
      ((endl >> for_each (added_lines path) interfaces_and_properties) new_stream).out

  -- The constructor of NetworkManagerClient, given what GetManagedObjects answers.
  unfoldable pub enumerate : List (Text × List (Text × List (Text × Variant))) → List Text
  enumerate [] = []
  enumerate ((path, interfaces_and_properties) ∷ objects) =
      on_interfaces_added path interfaces_and_properties ∷ enumerate objects

  -- NetworkManagerClient::onPropertiesChanged of the older signal.
  unfoldable pub on_properties_changed : List (Text × Variant) → Text
  on_properties_changed properties =
      ((endl
          >> put (text "NetworkManagerClient Properties changed")
          >> endl
          >> append_properties double_text properties)
        new_stream).out

  -- FwupdClient::onDeviceAdded, onDeviceRemoved, onDeviceChanged and onDeviceRequest, which differ in
  -- their name.
  unfoldable pub on_device : Text → List (Text × Variant) → Text
  on_device handler device =
      ((endl
          >> put (text "[FwupdClient] " ++ handler)
          >> endl
          >> append_properties double_text device)
        new_stream).out

  -- printProperties of Login1Session, Login1Seat and Login1User, given what GetAll answers: nothing
  -- is printed where it throws.
  unfoldable pub print_properties : Text → Text → Option (List (Text × Variant)) → Option Text
  print_properties kind path none = none
  print_properties kind path (some props) =
      some
        ((endl
            >> rule
            >> put (kind ++ (text ": " ++ path))
            >> endl
            >> rule
            >> append_properties double_text props
            >> rule)
          new_stream).out

  -- Their onPropertiesChanged: the change, then all properties if there was a change.
  unfoldable pub on_object_changed :
      Text
      → Text
      → Text
      → List (Text × Variant)
      → List Text
      → Option (List (Text × Variant))
      → Text × Option Text
  on_object_changed kind path interface [] invalidated all =
      (print_changed_properties double_text interface [] invalidated, none)
  on_object_changed kind path interface (c ∷ changed) invalidated all = (
    print_changed_properties double_text interface (c ∷ changed) invalidated,
    print_properties kind path all,
  )

  -- The onPropertiesChanged of the network1 and the wpa_supplicant client.
  unfoldable pub on_manager_changed : Text → List (Text × Variant) → List Text → Option Text
  on_manager_changed interface [] invalidated = none
  on_manager_changed interface (c ∷ changed) invalidated =
      some (print_changed_properties double_text interface (c ∷ changed) invalidated)
