-- ===== src/Udisks2/Print/Complete.antt =====
-- When printDeviceInformation ends without an exception: all its properties have the types that
-- UDisks2 documents. That a size is formatted at all needs the bound on the unit.
use sdbus_cpp_examples.Prelude.{ℕ, refl, List, [], ◌∷◌, All, All-append}
use sdbus_cpp_examples.Prelude.Text.{Text, text}
use sdbus_cpp_examples.Prelude.Map.{lookup, text_key}
use sdbus_cpp_examples.Dbus.{Variants}
use sdbus_cpp_examples.Udisks2.Print.{
  Printed, in_turn, put_text, put_read, put_found, Properties, string_field, bool_field, size_field,
  device_field, paths_field, block_fields, drive_fields, filesystem_fields, unless_empty,
  print_device_information, fields_of, heading, closing,
}
use sdbus_cpp_examples.Udisks2.Print.Typed.{
  Ends, and_then-Ends, in_turn-Ends, size_text-Ends, if_present-Ends, Typed, BlockTyped, DriveTyped,
  FilesystemTyped,
}

module _ (v : Variants) where
  open v use {Variant, get_string, get_bool, get_int32, get_uint64, get_bytes, get_byte_lists}

  string_field-Ends :
      (key label : Text) (props : Properties v)
      → Typed get_string props key
      → Ends (string_field v key label props)
  unfolding string_field put_read
  string_field-Ends key label props t =
      if_present-Ends get_string _ (lookup key props) (λ value a e. rw e refl) t

  bool_field-Ends :
      (key label : Text) (props : Properties v)
      → Typed get_bool props key
      → Ends (bool_field v key label props)
  unfolding bool_field put_read
  bool_field-Ends key label props t =
      if_present-Ends get_bool _ (lookup key props) (λ value a e. rw e refl) t

  size_field-Ends :
      (label : Text) (props : Properties v)
      → Typed get_uint64 props (text "Size")
      → Ends (size_field v label props)
  unfolding size_field put_found
  size_field-Ends label props t =
      if_present-Ends get_uint64 _ (lookup (text "Size") props)
        (λ value a e. rw e (size_text-Ends label a)) t

  device_field-Ends :
      (key label : Text) (props : Properties v)
      → Typed get_bytes props key
      → Ends (device_field v key label props)
  unfolding device_field put_found
  device_field-Ends key label props t =
      if_present-Ends get_bytes _ (lookup key props) (λ value a e. rw e refl) t

  paths_field-Ends :
      (key : Text) (show : List (List ℕ) → Text) (props : Properties v)
      → Typed get_byte_lists props key
      → Ends (paths_field v key show props)
  unfolding paths_field put_found
  paths_field-Ends key show props t =
      if_present-Ends get_byte_lists _ (lookup key props) (λ value a e. rw e refl) t

  block_fields-Ends : (props : Properties v) → BlockTyped v props → All Ends (block_fields v props)
  unfolding block_fields
  block_fields-Ends props (bytes, size, strings, bool, paths) = (
    device_field-Ends _ _ props bytes.0,
    (
      device_field-Ends _ _ props bytes.1.0,
      (
        size_field-Ends _ props size,
        (
          string_field-Ends _ _ props strings.0,
          (
            string_field-Ends _ _ props strings.1.0,
            (
              string_field-Ends _ _ props strings.1.1.0,
              (
                string_field-Ends _ _ props strings.1.1.1.0,
                (
                  string_field-Ends _ _ props strings.1.1.1.1.0,
                  (bool_field-Ends _ _ props bool, (paths_field-Ends _ _ props paths, tt)),
                ),
              ),
            ),
          ),
        ),
      ),
    ),
  )

  drive_fields-Ends : (props : Properties v) → DriveTyped v props → All Ends (drive_fields v props)
  unfolding drive_fields put_found
  drive_fields-Ends props (strings, size, bools, rate) = (
    refl,
    (
      string_field-Ends _ _ props strings.0,
      (
        string_field-Ends _ _ props strings.1.0,
        (
          string_field-Ends _ _ props strings.1.1.0,
          (
            string_field-Ends _ _ props strings.1.1.1.0,
            (
              string_field-Ends _ _ props strings.1.1.1.1.0,
              (
                string_field-Ends _ _ props strings.1.1.1.1.1.0,
                (
                  size_field-Ends _ props size,
                  (
                    bool_field-Ends _ _ props bools.0,
                    (
                      bool_field-Ends _ _ props bools.1.0,
                      (
                        bool_field-Ends _ _ props bools.1.1.0,
                        (
                          string_field-Ends _ _ props strings.1.1.1.1.1.1.0,
                          (
                            if_present-Ends get_int32 _ (lookup (text "RotationRate") props)
                                (λ value a e. rw e refl) rate,
                            tt,
                          ),
                        ),
                      ),
                    ),
                  ),
                ),
              ),
            ),
          ),
        ),
      ),
    ),
  )

  filesystem_fields-Ends :
      (props : Properties v) → FilesystemTyped v props → All Ends (filesystem_fields v props)
  unfolding filesystem_fields
  filesystem_fields-Ends props (paths, size) =
      (refl, (paths_field-Ends _ _ props paths, (size_field-Ends _ props size, tt)))

  unless_empty-Ends :
      (props : Properties v) (fields : List Printed)
      → All Ends fields
      → All Ends (unless_empty v props fields)
  unless_empty-Ends [] fields h = tt
  unless_empty-Ends (entry ∷ props) fields h = h

  -- If every property that is there and is printed has its documented type, the information is
  -- printed to its end, whatever the properties hold and which of them are there.
  pub print_device_information-Ends :
      (block_path : Text) (block drive filesystem : Properties v)
      → BlockTyped v block
      → DriveTyped v drive
      → FilesystemTyped v filesystem
      → Ends (print_device_information v block_path block drive filesystem)
  unfolding print_device_information fields_of
  print_device_information-Ends block_path block drive filesystem b d f =
      and_then-Ends (put_text (heading block_path)) _ refl (
        and_then-Ends (in_turn (fields_of v block drive filesystem)) (put_text closing)
          (in_turn-Ends (fields_of v block drive filesystem) (
            All-append Ends (block_fields v block) _ (block_fields-Ends block b) (
              All-append Ends (unless_empty v drive (drive_fields v drive)) _
                (unless_empty-Ends drive _ (drive_fields-Ends drive d))
                (unless_empty-Ends filesystem _ (filesystem_fields-Ends filesystem f)))))
          refl)
