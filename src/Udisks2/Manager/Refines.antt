-- ===== src/Udisks2/Manager/Refines.antt =====
-- The manager implements the set of the announced objects.
pub mod Kinds
use mathlib.Core.Option.{some-injective}
use sdbus_cpp_examples.Prelude.{
  ◌≡◌, inl, inr, refl, sym, ap, subst, ◌∙◌, Bool, true, false, ◌&&◌, ◌||◌, Option, none, some, List,
  [], ◌∷◌, if◌then◌else◌, if_rule, arith, Bool-cases,
}
use sdbus_cpp_examples.Prelude.Text.{Text, text, text_eq, text_eq_iff}
use sdbus_cpp_examples.Prelude.Map.{has_key, text_key, has_key-insert, has_key-remove}
use sdbus_cpp_examples.Udisks2.Manager.{
  Kind, block, drive, nvme_namespace, nvme_controller, partition_table, partition, filesystem,
  swapspace, nvme_interface, unless_thrown, interface_of, kind_of, same, Manager, new_manager,
  add_object, add_known, add_interface, on_interfaces_added, remove_known, remove_interface,
  on_interfaces_removed, Event, added, removed, handle, run,
}
use sdbus_cpp_examples.Udisks2.Manager.Refines.Kinds.{known, unknown}

-- The specification: which objects are there, by the interface.
abbrev pub Announced : Type 0
Announced = Kind → Text → Bool

abbrev pub names : Kind → List Text → Bool
names k [] = false
names k (interface ∷ interfaces) = text_eq interface (interface_of k) || names k interfaces

unfoldable pub announce : Event → Announced → Announced
announce (added path interfaces) s =
    λ k p. if text_eq path p && names k interfaces then true else s k p
announce (removed path interfaces) s =
    λ k p. if text_eq path p && names k interfaces then false else s k p

unfoldable pub announced : List Event → Announced → Announced
announced [] s = s
announced (event ∷ events) s = announced events (announce event s)

-- What the manager holds.
abbrev pub holds : Manager → Announced
holds m = λ k p. has_key p (m.maps k)

-- What one interface changes: the entry of its kind at the path.
abbrev Sets : Bool → Text → Text → Announced → Announced → Type 0
Sets b path interface s s' =
    (j : Kind) (p : Text)
    → s' j p ≡ (if text_eq path p && text_eq interface (interface_of j) then b else s j p)

-- An interface without a map changes none.
unknown-Sets :
    (b : Bool) (path interface : Text) (m : Manager) (nvme : Bool)
    → kind_of interface ≡ none
    → Sets b path interface (holds m) (holds (record m { manager_nvme = nvme }))
unknown-Sets b path interface m nvme h j p = ground (arith, unknown interface j h)

same_eq : (k j : Kind) → same k j ≡ true → k ≡ j
same_eq k j h = ground arith

same_entry :
    (m : Manager) (k j : Kind) (p : Text)
    → same k j ≡ true
    → has_key p (m.maps j) ≡ has_key p (m.maps k)
same_entry m k j p h = ap (λ i. has_key p (m.maps i)) (sym (same_eq k j h))

add_known-Sets :
    (o : Option Kind) (path interface : Text) (m : Manager)
    → kind_of interface ≡ o
    → Sets true path interface (holds m) (holds (add_known true o path m).0)
      × ((add_known true o path m).1 ≡ true)
unfolding add_known add_object
add_known-Sets none path interface m h = (unknown-Sets true path interface m m.manager_nvme h, refl)
add_known-Sets (some k) path interface m h = (
  λ j p. ground (
    arith,
    known interface j k h,
    same_entry m k j p,
    has_key-insert path p tt (m.maps k),
    text_eq_iff path p,
  ),
  ground arith,
)

remove_known-Sets :
    (o : Option Kind) (path interface : Text) (m : Manager)
    → kind_of interface ≡ o
    → Sets false path interface (holds m) (holds (remove_known o path m))
unfolding remove_known
remove_known-Sets none path interface m h = unknown-Sets false path interface m m.manager_nvme h
remove_known-Sets (some k) path interface m h =
    λ j p. ground (arith, known interface j k h, has_key-remove path p (m.maps k))

nvme_unknown :
    (interface : Text) → text_eq interface nvme_interface ≡ true → kind_of interface ≡ none
unfolding kind_of
nvme_unknown interface h = ap kind_of ((text_eq_iff interface nvme_interface).0 h)

manager_unknown :
    (interface : Text)
    → text_eq interface (text "org.freedesktop.UDisks2.Manager") ≡ true
    → kind_of interface ≡ none
unfolding kind_of
manager_unknown interface h = ap kind_of ((text_eq_iff interface _).0 h)

-- No constructor throws.
abbrev pub always : Text → Text → Bool
always interface path = true

add_interface-Sets :
    (path interface : Text) (m : Manager)
    → Sets true path interface (holds m) (holds (add_interface always path interface m).0)
      × ((add_interface always path interface m).1 ≡ true)
unfolding add_interface
add_interface-Sets path interface m =
    if_rule Result (text_eq interface (text "org.freedesktop.UDisks2.Manager")) _ _
      (λ e. (unknown-Sets true path interface m m.manager_nvme (manager_unknown interface e), refl))
      (λ _.
        if_rule Result (text_eq interface nvme_interface) _ _
          (λ e. (unknown-Sets true path interface m true (nvme_unknown interface e), refl))
          (λ _. add_known-Sets (kind_of interface) path interface m refl))
  where
    Result : Manager × Bool → Type 0
    Result r = Sets true path interface (holds m) (holds r.0) × (r.1 ≡ true)

remove_interface-Sets :
    (path interface : Text) (m : Manager)
    → Sets false path interface (holds m) (holds (remove_interface path interface m))
unfolding remove_interface
remove_interface-Sets path interface m =
    if_rule (λ (r : Manager). Sets false path interface (holds m) (holds r))
      (text_eq interface nvme_interface) _ _
      (λ e. unknown-Sets false path interface m false (nvme_unknown interface e))
      (λ _. remove_known-Sets (kind_of interface) path interface m refl)

added-holds :
    (path : Text) (interfaces : List Text) (m : Manager) (j : Kind) (p : Text)
    → holds (on_interfaces_added always path interfaces m).0 j p
      ≡ (if text_eq path p && names j interfaces then true else holds m j p)
unfolding on_interfaces_added
added-holds path [] m j p = ground arith
added-holds path (i ∷ is) m j p =
    step (λ m'. added-holds path is m' j p) (add_interface always path i m)
      (add_interface-Sets path i m)
  where
    step :
        ((m' : Manager)
          → holds (on_interfaces_added always path is m').0 j p
            ≡ (if text_eq path p && names j is then true else holds m' j p))
        → (r : Manager × Bool) → Sets true path i (holds m) (holds r.0) × (r.1 ≡ true)
        → holds (unless_thrown r (λ m'. on_interfaces_added always path is m')).0 j p
          ≡ (if text_eq path p && names j (i ∷ is) then true else holds m j p)
    step rest (m', true) (s, ok) = ground (arith, s j p, rest m')
    step rest (m', false) (s, ok) = cc

removed-holds :
    (path : Text) (interfaces : List Text) (m : Manager) (j : Kind) (p : Text)
    → holds (on_interfaces_removed path interfaces m) j p
      ≡ (if text_eq path p && names j interfaces then false else holds m j p)
unfolding on_interfaces_removed
removed-holds path [] m j p = ground arith
removed-holds path (i ∷ is) m j p = ground (
  arith,
  remove_interface-Sets path i m j p,
  removed-holds path is (remove_interface path i m) j p,
)

handle-holds :
    (event : Event) (m : Manager) (s : Announced)
    → ((j : Kind) (p : Text) → holds m j p ≡ s j p)
    → (j : Kind) (p : Text) → holds (handle always event m) j p ≡ announce event s j p
unfolding handle announce
handle-holds (added path interfaces) m s h j p =
    ground (arith, added-holds path interfaces m j p, h j p)
handle-holds (removed path interfaces) m s h j p =
    ground (arith, removed-holds path interfaces m j p, h j p)

run-holds :
    (events : List Event) (m : Manager) (s : Announced)
    → ((j : Kind) (p : Text) → holds m j p ≡ s j p)
    → (j : Kind) (p : Text) → holds (run always events m) j p ≡ announced events s j p
unfolding run announced
run-holds [] m s h = h
run-holds (event ∷ events) m s h =
    run-holds events (handle always event m) (announce event s) (handle-holds event m s h)

-- After any sequence of announcements and removals, while no constructor throws, each of the eight
-- maps holds exactly the paths that the sequence leaves announced under the interface of the map.
pub run_refines :
    (events : List Event) (k : Kind) (path : Text)
    → has_key path ((run always events new_manager).maps k) ≡ announced events (λ j p. false) k path
unfolding has_key
run_refines events k path = run-holds events new_manager (λ j p. false) (λ j p. refl) k path
