-- ===== src/Udisks2/Monitor/Once/Spent.antt =====
-- What the watchers say of the reports made: 1 for a path whose watcher has reported.
use sdbus_cpp_examples.Prelude.{
  ℕ, ◌+◌, ◌≤◌, ◌≡◌, Bool, true, false, ◌||◌, Option, none, some, List, [], ◌∷◌, if◌then◌else◌,
  if_rule, arith,
}
use sdbus_cpp_examples.Prelude.Text.{Text, text_eq}
use sdbus_cpp_examples.Prelude.Map.{
  lookup, insert, remove, text_key, lookup-insert, lookup-remove, Entries, remove-Entries,
}
use sdbus_cpp_examples.Udisks2.Watcher.{Watcher, block_interface}
use sdbus_cpp_examples.Udisks2.Monitor.{Watchers, on_interfaces_removed}

-- Each watcher stands under its own path.
abbrev pub Named : Watchers → Type 0
Named watchers = Entries (λ path (w : Watcher). w.object_path ≡ path) watchers

abbrev pub flag : Bool → ℕ
flag false = 0
flag true = 1

abbrev pub spent_by : Option Watcher → ℕ
spent_by none = 0
spent_by (some w) = flag w.reported

-- 1 if the path has a watcher that has reported.
unfoldable pub spent : Text → Watchers → ℕ
spent path watchers = spent_by (lookup path watchers)

abbrev pub names_block : List Text → Bool
names_block [] = false
names_block (interface ∷ interfaces) = text_eq interface block_interface || names_block interfaces

spent_by-le : (o : Option Watcher) → spent_by o ≤ 1
spent_by-le none = omega arith
spent_by-le (some w) = ground arith

spent-remove :
    (path p : Text) (watchers : Watchers)
    → spent p (remove path watchers) ≡ (if text_eq path p then 0 else spent p watchers)
unfolding spent
spent-remove path p watchers = ground (arith, lookup-remove path p watchers)

pub spent-insert :
    (path p : Text) (w : Watcher) (watchers : Watchers)
    → spent p (insert path w watchers)
      ≡ (if text_eq path p then flag w.reported else spent p watchers)
unfolding spent
spent-insert path p w watchers = ground (arith, lookup-insert path p w watchers)

pub spent-le : (p : Text) (watchers : Watchers) → spent p watchers ≤ 1
unfolding spent
spent-le p watchers = spent_by-le (lookup p watchers)

pub removed-spent :
    (path p : Text) (interfaces : List Text) (watchers : Watchers)
    → spent p watchers
      ≤ spent p (on_interfaces_removed path interfaces watchers)
        + (if text_eq path p then flag (names_block interfaces) else 0)
unfolding on_interfaces_removed
removed-spent path p [] watchers = ground arith
removed-spent path p (i ∷ is) watchers = ground (
  arith,
  spent-remove path p watchers,
  removed-spent path p is watchers,
  removed-spent path p is (remove path watchers),
  spent-le p watchers,
)

pub removed-Named :
    (path : Text) (interfaces : List Text) (watchers : Watchers)
    → Named watchers
    → Named (on_interfaces_removed path interfaces watchers)
unfolding on_interfaces_removed
removed-Named path [] watchers h = h
removed-Named path (i ∷ is) watchers h = removed-Named path is _ (
    if_rule (λ (m : Watchers). Named m) (text_eq i block_interface) _ _
      (λ _. remove-Entries (λ p (w : Watcher). w.object_path ≡ p) path watchers h) (λ _. h))
