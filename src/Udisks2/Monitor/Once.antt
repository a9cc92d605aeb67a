-- ===== src/Udisks2/Monitor/Once.antt =====
-- A removable device is reported at most once until it is removed.
mod Spent
use mathlib.Core.Option.{some-injective}
use sdbus_cpp_examples.Prelude.{
  ℕ, ◌+◌, ◌≤◌, ◌≡◌, refl, subst, ap, ◌∙◌, Bool, true, false, ◌||◌, Option, none, some, List, [],
  ◌∷◌, ◌++◌, if◌then◌else◌, if_rule, arith, Option-cases, inl, inr, bind, bind_inverse,
}
use sdbus_cpp_examples.Prelude.Text.{Text, text, text_eq, text_eq_iff}
use sdbus_cpp_examples.Prelude.Map.{
  lookup, has_key, insert, remove, text_key, lookup-insert, lookup-remove, lookup-has_key, Entries,
  insert-Entries, lookup-Entries, remove-Entries,
}
use sdbus_cpp_examples.Dbus.{Variants}
use sdbus_cpp_examples.Udisks2.Watcher.{Watcher, Props, Bus, Report, new_watcher, block_interface}
use sdbus_cpp_examples.Udisks2.Watcher.Steps.{
  Step, reports_of, reports_of-append, reports_of-nil, check_and_report_if_ready-Step,
  on_properties_changed-Step,
}
use sdbus_cpp_examples.Udisks2.Monitor.{
  Watchers, Outcome, Event, added, removed, changed, handle, run, watch, add_removable,
  add_on_drive, add_block, on_interfaces_added, on_interfaces_removed, change_watcher, drive_of,
  or_unchanged, scan,
}
use sdbus_cpp_examples.Udisks2.Monitor.Once.Spent.{
  Named, flag, spent_by, spent, names_block, spent-insert, spent-le, removed-spent, removed-Named,
}

module _ (v : Variants) where
  count-Step :
      (w : Watcher) (r : Watcher × List (Report v)) (p : Text)
      → Step v w r
      → reports_of v p r.1 + (if text_eq w.object_path p then flag w.reported else 0)
        ≤ (if text_eq w.object_path p then flag r.0.reported else 0)
  unfolding reports_of
  count-Step w (w', rs) p (a, b, inl (same, e)) = ground arith
  count-Step w (w', rs) p (a, b, inr (d, f, (r, e, name))) = ground arith

  -- Reports that a step makes are paid for by a flag that it sets.
  abbrev pub Paid : Watchers → Outcome v → Type 0
  Paid watchers (watchers', reports) =
      Named watchers' × ((p : Text) → reports_of v p reports + spent p watchers ≤ spent p watchers')

  idle : (watchers : Watchers) → Named watchers → Paid watchers (watchers, [])
  unfolding reports_of
  idle watchers h = (h, λ p. omega arith)

  watch-Paid :
      (path : Text) (w : Watcher) (r : Watcher × List (Report v)) (watchers : Watchers)
      → Step v w r
      → w.object_path ≡ path
      → spent path watchers ≡ flag w.reported
      → Named watchers
      → Paid watchers (watch v path r watchers)
  unfolding watch
  watch-Paid path w (w', rs) watchers s name q h = (
    insert-Entries (λ p (w : Watcher). w.object_path ≡ p) path w' watchers (s.0 ∙ name) h,
    λ p.
        ground
          (arith, spent-insert path p w' watchers, count-Step w (w', rs) p s, text_eq_iff path p),
  )

  spent_new :
      (path : Text) (watchers : Watchers) → has_key path watchers ≡ false → spent path watchers ≡ 0
  unfolding spent
  spent_new path watchers h = elim (Option-cases (lookup path watchers)) [
    | inl e ↦ ap spent_by e
    | inr (w, e) ↦ absurd (let found = lookup-has_key path w watchers e in cc)
  ]

  add_removable-Paid :
      (bus : Bus v) (path drive : Text) (o : Option Bool) (watchers : Watchers)
      → Named watchers
      → Paid watchers (add_removable v bus path drive o watchers)
  unfolding add_removable new_watcher
  add_removable-Paid bus path drive none watchers h = idle watchers h
  add_removable-Paid bus path drive (some false) watchers h = idle watchers h
  add_removable-Paid bus path drive (some true) watchers h =
      if_rule (Paid watchers) (has_key path watchers) _ _ (λ _. idle watchers h)
        (λ e.
          let w : Watcher = record { object_path = path; drive_path = drive; reported = false } in
          watch-Paid path w (new_watcher v bus path drive) watchers
            (check_and_report_if_ready-Step v bus w) refl (spent_new path watchers e) h)

  add_block-Paid :
      (drive_props : Text → Option (Props v)) (bus : Bus v) (path : Text) (o : Option (Props v))
      (watchers : Watchers)
      → Named watchers
      → Paid watchers (or_unchanged v watchers (add_block v drive_props bus path o watchers))
  unfolding add_block add_on_drive
  add_block-Paid drive_props bus path none watchers h = idle watchers h
  add_block-Paid drive_props bus path (some props) watchers h = on_drive (drive_of v props)
    where
      on_drive :
          (o : Option Text)
          → Paid watchers (
              or_unchanged v watchers
                (bind o λ drive. some (add_on_drive v drive_props bus path drive watchers)))
      on_drive none = idle watchers h
      on_drive (some drive) =
          if_rule (Paid watchers) (text_eq drive (text "/")) _ _ (λ _. idle watchers h)
            (λ _. add_removable-Paid bus path drive _ watchers h)

  change_watcher-Paid :
      (bus : Bus v) (path interface_name : Text) (props : Props v) (o : Option Watcher)
      (watchers : Watchers)
      → lookup path watchers ≡ o
      → Named watchers
      → Paid watchers (change_watcher v bus path interface_name props o watchers)
  unfolding change_watcher spent
  change_watcher-Paid bus path interface_name props none watchers e h = idle watchers h
  change_watcher-Paid bus path interface_name props (some w) watchers e h =
      watch-Paid path w _ watchers (on_properties_changed-Step v bus interface_name props w)
        (lookup-Entries (λ p (w : Watcher). w.object_path ≡ p) path w watchers h e) (ap spent_by e)
        h

  -- How many events take the block interface from the path.
  unfoldable pub removals : Text → List (Event v) → ℕ
  removals p [] = 0
  removals p (removed path interfaces ∷ events) =
      (if text_eq path p then flag (names_block interfaces) else 0) + removals p events
  removals p (added drive_props bus path interfaces ∷ events) = removals p events
  removals p (changed bus path interface_name props ∷ events) = removals p events

  run-spent :
      (events : List (Event v)) (watchers : Watchers)
      → Named watchers
      → Named (run v events watchers).0
        × ((p : Text)
            → reports_of v p (run v events watchers).1 + spent p watchers
              ≤ spent p (run v events watchers).0 + removals p events)
  unfolding run handle on_interfaces_added removals reports_of
  run-spent [] watchers h = (h, λ p. omega arith)
  run-spent (added drive_props bus path interfaces ∷ events) watchers h =
      let (n, c) =
        add_block-Paid drive_props bus path (lookup block_interface interfaces) watchers h in
      let (n', c') = run-spent events _ n in
      (n', λ p. omega (arith, c p, c' p, reports_of-append v p _ _))
  run-spent (removed path interfaces ∷ events) watchers h =
      let n = removed-Named path interfaces watchers h in
      let (n', c') = run-spent events _ n in
      (n', λ p. omega (arith, c' p, removed-spent path p interfaces watchers))
  run-spent (changed bus path interface_name props ∷ events) watchers h =
      let (n, c) = change_watcher-Paid bus path interface_name props _ watchers refl h in
      let (n', c') = run-spent events _ n in
      (n', λ p. omega (arith, c p, c' p, reports_of-append v p _ _))

  scan-spent :
      (drive_props : Text → Option (Props v)) (bus : Bus v)
      (objects : List (Text × List (Text × Props v))) (start out : Outcome v)
      → scan v drive_props bus objects start ≡ some out
      → Named start.0
      → Named out.0
        × ((p : Text)
            → reports_of v p out.1 + spent p start.0 ≤ reports_of v p start.1 + spent p out.0)
  unfolding scan on_interfaces_added
  scan-spent drive_props bus [] start out e h =
      subst
        (λ (o : Outcome v).
          Named o.0
          × ((p : Text)
              → reports_of v p o.1 + spent p start.0 ≤ reports_of v p start.1 + spent p o.0))
        (some-injective start out e) (h, λ p. omega arith)
  scan-spent drive_props bus ((path, interfaces) ∷ objects) start out e h =
      let o = add_block v drive_props bus path (lookup block_interface interfaces) start.0 in
      let (here, q, r) = bind_inverse o _ out e in
      let (n, c) =
        subst (λ o. Paid start.0 (or_unchanged v start.0 o)) q
          (add_block-Paid drive_props bus path (lookup block_interface interfaces) start.0 h) in
      let (n', c') = scan-spent drive_props bus objects (here.0, start.1 ++ here.1) out r n in
      (n', λ p. omega (arith, c p, c' p, reports_of-append v p start.1 here.1))

  -- After a scan that ended without an exception and any events, the reports of a path, those of the
  -- scan included, are at most one more than the events that removed its Block interface.
  pub scan-run-reports_of :
      (drive_props : Text → Option (Props v)) (bus : Bus v)
      (objects : List (Text × List (Text × Props v))) (events : List (Event v)) (out : Outcome v)
      (p : Text)
      → scan v drive_props bus objects ([], []) ≡ some out
      → reports_of v p (out.1 ++ (run v events out.0).1) ≤ 1 + removals p events
  scan-run-reports_of drive_props bus objects events out p e =
      let (n, c) = scan-spent drive_props bus objects ([], []) out e tt in
      let (n', c') = run-spent events out.0 n in
      omega (
        arith,
        c p,
        c' p,
        reports_of-append v p out.1 (run v events out.0).1,
        reports_of-nil v p,
        spent-le p (run v events out.0).0,
      )
