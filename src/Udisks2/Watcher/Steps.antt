-- ===== src/Udisks2/Watcher/Steps.antt =====
-- One watcher from one call to the next, and what makes it report.
use mathlib.Core.Option.{some-injective}
use sdbus_cpp_examples.Prelude.{
  ℕ, ◌+◌, ◌≤◌, ◌≡◌, ◌⊎◌, ◌↔◌, refl, sym, subst, true, false, not, ◌&&◌, ◌||◌, Option, none, some,
  List, [], ◌∷◌, ◌++◌, if◌then◌else◌, if_rule, length, arith, inl, inr, Bool, Option-cases,
}
use sdbus_cpp_examples.Prelude.Text.{Text, text, text_eq, text_eq_iff}
use sdbus_cpp_examples.Prelude.Map.{lookup, has_key, text_key}
use sdbus_cpp_examples.Dbus.{Variants}
use sdbus_cpp_examples.Udisks2.Watcher.{
  Watcher, Props, Bus, Report, id_usage, is_answered, report, report_if_filesystem, check_block,
  check_and_report_if_ready, on_properties_changed, block_interface, filesystem_interface,
}

module _ (v : Variants) where
  -- The number of reports in the log that name the path.
  unfoldable pub reports_of : Text → List (Report v) → ℕ
  reports_of path [] = 0
  reports_of path (r ∷ rs) = (if text_eq r.block_path path then 1 else 0) + reports_of path rs

  pub reports_of-nil : (path : Text) → reports_of path [] ≡ 0
  unfolding reports_of
  reports_of-nil path = refl

  pub reports_of-append :
      (path : Text) (rs ss : List (Report v))
      → reports_of path (rs ++ ss) ≡ reports_of path rs + reports_of path ss
  unfolding reports_of
  reports_of-append path [] ss = omega arith
  reports_of-append path (r ∷ rs) ss = omega (arith, reports_of-append path rs ss)

  -- It keeps its paths, its reports name its own path, and it reports exactly when `reported` goes
  -- from false to true.
  abbrev pub Step : Watcher → Watcher × List (Report v) → Type 0
  Step w (w', rs) =
      (w'.object_path ≡ w.object_path)
      × (w'.drive_path ≡ w.drive_path)
      × (((w'.reported ≡ w.reported) × (rs ≡ []))
          ⊎ ((w.reported ≡ false)
              × (w'.reported ≡ true)
              × ((r : Report v) × (rs ≡ r ∷ []) × (r.block_path ≡ w.object_path))))

  still : (w : Watcher) → Step w (w, [])
  still w = (refl, refl, inl (refl, refl))

  report_if_filesystem-Step :
      (bus : Bus v) (props : Props v) (o : Option Text) (w : Watcher)
      → w.reported ≡ false
      → Step w (report_if_filesystem v bus props o w)
  unfolding report_if_filesystem report
  report_if_filesystem-Step bus props none w h = still w
  report_if_filesystem-Step bus props (some usage) w h =
      if_rule (Step w) _ _ _ (λ _. (refl, refl, inr (h, refl, (_, refl, refl)))) (λ _. still w)

  check_block-Step :
      (bus : Bus v) (o : Option (Props v)) (w : Watcher)
      → w.reported ≡ false
      → Step w (check_block v bus o w)
  unfolding check_block
  check_block-Step bus none w h = still w
  check_block-Step bus (some props) w h = report_if_filesystem-Step bus props (id_usage v props) w h

  pub check_and_report_if_ready-Step :
      (bus : Bus v) (w : Watcher) → Step w (check_and_report_if_ready v bus w)
  unfolding check_and_report_if_ready
  check_and_report_if_ready-Step bus w =
      if_rule (Step w) w.reported _ _ (λ _. still w) (λ h. check_block-Step bus _ w h)

  pub on_properties_changed-Step :
      (bus : Bus v) (interface_name : Text) (changed : Props v) (w : Watcher)
      → Step w (on_properties_changed v bus interface_name changed w)
  unfolding on_properties_changed
  on_properties_changed-Step bus interface_name changed w =
      if_rule (Step w) (text_eq interface_name block_interface && not w.reported) _ _
        (λ _.
          if_rule (Step w) (has_key (text "IdUsage") changed || has_key (text "IdType") changed) _ _
            (λ _. check_and_report_if_ready-Step bus w) (λ _. still w))
        (λ _. still w)

  abbrev pub IsUsable : Bus v → Text → Option Text → Type 0
  IsUsable bus path o =
      (usage : Text) × (o ≡ some usage)
      × ((text_eq usage (text "filesystem") || is_answered v (bus path filesystem_interface))
          ≡ true)

  -- The usage of the block device is the string "filesystem", or its object answers for the
  -- interface Filesystem, with a usage that is absent or a string.
  abbrev pub HoldsFilesystem : Bus v → Text → Props v → Type 0
  HoldsFilesystem bus path props =
      ((value : v.Variant) × (lookup (text "IdUsage") props ≡ some value)
        × (v.get_string value ≡ some (text "filesystem")))
      ⊎ (((fs : Props v) × (bus path filesystem_interface ≡ some fs))
          × ((lookup (text "IdUsage") props ≡ none)
              ⊎ ((value : v.Variant) × (lookup (text "IdUsage") props ≡ some value)
                  × ((usage : Text) × (v.get_string value ≡ some usage)))))

  -- What a watcher is to report: the device is readable and holds a filesystem.
  abbrev pub IsReady : Bus v → Text → Type 0
  IsReady bus path =
      (props : Props v) × (bus path block_interface ≡ some props) × HoldsFilesystem bus path props

  answers : (o : Option (Props v)) → is_answered v o ≡ true → (p : Props v) × (o ≡ some p)
  answers none e = absurd cc
  answers (some p) e = (p, refl)

  id_usage-HoldsFilesystem :
      (bus : Bus v) (path : Text) (props : Props v)
      → IsUsable bus path (id_usage v props)
      → HoldsFilesystem bus path props
  unfolding id_usage
  id_usage-HoldsFilesystem bus path props (usage, q, e) =
      elim (Option-cases (lookup (text "IdUsage") props)) [
        | inl l ↦ inr (answers _ (ground (arith, l, q, e)), inl l)
        | inr (value, l) ↦
            let g : v.get_string value ≡ some usage = ground (arith, l, q) in
            if_rule (λ (b : Bool). HoldsFilesystem bus path props)
              (text_eq usage (text "filesystem")) true true
              (λ t. inl (value, l, rw (sym ((text_eq_iff usage (text "filesystem")).0 t)) g))
              (λ t. inr (answers _ (ground (arith, e, t)), inr (value, l, (usage, g))))
      ]

  id_usage-IsUsable :
      (bus : Bus v) (path : Text) (props : Props v)
      → HoldsFilesystem bus path props
      → IsUsable bus path (id_usage v props)
  unfolding id_usage
  id_usage-IsUsable bus path props (inl (value, l, g)) =
      (text "filesystem", rw (id_usage, l) g, refl)
  id_usage-IsUsable bus path props (inr ((fs, a), inl l)) = ([], rw (id_usage, l) refl, rw a refl)
  id_usage-IsUsable bus path props (inr ((fs, a), inr (value, l, (usage, g)))) =
      (usage, rw (id_usage, l) g, rw a (ground arith))

  report_if_filesystem-ready :
      (bus : Bus v) (props : Props v) (o : Option Text) (w : Watcher)
      → w.reported ≡ false
      → ((report_if_filesystem v bus props o w).0.reported ≡ true) ↔ IsUsable bus w.object_path o
  unfolding report_if_filesystem report
  report_if_filesystem-ready bus props none w h = (λ e. cc, λ (usage, q, r). cc)
  report_if_filesystem-ready bus props (some usage) w h =
      if_rule
        (λ (r : Watcher × List (Report v)).
          (r.0.reported ≡ true) ↔ IsUsable bus w.object_path (some usage))
        (text_eq usage (text "filesystem")
          || is_answered v (bus w.object_path filesystem_interface))
        _ _ (λ e. (λ _. (usage, refl, e), λ _. refl)) (λ e. (λ r. cc, λ (u, q, r). cc))

  check_block-ready :
      (bus : Bus v) (o : Option (Props v)) (w : Watcher)
      → w.reported ≡ false
      → ((check_block v bus o w).0.reported ≡ true)
        ↔ ((props : Props v) × (o ≡ some props) × IsUsable bus w.object_path (id_usage v props))
  unfolding check_block
  check_block-ready bus none w h = (λ e. cc, λ (props, q, r). cc)
  check_block-ready bus (some props) w h =
      let (there, back) = report_if_filesystem-ready bus props (id_usage v props) w h in
      (
        λ e. (props, refl, there e),
        λ (p, q, r). back (
            subst (λ x. IsUsable bus w.object_path (id_usage v x)) (sym (some-injective props p q))
              r),
      )

  length-Step :
      (w : Watcher) (r : Watcher × List (Report v))
      → Step w r
      → w.reported ≡ false
      → (length r.1 ≤ 1) × ((length r.1 ≡ 1) ↔ (r.0.reported ≡ true))
  length-Step w (w', rs) (p, q, inl (same, e)) h =
      rw e (omega arith, (λ n. absurd (omega arith), λ r. cc))
  length-Step w (w', rs) (p, q, inr (a, b, (r, e, name))) h =
      rw e (omega arith, (λ n. b, λ n. refl))

  -- A watcher that has reported nothing yet makes one report when the device's Block interface is
  -- readable with a usage that is absent or a string, and the usage is "filesystem" or the device's
  -- Filesystem interface answers; in every other case it makes none.
  pub check_and_report_if_ready-IsReady :
      (bus : Bus v) (w : Watcher)
      → w.reported ≡ false
      → (length (check_and_report_if_ready v bus w).1 ≤ 1)
        × ((length (check_and_report_if_ready v bus w).1 ≡ 1) ↔ IsReady bus w.object_path)
  unfolding check_and_report_if_ready
  check_and_report_if_ready-IsReady bus w h =
      if_rule
        (λ (r : Watcher × List (Report v)).
          (length r.1 ≤ 1) × ((length r.1 ≡ 1) ↔ IsReady bus w.object_path))
        w.reported _ _ (λ e. absurd cc)
        (λ e.
          let o = bus w.object_path block_interface in
          let (le, (there, back)) =
            length-Step w (check_block v bus o w) (check_block-Step bus o w h) h in
          let (there', back') = check_block-ready bus o w h in
          (
            le,
            (
              λ n.
                  let (props, q, usable) = there' (there n) in
                  (props, q, id_usage-HoldsFilesystem bus w.object_path props usable),
              λ (props, q, holds).
                  back (back' (props, q, id_usage-IsUsable bus w.object_path props holds)),
            ),
          ))
