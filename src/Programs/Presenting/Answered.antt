-- ===== src/Programs/Presenting/Answered.antt =====
-- What the programs that ask once make of an answer.
use sdbus_cpp_examples.Prelude.{
  ℕ, ◌+◌, ◌≡◌, refl, ◌∙◌, true, Option, none, some, List, [], ◌∷◌, if◌then◌else◌, length,
  length-append, arith,
}
use sdbus_cpp_examples.Prelude.Text.{Text}
use sdbus_cpp_examples.Dbus.{Variants}
use sdbus_cpp_examples.Services.Timedate1.{Timedate1, update_timedate1, print_timedate1}
use sdbus_cpp_examples.Programs.Presenting.{
  returned, no_timedate, timedate_round, timedate_rounds, timedate_main,
}

module _ (v : Variants) (local_date : ℕ → Option Text) where
  -- The answers of the right types, each judged with the client as it is then.
  unfoldable pub good : List (Option (List (Text × v.Variant))) → Timedate1 → ℕ
  good [] p = 0
  good (none ∷ replies) p = good replies p
  good (some m ∷ replies) p =
      let r = update_timedate1 v m p in (if r.1 then 1 else 0) + good replies r.0

  timedate_rounds-good :
      (replies : List (Option (List (Text × v.Variant)))) (p : Timedate1)
      → length (timedate_rounds v local_date replies p) ≡ good replies p
  unfolding timedate_rounds timedate_round good
  timedate_rounds-good [] p = refl
  timedate_rounds-good (none ∷ replies) p = timedate_rounds-good replies p
  timedate_rounds-good (some m ∷ replies) p =
      let rest = timedate_rounds-good replies (update_timedate1 v m p).0 in
      length-append
        (if (update_timedate1 v m p).1
          then print_timedate1 local_date (update_timedate1 v m p).0 ∷ []
          else [])
        (timedate_rounds v local_date replies (update_timedate1 v m p).0)
      ∙ ground (arith, rest)

  -- Once it is connected, the timedate1 program returns 0 whatever the four answers are, and prints
  -- once for each answer that came and had the right types.
  pub timedate_main-good :
      (a b c d : Option (List (Text × v.Variant)))
      → ((timedate_main v local_date true a b c d).0 ≡ returned 0)
        × (length (timedate_main v local_date true a b c d).1
            ≡ good (a ∷ b ∷ c ∷ d ∷ []) no_timedate)
  unfolding timedate_main
  timedate_main-good a b c d = (refl, timedate_rounds-good (a ∷ b ∷ c ∷ d ∷ []) no_timedate)
