-- ===== src/Examples/Descriptors.antt =====
-- The wrappers: a program that moves, assigns, resets and releases.
use sdbus_cpp_examples.Prelude.{List, [], ◌∷◌}
use sdbus_cpp_examples.Prelude.Int.{pos}
use sdbus_cpp_examples.UniqueFd.Store.{
  Op, adopts, borrows, moves, destroys, releases, assigns, resets, run,
}
use sdbus_cpp_examples.UniqueFd.Ownership.{Balances, run-Balances}

abbrev program : List Op
program =
    adopts (pos 3)
    ∷ borrows (pos 3)
    ∷ adopts (pos 4)
    ∷ assigns 0 1
    ∷ resets 2 (pos 5)
    ∷ moves 2
    ∷ releases 0
    ∷ destroys 1
    ∷ []

run-Balances_example : Balances 3 [] (run [] program)
run-Balances_example = run-Balances 3 [] program
