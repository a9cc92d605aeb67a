-- ===== src/Programs/Reconnecting/Backoff.antt =====
-- src/connman/main.cc: how long it waits before it connects again.
use sdbus_cpp_examples.Prelude.{
  ℕ, zero, suc, ◌*◌, ◌≤◌, ◌≡◌, refl, true, Option, List, [], ◌∷◌, min, if_rule, All, arith, ap,
}
use sdbus_cpp_examples.Programs.Reconnecting.{
  Outcome, refused, monitored, thrown, Attempt, delay_after, next_delay, reconnect, main,
}

abbrev pub Allowed : ℕ → Type 0
Allowed delay = (1 ≤ delay) × (delay ≤ 30)

delay_after-Allowed : (o : Outcome) (delay : ℕ) → Allowed delay → Allowed (delay_after o delay)
unfolding delay_after
delay_after-Allowed refused delay h = h
delay_after-Allowed monitored delay h = omega arith
delay_after-Allowed thrown delay h = omega arith

reconnect-Allowed :
    (delay : ℕ) (attempts : List Attempt) → Allowed delay → All Allowed (reconnect delay attempts).0
unfolding reconnect
reconnect-Allowed delay [] h = tt
reconnect-Allowed delay (a ∷ attempts) h =
    let k = delay_after-Allowed a.outcome delay h in
    if_rule (λ (r : List ℕ × Option ℕ). All Allowed r.0) a.running _ _
      (λ _.
        if_rule (λ (r : List ℕ × Option ℕ). All Allowed r.0) a.still_running _ _
          (λ _. (
            k,
            reconnect-Allowed (next_delay (delay_after a.outcome delay)) attempts (omega arith),
          ))
          (λ _. tt))
      (λ _. tt)

-- `n` attempts that are refused, and no signal.
abbrev pub refusals : ℕ → List Attempt
refusals zero = []
refusals (suc n) = record { running = true; outcome = refused; still_running = true } ∷ refusals n

-- Delays that double from `delay` on, each at most thirty seconds.
abbrev pub doublings : ℕ → ℕ → List ℕ
doublings zero delay = []
doublings (suc n) delay = min delay 30 ∷ doublings n (delay * 2)

reconnect-doublings : (n delay : ℕ) → (reconnect (min delay 30) (refusals n)).0 ≡ doublings n delay
unfolding reconnect delay_after
reconnect-doublings zero delay = refl
reconnect-doublings (suc n) delay =
    let same : min (min delay 30 * 2) 30 ≡ min (delay * 2) 30 = omega arith in
    ap (◌∷◌ (min delay 30)) (rw same (reconnect-doublings n (delay * 2)))

-- Whatever happens, main sleeps from one to thirty seconds before it connects again. After `n`
-- refusals in a row and no signal it has slept 1, 2, 4, 8 seconds and so on, each at most thirty.
pub main-delays :
    (attempts : List Attempt) (n : ℕ)
    → All Allowed (main attempts).0 × ((main (refusals n)).0 ≡ doublings n 1)
main-delays attempts n = (reconnect-Allowed 1 attempts (omega arith), reconnect-doublings n 1)
