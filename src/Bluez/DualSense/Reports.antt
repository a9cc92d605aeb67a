-- ===== src/Bluez/DualSense/Reports.antt =====
-- What the reports of a DualSense become.
use Prim.Native.Nat.{bit_and}
use sdbus_cpp_examples.Prelude.{
  ℕ, suc, ◌-◌, ◌≡◌, refl, ap, not, List, ◌∷◌, ◌++◌, length, take, replicate, ◌==◌, if_rule, arith,
}
use sdbus_cpp_examples.Bluez.DualSense.Input.{
  State, decode_state, state_size, read_bytes, Told, prints_state, filled, bits, dispatch_31,
  dispatch_report, dispatch_read, dispatch,
}

-- Of a report 0x31 of a DualSense that says that it has a state, however many bytes were read, the
-- state printed is the one behind the two bytes of its header, with zeros for what was not read.
pub dispatch-report_31 :
    (revents flags : ℕ) (state : List ℕ)
    → bit_and revents 24 ≡ 0
    → bits 0 1 flags ≡ 1
    → dispatch 3302 revents (read_bytes (49 ∷ flags ∷ state))
      ≡ prints_state (decode_state (filled 77 state))
unfolding dispatch dispatch_read dispatch_report dispatch_31
dispatch-report_31 revents flags state q h =
    if_rule P (not (bit_and revents 24 == 0)) _ _ (λ e. absurd (ground (arith, e, q)))
      (λ _.
        if_rule P (not (bits 0 1 flags == 0)) _ _
          (λ _. ap (λ n. prints_state (decode_state (take 77 state ++ replicate n 0))) shorter)
          (λ e. absurd (ground (arith, e, h))))
  where
    P : Told → Type 0
    P told = told ≡ prints_state (decode_state (filled 77 state))

    shorter : 79 - suc (suc (length state)) ≡ 77 - length state
    shorter = omega arith

-- Of a report 1 the id is taken for the first byte of the state: whatever the report says, the left
-- stick is printed with x at 1, and with y at what the report gives for x.
pub dispatch-report_1 :
    (revents x : ℕ) (state : List ℕ)
    → bit_and revents 24 ≡ 0
    → (read : State) × (dispatch 3302 revents (read_bytes (1 ∷ x ∷ state)) ≡ prints_state read)
      × (read.left_stick_x ≡ 1)
      × (read.left_stick_y ≡ x)
unfolding dispatch dispatch_read dispatch_report
dispatch-report_1 revents x state q = (
  decode_state (filled state_size (1 ∷ x ∷ state)),
  if_rule (λ (t : Told). t ≡ prints_state (decode_state (filled state_size (1 ∷ x ∷ state))))
      (not (bit_and revents 24 == 0)) _ _ (λ e. absurd (ground (arith, e, q))) (λ _. refl),
  unfold decode_state in refl,
  unfold decode_state in refl,
)
