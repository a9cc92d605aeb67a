-- ===== src/Bluez/DualSense/Simple.antt =====
-- src/bluez/ps5_dual_sense/dual_sense_0ce6.h: the state of the short report over Bluetooth.
use sdbus_cpp_examples.Prelude.{ℕ}

-- BTSimpleGetStateData.
pub record SimpleState : Type 0 where
  pub left_stick_x : ℕ
  pub left_stick_y : ℕ
  pub right_stick_x : ℕ
  pub right_stick_y : ℕ
  pub dpad : ℕ
  pub button_square : ℕ
  pub button_cross : ℕ
  pub button_circle : ℕ
  pub button_triangle : ℕ
  pub button_l1 : ℕ
  pub button_r1 : ℕ
  pub button_l2 : ℕ
  pub button_r2 : ℕ
  pub button_share : ℕ
  pub button_options : ℕ
  pub button_l3 : ℕ
  pub button_r3 : ℕ
  pub button_home : ℕ
  pub button_pad : ℕ
  pub counter : ℕ
  pub trigger_left : ℕ
  pub trigger_right : ℕ
