-- ===== src/Bluez/Xbox/Reports.antt =====
-- A report of an Xbox controller is printed as the controller means it.
use Prim.Native.Nat.{bit_and}
use sdbus_cpp_examples.Prelude.{
  ℕ, ◌/◌, ◌%◌, ◌<◌, ◌≡◌, refl, ap, not, List, [], ◌∷◌, drop, ◌==◌, if_rule, arith,
}
use sdbus_cpp_examples.Bluez.DualSense.Input.{bits, read_bytes}
use sdbus_cpp_examples.Bluez.Packed.{
  little_endian_two, packed, bit_0, bit_1, bit_2, bit_3, bit_4, bit_5, bit_6, bit_7, in_range,
}
use sdbus_cpp_examples.Bluez.Xbox.{
  Report1, decode_report_1, Told, prints_report_1, dispatch_report, dispatch_read, dispatch,
}

-- The ranges that the fields' bits hold.
pub record IsWellFormed (r : Report1) : Type 0 where
  pub pointer_x_range : r.pointer_x < 65536
  pub pointer_y_range : r.pointer_y < 65536
  pub pointer_z_range : r.pointer_z < 65536
  pub pointer_rz_range : r.pointer_rz < 65536
  pub brake_range : r.brake < 1024
  pub accelerator_range : r.accelerator < 1024
  pub hat_switch_range : r.hat_switch < 16
  pub button_1_range : r.button_1 < 2
  pub button_2_range : r.button_2 < 2
  pub button_3_range : r.button_3 < 2
  pub button_4_range : r.button_4 < 2
  pub button_5_range : r.button_5 < 2
  pub button_6_range : r.button_6 < 2
  pub button_7_range : r.button_7 < 2
  pub button_8_range : r.button_8 < 2
  pub button_9_range : r.button_9 < 2
  pub button_10_range : r.button_10 < 2
  pub button_11_range : r.button_11 < 2
  pub button_12_range : r.button_12 < 2
  pub button_13_range : r.button_13 < 2
  pub button_14_range : r.button_14 < 2
  pub button_15_range : r.button_15 < 2
  pub ac_back_range : r.ac_back < 2

-- The bytes that a controller sends for the report.
unfoldable pub encode_report_1 : Report1 → List ℕ
encode_report_1 r =
    1
    ∷ r.pointer_x % 256
    ∷ r.pointer_x / 256
    ∷ r.pointer_y % 256
    ∷ r.pointer_y / 256
    ∷ r.pointer_z % 256
    ∷ r.pointer_z / 256
    ∷ r.pointer_rz % 256
    ∷ r.pointer_rz / 256
    ∷ r.brake % 256
    ∷ r.brake / 256
    ∷ r.accelerator % 256
    ∷ r.accelerator / 256
    ∷ r.hat_switch
    ∷ packed r.button_1 r.button_2 r.button_3 r.button_4 r.button_5 r.button_6 r.button_7 r.button_8
    ∷ packed r.button_9 r.button_10 r.button_11 r.button_12 r.button_13 r.button_14 r.button_15 0
    ∷ r.ac_back
    ∷ []

decode-encode_report_1 : (r : Report1) → IsWellFormed r → decode_report_1 (encode_report_1 r) ≡ r
unfolding decode_report_1 encode_report_1
decode-encode_report_1 r v = λ i. record {
  pointer_x = little_endian_two r.pointer_x _ _ (drop 3 (encode_report_1 r)) refl refl i;
  pointer_y = little_endian_two r.pointer_y _ _ (drop 5 (encode_report_1 r)) refl refl i;
  pointer_z = little_endian_two r.pointer_z _ _ (drop 7 (encode_report_1 r)) refl refl i;
  pointer_rz = little_endian_two r.pointer_rz _ _ (drop 9 (encode_report_1 r)) refl refl i;
  brake =
      in_range r.brake _ 1024
        (little_endian_two r.brake _ _ (drop 11 (encode_report_1 r)) refl refl) v.brake_range i;
  accelerator =
      in_range r.accelerator _ 1024
        (little_endian_two r.accelerator _ _ (drop 13 (encode_report_1 r)) refl refl)
        v.accelerator_range i;
  hat_switch = hat r.hat_switch v.hat_switch_range i;
  button_1 =
      bit_0 r.button_1 r.button_2 r.button_3 r.button_4 r.button_5 r.button_6 r.button_7 r.button_8
        v.button_1_range v.button_2_range v.button_3_range v.button_4_range v.button_5_range
        v.button_6_range v.button_7_range v.button_8_range i;
  button_2 =
      bit_1 r.button_1 r.button_2 r.button_3 r.button_4 r.button_5 r.button_6 r.button_7 r.button_8
        v.button_1_range v.button_2_range v.button_3_range v.button_4_range v.button_5_range
        v.button_6_range v.button_7_range v.button_8_range i;
  button_3 =
      bit_2 r.button_1 r.button_2 r.button_3 r.button_4 r.button_5 r.button_6 r.button_7 r.button_8
        v.button_1_range v.button_2_range v.button_3_range v.button_4_range v.button_5_range
        v.button_6_range v.button_7_range v.button_8_range i;
  button_4 =
      bit_3 r.button_1 r.button_2 r.button_3 r.button_4 r.button_5 r.button_6 r.button_7 r.button_8
        v.button_1_range v.button_2_range v.button_3_range v.button_4_range v.button_5_range
        v.button_6_range v.button_7_range v.button_8_range i;
  button_5 =
      bit_4 r.button_1 r.button_2 r.button_3 r.button_4 r.button_5 r.button_6 r.button_7 r.button_8
        v.button_1_range v.button_2_range v.button_3_range v.button_4_range v.button_5_range
        v.button_6_range v.button_7_range v.button_8_range i;
  button_6 =
      bit_5 r.button_1 r.button_2 r.button_3 r.button_4 r.button_5 r.button_6 r.button_7 r.button_8
        v.button_1_range v.button_2_range v.button_3_range v.button_4_range v.button_5_range
        v.button_6_range v.button_7_range v.button_8_range i;
  button_7 =
      bit_6 r.button_1 r.button_2 r.button_3 r.button_4 r.button_5 r.button_6 r.button_7 r.button_8
        v.button_1_range v.button_2_range v.button_3_range v.button_4_range v.button_5_range
        v.button_6_range v.button_7_range v.button_8_range i;
  button_8 =
      bit_7 r.button_1 r.button_2 r.button_3 r.button_4 r.button_5 r.button_6 r.button_7 r.button_8
        v.button_1_range v.button_2_range v.button_3_range v.button_4_range v.button_5_range
        v.button_6_range v.button_7_range v.button_8_range i;
  button_9 =
      bit_0 r.button_9 r.button_10 r.button_11 r.button_12 r.button_13 r.button_14 r.button_15 0
        v.button_9_range v.button_10_range v.button_11_range v.button_12_range v.button_13_range
        v.button_14_range v.button_15_range none_set i;
  button_10 =
      bit_1 r.button_9 r.button_10 r.button_11 r.button_12 r.button_13 r.button_14 r.button_15 0
        v.button_9_range v.button_10_range v.button_11_range v.button_12_range v.button_13_range
        v.button_14_range v.button_15_range none_set i;
  button_11 =
      bit_2 r.button_9 r.button_10 r.button_11 r.button_12 r.button_13 r.button_14 r.button_15 0
        v.button_9_range v.button_10_range v.button_11_range v.button_12_range v.button_13_range
        v.button_14_range v.button_15_range none_set i;
  button_12 =
      bit_3 r.button_9 r.button_10 r.button_11 r.button_12 r.button_13 r.button_14 r.button_15 0
        v.button_9_range v.button_10_range v.button_11_range v.button_12_range v.button_13_range
        v.button_14_range v.button_15_range none_set i;
  button_13 =
      bit_4 r.button_9 r.button_10 r.button_11 r.button_12 r.button_13 r.button_14 r.button_15 0
        v.button_9_range v.button_10_range v.button_11_range v.button_12_range v.button_13_range
        v.button_14_range v.button_15_range none_set i;
  button_14 =
      bit_5 r.button_9 r.button_10 r.button_11 r.button_12 r.button_13 r.button_14 r.button_15 0
        v.button_9_range v.button_10_range v.button_11_range v.button_12_range v.button_13_range
        v.button_14_range v.button_15_range none_set i;
  button_15 =
      bit_6 r.button_9 r.button_10 r.button_11 r.button_12 r.button_13 r.button_14 r.button_15 0
        v.button_9_range v.button_10_range v.button_11_range v.button_12_range v.button_13_range
        v.button_14_range v.button_15_range none_set i;
  ac_back = back r.ac_back v.ac_back_range i;
}
  where
    hat : (n : ℕ) → n < 16 → bits 0 4 n ≡ n
    hat n h = omega arith

    back : (n : ℕ) → n < 2 → bits 0 1 n ≡ n
    back n h = omega arith

    none_set : 0 < 2
    none_set = omega arith

-- Of the bytes that a controller of product 0x02FD sends for a report of its sticks, triggers, buttons
-- and hat switch, each in the range that its bits hold, a reader that is told of no error or hang-up
-- prints that report.
pub dispatch-encode_report_1 :
    (r : Report1) (revents : ℕ)
    → IsWellFormed r
    → bit_and revents 24 ≡ 0
    → dispatch 765 revents (read_bytes (encode_report_1 r)) ≡ prints_report_1 r
unfolding dispatch dispatch_read dispatch_report encode_report_1
dispatch-encode_report_1 r revents v q =
    if_rule (λ (t : Told). t ≡ prints_report_1 r) (not (bit_and revents 24 == 0)) _ _
      (λ e. absurd (ground (arith, e, q))) (λ _. ap prints_report_1 (decode-encode_report_1 r v))
