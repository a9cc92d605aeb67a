-- ===== src/Bluez/Horipad/Reports.antt =====
-- Which reports of a Horipad are printed, and which are taken for unknown ones.
use Prim.Native.Nat.{bit_and}
use sdbus_cpp_examples.Prelude.{ℕ, ◌<◌, ◌≡◌, ◌⊎◌, ap, ◌∙◌, List, ◌∷◌, arith}
use sdbus_cpp_examples.Bluez.DualSense.Input.{read_bytes, filled}
use sdbus_cpp_examples.Bluez.Packed.{
  beside, low_bits, high_0, high_1, high_2, high_3, packed, bit_0, bit_1, bit_2, bit_3, bit_4,
  bit_5, bit_6, bit_7,
}
use sdbus_cpp_examples.Bluez.Horipad.{
  Report7, unknown_report, prints_report_7, decode_report_7, report_7_size, dispatch_report,
  dispatch_read, dispatch,
}

-- The ranges that the fields' bits hold.
pub record IsWellFormed (r : Report7) : Type 0 where
  pub hat_switch_range : r.hat_switch < 16
  pub button_1_range : r.button_1 < 2
  pub button_2_range : r.button_2 < 2
  pub button_3_range : r.button_3 < 2
  pub button_4_range : r.button_4 < 2
  pub button_5_range : r.button_5 < 2
  pub button_6_range : r.button_6 < 2
  pub button_7_range : r.button_7 < 2
  pub button_8_range : r.button_8 < 2
  pub button_9_range : r.button_9 < 2
  pub button_10_range : r.button_10 < 2
  pub button_11_range : r.button_11 < 2
  pub button_12_range : r.button_12 < 2
  pub button_13_range : r.button_13 < 2
  pub button_14_range : r.button_14 < 2
  pub button_15_range : r.button_15 < 2
  pub button_16_range : r.button_16 < 2
  pub button_17_range : r.button_17 < 2
  pub button_18_range : r.button_18 < 2
  pub button_19_range : r.button_19 < 2
  pub button_20_range : r.button_20 < 2

-- The bytes that a gamepad sends for the report, with those that are not shown behind them.
unfoldable pub encode_report_7 : Report7 → List ℕ → List ℕ
encode_report_7 r rest =
    7
    ∷ r.gamepad_x
    ∷ r.gamepad_y
    ∷ r.gamepad_z
    ∷ r.gamepad_rz
    ∷ beside r.hat_switch r.button_1 r.button_2 r.button_3 r.button_4
    ∷ packed r.button_5 r.button_6 r.button_7 r.button_8 r.button_9 r.button_10 r.button_11
        r.button_12
    ∷ packed r.button_13 r.button_14 r.button_15 r.button_16 r.button_17 r.button_18 r.button_19
        r.button_20
    ∷ r.accelerator
    ∷ r.brake
    ∷ rest

decode-encode_report_7 :
    (r : Report7) (rest : List ℕ)
    → IsWellFormed r
    → decode_report_7 (filled report_7_size (encode_report_7 r rest)) ≡ r
unfolding decode_report_7 encode_report_7
decode-encode_report_7 r rest v = λ i. record {
  gamepad_x = r.gamepad_x;
  gamepad_y = r.gamepad_y;
  gamepad_z = r.gamepad_z;
  gamepad_rz = r.gamepad_rz;
  hat_switch =
      low_bits r.hat_switch r.button_1 r.button_2 r.button_3 r.button_4 v.hat_switch_range
        v.button_1_range v.button_2_range v.button_3_range v.button_4_range i;
  button_1 =
      high_0 r.hat_switch r.button_1 r.button_2 r.button_3 r.button_4 v.hat_switch_range
        v.button_1_range v.button_2_range v.button_3_range v.button_4_range i;
  button_2 =
      high_1 r.hat_switch r.button_1 r.button_2 r.button_3 r.button_4 v.hat_switch_range
        v.button_1_range v.button_2_range v.button_3_range v.button_4_range i;
  button_3 =
      high_2 r.hat_switch r.button_1 r.button_2 r.button_3 r.button_4 v.hat_switch_range
        v.button_1_range v.button_2_range v.button_3_range v.button_4_range i;
  button_4 =
      high_3 r.hat_switch r.button_1 r.button_2 r.button_3 r.button_4 v.hat_switch_range
        v.button_1_range v.button_2_range v.button_3_range v.button_4_range i;
  button_5 =
      bit_0 r.button_5 r.button_6 r.button_7 r.button_8 r.button_9 r.button_10 r.button_11
        r.button_12 v.button_5_range v.button_6_range v.button_7_range v.button_8_range
        v.button_9_range v.button_10_range v.button_11_range v.button_12_range i;
  button_6 =
      bit_1 r.button_5 r.button_6 r.button_7 r.button_8 r.button_9 r.button_10 r.button_11
        r.button_12 v.button_5_range v.button_6_range v.button_7_range v.button_8_range
        v.button_9_range v.button_10_range v.button_11_range v.button_12_range i;
  button_7 =
      bit_2 r.button_5 r.button_6 r.button_7 r.button_8 r.button_9 r.button_10 r.button_11
        r.button_12 v.button_5_range v.button_6_range v.button_7_range v.button_8_range
        v.button_9_range v.button_10_range v.button_11_range v.button_12_range i;
  button_8 =
      bit_3 r.button_5 r.button_6 r.button_7 r.button_8 r.button_9 r.button_10 r.button_11
        r.button_12 v.button_5_range v.button_6_range v.button_7_range v.button_8_range
        v.button_9_range v.button_10_range v.button_11_range v.button_12_range i;
  button_9 =
      bit_4 r.button_5 r.button_6 r.button_7 r.button_8 r.button_9 r.button_10 r.button_11
        r.button_12 v.button_5_range v.button_6_range v.button_7_range v.button_8_range
        v.button_9_range v.button_10_range v.button_11_range v.button_12_range i;
  button_10 =
      bit_5 r.button_5 r.button_6 r.button_7 r.button_8 r.button_9 r.button_10 r.button_11
        r.button_12 v.button_5_range v.button_6_range v.button_7_range v.button_8_range
        v.button_9_range v.button_10_range v.button_11_range v.button_12_range i;
  button_11 =
      bit_6 r.button_5 r.button_6 r.button_7 r.button_8 r.button_9 r.button_10 r.button_11
        r.button_12 v.button_5_range v.button_6_range v.button_7_range v.button_8_range
        v.button_9_range v.button_10_range v.button_11_range v.button_12_range i;
  button_12 =
      bit_7 r.button_5 r.button_6 r.button_7 r.button_8 r.button_9 r.button_10 r.button_11
        r.button_12 v.button_5_range v.button_6_range v.button_7_range v.button_8_range
        v.button_9_range v.button_10_range v.button_11_range v.button_12_range i;
  button_13 =
      bit_0 r.button_13 r.button_14 r.button_15 r.button_16 r.button_17 r.button_18 r.button_19
        r.button_20 v.button_13_range v.button_14_range v.button_15_range v.button_16_range
        v.button_17_range v.button_18_range v.button_19_range v.button_20_range i;
  button_14 =
      bit_1 r.button_13 r.button_14 r.button_15 r.button_16 r.button_17 r.button_18 r.button_19
        r.button_20 v.button_13_range v.button_14_range v.button_15_range v.button_16_range
        v.button_17_range v.button_18_range v.button_19_range v.button_20_range i;
  button_15 =
      bit_2 r.button_13 r.button_14 r.button_15 r.button_16 r.button_17 r.button_18 r.button_19
        r.button_20 v.button_13_range v.button_14_range v.button_15_range v.button_16_range
        v.button_17_range v.button_18_range v.button_19_range v.button_20_range i;
  button_16 =
      bit_3 r.button_13 r.button_14 r.button_15 r.button_16 r.button_17 r.button_18 r.button_19
        r.button_20 v.button_13_range v.button_14_range v.button_15_range v.button_16_range
        v.button_17_range v.button_18_range v.button_19_range v.button_20_range i;
  button_17 =
      bit_4 r.button_13 r.button_14 r.button_15 r.button_16 r.button_17 r.button_18 r.button_19
        r.button_20 v.button_13_range v.button_14_range v.button_15_range v.button_16_range
        v.button_17_range v.button_18_range v.button_19_range v.button_20_range i;
  button_18 =
      bit_5 r.button_13 r.button_14 r.button_15 r.button_16 r.button_17 r.button_18 r.button_19
        r.button_20 v.button_13_range v.button_14_range v.button_15_range v.button_16_range
        v.button_17_range v.button_18_range v.button_19_range v.button_20_range i;
  button_19 =
      bit_6 r.button_13 r.button_14 r.button_15 r.button_16 r.button_17 r.button_18 r.button_19
        r.button_20 v.button_13_range v.button_14_range v.button_15_range v.button_16_range
        v.button_17_range v.button_18_range v.button_19_range v.button_20_range i;
  button_20 =
      bit_7 r.button_13 r.button_14 r.button_15 r.button_16 r.button_17 r.button_18 r.button_19
        r.button_20 v.button_13_range v.button_14_range v.button_15_range v.button_16_range
        v.button_17_range v.button_18_range v.button_19_range v.button_20_range i;
  accelerator = r.accelerator;
  brake = r.brake;
}

-- The ids of the three vendor reports in the descriptor: 0x10, 0x12 and 0x14.
abbrev pub IsVendorId : ℕ → Type 0
IsVendorId id = (id ≡ 16) ⊎ ((id ≡ 18) ⊎ (id ≡ 20))

-- Of the bytes that a Horipad of either product sends for a report 7, each field in the range that its
-- bits hold, a reader that is told of no error or hang-up prints that report; and a report whose id is
-- the descriptor's 0x10, 0x12 or 0x14 it logs as unknown, whatever the bytes are.
pub dispatch-encode_report_7 :
    (r : Report7) (product revents id : ℕ) (rest : List ℕ)
    → (product ≡ 427) ⊎ (product ≡ 406)
    → bit_and revents 24 ≡ 0
    → IsWellFormed r
    → IsVendorId id
    → (dispatch product revents (read_bytes (encode_report_7 r rest)) ≡ prints_report_7 r)
      × (dispatch product revents (read_bytes (id ∷ rest)) ≡ unknown_report id)
unfolding dispatch dispatch_read dispatch_report encode_report_7
dispatch-encode_report_7 r product revents id rest p q v vendor =
    let bytes = encode_report_7 r rest in
    let shown : dispatch product revents (read_bytes bytes)
        ≡ prints_report_7 (decode_report_7 (filled report_7_size bytes)) =
      ground (arith, p, q) in
    (shown ∙ ap prints_report_7 (decode-encode_report_7 r rest v), ground (arith, p, q, vendor))
