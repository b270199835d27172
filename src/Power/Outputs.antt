-- ===== src/Power/Outputs.antt =====
-- main/board_power.c: the supply of the USB port, beside the other outputs.
use tab5_client.Prelude.{
  ℕ, ◌/◌, ◌%◌, ◌^◌, ◌<◌, ◌≡◌, refl, sym, ◌⊎◌, inl, inr, Bool, true, false, ◌&&◌, arith, ◌==◌,
  if◌then◌else◌, Bool-cases,
}
use tab5_client.Prelude.Tables.{all_below, all_below-lt}
use mathlib.Core.Path.{subst}
use tab5_client.Mosaic.{EspErr, esp_err_invalid_state}
use tab5_client.Power.{
  reg_write, Board, Bus, is_ok, with_usb5v, pi4io_reg_out_set, set_register, board_usb_5v_en,
}

-- Bit `k` of a register.
abbrev pub bit : ℕ → ℕ → ℕ
bit v k = v / 2 ^ k % 2

abbrev same_but_3 : ℕ → ℕ → Bool
same_but_3 v w = v % 8 == w % 8 && v / 16 == w / 16

on_table :
    all_below 256 (λ c. same_but_3 (with_usb5v true c) c && bit (with_usb5v true c) 3 == 1) ≡ true
unfolding all_below
on_table = refl

off_table :
    all_below 256 (λ c. same_but_3 (with_usb5v false c) c && bit (with_usb5v false c) 3 == 0) ≡ true
unfolding all_below
off_table = refl

on_lem :
    (c : ℕ)
    → c < 256
    → (with_usb5v true c % 8 ≡ c % 8)
      × (with_usb5v true c / 16 ≡ c / 16)
      × (bit (with_usb5v true c) 3 ≡ 1)
on_lem c h = let t = all_below-lt 256 _ c on_table h in ground (arith, t)

off_lem :
    (c : ℕ)
    → c < 256
    → (with_usb5v false c % 8 ≡ c % 8)
      × (with_usb5v false c / 16 ≡ c / 16)
      × (bit (with_usb5v false c) 3 ≡ 0)
off_lem c h = let t = all_below-lt 256 _ c off_table h in ground (arith, t)

-- Bit 3 is switched, and the others stay.
abbrev pub Switched : Bool → ℕ → ℕ → Type 0
Switched en old new =
    (new % 8 ≡ old % 8) × (new / 16 ≡ old / 16) × (bit new 3 ≡ (if en then 1 else 0))

switch_lem : (en : Bool) (c : ℕ) → c < 256 → Switched en c (with_usb5v en c)
switch_lem true c h = on_lem c h
switch_lem false c h = off_lem c h

-- Bit 3 of the output register is as asked for; its other bits and all other registers stay.
abbrev pub Done : Board → Bool → Board → Type 0
Done b en r =
    (r ≡ set_register b pi4io_reg_out_set (r.registers pi4io_reg_out_set))
    × Switched en (b.registers pi4io_reg_out_set) (r.registers pi4io_reg_out_set)

-- What a call did, and with what result.
abbrev pub Supplied : Bus → Board → Bool → Board × EspErr → Type 0
Supplied bus b en (r, err) =
    ((b.has_pi4ioe2 ≡ false) × (err ≡ esp_err_invalid_state) × (r ≡ b))
    ⊎ ((b.has_pi4ioe2 ≡ true) × (is_ok bus.read_err ≡ false) × (err ≡ bus.read_err) × (r ≡ b))
    ⊎ ((b.has_pi4ioe2 ≡ true)
        × (is_ok bus.read_err ≡ true)
        × (err ≡ bus.write.err)
        × (((is_ok err ≡ false) × (bus.write.lands ≡ false) × (r ≡ b))
            ⊎ (((is_ok err ≡ true) ⊎ (bus.write.lands ≡ true)) × Done b en r)))

outcome-Supplied :
    (bus : Bus) (b : Board) (en : Bool) (r : Board × EspErr)
    → board_usb_5v_en bus b en ≡ r
    → Supplied bus b en r
    → Supplied bus b en (board_usb_5v_en bus b en)
outcome-Supplied bus b en r eq v = subst (Supplied bus b en) (sym eq) v

-- With an output register of 8 bits, switching the supply of the USB port is an invalid state and
-- no change without the expander, and the read's error and no change if the read fails. Otherwise
-- the write's outcome is the result; if it succeeds, or reaches the register although it fails,
-- bit 3 of the output register is as asked for, and its other bits, among them the radio's supply,
-- and all other registers are as before; if it fails and does not reach it nothing changes.
pub board_usb_5v_en-Supplied :
    (bus : Bus) (b : Board) (en : Bool)
    → b.registers pi4io_reg_out_set < 256
    → Supplied bus b en (board_usb_5v_en bus b en)
unfolding board_usb_5v_en reg_write
board_usb_5v_en-Supplied bus b en h =
    let out = b.registers pi4io_reg_out_set in
    let asked = set_register b pi4io_reg_out_set (with_usb5v en out) in
    let written : Done b en asked = (refl, switch_lem en out h) in
    elim (Bool-cases b.has_pi4ioe2) [
      | inr e ↦ outcome-Supplied bus b en (b, esp_err_invalid_state) (simp e) (inl (e, refl, refl))
      | inl e ↦ elim (Bool-cases (is_ok bus.read_err)) [
        | inr f ↦
            outcome-Supplied bus b en (b, bus.read_err) (simp (e, f)) (inr (inl (e, f, refl, refl)))
        | inl f ↦ elim (Bool-cases (is_ok bus.write.err)) [
          | inl g ↦
              outcome-Supplied bus b en (asked, bus.write.err) (simp (e, f, g))
                (inr (inr (e, f, refl, inr (inl g, written))))
          | inr g ↦ elim (Bool-cases bus.write.lands) [
            | inl k ↦
                outcome-Supplied bus b en (asked, bus.write.err) (simp (e, f, g, k))
                  (inr (inr (e, f, refl, inr (inr k, written))))
            | inr k ↦
                outcome-Supplied bus b en (b, bus.write.err) (simp (e, f, g, k))
                  (inr (inr (e, f, refl, inl (g, k, refl))))
          ]
        ]
      ]
    ]
