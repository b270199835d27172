-- ===== src/Power.antt =====
-- main/board_power.c: the port expander's registers. What the bus answers is an argument.
pub mod Outputs
use tab5_client.Prelude.{
  ℕ, bit_and, bit_or, Bool, true, false, not, ◌||◌, Option, none, some, List, [], ◌∷◌, ◌==◌,
  if◌then◌else◌,
}
use tab5_client.Mosaic.{EspErr, esp_ok, esp_err_invalid_state}

abbrev pub pi4io_reg_chip_reset : ℕ
pi4io_reg_chip_reset = 0x01

abbrev pub pi4io_reg_io_dir : ℕ
pi4io_reg_io_dir = 0x03

abbrev pub pi4io_reg_out_set : ℕ
pi4io_reg_out_set = 0x05

abbrev pub pi4io_reg_out_h_im : ℕ
pi4io_reg_out_h_im = 0x07

abbrev pub pi4io_reg_in_def_sta : ℕ
pi4io_reg_in_def_sta = 0x09

abbrev pub pi4io_reg_pull_en : ℕ
pi4io_reg_pull_en = 0x0B

abbrev pub pi4io_reg_pull_sel : ℕ
pi4io_reg_pull_sel = 0x0D

abbrev pub pi4io_reg_int_mask : ℕ
pi4io_reg_int_mask = 0x11

-- The expander behind the bus: whether it was added (`s_pi4ioe2`), and its registers.
pub record Board : Type 0 where
  pub has_pi4ioe2 : Bool
  pub registers : ℕ → ℕ

-- What the bus does with a write: the outcome, and whether the value reached the register, as it
-- may or may not when the transmission fails or times out.
pub record Write : Type 0 where
  pub err : EspErr
  pub lands : Bool

-- What the bus does with a read and with a write.
pub record Bus : Type 0 where
  pub read_err : EspErr
  pub write : Write

abbrev pub is_ok : EspErr → Bool
is_ok esp_ok = true
is_ok err = false

abbrev pub set_register : Board → ℕ → ℕ → Board
set_register b reg val = record b { registers = λ r. if r == reg then val else b.registers r }

unfoldable pub reg_write : Write → Board → ℕ → ℕ → Board × EspErr
reg_write w b reg val = (if is_ok w.err || w.lands then set_register b reg val else b, w.err)

-- `cur | 1 << 3` and `cur & ~(1 << 3)`.
abbrev pub with_usb5v : Bool → ℕ → ℕ
with_usb5v en cur = if en then bit_or cur 8 else bit_and cur 0xF7

unfoldable pub board_usb_5v_en : Bus → Board → Bool → Board × EspErr
unfolding reg_write
board_usb_5v_en bus b en =
    if not b.has_pi4ioe2
    then (b, esp_err_invalid_state)
    else if not (is_ok bus.read_err)
    then (b, bus.read_err)
    else reg_write bus.write b pi4io_reg_out_set (with_usb5v en (b.registers pi4io_reg_out_set))

-- The writes of the start, in their order.
abbrev pub init_writes : List (ℕ × ℕ)
init_writes =
    (pi4io_reg_chip_reset, 0xFF)
    ∷ (pi4io_reg_io_dir, 0xB9)
    ∷ (pi4io_reg_out_h_im, 0x06)
    ∷ (pi4io_reg_pull_sel, 0xB9)
    ∷ (pi4io_reg_pull_en, 0xF9)
    ∷ (pi4io_reg_in_def_sta, 0x40)
    ∷ (pi4io_reg_int_mask, 0xBF)
    ∷ (pi4io_reg_out_set, 0x09)
    ∷ []

-- `none` is the abort of `ESP_ERROR_CHECK`; with what the bus does with each write.
unfoldable pub write_all : List (ℕ × ℕ) → List Write → Board → Option Board
unfolding reg_write
write_all [] answers b = some b
write_all ((reg, val) ∷ ws) [] b = none
write_all ((reg, val) ∷ ws) (w ∷ answers) b =
    let rest = write_all ws answers (reg_write w b reg val).0 in if is_ok w.err then rest else none

-- With what creating the bus and adding the device return.
unfoldable pub board_power_init : EspErr → EspErr → List Write → Board → Option (Board × EspErr)
unfolding write_all
board_power_init bus_err dev_err answers b =
    if not (is_ok bus_err)
    then some (b, bus_err)
    else if not (is_ok dev_err)
    then some (b, dev_err)
    else elim (write_all init_writes answers (record b { has_pi4ioe2 = true })) [
      | some c ↦ some (c, esp_ok)
      | none ↦ none
    ]
