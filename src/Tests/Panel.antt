-- ===== src/Tests/Panel.antt =====
-- main/settings_view.c and main/board_power.c.
use tab5_client.Tests.Memory.{blank_memory, memory, memory-Stores}
use tab5_client.Settings.Edits.{touches, IsForm, settings_view_refresh-on_apply}
use tab5_client.Power.Outputs.{Supplied, board_usb_5v_en-Supplied}
use tab5_client.Power.{Board, Bus, board_usb_5v_en, pi4io_reg_out_set, reg_write}
use tab5_client.Mosaic.{esp_ok, nmea_nvs_ns}
use tab5_client.Prelude.{◌≡◌, refl, true, false, List, [], ◌∷◌, arith, get_or}
use tab5_client.Settings.{
  settings_view_refresh, on_apply, on_baud, blank_cfg, touch, on_rate, on_msg, on_onoff, Touched,
  form_boot, on_port,
}

abbrev edits : List Touched
edits = on_port 1 ∷ on_onoff ∷ on_msg 3 ∷ on_rate 2 ∷ on_baud 4 ∷ []

edits_run :
    get_or (touches form_boot edits).ports 1 blank_cfg
    ≡ record { enabled = true; msg_mask = 8; rate = 2; baud = 4 }
unfolding touches touch
edits_run = refl

form_boot-IsForm : IsForm form_boot
form_boot-IsForm = record {
  cur_fits = omega arith;
  ports_fit = (
    record { mask_fits = omega arith; rate_fits = omega arith; baud_fits = omega arith },
    record { mask_fits = omega arith; rate_fits = omega arith; baud_fits = omega arith },
  );
}

settings_view_refresh-on_apply_example :
    let edited = touches form_boot edits in
    settings_view_refresh memory (on_apply memory blank_memory edited) edited ≡ edited
settings_view_refresh-on_apply_example =
    settings_view_refresh-on_apply memory (memory-Stores nmea_nvs_ns) blank_memory form_boot edits
      form_boot-IsForm (omega arith, (tt, (omega arith, (omega arith, (omega arith, tt)))))
      (λ t. refl)

abbrev board_up : Board
board_up = record { has_pi4ioe2 = true; registers = λ r. 9 }

abbrev bus_up : Bus
bus_up = record { read_err = esp_ok; write = record { err = esp_ok; lands = true } }

off_run : (board_usb_5v_en bus_up board_up false).0.registers pi4io_reg_out_set ≡ 1
unfolding board_usb_5v_en reg_write
off_run = refl

board_usb_5v_en-Supplied_example :
    Supplied bus_up board_up false (board_usb_5v_en bus_up board_up false)
board_usb_5v_en-Supplied_example = board_usb_5v_en-Supplied bus_up board_up false (omega arith)
