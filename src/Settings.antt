-- ===== src/Settings.antt =====
-- main/settings_view.c: the form of the serial ports' settings, without its widgets.
pub mod Edits
use tab5_client.Prelude.{
  ℕ, suc, bit_xor, false, not, none, some, List, [], ◌∷◌, get_or, set, u8, u16,
}
use tab5_client.Nvs.{Nvs}
use tab5_client.Mosaic.{NmeaCfg, mosaic_nmea_cfg_get, mosaic_nmea_cfg_apply}

-- `MSGS[i].bit`.
abbrev pub msg_bits : List ℕ
msg_bits = 0x01 ∷ 0x02 ∷ 0x04 ∷ 0x08 ∷ 0x10 ∷ 0x20 ∷ []

-- `s_cur`, and the working copies of the ports.
pub record Form : Type 0 where
  pub cur : ℕ
  pub ports : List NmeaCfg

abbrev pub blank_cfg : NmeaCfg
blank_cfg = record { enabled = false; msg_mask = 0; rate = 0; baud = 0 }

-- Static storage.
abbrev pub form_boot : Form
form_boot = record { cur = 0; ports = blank_cfg ∷ blank_cfg ∷ [] }

abbrev pub edit : Form → (NmeaCfg → NmeaCfg) → Form
edit f change = record f { ports = set f.ports f.cur (change (get_or f.ports f.cur blank_cfg)) }

-- A touch of a button, with the index that it was made with.
pub data Touched : Type 0 where
  on_port : ℕ → Touched
  on_onoff : Touched
  on_msg : ℕ → Touched
  on_rate : ℕ → Touched
  on_baud : ℕ → Touched

abbrev pub flip_enabled : NmeaCfg → NmeaCfg
flip_enabled c = record c { enabled = not c.enabled }

abbrev pub flip_msg : ℕ → NmeaCfg → NmeaCfg
flip_msg i c = record c { msg_mask = u16 (bit_xor c.msg_mask (get_or msg_bits i 0)) }

abbrev pub choose_rate : ℕ → NmeaCfg → NmeaCfg
choose_rate r c = record c { rate = u8 r }

abbrev pub choose_baud : ℕ → NmeaCfg → NmeaCfg
choose_baud b c = record c { baud = u8 b }

unfoldable pub touch : Form → Touched → Form
touch f (on_port p) = record f { cur = u8 p }
touch f on_onoff = edit f flip_enabled
touch f (on_msg i) = edit f (flip_msg i)
touch f (on_rate r) = edit f (choose_rate r)
touch f (on_baud b) = edit f (choose_baud b)

module _ {S : Type 0} (nvs : Nvs S) where
  -- A port that does not exist would leave what the locals held.
  abbrev pub cfg_at : S → ℕ → NmeaCfg
  cfg_at s p = elim (mosaic_nmea_cfg_get nvs s p) [ some c ↦ c | none ↦ blank_cfg ]

  -- The loop of `settings_view_refresh` from port `p` on.
  abbrev pub refresh_loop : S → ℕ → List NmeaCfg → List NmeaCfg
  refresh_loop s p [] = []
  refresh_loop s p (c ∷ cs) = cfg_at s p ∷ refresh_loop s (suc p) cs

  unfoldable pub settings_view_refresh : S → Form → Form
  settings_view_refresh s f = record f { ports = refresh_loop s 0 f.ports }

  -- The loop of `on_apply`.
  abbrev pub apply_loop : S → ℕ → List NmeaCfg → S
  apply_loop s p [] = s
  apply_loop s p (c ∷ cs) =
      apply_loop (mosaic_nmea_cfg_apply nvs s p c.enabled c.msg_mask c.rate c.baud).0 (suc p) cs

  unfoldable pub on_apply : S → Form → S
  on_apply s f = apply_loop s 0 f.ports
