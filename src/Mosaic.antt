-- ===== src/Mosaic.antt =====
-- main/mosaic_config.c: the operator's settings of the receiver's serial ports, and the commands
-- that provision the receiver.
pub mod Config
pub mod Commands
pub mod Selection
pub mod Link
pub mod Provision
use tab5_client.Prelude.{
  ℕ, zero, suc, Bool, true, false, not, Option, none, some, ltb, leb, ◌==◌, if◌then◌else◌, Bytes,
  codes,
}
use tab5_client.Nvs.{Nvs}

-- The ESP-IDF error codes that the source tells apart.
pub data EspErr : Type 0 where
  esp_ok esp_fail esp_err_invalid_state esp_err_invalid_arg esp_err_timeout : EspErr
  esp_other : ℕ → EspErr

abbrev pub nmea_nvs_ns : Bytes
nmea_nvs_ns = codes "nmeacfg"

abbrev pub nmea_msg_gga : ℕ
nmea_msg_gga = 0x01

abbrev pub nmea_rate_10hz : ℕ
nmea_rate_10hz = 0

-- The sentinel; the rates below it are selectable.
abbrev pub nmea_rate_off : ℕ
nmea_rate_off = 4

abbrev pub nmea_baud_def : ℕ
nmea_baud_def = 3

abbrev pub nmea_baud_count : ℕ
nmea_baud_count = 6

abbrev pub mosaic_com_count : ℕ
mosaic_com_count = 2

pub record ComPort : Type 0 where
  pub com_name : Bytes
  pub stream : Bytes
  pub k_msgs : Bytes
  pub k_rate : Bytes
  pub k_en : Bytes
  pub k_baud : Bytes
  pub def_en : Bool

abbrev pub com1 : ComPort
com1 = record {
  com_name = codes "COM1";
  stream = codes "Stream2";
  k_msgs = codes "msgs";
  k_rate = codes "rate";
  k_en = codes "en";
  k_baud = codes "baud";
  def_en = true;
}

abbrev pub com2 : ComPort
com2 = record {
  com_name = codes "COM2";
  stream = codes "Stream3";
  k_msgs = codes "msgs1";
  k_rate = codes "rate1";
  k_en = codes "en1";
  k_baud = codes "baud1";
  def_en = false;
}

-- `COM_PORTS[port]`, for the ports that exist.
abbrev pub com_port : ℕ → ComPort
com_port zero = com1
com_port (suc n) = com2

-- The four results of `mosaic_nmea_cfg_get`.
pub record NmeaCfg : Type 0 where
  pub enabled : Bool
  pub msg_mask : ℕ
  pub rate : ℕ
  pub baud : ℕ

abbrev pub or_default : ℕ → Option ℕ → ℕ
or_default d none = d
or_default d (some v) = v

abbrev pub clamp_rate : ℕ → ℕ
clamp_rate r = if ltb r nmea_rate_off then r else nmea_rate_10hz

abbrev pub clamp_baud : ℕ → ℕ
clamp_baud b = if ltb b nmea_baud_count then b else nmea_baud_def

-- What the enabled key says; without it, the old sentinel among the rates, then the default.
abbrev pub is_enabled : Option ℕ → ℕ → Bool → Bool
is_enabled (some en) r def_en = not (en == 0)
is_enabled none r def_en = if r == nmea_rate_off then false else def_en

-- The settings that the four stored values give.
abbrev pub cfg_of : ComPort → Option ℕ → Option ℕ → Option ℕ → Option ℕ → NmeaCfg
cfg_of p m r b en = record {
  enabled = is_enabled en (or_default nmea_rate_10hz r) p.def_en;
  msg_mask = or_default nmea_msg_gga m;
  rate = clamp_rate (or_default nmea_rate_10hz r);
  baud = clamp_baud (or_default nmea_baud_def b);
}

module _ {S : Type 0} (nvs : Nvs S) where
  -- Reads of the namespace, if it opens.
  abbrev pub saved_u8 : S → Bytes → Option ℕ
  saved_u8 s k = if nvs.opens_ro s nmea_nvs_ns then nvs.get_u8 s nmea_nvs_ns k else none

  abbrev pub saved_u16 : S → Bytes → Option ℕ
  saved_u16 s k = if nvs.opens_ro s nmea_nvs_ns then nvs.get_u16 s nmea_nvs_ns k else none

  abbrev pub port_cfg : S → ComPort → NmeaCfg
  port_cfg s p =
      cfg_of p (saved_u16 s p.k_msgs) (saved_u8 s p.k_rate) (saved_u8 s p.k_baud)
        (saved_u8 s p.k_en)

  -- `none`: there is no such port, and the results stay as the caller set them.
  unfoldable pub mosaic_nmea_cfg_get : S → ℕ → Option NmeaCfg
  mosaic_nmea_cfg_get s port =
      if leb mosaic_com_count port then none else some (port_cfg s (com_port port))

  unfoldable pub store_cfg : S → ComPort → Bool → ℕ → ℕ → ℕ → S
  store_cfg s p enabled msg_mask rate baud =
      let s1 = nvs.set_u16 s nmea_nvs_ns p.k_msgs msg_mask in
      let s2 = nvs.set_u8 s1 nmea_nvs_ns p.k_rate rate in
      let s3 = nvs.set_u8 s2 nmea_nvs_ns p.k_en (if enabled then 1 else 0) in
      nvs.set_u8 s3 nmea_nvs_ns p.k_baud baud

  unfoldable pub mosaic_nmea_cfg_apply : S → ℕ → Bool → ℕ → ℕ → ℕ → S × EspErr
  mosaic_nmea_cfg_apply s port enabled msg_mask rate baud =
      if leb mosaic_com_count port
      then (s, esp_err_invalid_arg)
      else if nvs.opens_rw s nmea_nvs_ns
      then (
        store_cfg s (com_port port) enabled msg_mask (clamp_rate rate) (clamp_baud baud),
        esp_ok,
      )
      else (s, esp_ok)
