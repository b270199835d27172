-- ===== src/Wifi.antt =====
-- main/wifi_sta.c: the stored credentials, the events of the link, and the bring-up task. What the
-- radio's functions return is an argument.
pub mod Events
pub mod Creds
use tab5_client.Prelude.{
  ℕ, ◌-◌, Bool, true, false, not, ◌&&◌, Option, none, some, List, [], ◌∷◌, ◌++◌, ◌==◌,
  if◌then◌else◌, length, take, Bytes, codes,
}
use tab5_client.Str.{dec, strlcpy}
use tab5_client.Nvs.{Nvs}
use tab5_client.Prelude.Int.{pos}

abbrev pub wifi_nvs_ns : Bytes
wifi_nvs_ns = codes "wifi"

-- The file's statics.
pub record Wifi : Type 0 where
  pub services_started : Bool
  pub connected : Bool
  pub ssid : Bytes
  pub ip : Bytes

abbrev pub wifi_boot : Wifi
wifi_boot = record { services_started = false; connected = false; ssid = []; ip = [] }

pub record WifiStatus : Type 0 where
  pub connected : Bool
  pub ssid : Bytes
  pub ip : Bytes

abbrev pub ssid_size : ℕ
ssid_size = 33

abbrev pub ip_size : ℕ
ip_size = 16

unfoldable pub wifi_sta_status : Wifi → WifiStatus
wifi_sta_status w = record {
  connected = w.connected;
  ssid = strlcpy w.ssid ssid_size;
  ip = strlcpy w.ip ip_size;
}

-- The buffers of `wifi_task`.
abbrev pub cred_size : ℕ
cred_size = 64

module _ {S : Type 0} (nvs : Nvs S) where
  -- `none` is a failed getter or an empty network name.
  abbrev pub both_creds : Option Bytes → Option Bytes → Option (Bytes × Bytes)
  both_creds none pass = none
  both_creds (some ssid) none = none
  both_creds (some ssid) (some pass) = if length ssid == 0 then none else some (ssid, pass)

  unfoldable pub creds_load : S → ℕ → ℕ → Option (Bytes × Bytes)
  creds_load s ssid_len pass_len =
      if not (nvs.opens_ro s wifi_nvs_ns)
      then none
      else both_creds (nvs.get_str s wifi_nvs_ns (codes "ssid") ssid_len)
          (nvs.get_str s wifi_nvs_ns (codes "pass") pass_len)

  -- `none` is the abort of `ESP_ERROR_CHECK` on a namespace that does not open.
  unfoldable pub wifi_save_creds : S → Bytes → Bytes → Option S
  wifi_save_creds s ssid pass =
      if nvs.opens_rw s wifi_nvs_ns
      then some (
          nvs.set_str (nvs.set_str s wifi_nvs_ns (codes "ssid") ssid) wifi_nvs_ns (codes "pass")
            pass)
      else none

  unfoldable pub wifi_clear_creds : S → S
  wifi_clear_creds s = if nvs.opens_rw s wifi_nvs_ns then nvs.erase_all s wifi_nvs_ns else s

  -- The two that reboot: the store that the next start finds.
  unfoldable pub wifi_set_creds : S → Bytes → Bytes → Option S
  unfolding wifi_save_creds
  wifi_set_creds s ssid pass = wifi_save_creds s ssid pass

  unfoldable pub wifi_forget : S → S
  unfolding wifi_clear_creds
  wifi_forget s = wifi_clear_creds s

-- The events that `on_event` tells apart; an address is its four numbers.
pub data Event : Type 0 where
  sta_start : Event
  sta_disconnected : Event
  got_ip : ℕ → ℕ → ℕ → ℕ → Event
  other_event : Event

-- What the handler calls.
pub data Call : Type 0 where
  esp_wifi_connect : Call
  ntrip_client_start : Call
  web_server_start : Call

-- `IPSTR`, cut to the buffer.
abbrev pub ip_str : ℕ → ℕ → ℕ → ℕ → Bytes
ip_str a b c d = take (ip_size - 1) (
    dec (pos a)
    ++ (codes "." ++ (dec (pos b) ++ (codes "." ++ (dec (pos c) ++ (codes "." ++ dec (pos d)))))))

unfoldable pub on_event : Wifi → Event → Wifi × List Call
on_event w sta_start = (w, esp_wifi_connect ∷ [])
on_event w sta_disconnected = (record w { connected = false }, esp_wifi_connect ∷ [])
on_event w (got_ip a b c d) = (
  record w { ip = ip_str a b c d; connected = true; services_started = true },
  if w.services_started then [] else ntrip_client_start ∷ web_server_start ∷ [],
)
on_event w other_event = (w, [])

-- What the radio answers: initialisation, the two registrations, mode, configuration and start.
pub record Radio : Type 0 where
  pub inits : Bool
  pub registers_wifi : Bool
  pub registers_ip : Bool
  pub sets_mode : Bool
  pub sets_config : Bool
  pub starts : Bool

-- How far the task comes: it failed, waits for credentials, or joins with a network's name and
-- password, each cut to its field.
pub data Bringup : Type 0 where
  unavailable : Bringup
  unprovisioned : Bringup
  joining : Bytes → Bytes → Bringup

abbrev pub join_network : Radio → Wifi → Option (Bytes × Bytes) → Wifi × Bringup
join_network radio w none = (w, unprovisioned)
join_network radio w (some (ssid, pass)) =
    let w' = record w { ssid = strlcpy ssid ssid_size } in
    if radio.sets_mode && radio.sets_config && radio.starts
    then (w', joining (strlcpy ssid 32) (strlcpy pass 64))
    else (w', unavailable)

-- `wifi_task`, after `nvs_ready`.
unfoldable pub wifi_task : {S : Type 0} → Nvs S → Radio → S → Wifi → Wifi × Bringup
unfolding creds_load
wifi_task nvs radio s w =
    if radio.inits && radio.registers_wifi && radio.registers_ip
    then join_network radio w (creds_load nvs s cred_size cred_size)
    else (w, unavailable)

-- What `nvs_flash_init` may return.
pub data FlashErr : Type 0 where
  flash_ok : FlashErr
  no_free_pages : FlashErr
  new_version_found : FlashErr
  flash_failed : FlashErr

abbrev pub needs_erase : FlashErr → Bool
needs_erase flash_ok = false
needs_erase no_free_pages = true
needs_erase new_version_found = true
needs_erase flash_failed = false

-- Whether the task goes on: a second failure, or that of the erasure, aborts. The first argument
-- is what the first call returns, then whether the erasure and the second call succeed.
unfoldable pub nvs_ready : FlashErr → Bool → Bool → Bool
nvs_ready err erases again = if needs_erase err then erases && again else true
