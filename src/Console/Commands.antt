-- ===== src/Console/Commands.antt =====
-- main/debug_console.c: the commands of the logger, the store and the receiver.
use tab5_client.Wifi.{wifi_forget, wifi_set_creds}
use tab5_client.Web.Admin.{Httpd, web_admin_forget, web_admin_set_creds}
use tab5_client.Str.{atoi, dec, eq_bytes}
use tab5_client.Prelude.Int.{leb_ℤ, ltb_ℤ, pos, pos_part, ℤ}
use tab5_client.Nvs.{Nvs}
use tab5_client.Ntrip.{ntrip_client_forget, ntrip_client_set}
use tab5_client.Mosaic.Link.{Link}
use tab5_client.Mosaic.{
  EspErr, esp_err_invalid_arg, esp_err_invalid_state, esp_err_timeout, esp_fail, esp_ok, esp_other,
}
use tab5_client.Logger.{logger_set, logger_status_get}
use tab5_client.Console.{shown_byte, dash, Device, join_loop}
use tab5_client.Prelude.{
  map, Bool, true, false, ◌||◌, Option, none, some, List, [], ◌∷◌, ◌++◌, ltb, if◌then◌else◌, length,
  Bytes, u16, codes,
}

abbrev log_usage : Bytes
log_usage = codes "usage: log <start|stop>\n"

abbrev ntripset_usage : Bytes
ntripset_usage =
    codes "usage: ntripset <host> <port> <mount>\n"
    ++ codes "  e.g. ntripset rtk.toiso.fit 2101 eniwa-bd982\n"

abbrev mosaic_usage : Bytes
mosaic_usage =
    codes "usage: mosaic <septentrio command>\n"
    ++ (codes "  e.g. mosaic \\r\\n          (bare prompt -> reveals the port Cd)\n"
        ++ codes "       mosaic setSBFOutput, Stream1, USB1, PVTGeodetic, msec100\n")

abbrev webadmin_usage : Bytes
webadmin_usage =
    codes "usage: webadmin <user> <pass>\n"
    ++ codes "  set HTTP Basic-auth creds for the /admin config page + writes\n"

abbrev pub webadmin_text : Bytes → Bytes
webadmin_text user =
    codes "admin creds saved (user="
    ++ (user ++ (codes ") " ++ (dash ++ codes " /admin writes enabled\n")))

abbrev wifiset_text : Bytes
wifiset_text = codes "saving WiFi credentials and rebooting to connect...\n"

module _ {S W : Type 0} where
  unfoldable pub cmd_log : Device S W → List Bytes → Device S W × Bytes
  unfolding logger_set
  cmd_log d [] =
      let s = logger_status_get d.logger in
      (
        d,
        codes "sd="
            ++ ((if s.mounted then codes "mounted" else codes "none")
                ++ (codes "  logging="
                    ++ ((if s.logging then codes "on" else codes "off")
                        ++ (codes "  rows="
                            ++ (dec (pos s.rows)
                                ++ (codes "  file="
                                    ++ ((if ltb 0 (length s.path) then s.path else codes "-")
                                        ++ codes "\n"))))))),
      )
  cmd_log d (word ∷ words) =
      if eq_bytes word (codes "start")
      then (record d { logger = logger_set true d.logger }, codes "logging on\n")
      else if eq_bytes word (codes "stop")
      then (record d { logger = logger_set false d.logger }, codes "logging off\n")
      else (d, log_usage)

module _ {S W : Type 0} (nvs : Nvs S) where
  abbrev pub set_caster : Device S W → Bytes → Bytes → ℤ → Bytes → Device S W × Bytes
  set_caster d host text port mount =
      let (s, t) =
        ntrip_client_set nvs d.store d.ntrip (some host) (u16 (pos_part port)) (some mount) in
      if leb_ℤ port (pos 0) || ltb_ℤ (pos 65535) port
      then (d, codes "bad port: " ++ (text ++ codes "\n"))
      else (
        record d { store = s; ntrip = t },
        codes "caster set "
            ++ (host
                ++ (codes ":"
                    ++ (dec port
                        ++ (codes "/"
                            ++ (mount
                                ++ (codes " "
                                    ++ (dash ++ codes " connecting on next cycle\n"))))))),
      )

  unfoldable pub cmd_ntripset : Device S W → List Bytes → Device S W × Bytes
  unfolding ntrip_client_set
  cmd_ntripset d [] = (d, ntripset_usage)
  cmd_ntripset d (host ∷ []) = (d, ntripset_usage)
  cmd_ntripset d (host ∷ port ∷ []) = (d, ntripset_usage)
  cmd_ntripset d (host ∷ port ∷ mount ∷ words) = set_caster d host port (atoi port) mount

  unfoldable pub cmd_ntripreset : Device S W → Device S W × Bytes
  cmd_ntripreset d =
      let (s, t) = ntrip_client_forget nvs d.store d.ntrip in
      (
        record d { store = s; ntrip = t },
        codes "caster creds erased " ++ (dash ++ codes " NTRIP client idles\n"),
      )

  abbrev saved_store : Device S W → Bytes → Bool → Option S → Option (Device S W × Bytes)
  saved_store d text reboots none = none
  saved_store d text reboots (some s) =
      some (record d { store = s; reboots = d.reboots || reboots }, text)

  -- `none` is the abort of `ESP_ERROR_CHECK`.
  unfoldable pub cmd_wifiset : Device S W → List Bytes → Option (Device S W × Bytes)
  unfolding wifi_set_creds
  cmd_wifiset d [] = some (d, codes "usage: wifiset <ssid> [password]\n")
  cmd_wifiset d (ssid ∷ []) = saved_store d wifiset_text true (wifi_set_creds nvs d.store ssid [])
  cmd_wifiset d (ssid ∷ pass ∷ words) =
      saved_store d wifiset_text true (wifi_set_creds nvs d.store ssid pass)

  unfoldable pub cmd_wifireset : Device S W → Device S W × Bytes
  unfolding wifi_forget
  cmd_wifireset d = (
    record d { store = wifi_forget nvs d.store; reboots = true },
    codes "erasing WiFi credentials and rebooting...\n",
  )

  module _ (httpd : Httpd) (link : Link W) where
    unfoldable pub cmd_webadmin : Device S W → List Bytes → Option (Device S W × Bytes)
    cmd_webadmin d [] = some (d, webadmin_usage)
    cmd_webadmin d (user ∷ []) = some (d, webadmin_usage)
    cmd_webadmin d (user ∷ pass ∷ words) =
        saved_store d (webadmin_text user) false
          (web_admin_set_creds httpd nvs link d.store user pass)

    unfoldable pub cmd_webadminreset : Device S W → Device S W × Bytes
    cmd_webadminreset d = (
      record d { store = web_admin_forget httpd nvs link d.store },
      codes "admin creds erased " ++ (dash ++ codes " /admin writes disabled (503)\n"),
    )

module _ (err_name : EspErr → Bytes) where
  abbrev replied : EspErr → Bytes → Bytes
  replied esp_ok reply =
      codes "--- reply ("
      ++ (dec (pos (length reply))
          ++ (codes " B) ---\n" ++ (map shown_byte reply ++ codes "\n--- end ---\n")))
  replied esp_err_invalid_state reply =
      codes "no Mosaic CDC interface open " ++ (dash ++ codes " check `usb`\n")
  replied esp_fail reply = codes "command TX failed: " ++ (err_name esp_fail ++ codes "\n")
  replied esp_err_invalid_arg reply =
      codes "command TX failed: " ++ (err_name esp_err_invalid_arg ++ codes "\n")
  replied esp_err_timeout reply =
      codes "command TX failed: " ++ (err_name esp_err_timeout ++ codes "\n")
  replied (esp_other n) reply =
      codes "command TX failed: " ++ (err_name (esp_other n) ++ codes "\n")

module _ {S W : Type 0} (link : Link W) (err_name : EspErr → Bytes) where
  unfoldable pub cmd_mosaic : Device S W → List Bytes → Device S W × Bytes
  unfolding join_loop
  cmd_mosaic d [] = (d, mosaic_usage)
  cmd_mosaic d (word ∷ words) =
      let (w, err, reply) =
        link.usb_cdc_send_command d.receiver (join_loop true (word ∷ words) [] 0) in
      (record d { receiver = w }, replied err_name err reply)
