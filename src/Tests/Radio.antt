-- ===== src/Tests/Radio.antt =====
-- main/wifi_sta.c with a store in memory and a radio whose calls succeed.
use tab5_client.Wifi.Events.{on_events}
use tab5_client.Wifi.Creds.{IsUp, wifi_task-wifi_save_creds}
use tab5_client.Tests.Memory.{Memory, blank_memory, memory, memory-StoresText}
use tab5_client.Str.{dec}
use tab5_client.Prelude.{◌≡◌, refl, true, some, List, [], ◌∷◌, arith, take, codes}
use tab5_client.Wifi.{
  wifi_save_creds, wifi_boot, joining, on_event, wifi_nvs_ns, wifi_task, sta_disconnected, Radio,
  Event, sta_start, got_ip,
}

abbrev pub radio_up : Radio
radio_up = record {
  inits = true;
  registers_wifi = true;
  registers_ip = true;
  sets_mode = true;
  sets_config = true;
  starts = true;
}

pub radio_up-IsUp : IsUp radio_up
radio_up-IsUp = record {
  inits = refl;
  registers_wifi = refl;
  registers_ip = refl;
  sets_mode = refl;
  sets_config = refl;
  starts = refl;
}

wifi_task-wifi_save_creds_example :
    (s' : Memory) × (wifi_save_creds memory blank_memory (codes "field") (codes "tractor")
      ≡ some s')
    × (wifi_task memory radio_up s' wifi_boot ≡ (
      record wifi_boot { ssid = take 32 (codes "field") },
      joining (take 31 (codes "field")) (codes "tractor"),
    ))
wifi_task-wifi_save_creds_example =
    wifi_task-wifi_save_creds memory (memory-StoresText wifi_nvs_ns) radio_up blank_memory wifi_boot
      (codes "field") (codes "tractor") radio_up-IsUp refl (omega arith) (omega arith) (omega arith)

abbrev dropped : List Event
dropped = sta_start ∷ got_ip 10 0 0 7 ∷ sta_disconnected ∷ got_ip 10 0 0 8 ∷ []

ip_run : (on_events wifi_boot dropped).0.ip ≡ codes "10.0.0.8"
unfolding on_events on_event dec
ip_run = refl
