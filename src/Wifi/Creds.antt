-- ===== src/Wifi/Creds.antt =====
-- main/wifi_sta.c: from the saved credentials to the network that is joined.
use tab5_client.Prelude.{
  ◌<◌, ◌≡◌, refl, ◌∙◌, inl, inr, true, false, some, arith, ltb, ◌==◌, Bool-cases, length, take,
  take-all, Bytes, codes,
}
use tab5_client.Nvs.{Nvs, StoresText}
use tab5_client.Wifi.{
  Wifi, Radio, joining, unprovisioned, wifi_nvs_ns, creds_load, wifi_save_creds, wifi_clear_creds,
  wifi_task, cred_size,
}

-- Every call of the radio succeeds.
pub record IsUp (r : Radio) : Type 0 where
  pub inits : r.inits ≡ true
  pub registers_wifi : r.registers_wifi ≡ true
  pub registers_ip : r.registers_ip ≡ true
  pub sets_mode : r.sets_mode ≡ true
  pub sets_config : r.sets_config ≡ true
  pub starts : r.starts ≡ true

module _ {S : Type 0} (nvs : Nvs S) (v : StoresText nvs wifi_nvs_ns) where
  creds_load-saved :
      (s : S) (ssid pass : Bytes)
      → 0 < length ssid
      → length ssid < cred_size
      → length pass < cred_size
      → creds_load nvs
          (nvs.set_str
            (nvs.set_str s wifi_nvs_ns (codes "ssid") ssid)
            wifi_nvs_ns
            (codes "pass")
            pass)
          cred_size
          cred_size
        ≡ some (ssid, pass)
  unfolding creds_load
  creds_load-saved s ssid pass h l m =
      let k_ssid = codes "ssid" in
      let k_pass = codes "pass" in
      let s1 = nvs.set_str s wifi_nvs_ns k_ssid ssid in
      let s2 = nvs.set_str s1 wifi_nvs_ns k_pass pass in
      let fits_s : ltb (length ssid) cred_size ≡ true = ground (arith, l) in
      let fits_p : ltb (length pass) cred_size ≡ true = ground (arith, m) in
      let found_s : nvs.get_str s2 wifi_nvs_ns k_ssid cred_size ≡ some ssid =
        v.str_str s1 k_pass k_ssid pass cred_size
        ∙ v.str_str s k_ssid k_ssid ssid cred_size
        ∙ rw fits_s refl in
      let found_p : nvs.get_str s2 wifi_nvs_ns k_pass cred_size ≡ some pass =
        v.str_str s1 k_pass k_pass pass cred_size ∙ rw fits_p refl in
      let named : (length ssid == 0) ≡ false = ground (arith, h) in
      rw (v.opens_str s1 k_pass pass, found_s, found_p, named) refl

  -- A network's name of 1 to 63 bytes and a password of at most 63 that are saved, on a store that
  -- can be written, are those that the next start joins with if every call of the radio succeeds,
  -- the name without what is behind its 31st byte; the name that is shown has up to 32 bytes.
  pub wifi_task-wifi_save_creds :
      (radio : Radio) (s : S) (w : Wifi) (ssid pass : Bytes)
      → IsUp radio
      → nvs.opens_rw s wifi_nvs_ns ≡ true
      → 0 < length ssid
      → length ssid < cred_size
      → length pass < cred_size
      → (s' : S) × (wifi_save_creds nvs s ssid pass ≡ some s')
        × (wifi_task nvs radio s' w
            ≡ (record w { ssid = take 32 ssid }, joining (take 31 ssid) pass))
  unfolding wifi_save_creds wifi_task
  wifi_task-wifi_save_creds radio s w ssid pass up o h l m =
      let s' =
        nvs.set_str (nvs.set_str s wifi_nvs_ns (codes "ssid") ssid) wifi_nvs_ns (codes "pass")
          pass in
      (
        s',
        rw o refl,
        rw
            (
              up.inits,
              up.registers_wifi,
              up.registers_ip,
              creds_load-saved s ssid pass h l m,
              up.sets_mode,
              up.sets_config,
              up.starts,
              take-all 63 pass (omega (arith, m)),
            )
            refl,
      )

  -- Erased credentials are found by no later start.
  pub wifi_task-wifi_clear_creds :
      (radio : Radio) (s : S) (w : Wifi)
      → IsUp radio
      → nvs.opens_rw s wifi_nvs_ns ≡ true
      → wifi_task nvs radio (wifi_clear_creds nvs s) w ≡ (w, unprovisioned)
  unfolding wifi_clear_creds wifi_task creds_load
  wifi_task-wifi_clear_creds radio s w up o =
      rw (o, up.inits, up.registers_wifi, up.registers_ip)
        (elim (Bool-cases (nvs.opens_ro (nvs.erase_all s wifi_nvs_ns) wifi_nvs_ns)) [
          | inl e ↦ rw (e, v.str_erase s (codes "ssid") cred_size) refl
          | inr e ↦ rw e refl
        ])
