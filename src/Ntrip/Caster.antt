-- ===== src/Ntrip/Caster.antt =====
-- The caster's address in main/ntrip_client.c, in memory and in the store.
use tab5_client.Prelude.{
  ℕ, ◌^◌, ◌<◌, ◌≡◌, refl, ap, ◌∙◌, true, false, not, some, arith, ltb, if-both, length, take,
  take-all, Bytes, u16, codes,
}
use tab5_client.Nvs.{Nvs, StoresText}
use tab5_client.Ntrip.{
  Ntrip, nvs_ns, host_size, mount_size, creds_load, ntrip_client_set, ntrip_client_forget,
  is_configured,
}

module _ {S : Type 0} (nvs : Nvs S) (v : StoresText nvs nvs_ns) where
  -- An address that fits the buffers and is set at run time is in use at once, and is what any
  -- later load of the store finds, whatever is in memory then.
  pub creds_load-ntrip_client_set :
      (s : S) (t u : Ntrip) (host mount : Bytes) (port : ℕ)
      → nvs.opens_rw s nvs_ns ≡ true
      → length host < host_size
      → length mount < mount_size
      → port < 2 ^ 16
      → let (s', t') = ntrip_client_set nvs s t (some host) port (some mount) in
        (t' ≡ record t { host = host; port = port; mount = mount })
        × (creds_load nvs s' u ≡ record u { host = host; port = port; mount = mount })
  unfolding creds_load ntrip_client_set
  creds_load-ntrip_client_set s t u host mount port o h m p =
      let k_host = codes "host" in
      let k_mount = codes "mount" in
      let k_port = codes "port" in
      let s1 = nvs.set_str s nvs_ns k_host host in
      let s2 = nvs.set_str s1 nvs_ns k_mount mount in
      let s3 = nvs.set_u16 s2 nvs_ns k_port port in
      let fits_h : ltb (length host) host_size ≡ true = ground (arith, h) in
      let fits_m : ltb (length mount) mount_size ≡ true = ground (arith, m) in
      let found_h : nvs.get_str s3 nvs_ns k_host host_size ≡ some host =
        v.str_u16 s2 k_port k_host port host_size refl
        ∙ v.str_str s1 k_mount k_host mount host_size
        ∙ v.str_str s k_host k_host host host_size
        ∙ rw fits_h refl in
      let found_m : nvs.get_str s3 nvs_ns k_mount mount_size ≡ some mount =
        v.str_u16 s2 k_port k_mount port mount_size refl
        ∙ v.str_str s1 k_mount k_mount mount mount_size
        ∙ rw fits_m refl in
      let small : u16 port ≡ port = omega (arith, p) in
      let found_p : nvs.get_u16 s3 nvs_ns k_port ≡ some port =
        v.u16_u16 s2 k_port k_port port ∙ ap some small in
      let all_h : take 63 host ≡ host = take-all 63 host (omega (arith, h)) in
      let all_m : take 31 mount ≡ mount = take-all 31 mount (omega (arith, m)) in
      rw (o, v.opens_u16 s2 k_port port, found_h, found_m, found_p) (rw (all_h, all_m) refl, refl)

  -- Erasing the address leaves the client without a caster, also after later loads.
  pub creds_load-ntrip_client_forget :
      (s : S) (t : Ntrip)
      → nvs.opens_rw s nvs_ns ≡ true
      → let (s', t') = ntrip_client_forget nvs s t in is_configured (creds_load nvs s' t') ≡ false
  unfolding creds_load ntrip_client_forget
  creds_load-ntrip_client_forget s t o = rw o (
      if-both (λ (r : Ntrip). is_configured r ≡ false)
        (not (nvs.opens_ro (nvs.erase_all s nvs_ns) nvs_ns)) refl
        (rw (v.str_erase s (codes "host") host_size) refl))
