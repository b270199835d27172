-- ===== src/Console/Credentials.antt =====
-- main/debug_console.c: what the commands that save addresses and credentials do.
use tab5_client.Web.Admin.{
  Httpd, Request, admin_creds_load, admin_ns, require_admin, service_unavailable,
  web_admin_set_creds,
}
use tab5_client.Str.{atoi}
use tab5_client.Prelude.Int.{leb_ℤ, ltb_ℤ, negsuc, pos, ℤ}
use tab5_client.Nvs.{Nvs, StoresText}
use tab5_client.Ntrip.Caster.{creds_load-ntrip_client_set}
use tab5_client.Mosaic.Link.{Link}
use tab5_client.Console.Commands.{webadmin_text, set_caster, cmd_ntripset, cmd_webadmin}
use tab5_client.Console.{Device}
use tab5_client.Prelude.{
  ℕ, ◌^◌, ◌≤◌, ◌<◌, ◌≡◌, refl, ◌∙◌, ◌⊎◌, inl, inr, true, false, ◌||◌, none, some, List, ◌∷◌, arith,
  ltb, Bool-cases, length, Bytes, u16, codes,
}
use tab5_client.Ntrip.{nvs_ns, Ntrip, host_size, mount_size, creds_load}

module _ {S W : Type 0} where
  -- An address that is set, or a port that does not exist and no change.
  abbrev pub Cast : Nvs S → Device S W → Bytes → Bytes → Bytes → Ntrip → Device S W → Type 0
  Cast nvs d host text mount u r =
      ((p : ℕ) × (atoi text ≡ pos p)
        × (0 < p)
        × (p < 2 ^ 16)
        × (r.ntrip ≡ record d.ntrip { host = host; port = p; mount = mount })
        × (creds_load nvs r.store u ≡ record u { host = host; port = p; mount = mount }))
      ⊎ ((leb_ℤ (atoi text) (pos 0) || ltb_ℤ (pos 65535) (atoi text) ≡ true) × (r ≡ d))

module _ {S : Type 0} (nvs : Nvs S) (v : StoresText nvs nvs_ns) {W : Type 0} where
  cast_lem :
      (d : Device S W) (host text mount : Bytes) (u : Ntrip) (port : ℤ)
      → atoi text ≡ port
      → nvs.opens_rw d.store nvs_ns ≡ true
      → length host < host_size
      → length mount < mount_size
      → Cast nvs d host text mount u (set_caster nvs d host text port mount).0
  cast_lem d host text mount u (negsuc n) e o h m = inr (rw e (ground arith), ground arith)
  cast_lem d host text mount u (pos p) e o h m =
      elim (Bool-cases (leb_ℤ (pos p) (pos 0) || ltb_ℤ (pos 65535) (pos p))) [
        | inl bad ↦ inr (rw e bad, rw bad refl)
        | inr good ↦
            let same : u16 p ≡ p = ground (arith, good) in
            let (now, later) =
              creds_load-ntrip_client_set nvs v d.store d.ntrip u host mount p o h m
                (ground (arith, good)) in
            rw (good, same) (inl (p, e, ground (arith, good), ground (arith, good), now, later))
      ]

  -- The console's ntripset with a host and a mount point that fit the buffers, on a store that can
  -- be written, either sets the caster, at once and for any later start, to them and the port that
  -- its text says, or the text says no port between 1 and 65535 and nothing changes.
  pub cmd_ntripset-Cast :
      (d : Device S W) (host text mount : Bytes) (words : List Bytes) (u : Ntrip)
      → nvs.opens_rw d.store nvs_ns ≡ true
      → length host < host_size
      → length mount < mount_size
      → Cast nvs d host text mount u (cmd_ntripset nvs d (host ∷ text ∷ mount ∷ words)).0
  unfolding cmd_ntripset
  cmd_ntripset-Cast d host text mount words u o h m =
      cast_lem d host text mount u (atoi text) refl o h m

module _ {S W : Type 0} (nvs : Nvs S) (httpd : Httpd) (link : Link W)
    (v : StoresText nvs admin_ns) where
  -- The console's webadmin with a name that is longer than 32 bytes, on a store that can be
  -- written, says that writes are enabled, but afterwards every request for the protected pages is
  -- answered by 503.
  pub cmd_webadmin-long :
      (d : Device S W) (r : Request) (user pass : Bytes) (words : List Bytes)
      → nvs.opens_rw d.store admin_ns ≡ true
      → 33 ≤ length user
      → (d' : Device S W) × (cmd_webadmin nvs httpd link d (user ∷ pass ∷ words)
          ≡ some (d', webadmin_text user))
        × (require_admin httpd nvs link d'.store r ≡ some service_unavailable)
  unfolding cmd_webadmin web_admin_set_creds require_admin admin_creds_load
  cmd_webadmin-long d r user pass words o h =
      let k_user = codes "user" in
      let k_pass = codes "pass" in
      let s1 = nvs.set_str d.store admin_ns k_user user in
      let too_long : ltb (length user) 33 ≡ false = ground (arith, h) in
      let lost : nvs.get_str (nvs.set_str s1 admin_ns k_pass pass) admin_ns k_user 33 ≡ none =
        v.str_str s1 k_pass k_user pass 33
        ∙ v.str_str d.store k_user k_user user 33
        ∙ rw too_long refl in
      (
        record d { store = nvs.set_str s1 admin_ns k_pass pass; reboots = d.reboots || false },
        rw o refl,
        rw (v.opens_str s1 k_pass pass, lost) refl,
      )
