-- ===== src/Mosaic/Config.antt =====
-- What main/mosaic_config.c keeps of the operator's port settings.
use tab5_client.Prelude.{
  ℕ, zero, suc, ◌<◌, ◌≡◌, refl, ap, ◌∙◌, ◌≢◌, Bool, true, false, Option, some, arith, leb,
  if◌then◌else◌, if-both, Bytes, u8, u16,
}
use tab5_client.Nvs.{Nvs, Stores}
use tab5_client.Str.{eq_bytes}
use tab5_client.Mosaic.{
  EspErr, nmea_nvs_ns, nmea_rate_off, nmea_baud_count, mosaic_com_count, ComPort, cfg_of,
  or_default, nmea_rate_10hz, nmea_baud_def, com1, com2, com_port, saved_u8, saved_u16, port_cfg,
  NmeaCfg, clamp_rate, clamp_baud, mosaic_nmea_cfg_get, mosaic_nmea_cfg_apply, store_cfg,
}

-- The settings that well-formed values give.
cfg_of-some :
    (p : ComPort) (en : Bool) (m r b : ℕ)
    → r < nmea_rate_off
    → b < nmea_baud_count
    → cfg_of p (some (u16 m)) (some (u8 r)) (some (u8 b)) (some (u8 (if en then 1 else 0)))
      ≡ record { enabled = en; msg_mask = u16 m; rate = r; baud = b }
cfg_of-some p true m r b lr lb =
    let sr : u8 r ≡ r = omega arith in let sb : u8 b ≡ b = omega arith in rw (sr, sb) (ground arith)
cfg_of-some p false m r b lr lb =
    let sr : u8 r ≡ r = omega arith in let sb : u8 b ≡ b = omega arith in rw (sr, sb) (ground arith)

cfg_of-same :
    (p : ComPort) {m m' r r' b b' en en' : Option ℕ}
    → m ≡ m'
    → r ≡ r'
    → b ≡ b'
    → en ≡ en'
    → cfg_of p m r b en ≡ cfg_of p m' r' b' en'
cfg_of-same p {m} {m'} {r} {r'} {b} {b'} {en} {en'} em er eb ee =
    ap (λ x. cfg_of p x r b en) em
    ∙ ap (λ x. cfg_of p m' x b en) er
    ∙ ap (λ x. cfg_of p m' r' x en) eb
    ∙ ap (λ x. cfg_of p m' r' b' x) ee

clamp_rate-lt : (r : ℕ) → clamp_rate r < nmea_rate_off
clamp_rate-lt r = ground arith

clamp_baud-lt : (b : ℕ) → clamp_baud b < nmea_baud_count
clamp_baud-lt b = ground arith

-- Whatever the store holds, the settings of an existing port name a selectable rate and an
-- existing baud rate.
pub mosaic_nmea_cfg_get-bounds :
    {S : Type 0} (nvs : Nvs S) (s : S) (port : ℕ)
    → port < mosaic_com_count
    → (c : NmeaCfg) × (mosaic_nmea_cfg_get nvs s port ≡ some c)
      × (c.rate < nmea_rate_off)
      × (c.baud < nmea_baud_count)
unfolding mosaic_nmea_cfg_get
mosaic_nmea_cfg_get-bounds nvs s port h =
    let p = com_port port in
    let exists : leb mosaic_com_count port ≡ false = ground (arith, h) in
    (
      port_cfg nvs s p,
      rw exists refl,
      clamp_rate-lt (or_default nmea_rate_10hz (saved_u8 nvs s p.k_rate)),
      clamp_baud-lt (or_default nmea_baud_def (saved_u8 nvs s p.k_baud)),
    )

module _ {S : Type 0} (nvs : Nvs S) (v : Stores nvs nmea_nvs_ns) where
  saved_u8-store_cfg :
      (s : S) (p : ComPort) (j : Bytes) (en : Bool) (m r b : ℕ)
      → eq_bytes p.k_msgs j ≡ false
      → saved_u8 nvs (store_cfg nvs s p en m r b) j ≡ (
          if eq_bytes p.k_baud j
          then some (u8 b)
          else if eq_bytes p.k_en j
          then some (u8 (if en then 1 else 0))
          else if eq_bytes p.k_rate j
          then some (u8 r)
          else nvs.get_u8 s nmea_nvs_ns j)
  unfolding store_cfg
  saved_u8-store_cfg s p j en m r b d =
      let s1 = nvs.set_u16 s nmea_nvs_ns p.k_msgs m in
      let s2 = nvs.set_u8 s1 nmea_nvs_ns p.k_rate r in
      let s3 = nvs.set_u8 s2 nmea_nvs_ns p.k_en (if en then 1 else 0) in
      simp (
        v.opens_u8 s3 p.k_baud b,
        v.u8_u8 s3 p.k_baud j b,
        v.u8_u8 s2 p.k_en j (if en then 1 else 0),
        v.u8_u8 s1 p.k_rate j r,
        v.u8_u16 s p.k_msgs j m d,
      )

  saved_u16-store_cfg :
      (s : S) (p : ComPort) (j : Bytes) (en : Bool) (m r b : ℕ)
      → eq_bytes p.k_rate j ≡ false
      → eq_bytes p.k_en j ≡ false
      → eq_bytes p.k_baud j ≡ false
      → saved_u16 nvs (store_cfg nvs s p en m r b) j
        ≡ (if eq_bytes p.k_msgs j then some (u16 m) else nvs.get_u16 s nmea_nvs_ns j)
  unfolding store_cfg
  saved_u16-store_cfg s p j en m r b d e f =
      let s1 = nvs.set_u16 s nmea_nvs_ns p.k_msgs m in
      let s2 = nvs.set_u8 s1 nmea_nvs_ns p.k_rate r in
      let s3 = nvs.set_u8 s2 nmea_nvs_ns p.k_en (if en then 1 else 0) in
      simp (
        v.opens_u8 s3 p.k_baud b,
        v.u16_u8 s3 p.k_baud j b f,
        v.u16_u8 s2 p.k_en j (if en then 1 else 0) e,
        v.u16_u8 s1 p.k_rate j r d,
        v.u16_u16 s p.k_msgs j m,
      )

  port_cfg-store_cfg :
      (s : S) (port : ℕ) (en : Bool) (m r b : ℕ)
      → r < nmea_rate_off
      → b < nmea_baud_count
      → port_cfg nvs (store_cfg nvs s (com_port port) en m r b) (com_port port)
        ≡ record { enabled = en; msg_mask = u16 m; rate = r; baud = b }
  port_cfg-store_cfg s zero en m r b lr lb =
      cfg_of-same com1 (saved_u16-store_cfg s com1 com1.k_msgs en m r b refl refl refl)
        (saved_u8-store_cfg s com1 com1.k_rate en m r b refl)
        (saved_u8-store_cfg s com1 com1.k_baud en m r b refl)
        (saved_u8-store_cfg s com1 com1.k_en en m r b refl)
      ∙ cfg_of-some com1 en m r b lr lb
  port_cfg-store_cfg s (suc n) en m r b lr lb =
      cfg_of-same com2 (saved_u16-store_cfg s com2 com2.k_msgs en m r b refl refl refl)
        (saved_u8-store_cfg s com2 com2.k_rate en m r b refl)
        (saved_u8-store_cfg s com2 com2.k_baud en m r b refl)
        (saved_u8-store_cfg s com2 com2.k_en en m r b refl)
      ∙ cfg_of-some com2 en m r b lr lb

  port_cfg-com2 :
      (s : S) (en : Bool) (m r b : ℕ)
      → nvs.opens_ro s nmea_nvs_ns ≡ true
      → port_cfg nvs (store_cfg nvs s com1 en m r b) com2 ≡ port_cfg nvs s com2
  port_cfg-com2 s en m r b o = rw o (
      cfg_of-same com2 (saved_u16-store_cfg s com1 com2.k_msgs en m r b refl refl refl)
        (saved_u8-store_cfg s com1 com2.k_rate en m r b refl)
        (saved_u8-store_cfg s com1 com2.k_baud en m r b refl)
        (saved_u8-store_cfg s com1 com2.k_en en m r b refl))

  port_cfg-com1 :
      (s : S) (en : Bool) (m r b : ℕ)
      → nvs.opens_ro s nmea_nvs_ns ≡ true
      → port_cfg nvs (store_cfg nvs s com2 en m r b) com1 ≡ port_cfg nvs s com1
  port_cfg-com1 s en m r b o = rw o (
      cfg_of-same com1 (saved_u16-store_cfg s com2 com1.k_msgs en m r b refl refl refl)
        (saved_u8-store_cfg s com2 com1.k_rate en m r b refl)
        (saved_u8-store_cfg s com2 com1.k_baud en m r b refl)
        (saved_u8-store_cfg s com2 com1.k_en en m r b refl))

  -- Settings that are applied to a port are the ones read back for it, a rate or baud rate that
  -- does not exist replaced by the default.
  pub mosaic_nmea_cfg_get-apply :
      (s : S) (port : ℕ) (enabled : Bool) (msg_mask rate baud : ℕ)
      → port < mosaic_com_count
      → nvs.opens_rw s nmea_nvs_ns ≡ true
      → mosaic_nmea_cfg_get nvs (mosaic_nmea_cfg_apply nvs s port enabled msg_mask rate baud).0 port
        ≡ some (record {
          enabled = enabled;
          msg_mask = u16 msg_mask;
          rate = clamp_rate rate;
          baud = clamp_baud baud;
        })
  unfolding mosaic_nmea_cfg_get mosaic_nmea_cfg_apply
  mosaic_nmea_cfg_get-apply s port enabled msg_mask rate baud h o =
      let exists : leb mosaic_com_count port ≡ false = ground (arith, h) in
      rw (exists, o)
        (ap some (
          port_cfg-store_cfg s port enabled msg_mask (clamp_rate rate) (clamp_baud baud)
            (clamp_rate-lt rate) (clamp_baud-lt baud)))

  -- Applying settings to one port leaves the other's as they were, if the namespace existed.
  pub mosaic_nmea_cfg_apply-other :
      (s : S) (port other : ℕ) (enabled : Bool) (msg_mask rate baud : ℕ)
      → port < mosaic_com_count
      → other < mosaic_com_count
      → port ≢ other
      → nvs.opens_ro s nmea_nvs_ns ≡ true
      → mosaic_nmea_cfg_get nvs
          (mosaic_nmea_cfg_apply nvs s port enabled msg_mask rate baud).0
          other
        ≡ mosaic_nmea_cfg_get nvs s other
  unfolding mosaic_nmea_cfg_get mosaic_nmea_cfg_apply
  mosaic_nmea_cfg_apply-other s zero zero enabled msg_mask rate baud h g d o = absurd (d refl)
  mosaic_nmea_cfg_apply-other s zero (suc zero) enabled msg_mask rate baud h g d o =
      if-both (λ (r : S × EspErr). some (port_cfg nvs r.0 com2) ≡ some (port_cfg nvs s com2))
        (nvs.opens_rw s nmea_nvs_ns)
        (ap some (port_cfg-com2 s enabled msg_mask (clamp_rate rate) (clamp_baud baud) o)) refl
  mosaic_nmea_cfg_apply-other s (suc zero) zero enabled msg_mask rate baud h g d o =
      if-both (λ (r : S × EspErr). some (port_cfg nvs r.0 com1) ≡ some (port_cfg nvs s com1))
        (nvs.opens_rw s nmea_nvs_ns)
        (ap some (port_cfg-com1 s enabled msg_mask (clamp_rate rate) (clamp_baud baud) o)) refl
  mosaic_nmea_cfg_apply-other s (suc zero) (suc zero) enabled msg_mask rate baud h g d o =
      absurd (d refl)
  mosaic_nmea_cfg_apply-other s zero (suc (suc n)) enabled msg_mask rate baud h g d o =
      absurd (omega arith)
  mosaic_nmea_cfg_apply-other s (suc zero) (suc (suc n)) enabled msg_mask rate baud h g d o =
      absurd (omega arith)
  mosaic_nmea_cfg_apply-other s (suc (suc n)) other enabled msg_mask rate baud h g d o =
      absurd (omega arith)
