-- ===== src/Settings/Edits.antt =====
-- main/settings_view.c: what is edited is what is saved.
use tab5_client.Prelude.{
  ℕ, zero, suc, ◌^◌, ◌<◌, ◌≡◌, refl, ap, ◌∙◌, true, some, List, [], ◌∷◌, arith, get_or, set, u16,
}
use tab5_client.Nvs.{Nvs, Stores}
use tab5_client.Mosaic.{
  NmeaCfg, nmea_nvs_ns, nmea_rate_off, nmea_baud_count, mosaic_com_count, mosaic_nmea_cfg_get,
  mosaic_nmea_cfg_apply, store_cfg, clamp_rate, clamp_baud,
}
use tab5_client.Mosaic.Config.{mosaic_nmea_cfg_get-apply, mosaic_nmea_cfg_apply-other}
use tab5_client.Settings.{
  refresh_loop, Form, Touched, on_port, on_onoff, on_msg, on_rate, on_baud, flip_enabled, flip_msg,
  choose_rate, choose_baud, blank_cfg, touch, settings_view_refresh, on_apply, cfg_at, apply_loop,
}

-- Settings of the ranges that the buttons offer.
pub record IsCfg (c : NmeaCfg) : Type 0 where
  pub mask_fits : c.msg_mask < 2 ^ 16
  pub rate_fits : c.rate < nmea_rate_off
  pub baud_fits : c.baud < nmea_baud_count

abbrev pub BothCfg : List NmeaCfg → Type 0
BothCfg [] = ⊥
BothCfg (a ∷ []) = ⊥
BothCfg (a ∷ b ∷ []) = IsCfg a × IsCfg b
BothCfg (a ∷ b ∷ c ∷ cs) = ⊥

pub record IsForm (f : Form) : Type 0 where
  pub cur_fits : f.cur < mosaic_com_count
  pub ports_fit : BothCfg f.ports

-- A button that the form has.
abbrev pub IsButton : Touched → Type 0
IsButton (on_port p) = p < mosaic_com_count
IsButton on_onoff = Unit {0}
IsButton (on_msg i) = i < 6
IsButton (on_rate r) = r < nmea_rate_off
IsButton (on_baud b) = b < nmea_baud_count

edit-BothCfg :
    (k : ℕ) (cs : List NmeaCfg) (change : NmeaCfg → NmeaCfg)
    → BothCfg cs
    → ((c : NmeaCfg) → IsCfg c → IsCfg (change c))
    → BothCfg (set cs k (change (get_or cs k blank_cfg)))
edit-BothCfg k [] change h f = absurd h
edit-BothCfg k (a ∷ []) change h f = absurd h
edit-BothCfg zero (a ∷ b ∷ []) change h f = (f a h.0, h.1)
edit-BothCfg (suc zero) (a ∷ b ∷ []) change h f = (h.0, f b h.1)
edit-BothCfg (suc (suc k)) (a ∷ b ∷ []) change h f = h
edit-BothCfg k (a ∷ b ∷ c ∷ cs) change h f = absurd h

touch-IsForm : (f : Form) (t : Touched) → IsButton t → IsForm f → IsForm (touch f t)
unfolding touch
touch-IsForm f (on_port p) b v = record { cur_fits = omega arith; ports_fit = v.ports_fit }
touch-IsForm f on_onoff b v = record {
  cur_fits = v.cur_fits;
  ports_fit = edit-BothCfg f.cur f.ports flip_enabled v.ports_fit (λ c h. ground (arith, h));
}
touch-IsForm f (on_msg i) b v = record {
  cur_fits = v.cur_fits;
  ports_fit = edit-BothCfg f.cur f.ports (flip_msg i) v.ports_fit (λ c h. ground (arith, h));
}
touch-IsForm f (on_rate r) b v = record {
  cur_fits = v.cur_fits;
  ports_fit = edit-BothCfg f.cur f.ports (choose_rate r) v.ports_fit (λ c h. ground (arith, h));
}
touch-IsForm f (on_baud r) b v = record {
  cur_fits = v.cur_fits;
  ports_fit = edit-BothCfg f.cur f.ports (choose_baud r) v.ports_fit (λ c h. ground (arith, h));
}

unfoldable pub touches : Form → List Touched → Form
touches f [] = f
touches f (t ∷ ts) = touches (touch f t) ts

abbrev pub AllButtons : List Touched → Type 0
AllButtons [] = Unit {0}
AllButtons (t ∷ ts) = IsButton t × AllButtons ts

touches-IsForm : (f : Form) (ts : List Touched) → AllButtons ts → IsForm f → IsForm (touches f ts)
unfolding touches
touches-IsForm f [] b v = v
touches-IsForm f (t ∷ ts) b v = touches-IsForm (touch f t) ts b.1 (touch-IsForm f t b.0 v)

module _ {S : Type 0} (nvs : Nvs S) (v : Stores nvs nmea_nvs_ns) where
  found_cfg :
      (s : S) (p : ℕ) (c : NmeaCfg) → mosaic_nmea_cfg_get nvs s p ≡ some c → cfg_at nvs s p ≡ c
  found_cfg s p c h = rw (h, cfg_at) refl

  opens_ro-apply :
      (s : S) (c : NmeaCfg)
      → nvs.opens_rw s nmea_nvs_ns ≡ true
      → nvs.opens_ro
          (mosaic_nmea_cfg_apply nvs s 0 c.enabled c.msg_mask c.rate c.baud).0
          nmea_nvs_ns
        ≡ true
  unfolding mosaic_nmea_cfg_apply store_cfg
  opens_ro-apply s c o = rw o (v.opens_u8 _ _ _)

  same_cfg :
      (c : NmeaCfg)
      → IsCfg c
      → record {
        enabled = c.enabled;
        msg_mask = u16 c.msg_mask;
        rate = clamp_rate c.rate;
        baud = clamp_baud c.baud;
      }
        ≡ c
  same_cfg c h = ground (arith, h)

  saved_back :
      (s : S) (a b : NmeaCfg)
      → IsCfg a
      → IsCfg b
      → ((t : S) → nvs.opens_rw t nmea_nvs_ns ≡ true)
      → (cfg_at nvs (apply_loop nvs s 0 (a ∷ b ∷ [])) 0 ≡ a)
        × (cfg_at nvs (apply_loop nvs s 0 (a ∷ b ∷ [])) 1 ≡ b)
  saved_back s a b ha hb o =
      let s1 = (mosaic_nmea_cfg_apply nvs s 0 a.enabled a.msg_mask a.rate a.baud).0 in
      let s2 = (mosaic_nmea_cfg_apply nvs s1 1 b.enabled b.msg_mask b.rate b.baud).0 in
      let first =
        mosaic_nmea_cfg_get-apply nvs v s 0 a.enabled a.msg_mask a.rate a.baud (omega arith)
          (o s) in
      let second =
        mosaic_nmea_cfg_get-apply nvs v s1 1 b.enabled b.msg_mask b.rate b.baud (omega arith)
          (o s1) in
      let kept =
        mosaic_nmea_cfg_apply-other nvs v s1 1 0 b.enabled b.msg_mask b.rate b.baud (omega arith)
          (omega arith) (λ e. absurd (omega arith)) (opens_ro-apply s a (o s)) in
      (
        found_cfg s2 0 a (kept ∙ first ∙ ap some (same_cfg a ha)),
        found_cfg s2 1 b (second ∙ ap some (same_cfg b hb)),
      )

  refresh_back :
      (s : S) (cs : List NmeaCfg)
      → BothCfg cs
      → ((t : S) → nvs.opens_rw t nmea_nvs_ns ≡ true)
      → refresh_loop nvs (apply_loop nvs s 0 cs) 0 cs ≡ cs
  refresh_back s [] h o = refl
  refresh_back s (a ∷ []) h o = absurd h
  refresh_back s (a ∷ b ∷ []) h o = let (p, q) = saved_back s a b h.0 h.1 o in rw (p, q) refl
  refresh_back s (a ∷ b ∷ c ∷ cs) h o = absurd h

  -- On a store that can be written, whatever buttons of a form whose ports are within the offered
  -- ranges are touched, on either port's page, after Apply a refresh shows both ports as they were
  -- edited.
  pub settings_view_refresh-on_apply :
      (s : S) (f : Form) (ts : List Touched)
      → IsForm f
      → AllButtons ts
      → ((t : S) → nvs.opens_rw t nmea_nvs_ns ≡ true)
      → let edited = touches f ts in
        settings_view_refresh nvs (on_apply nvs s edited) edited ≡ edited
  unfolding settings_view_refresh on_apply
  settings_view_refresh-on_apply s f ts h b o =
      let edited = touches f ts in
      ap (λ (cs : List NmeaCfg). record edited { ports = cs })
        (refresh_back s edited.ports (touches-IsForm f ts b h).ports_fit o)
