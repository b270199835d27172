-- ===== src/Usb/Command.antt =====
-- What a command over main/usb_cdc_source.c returns.
use tab5_client.Prelude.{ℕ, [], ◌∷◌, if◌then◌else◌, Bytes}
use tab5_client.Mosaic.{EspErr}
use tab5_client.Usb.{Driver, is_ok}

module _ {D : Type 0} (driver : Driver D) where
  -- The driver after the command and, if that was taken, its line end; with the last outcome.
  abbrev pub transmitted : D → Bytes → ℕ → D × EspErr
  transmitted d cmd wait =
      let (d1, e1) = driver.tx d cmd wait in
      if is_ok e1 then driver.tx d1 (13 ∷ 10 ∷ []) wait else (d1, e1)
