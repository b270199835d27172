-- ===== src/Usb/Channel.antt =====
-- The command channel of main/usb_cdc_source.c, as main/mosaic_config.c uses it.
use tab5_client.Prelude.{
  ℕ, zero, suc, ◌≡◌, refl, inl, inr, true, List, [], ◌∷◌, ◌++◌, arith, ◌==◌, if◌then◌else◌,
  Bool-cases, Bytes,
}
use tab5_client.Nvs.{Nvs}
use tab5_client.Mosaic.{esp_ok}
use tab5_client.Mosaic.Link.{Link, send_acked, send_acked-silent}
use tab5_client.Mosaic.Provision.{
  mosaic_provision, provision_rest, provision_aux_outputs, att_offset, sbf_cmd, provision_tries,
}
use tab5_client.Usb.{Driver, is_ok, crlf, drain, usb_cdc_send_command}

module _ {D : Type 0} (driver : Driver D) where
  -- The open channel with a reply buffer of 256 bytes and 1.5 seconds; beside the driver, the
  -- commands so far.
  abbrev pub usb_link : Link (D × List Bytes)
  usb_link = record {
    usb_cdc_send_command = λ w cmd.
        let (d, err, reply) = usb_cdc_send_command driver true true w.0 cmd 256 1500 in
        ((d, w.1 ++ cmd ∷ []), err, reply);
    sent = λ w. w.1;
    sent_lem = λ w cmd. refl;
  }

  drain-mute :
      ((d : D) (most wait : ℕ) → (driver.receive d most wait).1 ≡ [])
      → (fuel : ℕ) (d : D) (room wait : ℕ) → (drain driver fuel d room wait).1 ≡ []
  unfolding drain
  drain-mute m zero d room wait = refl
  drain-mute m (suc fuel) d room wait = elim (Bool-cases (room == 0)) [
    | inl full ↦ rw full refl
    | inr open_room ↦ rw (open_room, m d room wait) refl
  ]

  -- A receiver that takes every byte and never answers is provisioned successfully, as far as
  -- `mosaic_provision` can tell.
  pub mosaic_provision-mute :
      {S : Type 0} (nvs : Nvs S) (s : S) (w : D × List Bytes)
      → ((d : D) (bytes : Bytes) (wait : ℕ) → (driver.tx d bytes wait).1 ≡ esp_ok)
      → ((d : D) (most wait : ℕ) → (driver.receive d most wait).1 ≡ [])
      → (mosaic_provision nvs usb_link s w).1 ≡ esp_ok
  unfolding mosaic_provision provision_rest usb_cdc_send_command
  mosaic_provision-mute nvs s w takes mute =
      let silent : (cmd : Bytes) (v : D × List Bytes)
          → (send_acked usb_link v cmd provision_tries).1 ≡ esp_ok =
        λ cmd v.
          send_acked-silent usb_link v cmd provision_tries (omega arith)
            (λ u. rw (takes u.0 cmd 1500) (takes (driver.tx u.0 cmd 1500).0 crlf 1500))
            (λ u.
              drain-mute mute 255
                (if is_ok (driver.tx u.0 cmd 1500).1
                  then driver.tx (driver.tx u.0 cmd 1500).0 crlf 1500
                  else driver.tx u.0 cmd 1500).0
                255 1500) in
      rw (silent att_offset w) (
        silent sbf_cmd (
          provision_aux_outputs nvs usb_link s
            (send_acked usb_link w att_offset provision_tries).0))
