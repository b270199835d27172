-- ===== src/Mosaic/Provision.antt =====
-- `mosaic_provision` of main/mosaic_config.c and what it sends.
use tab5_client.Prelude.{
  ℕ, ◌≡◌, refl, ◌⊎◌, inl, inr, Bool, List, [], ◌∷◌, ◌++◌, arith, Bytes, codes,
}
use tab5_client.Nvs.{Nvs}
use tab5_client.Str.{strlcpy}
use tab5_client.Mosaic.{
  EspErr, esp_ok, esp_fail, esp_err_invalid_state, esp_err_invalid_arg, esp_err_timeout, esp_other,
  com_port, port_cfg,
}
use tab5_client.Mosaic.Commands.{build_nmea_cmd, com_settings_cmd}
use tab5_client.Mosaic.Link.{Link, send_acked, Sends, send_acked-Sends}

abbrev pub provision_tries : ℕ
provision_tries = 14

abbrev pub att_offset : Bytes
att_offset = codes "setAttitudeOffset, 90, 0"

abbrev pub panel_cmd : Bytes
panel_cmd = strlcpy (codes "setNMEAOutput, Stream1, USB2, GGA+GSV, sec1") 128

abbrev pub sbf_cmd : Bytes
sbf_cmd =
    strlcpy (codes "setSBFOutput, Stream1, USB1, PVTGeodetic+AttEuler+ReceiverStatus+DOP, msec100")
      256

module _ {S W : Type 0} (nvs : Nvs S) (link : Link W) where
  unfoldable pub provision_nmea : W → ℕ → W
  provision_nmea w tries = (send_acked link w panel_cmd tries).0

  unfoldable pub send_com_nmea : W → ℕ → Bool → ℕ → ℕ → ℕ → W × EspErr
  send_com_nmea w port enabled msgs rate tries =
      send_acked link w (build_nmea_cmd port enabled msgs rate 160).0 tries

  unfoldable pub send_com_settings : W → ℕ → ℕ → ℕ → W × EspErr
  send_com_settings w port baud tries = send_acked link w (com_settings_cmd port baud) tries

  -- One round of the loop over the ports.
  unfoldable pub provision_com_port : S → W → ℕ → W
  provision_com_port s w port =
      let c = port_cfg nvs s (com_port port) in
      let (w1, e1) = send_com_settings w port c.baud provision_tries in
      (send_com_nmea w1 port c.enabled c.msg_mask c.rate provision_tries).0

  unfoldable pub provision_com_ports : S → W → W
  provision_com_ports s w = provision_com_port s (provision_com_port s w 0) 1

  unfoldable pub provision_aux_outputs : S → W → W
  provision_aux_outputs s w = provision_com_ports s (provision_nmea w provision_tries)

  -- The rest of `mosaic_provision`, with the outcome of the attitude command.
  unfoldable pub provision_rest : S → W → EspErr → W × EspErr
  provision_rest s w esp_err_invalid_state = (w, esp_err_invalid_state)
  provision_rest s w esp_err_timeout = (w, esp_err_timeout)
  provision_rest s w err = send_acked link (provision_aux_outputs s w) sbf_cmd provision_tries

  unfoldable pub mosaic_provision : S → W → W × EspErr
  mosaic_provision s w =
      let (w1, err) = send_acked link w att_offset provision_tries in provision_rest s w1 err

  -- Each command of a list was sent, in the order of the list, once or up to 14 times in a row.
  pub data Script : List Bytes → W → W → Type 0 where
    done : {w : W} → Script [] w w
    next :
        {cmd : Bytes} {cmds : List Bytes} {w w1 w' : W}
        → Sends link cmd provision_tries w w1
        → Script cmds w1 w'
        → Script (cmd ∷ cmds) w w'

  -- The commands that provision one port, and all of them.
  abbrev pub port_cmds : S → ℕ → List Bytes
  port_cmds s port =
      let c = port_cfg nvs s (com_port port) in
      com_settings_cmd port c.baud ∷ (build_nmea_cmd port c.enabled c.msg_mask c.rate 160).0 ∷ []

  -- All between the attitude and the start of the SBF stream.
  abbrev pub aux_cmds : S → List Bytes
  aux_cmds s = panel_cmd ∷ port_cmds s 0 ++ port_cmds s 1

  sent_next :
      {cmd : Bytes} {cmds : List Bytes} {w w' : W}
      → Script cmds (send_acked link w cmd provision_tries).0 w'
      → Script (cmd ∷ cmds) w w'
  sent_next {cmd} {cmds} {w} {w'} rest =
      next (send_acked-Sends link w cmd provision_tries (omega arith)) rest

  aux_outputs-Script : (s : S) (w : W) → Script (aux_cmds s) w (provision_aux_outputs s w)
  unfolding provision_aux_outputs provision_com_ports provision_com_port provision_nmea
      send_com_settings send_com_nmea
  aux_outputs-Script s w = sent_next (sent_next (sent_next (sent_next (sent_next done))))

  -- What follows the first command, which left `w1` with the outcome `e1`: nothing, with that
  -- outcome as the result, or all the rest, with the outcome of the last command.
  abbrev pub Follows : S → W → EspErr → W × EspErr → Type 0
  Follows s w1 e1 (w', err) =
      (((e1 ≡ esp_err_invalid_state) ⊎ (e1 ≡ esp_err_timeout)) × (w' ≡ w1) × (err ≡ e1))
      ⊎ ((¬ (e1 ≡ esp_err_invalid_state))
          × (¬ (e1 ≡ esp_err_timeout))
          × ((w2 : W) × Script (aux_cmds s) w1 w2
              × ((w', err) ≡ send_acked link w2 sbf_cmd provision_tries)
              × Sends link sbf_cmd provision_tries w2 w'))

  rest_follows :
      (s : S) (w1 : W)
      → ((w2 : W) × Script (aux_cmds s) w1 w2
          × (send_acked link (provision_aux_outputs s w1) sbf_cmd provision_tries
              ≡ send_acked link w2 sbf_cmd provision_tries)
          × Sends link sbf_cmd provision_tries w2
              (send_acked link (provision_aux_outputs s w1) sbf_cmd provision_tries).0)
  rest_follows s w1 =
      let w2 = provision_aux_outputs s w1 in
      (
        w2,
        aux_outputs-Script s w1,
        refl,
        send_acked-Sends link w2 sbf_cmd provision_tries (omega arith),
      )

  provision_rest-Follows :
      (s : S) (w1 : W) (err : EspErr) → Follows s w1 err (provision_rest s w1 err)
  unfolding provision_rest
  provision_rest-Follows s w1 esp_err_invalid_state = inl (inl refl, refl, refl)
  provision_rest-Follows s w1 esp_err_timeout = inl (inr refl, refl, refl)
  provision_rest-Follows s w1 esp_ok = inr ((λ h. cc), (λ h. cc), rest_follows s w1)
  provision_rest-Follows s w1 esp_fail = inr ((λ h. cc), (λ h. cc), rest_follows s w1)
  provision_rest-Follows s w1 esp_err_invalid_arg = inr ((λ h. cc), (λ h. cc), rest_follows s w1)
  provision_rest-Follows s w1 (esp_other n) = inr ((λ h. cc), (λ h. cc), rest_follows s w1)

  -- Provisioning sends the attitude offset first, once up to 14 times in a row; if that ends with
  -- no interface open or a time-out, nothing else is sent and that error is the result; with any
  -- other outcome the panel's output, the baud rate and output of COM1 and then of COM2 as saved
  -- follow in that order, each sent once up to 14 times in a row, and the command that starts the
  -- SBF stream comes last in the same way, its outcome the result.
  pub mosaic_provision-Script :
      (s : S) (w : W)
      → let (w1, e1) = send_acked link w att_offset provision_tries in
        Sends link att_offset provision_tries w w1 × Follows s w1 e1 (mosaic_provision s w)
  unfolding mosaic_provision
  mosaic_provision-Script s w =
      let (w1, e1) = send_acked link w att_offset provision_tries in
      (
        send_acked-Sends link w att_offset provision_tries (omega arith),
        provision_rest-Follows s w1 e1,
      )
