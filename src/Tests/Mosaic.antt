-- ===== src/Tests/Mosaic.antt =====
-- main/mosaic_config.c with a store in memory and a receiver that acknowledges every command.
use tab5_client.Prelude.{
  ◌≡◌, refl, true, false, some, List, [], ◌∷◌, ◌++◌, arith, length, get_or, Bytes, codes,
}
use tab5_client.Mosaic.{
  esp_ok, nmea_nvs_ns, com_port, mosaic_nmea_cfg_get, mosaic_nmea_cfg_apply, store_cfg,
}
use tab5_client.Mosaic.Config.{mosaic_nmea_cfg_get-apply}
use tab5_client.Mosaic.Commands.{
  build_nmea_cmd, list_loop, com_settings_cmd, buf_contains, contains_loop, output_cmd,
  nmea_msgs_tbl,
}
use tab5_client.Mosaic.Selection.{build_nmea_cmd-selected, joined, selected}
use tab5_client.Mosaic.Link.{Link, Sends, acks, send_acked, send_loop}
use tab5_client.Mosaic.Provision.{
  mosaic_provision, provision_rest, provision_aux_outputs, provision_com_ports, provision_com_port,
  provision_nmea, send_com_settings, send_com_nmea, att_offset, Follows, mosaic_provision-Script,
}
use tab5_client.Tests.Memory.{Memory, blank_memory, memory, memory-Stores}

abbrev pub willing : Link (List Bytes)
willing = record {
  usb_cdc_send_command = λ w cmd. (w ++ cmd ∷ [], esp_ok, acks);
  sent = λ w. w;
  sent_lem = λ w cmd. refl;
}

chosen_cmd :
    (build_nmea_cmd 0 true 0x21 3 160).0 ≡ codes "setNMEAOutput, Stream2, COM1, GGA+GSV, sec1"
unfolding build_nmea_cmd list_loop
chosen_cmd = refl

provision_run :
    let (w, err) = mosaic_provision memory willing blank_memory [] in
    (length w ≡ 7) × (get_or w 5 [] ≡ codes "setNMEAOutput, Stream3, COM2, none") × (err ≡ esp_ok)
unfolding mosaic_provision provision_rest provision_aux_outputs provision_com_ports
    provision_com_port provision_nmea send_com_settings send_com_nmea send_acked send_loop
    build_nmea_cmd list_loop com_settings_cmd buf_contains contains_loop
provision_run = (refl, refl, refl)

mosaic_provision-Script_example :
    let (w1, e1) = send_acked willing [] att_offset 14 in
    Sends willing att_offset 14 [] w1
    × Follows memory willing blank_memory w1 e1 (mosaic_provision memory willing blank_memory [])
mosaic_provision-Script_example = mosaic_provision-Script memory willing blank_memory []

mosaic_nmea_cfg_get-apply_example :
    mosaic_nmea_cfg_get memory (mosaic_nmea_cfg_apply memory blank_memory 1 true 0x21 9 5).0 1
    ≡ some (record { enabled = true; msg_mask = 0x21; rate = 0; baud = 5 })
mosaic_nmea_cfg_get-apply_example =
    mosaic_nmea_cfg_get-apply memory (memory-Stores nmea_nvs_ns) blank_memory 1 true 0x21 9 5
      (omega arith) refl

abbrev saved : Memory
saved = (mosaic_nmea_cfg_apply memory blank_memory 0 false 0x01 2 4).0

saved_opens : memory.opens_ro saved nmea_nvs_ns ≡ true
unfolding mosaic_nmea_cfg_apply store_cfg
saved_opens = refl

build_nmea_cmd-selected_example : build_nmea_cmd 1 true 0x05 0 160 ≡ (
  output_cmd (com_port 1)
      ++ codes ", "
      ++ joined [] (selected nmea_msgs_tbl 0x05)
      ++ codes ", "
      ++ codes "msec100",
  true,
)
build_nmea_cmd-selected_example = build_nmea_cmd-selected 1 true 0x05 0
