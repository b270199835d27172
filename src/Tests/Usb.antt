-- ===== src/Tests/Usb.antt =====
-- main/usb_cdc_source.c with two drivers: one with a reply waiting, and a mute one.
use tab5_client.Prelude.{
  ℕ, ◌≡◌, refl, ◌⊎◌, Bool, true, false, [], arith, ltb, if◌then◌else◌, take, drop, length-take,
  Bytes, codes,
}
use tab5_client.Mosaic.{esp_ok}
use tab5_client.Mosaic.Provision.{mosaic_provision}
use tab5_client.Usb.{
  Driver, usb_start, drain, usb_cdc_send_command, cdc_round, dwell_loop, after_dwell,
}
use tab5_client.Usb.Sweep.{IsIdle, Latched, usb_start-IsIdle, cdc_round-IsIdle}
use tab5_client.Usb.Channel.{usb_link, mosaic_provision-mute}
use tab5_client.Tests.Memory.{blank_memory, memory}

-- The state is the reply that waits.
abbrev chatty : Driver Bytes
chatty = record {
  tx = λ d bytes wait. (d, esp_ok);
  receive = λ d most wait. (drop most d, take most d);
  receive_lem = λ d most wait. omega (arith, length-take most d);
}

abbrev mute_driver : Driver Bytes
mute_driver = record {
  tx = λ d bytes wait. (d, esp_ok);
  receive = λ d most wait. (d, []);
  receive_lem = λ d most wait. omega arith;
}

reply_run :
    (usb_cdc_send_command chatty true true (codes "$R: ok") (codes "x") 5 1500).2 ≡ codes "$R: "
unfolding usb_cdc_send_command drain
reply_run = refl

-- A block at the third look.
abbrev seen : ℕ → Bool × ℕ
seen i = (false, if ltb i 2 then 0 else 1)

latch_run : (cdc_round usb_start true esp_ok 0 seen).stream_itf ≡ 0
unfolding cdc_round usb_start dwell_loop after_dwell
latch_run = refl

cdc_round-IsIdle_example :
    let r = cdc_round usb_start true esp_ok 0 seen in
    IsIdle r × ((r.stream_itf ≡ usb_start.stream_itf) ⊎ ((true ≡ true) × Latched 60 0 seen 0))
cdc_round-IsIdle_example = cdc_round-IsIdle usb_start true esp_ok 0 seen usb_start-IsIdle

mosaic_provision-mute_example :
    (mosaic_provision memory (usb_link mute_driver) blank_memory ([], [])).1 ≡ esp_ok
mosaic_provision-mute_example =
    mosaic_provision-mute mute_driver memory blank_memory ([], []) (λ d bytes wait. refl)
      (λ d most wait. refl)
