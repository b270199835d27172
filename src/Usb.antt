-- ===== src/Usb.antt =====
-- main/usb_cdc_source.c: the command channel, the data callback, and the sweep over the
-- receiver's interfaces. The class driver is a parameter.
pub mod Command
pub mod Sweep
pub mod Channel
use tab5_client.Prelude.{
  ℕ, zero, suc, ◌+◌, ◌-◌, ◌/◌, ◌%◌, ◌≤◌, Bool, true, false, not, ◌&&◌, ◌||◌, List, [], ◌∷◌, ◌++◌,
  ltb, leb, ◌==◌, if◌then◌else◌, length, get_or, Bytes, u32,
}
use tab5_client.Float.{Fpu}
use tab5_client.Gnss.{GnssState, gnss_state_feed}
use tab5_client.Mosaic.{EspErr, esp_ok, esp_err_invalid_state, esp_other}

-- `cdc_acm_host_data_tx_blocking` on the open interface, and a read of the stream buffer that
-- captures replies, of a number of bytes at most and after a wait in milliseconds.
pub record Driver (D : Type 0) : Type 0 where
  pub tx : D → Bytes → ℕ → D × EspErr
  pub receive : D → ℕ → ℕ → D × Bytes
  pub receive_lem : (d : D) (most wait : ℕ) → length (receive d most wait).1 ≤ most

abbrev pub is_ok : EspErr → Bool
is_ok esp_ok = true
is_ok err = false

abbrev crlf : Bytes
crlf = 13 ∷ 10 ∷ []

module _ {D : Type 0} (driver : Driver D) where
  -- The loop that drains the reply: `room` is what the buffer has left, its NUL not counted.
  -- Every read but the last takes at least a byte, so as much fuel as room is enough.
  unfoldable pub drain : ℕ → D → ℕ → ℕ → D × Bytes
  drain zero d room wait = (d, [])
  drain (suc fuel) d room wait =
      let (d1, got) = driver.receive d room wait in
      let (d2, more) = drain fuel d1 (room - length got) 300 in
      if room == 0 then (d, []) else if length got == 0 then (d1, []) else (d2, got ++ more)

  -- `cdc` is `s_cdc != NULL`; `buffer` whether the stream buffer exists or can be made.
  unfoldable pub usb_cdc_send_command : Bool → Bool → D → Bytes → ℕ → ℕ → D × EspErr × Bytes
  usb_cdc_send_command cdc buffer d cmd reply_max timeout_ms =
      let (d1, e1) = driver.tx d cmd timeout_ms in
      let (d2, e2) = if is_ok e1 then driver.tx d1 crlf timeout_ms else (d1, e1) in
      let (d3, reply) = drain (reply_max - 1) d2 (reply_max - 1) timeout_ms in
      if not cdc
      then (d, esp_err_invalid_state, [])
      else if not buffer
      then (d, esp_other 0x101, [])
      else (d3, e2, reply)

  unfoldable pub usb_cdc_write : Bool → D → Bytes → ℕ → D × EspErr
  usb_cdc_write cdc d bytes timeout_ms =
      if not cdc then (d, esp_err_invalid_state) else driver.tx d bytes timeout_ms

abbrev pub mosaic_com_itfs : List ℕ
mosaic_com_itfs = 0 ∷ []

abbrev pub mosaic_sweep_dwell_ms : ℕ
mosaic_sweep_dwell_ms = 6000

abbrev pub mosaic_open_retries : ℕ
mosaic_open_retries = 3

abbrev pub no_itf : ℕ
no_itf = 0xFF

-- The file's statics and the sweep's locals.
pub record Usb : Type 0 where
  pub has_cdc : Bool
  pub provisioned : Bool
  pub cdc_open : Bool
  pub cur_itf : ℕ
  pub stream_itf : ℕ
  pub rx_since_open : ℕ
  pub sweep : ℕ
  pub open_fails : ℕ

-- `usb_cdc_source_start` and the entry of `cdc_task`.
unfoldable pub usb_start : Usb
usb_start = record {
  has_cdc = false;
  provisioned = false;
  cdc_open = false;
  cur_itf = no_itf;
  stream_itf = no_itf;
  rx_since_open = 0;
  sweep = 0;
  open_fails = 0;
}

-- The data callback, beside the receiver's state; the copy for a pending command is the driver's.
unfoldable pub cdc_data_cb : Fpu → Usb → GnssState → Bytes → ℕ → Usb × GnssState
cdc_data_cb fpu u g bytes now = (
  record u { rx_since_open = u32 (u.rx_since_open + length bytes) },
  (gnss_state_feed fpu g bytes now).0,
)

-- `CDC_ACM_HOST_DEVICE_DISCONNECTED`.
abbrev pub cdc_event_cb : Usb → Usb
cdc_event_cb u = record u { has_cdc = false; provisioned = false; cdc_open = false }

abbrev pub next_sweep : Usb → ℕ
next_sweep u = (u.sweep + 1) % length mosaic_com_itfs

-- How the wait for valid blocks ends.
pub data Dwell : Type 0 where
  disconnected streaming quiet : Dwell

-- The wait, in rounds of 250 ms: whether a disconnect came, and the parser's block count, at
-- each round.
unfoldable pub dwell_loop : ℕ → ℕ → (ℕ → Bool × ℕ) → ℕ → Dwell
dwell_loop zero i seen base_blocks = quiet
dwell_loop (suc rounds) i seen base_blocks =
    let rest = dwell_loop rounds (i + 1) seen base_blocks in
    if (seen i).0 then disconnected else if ltb base_blocks (seen i).1 then streaming else rest

abbrev pub open_failed : Usb → Usb
open_failed u =
    if leb mosaic_open_retries (u.open_fails + 1)
    then record u { open_fails = 0; sweep = next_sweep u }
    else record u { open_fails = u.open_fails + 1 }

abbrev pub open_done : Usb → Usb
open_done u = record u {
  open_fails = 0;
  has_cdc = true;
  cdc_open = true;
  cur_itf = get_or mosaic_com_itfs u.sweep 0;
  rx_since_open = 0;
}

abbrev pub unplugged : Usb → Usb
unplugged u = record (cdc_event_cb u) { cur_itf = no_itf; sweep = 0 }

-- The rest of a round, by how the wait ended. A stream is kept until the receiver is unplugged.
unfoldable pub after_dwell : Usb → Dwell → Usb
after_dwell u disconnected = unplugged u
after_dwell u streaming = unplugged (record u { stream_itf = get_or mosaic_com_itfs u.sweep 0 })
after_dwell u quiet = record u {
  has_cdc = false;
  cdc_open = false;
  cur_itf = no_itf;
  sweep = next_sweep u;
}

-- One round of `cdc_task`: whether the interface opens, what `mosaic_provision` returns if it is
-- called, the block count after it, and what the wait sees.
unfoldable pub cdc_round : Usb → Bool → EspErr → ℕ → (ℕ → Bool × ℕ) → Usb
cdc_round u opens err base_blocks seen =
    let o = open_done u in
    let here = not o.provisioned && is_ok err in
    let p = record o { provisioned = o.provisioned || here } in
    let rounds = (if here then 15000 else mosaic_sweep_dwell_ms) / 250 in
    if not opens then open_failed u else after_dwell p (dwell_loop rounds 0 seen base_blocks)
