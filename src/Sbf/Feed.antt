-- ===== src/Sbf/Feed.antt =====
-- `sbf_parser_init` and `sbf_parser_feed` of main/sbf_parser.c.
pub mod Waiting
pub mod Chunks
pub mod Parts
pub mod Rule
pub mod Provenance
pub mod Tally
pub mod Frames
pub mod Delivery
use tab5_client.Prelude.{
  ℕ, zero, suc, ◌+◌, ◌-◌, ◌%◌, bit_and, Bool, false, not, ◌||◌, [], ◌∷◌, ◌++◌, ltb, leb, ◌==◌,
  if◌then◌else◌, set, take, drop, replicate, Bytes, u32, sub_u32,
}
use tab5_client.Float.{Fpu}
use tab5_client.Sbf.Fields.{byte, rd_u16}
use tab5_client.Sbf.Crc.{crc16_ccitt}
use tab5_client.Sbf.Blocks.{
  PvtGeodetic, AttEuler, Dop, ReceiverStatus, Parser, sbf_max_block, sbf_buf_cap, decode_block,
}

abbrev pub no_pvt : PvtGeodetic
no_pvt = record {
  tow_ms = 0;
  wnc = 0;
  mode_raw = 0;
  mode_type = 0;
  error = 0;
  nr_sv = 0;
  lat_deg = 0;
  lon_deg = 0;
  height_m = 0;
  h_accuracy_m = 0;
  v_accuracy_m = 0;
}

abbrev pub no_att : AttEuler
no_att = record {
  tow_ms = 0;
  wnc = 0;
  nr_sv = 0;
  error = 0;
  mode = 0;
  heading_deg = 0;
  pitch_deg = 0;
  roll_deg = 0;
}

abbrev pub no_dop : Dop
no_dop = record {
  tow_ms = 0;
  wnc = 0;
  nr_sv = 0;
  pdop = 0;
  tdop = 0;
  hdop = 0;
  vdop = 0;
  hpl_m = 0;
  vpl_m = 0;
}

abbrev pub no_rxstatus : ReceiverStatus
no_rxstatus = record {
  tow_ms = 0;
  wnc = 0;
  cpu_load_pct = 0;
  ext_error = 0;
  uptime_s = 0;
  rx_state = 0;
  rx_error = 0;
  agc_subblocks = 0;
  temperature_c = 0;
}

-- `memset` to zero
unfoldable pub sbf_parser_init : Parser
sbf_parser_init = record {
  buf = replicate sbf_buf_cap 0;
  len = 0;
  valid_blocks = 0;
  crc_failed = 0;
  pvt = no_pvt;
  pvt_count = 0;
  pvt_valid = false;
  att = no_att;
  att_count = 0;
  att_valid = false;
  dop = no_dop;
  dop_count = 0;
  dop_valid = false;
  rxstatus = no_rxstatus;
  rxstatus_count = 0;
  rxstatus_valid = false;
}

-- `memmove(buf, buf + src, n)` inside one array
abbrev pub memmove_front : Bytes → ℕ → ℕ → Bytes
memmove_front buf src n = take n (drop src buf) ++ drop n buf

-- What one round of the scan finds at `b`, with `avail` bytes received from there on.
pub data Verdict : Type 0 where
  stop skip bad_crc : Verdict
  accept : ℕ → Verdict

abbrev bogus_length : ℕ → Bool
bogus_length blen = ltb blen 8 || not (blen % 4 == 0) || ltb sbf_max_block blen

unfoldable pub examine : Bytes → ℕ → Verdict
examine b avail =
    if ltb avail 8
    then stop
    else if not (byte b 0 == 0x24) || not (byte b 1 == 0x40)
    then skip
    else if bogus_length (rd_u16 b 6)
    then skip
    else if ltb avail (rd_u16 b 6)
    then stop
    else if crc16_ccitt b 4 (rd_u16 b 6 - 4) == rd_u16 b 2
    then accept (rd_u16 b 6)
    else bad_crc

abbrev pub block_num : Bytes → ℕ
block_num b = bit_and (rd_u16 b 4) 0x1FFF

module _ (fpu : Fpu) where
  abbrev pub count_valid : Parser → Parser
  count_valid p = record p { valid_blocks = u32 (p.valid_blocks + 1) }

  abbrev pub count_failed : Parser → Parser
  count_failed p = record p { crc_failed = u32 (p.crc_failed + 1) }

  -- The `while` loop, with the locals `i` and `decoded`.
  unfoldable pub scan : ℕ → Parser → ℕ → ℕ → Parser × ℕ × ℕ
  scan zero p i decoded = (p, i, decoded)
  scan (suc fuel) p i decoded = elim (examine (drop i p.buf) (sub_u32 p.len i)) [
    | stop ↦ (p, i, decoded)
    | skip ↦ scan fuel p (i + 1) decoded
    | bad_crc ↦ scan fuel (count_failed p) (i + 1) decoded
    | accept blen ↦
        scan fuel (count_valid (decode_block fpu p (drop i p.buf) (block_num (drop i p.buf))))
          (i + blen) (u32 (decoded + 1))
  ]

  -- Dropping the oldest byte of a full buffer.
  abbrev pub make_room : Parser → Parser
  make_room p =
      if leb sbf_buf_cap p.len
      then record p { buf = memmove_front p.buf 1 (p.len - 1); len = p.len - 1 }
      else p

  abbrev pub append_byte : Parser → ℕ → Parser
  append_byte p c = record p { buf = set p.buf p.len c; len = p.len + 1 }

  abbrev pub compact : Parser → ℕ → Parser
  compact p i =
      if ltb 0 i then record p { buf = memmove_front p.buf i (p.len - i); len = p.len - i } else p

  -- One round of the `for` loop.
  unfoldable pub feed_byte : Parser → ℕ → ℕ → Parser × ℕ
  feed_byte p c decoded =
      let q = append_byte (make_room p) c in
      let (r, i, decoded') = scan (q.len + 1) q 0 decoded in (compact r i, decoded')

  unfoldable pub feed_loop : Parser → Bytes → ℕ → Parser × ℕ
  feed_loop p [] decoded = (p, decoded)
  feed_loop p (c ∷ cs) decoded =
      let (q, decoded') = feed_byte p c decoded in feed_loop q cs decoded'

  unfoldable pub sbf_parser_feed : Parser → Bytes → Parser × ℕ
  unfolding feed_loop
  sbf_parser_feed p bytes = feed_loop p bytes 0
