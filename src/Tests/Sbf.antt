-- ===== src/Tests/Sbf.antt =====
-- The parser of main/sbf_parser.c and the shared state of main/gnss_state.c on small blocks.
use tab5_client.Prelude.{
  ◌+◌, ◌-◌, ◌*◌, ◌/◌, ◌≤◌, ◌<◌, min, max, ◌≡◌, refl, ◌⊎◌, true, false, [], ◌∷◌, ◌++◌, arith, ltb,
  leb, length, take, drop, replicate, Bytes, u32,
}
use tab5_client.Prelude.Int.{pos, pos_part}
use tab5_client.Str.{dec, atoi}
use tab5_client.Float.{Fpu}
use tab5_client.Sbf.Fields.{rd_u16, rd_u32}
use tab5_client.Sbf.Crc.{crc16_ccitt}
use tab5_client.Sbf.Blocks.{read_receiverstatus, decode_block}
use tab5_client.Sbf.Framing.{IsFrame}
use tab5_client.Sbf.Feed.{sbf_parser_init, sbf_parser_feed, examine, scan, feed_byte, block_num}
use tab5_client.Sbf.Feed.Waiting.{IsWaiting, sbf_parser_init-IsWaiting, sbf_parser_feed-IsWaiting}
use tab5_client.Sbf.Feed.Chunks.{sbf_parser_feed-append}
use tab5_client.Sbf.Feed.Rule.{input_of}
use tab5_client.Sbf.Feed.Provenance.{Sourced, sbf_parser_feed-Sourced}
use tab5_client.Sbf.Feed.Delivery.{layout_len, concat, decode_all, sbf_parser_feed-AllFrames}
use tab5_client.Gnss.{GnssState, gnss_state_feed, gnss_state_fresh}
use tab5_client.Gnss.Freshness.{gnss_state_feed-fresh}

-- A unit that keeps its arguments apart, for runs that do not look at the floats' values.
abbrev pub toy : Fpu
toy = record {
  f32_of_u32 = λ n. n;
  f32_div = λ a b. a / b;
  f64_add = λ a b. a + b;
  f64_sub = λ a b. a - b;
  f64_mul = λ a b. a * b;
  f64_div = λ a b. a / b;
  f64_neg = λ a. a;
  f64_abs = λ a. a;
  f64_cos = λ a. a;
  f64_lt = ltb;
  f64_le = leb;
  f64_of_u32 = λ n. n;
  f64_of_int = pos_part;
  int_of_f64 = pos;
  atof = λ s. pos_part (atoi s);
  f64_fmt = λ n v. dec (pos v);
  f64_min = λ a b. min a b;
  f64_max = λ a b. max a b;
  f64_ceil = λ a. a;
  f64_sin = λ a. a;
  f64_lround = pos;
  f32_of_f64 = λ a. a;
  f64_of_f32 = λ a. a;
  f32_add = λ a b. a + b;
  f32_mul = λ a b. a * b;
  f32_lt = ltb;
}

-- A position block of 8 bytes, a block of a number that no decoder has, and a whole status block.
abbrev short_pvt : Bytes
short_pvt = 0x24 ∷ 0x40 ∷ 0xC3 ∷ 0x1E ∷ 0xA7 ∷ 0x0F ∷ 8 ∷ 0 ∷ []

abbrev other : Bytes
other = 0x24 ∷ 0x40 ∷ 0x1D ∷ 0xFF ∷ 1 ∷ 0 ∷ 8 ∷ 0 ∷ []

abbrev status : Bytes
status = 0x24 ∷ 0x40 ∷ 0x38 ∷ 0x4A ∷ 0xAE ∷ 0x0F ∷ 32 ∷ 0 ∷ replicate 24 0

short_pvt-IsFrame : IsFrame short_pvt
unfolding rd_u16 crc16_ccitt
short_pvt-IsFrame = record {
  sync1 = refl;
  sync2 = refl;
  length_is = refl;
  header = omega arith;
  longest = omega arith;
  aligned = refl;
  crc = refl;
}

other-IsFrame : IsFrame other
unfolding rd_u16 crc16_ccitt
other-IsFrame = record {
  sync1 = refl;
  sync2 = refl;
  length_is = refl;
  header = omega arith;
  longest = omega arith;
  aligned = refl;
  crc = refl;
}

status-IsFrame : IsFrame status
unfolding rd_u16 crc16_ccitt
status-IsFrame = record {
  sync1 = refl;
  sync2 = refl;
  length_is = refl;
  header = omega arith;
  longest = omega arith;
  aligned = refl;
  crc = refl;
}

block_num-short_pvt : block_num short_pvt ≡ 4007
unfolding rd_u16
block_num-short_pvt = refl

block_num-status : block_num status ≡ 4014
unfolding rd_u16
block_num-status = refl

layout_len-status : layout_len (block_num status) ≤ length status
layout_len-status = rw block_num-status (omega arith)

block_num-other : block_num other ≡ 1
unfolding rd_u16
block_num-other = refl

layout_len-other : layout_len (block_num other) ≤ length other
layout_len-other = rw block_num-other (omega arith)

init_len : sbf_parser_init.len ≡ 0
unfolding sbf_parser_init
init_len = refl

-- Noise, a whole block, and the start of another.
mixed_run :
    let (p, decoded) = sbf_parser_feed toy sbf_parser_init (0x24 ∷ 7 ∷ (status ++ take 5 other)) in
    (decoded ≡ 1) × (p.len ≡ 5) × (p.rxstatus_valid ≡ true) × (p.crc_failed ≡ 0)
unfolding sbf_parser_feed feed_byte scan examine rd_u16 rd_u32 crc16_ccitt decode_block
    sbf_parser_init read_receiverstatus
mixed_run = (refl, refl, refl, refl)

sbf_parser_feed-AllFrames_example :
    sbf_parser_feed toy sbf_parser_init (concat (status ∷ other ∷ status ∷ []))
    ≡ (decode_all toy sbf_parser_init (status ∷ other ∷ status ∷ []), 3)
sbf_parser_feed-AllFrames_example =
    sbf_parser_feed-AllFrames toy (status ∷ other ∷ status ∷ []) sbf_parser_init
      sbf_parser_init-IsWaiting init_len
      (
        status-IsFrame,
        layout_len-status,
        (other-IsFrame, layout_len-other, (status-IsFrame, layout_len-status, tt)),
      )

sbf_parser_feed-Sourced_example :
    Sourced toy
      (input_of sbf_parser_init (7 ∷ status))
      sbf_parser_init
      (sbf_parser_feed toy sbf_parser_init (7 ∷ status)).0
sbf_parser_feed-Sourced_example =
    sbf_parser_feed-Sourced toy sbf_parser_init (7 ∷ status) sbf_parser_init-IsWaiting

sbf_parser_feed-append_example :
    let (q, d) = sbf_parser_feed toy sbf_parser_init (take 3 status) in
    let (r, e) = sbf_parser_feed toy q (drop 3 status) in
    sbf_parser_feed toy sbf_parser_init (take 3 status ++ drop 3 status) ≡ (r, u32 (d + e))
sbf_parser_feed-append_example =
    sbf_parser_feed-append toy sbf_parser_init (take 3 status) (drop 3 status)

sbf_parser_feed-IsWaiting_example :
    IsWaiting (sbf_parser_feed toy sbf_parser_init (0x24 ∷ 0x40 ∷ status)).0
sbf_parser_feed-IsWaiting_example =
    sbf_parser_feed-IsWaiting toy (0x24 ∷ 0x40 ∷ status) sbf_parser_init-IsWaiting

-- `app_main` has run `gnss_state_init`.
abbrev running : GnssState
running = record { parser = sbf_parser_init; has_lock = true; last_block_us = 0 }

gnss_state_feed-fresh_example :
    let (r, decoded) = gnss_state_feed toy running status 5 in
    ((running.has_lock ≡ false) × (decoded ≡ 0) × (r ≡ running))
    ⊎ ((running.has_lock ≡ true)
        × (decoded ≡ 0)
        × (gnss_state_fresh r 3000 90 ≡ gnss_state_fresh running 3000 90))
    ⊎ ((running.has_lock ≡ true) × (0 < decoded) × (gnss_state_fresh r 3000 90 ≡ ltb 90 (5 + 3000)))
gnss_state_feed-fresh_example = gnss_state_feed-fresh toy running status 5 3000 90 (omega arith)
