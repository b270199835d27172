-- ===== src/Sbf/Feed/Tally.antt =====
-- The count that `sbf_parser_feed` returns against the tally that it keeps (main/sbf_parser.c).
use tab5_client.Prelude.{ℕ, zero, suc, ◌+◌, ◌≡◌, refl, [], ◌∷◌, arith, drop, Bytes, u32, sub_u32}
use tab5_client.Float.{Fpu}
use tab5_client.Sbf.Blocks.{Parser, decode_block}
use tab5_client.Sbf.Feed.{
  examine, block_num, count_valid, count_failed, scan, make_room, append_byte, compact, feed_byte,
  feed_loop, sbf_parser_feed,
}
use tab5_client.Sbf.Feed.Waiting.{
  is_stop, is_skip, is_bad_crc, is_accept, Verdict-cases, scan-stop, scan-skip, scan-bad_crc,
  scan-accept,
}

decode_block-valid_blocks :
    (fpu : Fpu) (p : Parser) (b : Bytes) (n : ℕ)
    → (decode_block fpu p b n).valid_blocks ≡ p.valid_blocks
unfolding decode_block
decode_block-valid_blocks fpu p b n = ground arith

-- The tally has grown, modulo 2^32, by what was counted since the count was `d`.
abbrev Tallies : Parser → ℕ → Parser → ℕ → Type 0
Tallies p d r k = u32 (r.valid_blocks + d) ≡ u32 (p.valid_blocks + k)

scan-Tallies :
    (fpu : Fpu) (fuel : ℕ) (p : Parser) (i d : ℕ)
    → Tallies p d (scan fpu fuel p i d).0 (scan fpu fuel p i d).2
unfolding scan
scan-Tallies fpu zero p i d = refl
scan-Tallies fpu (suc fuel) p i d =
    let b = drop i p.buf in
    elim (Verdict-cases (examine b (sub_u32 p.len i))) [
      | is_stop e ↦ rw (scan-stop fpu fuel p i d e)
      | is_skip e ↦ rw (scan-skip fpu fuel p i d e) (scan-Tallies fpu fuel p (i + 1) d)
      | is_bad_crc e ↦
          rw (scan-bad_crc fpu fuel p i d e) (scan-Tallies fpu fuel (count_failed fpu p) (i + 1) d)
      | is_accept n e ↦
          let q = count_valid fpu (decode_block fpu p b (block_num b)) in
          rw (scan-accept fpu fuel p i d e) (
            omega (
              arith,
              scan-Tallies fpu fuel q (i + n) (u32 (d + 1)),
              decode_block-valid_blocks fpu p b (block_num b),
            ))
    ]

make_room-valid_blocks : (fpu : Fpu) (p : Parser) → (make_room fpu p).valid_blocks ≡ p.valid_blocks
make_room-valid_blocks fpu p = ground arith

compact-valid_blocks :
    (fpu : Fpu) (p : Parser) (i : ℕ) → (compact fpu p i).valid_blocks ≡ p.valid_blocks
compact-valid_blocks fpu p i = ground arith

feed_byte-Tallies :
    (fpu : Fpu) (p : Parser) (c d : ℕ) → Tallies p d (feed_byte fpu p c d).0 (feed_byte fpu p c d).1
unfolding feed_byte
feed_byte-Tallies fpu p c d =
    let q = append_byte fpu (make_room fpu p) c in
    let out = scan fpu (q.len + 1) q 0 d in
    rw (compact-valid_blocks fpu out.0 out.1)
      (omega (arith, scan-Tallies fpu (q.len + 1) q 0 d, make_room-valid_blocks fpu p))

feed_loop-Tallies :
    (fpu : Fpu) (cs : Bytes) (p : Parser) (d : ℕ)
    → Tallies p d (feed_loop fpu p cs d).0 (feed_loop fpu p cs d).1
unfolding feed_loop
feed_loop-Tallies fpu [] p d = refl
feed_loop-Tallies fpu (c ∷ cs) p d =
    let q = (feed_byte fpu p c d).0 in
    let k = (feed_byte fpu p c d).1 in
    omega (arith, feed_loop-Tallies fpu cs q k, feed_byte-Tallies fpu p c d)

-- A call returns, modulo 2^32, by how much it has raised `valid_blocks`.
pub sbf_parser_feed-valid_blocks :
    (fpu : Fpu) (p : Parser) (bytes : Bytes)
    → let (q, decoded) = sbf_parser_feed fpu p bytes in
      u32 q.valid_blocks ≡ u32 (p.valid_blocks + decoded)
unfolding sbf_parser_feed
sbf_parser_feed-valid_blocks fpu p bytes = omega (arith, feed_loop-Tallies fpu bytes p 0)
