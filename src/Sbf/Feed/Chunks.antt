-- ===== src/Sbf/Feed/Chunks.antt =====
-- `sbf_parser_feed` does not see where the input is cut into chunks (main/sbf_parser.c).
use tab5_client.Prelude.{
  ℕ, zero, suc, ◌+◌, ◌≡◌, refl, sym, ap, ◌∙◌, [], ◌∷◌, ◌++◌, arith, drop, Bytes, u32, sub_u32,
}
use tab5_client.Float.{Fpu}
use tab5_client.Sbf.Blocks.{Parser, decode_block}
use tab5_client.Sbf.Feed.{
  examine, block_num, count_valid, count_failed, scan, make_room, append_byte, compact, feed_byte,
  feed_loop, sbf_parser_feed,
}
use tab5_client.Sbf.Feed.Waiting.{
  is_stop, is_skip, is_bad_crc, is_accept, Verdict-cases, scan-stop, scan-skip, scan-bad_crc,
  scan-accept,
}

abbrev add_count : ℕ → Parser × ℕ × ℕ → Parser × ℕ × ℕ
add_count d (r, j, k) = (r, j, u32 (d + k))

abbrev pub add_decoded : ℕ → Parser × ℕ → Parser × ℕ
add_decoded d (r, k) = (r, u32 (d + k))

-- The count that a scan starts from is added to the count that it finds.
scan-add :
    (fpu : Fpu) (fuel : ℕ) (p : Parser) (i d e : ℕ)
    → scan fpu fuel p i (u32 (d + e)) ≡ add_count d (scan fpu fuel p i e)
unfolding scan
scan-add fpu zero p i d e = refl
scan-add fpu (suc fuel) p i d e =
    let b = drop i p.buf in
    elim (Verdict-cases (examine b (sub_u32 p.len i))) [
      | is_stop h ↦ rw (scan-stop fpu fuel p i e h, scan-stop fpu fuel p i (u32 (d + e)) h)
      | is_skip h ↦
          rw (scan-skip fpu fuel p i e h, scan-skip fpu fuel p i (u32 (d + e)) h)
            (scan-add fpu fuel p (i + 1) d e)
      | is_bad_crc h ↦
          rw (scan-bad_crc fpu fuel p i e h, scan-bad_crc fpu fuel p i (u32 (d + e)) h)
            (scan-add fpu fuel (count_failed fpu p) (i + 1) d e)
      | is_accept n h ↦
          let q = count_valid fpu (decode_block fpu p b (block_num b)) in
          let c : u32 (u32 (d + e) + 1) ≡ u32 (d + u32 (e + 1)) = omega arith in
          rw (scan-accept fpu fuel p i e h, scan-accept fpu fuel p i (u32 (d + e)) h)
            (ap (scan fpu fuel q (i + n)) c ∙ scan-add fpu fuel q (i + n) d (u32 (e + 1)))
    ]

compact_count : (fpu : Fpu) → Parser × ℕ × ℕ → Parser × ℕ
compact_count fpu (r, i, k) = (compact fpu r i, k)

feed_byte-add :
    (fpu : Fpu) (p : Parser) (c d e : ℕ)
    → feed_byte fpu p c (u32 (d + e)) ≡ add_decoded d (feed_byte fpu p c e)
unfolding feed_byte compact_count
feed_byte-add fpu p c d e =
    let q = append_byte fpu (make_room fpu p) c in
    ap (compact_count fpu) (scan-add fpu (q.len + 1) q 0 d e)

feed_loop-add :
    (fpu : Fpu) (cs : Bytes) (p : Parser) (d e : ℕ)
    → feed_loop fpu p cs (u32 (d + e)) ≡ add_decoded d (feed_loop fpu p cs e)
unfolding feed_loop
feed_loop-add fpu [] p d e = refl
feed_loop-add fpu (c ∷ cs) p d e =
    rw (feed_byte-add fpu p c d e)
      (feed_loop-add fpu cs (feed_byte fpu p c e).0 d (feed_byte fpu p c e).1)

feed_loop-append :
    (fpu : Fpu) (xs ys : Bytes) (p : Parser) (d : ℕ)
    → feed_loop fpu p (xs ++ ys) d
      ≡ feed_loop fpu (feed_loop fpu p xs d).0 ys (feed_loop fpu p xs d).1
unfolding feed_loop
feed_loop-append fpu [] ys p d = refl
feed_loop-append fpu (c ∷ cs) ys p d =
    feed_loop-append fpu cs ys (feed_byte fpu p c d).0 (feed_byte fpu p c d).1

-- The count that a call returns is a `uint32_t`.
pub decoded-u32 :
    (fpu : Fpu) (p : Parser) (xs : Bytes)
    → u32 (sbf_parser_feed fpu p xs).1 ≡ (sbf_parser_feed fpu p xs).1
unfolding sbf_parser_feed
decoded-u32 fpu p xs = let h = ap (λ r. r.1) (feed_loop-add fpu xs p 0 0) in omega (arith, h)

-- Feeding two chunks is feeding their concatenation: the parser ends in the same state, and the
-- counts that the two calls return add up, as `uint32_t`, to the count of the one call.
pub sbf_parser_feed-append :
    (fpu : Fpu) (p : Parser) (xs ys : Bytes)
    → let (q, d) = sbf_parser_feed fpu p xs in
      let (r, e) = sbf_parser_feed fpu q ys in sbf_parser_feed fpu p (xs ++ ys) ≡ (r, u32 (d + e))
unfolding sbf_parser_feed
sbf_parser_feed-append fpu p xs ys =
    let q = (feed_loop fpu p xs 0).0 in
    let d = (feed_loop fpu p xs 0).1 in
    let w : u32 (d + 0) ≡ d = omega (arith, decoded-u32 fpu p xs) in
    feed_loop-append fpu xs ys p 0 ∙ ap (feed_loop fpu q ys) (sym w) ∙ feed_loop-add fpu ys q d 0
