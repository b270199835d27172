-- ===== src/Sbf/Feed/Delivery.antt =====
-- What the consumers of main/sbf_parser.c get from a well-formed block, and from a stream.
use tab5_client.Prelude.{
  ℕ, suc, ◌+◌, ◌≤◌, bit_and, ◌≡◌, refl, ap, ◌∙◌, true, ◌||◌, List, [], ◌∷◌, ◌++◌, arith, ◌==◌,
  if◌then◌else◌, length, drop, Bytes, u32,
}
use mathlib.Core.Path.{subst}
use tab5_client.Float.{Fpu}
use tab5_client.Sbf.Fields.{byte, rd_u16}
use tab5_client.Sbf.Blocks.{
  Parser, read_pvtgeodetic, read_atteuler, read_dop, read_receiverstatus, decode_block,
}
use tab5_client.Sbf.Framing.{IsFrame, byte-append, byte-behind, rd_u16-append, rd_u32-append}
use tab5_client.Sbf.Feed.{feed_loop, block_num, count_valid, sbf_parser_feed}
use tab5_client.Sbf.Feed.Waiting.{IsWaiting, sbf_parser_feed-IsWaiting}
use tab5_client.Sbf.Feed.Chunks.{sbf_parser_feed-append}
use tab5_client.Sbf.Feed.Frames.{hold, sbf_parser_feed-at_buffer}

pub read_pvtgeodetic-append :
    (fpu : Fpu) (xs ys : Bytes)
    → 94 ≤ length xs
    → read_pvtgeodetic fpu (xs ++ ys) ≡ read_pvtgeodetic fpu xs
unfolding read_pvtgeodetic
read_pvtgeodetic-append fpu xs ys h = rw (
  rd_u32-append xs ys 8 (omega arith),
  rd_u16-append xs ys 12 (omega arith),
  byte-append xs ys 14 (omega arith),
  byte-append xs ys 15 (omega arith),
  byte-append xs ys 74 (omega arith),
  rd_u32-append xs ys 16 (omega arith),
  rd_u32-append xs ys 20 (omega arith),
  rd_u32-append xs ys 24 (omega arith),
  rd_u32-append xs ys 28 (omega arith),
  rd_u32-append xs ys 32 (omega arith),
  rd_u32-append xs ys 36 (omega arith),
  rd_u16-append xs ys 90 (omega arith),
  rd_u16-append xs ys 92 (omega arith),
)

pub read_atteuler-append :
    (xs ys : Bytes) → 32 ≤ length xs → read_atteuler (xs ++ ys) ≡ read_atteuler xs
unfolding read_atteuler
read_atteuler-append xs ys h = rw (
  rd_u32-append xs ys 8 (omega arith),
  rd_u16-append xs ys 12 (omega arith),
  byte-append xs ys 14 (omega arith),
  byte-append xs ys 15 (omega arith),
  rd_u16-append xs ys 16 (omega arith),
  rd_u32-append xs ys 20 (omega arith),
  rd_u32-append xs ys 24 (omega arith),
  rd_u32-append xs ys 28 (omega arith),
)

pub read_dop-append :
    (fpu : Fpu) (xs ys : Bytes) → 32 ≤ length xs → read_dop fpu (xs ++ ys) ≡ read_dop fpu xs
unfolding read_dop
read_dop-append fpu xs ys h = rw (
  rd_u32-append xs ys 8 (omega arith),
  rd_u16-append xs ys 12 (omega arith),
  byte-append xs ys 14 (omega arith),
  rd_u16-append xs ys 16 (omega arith),
  rd_u16-append xs ys 18 (omega arith),
  rd_u16-append xs ys 20 (omega arith),
  rd_u16-append xs ys 22 (omega arith),
  rd_u32-append xs ys 24 (omega arith),
  rd_u32-append xs ys 28 (omega arith),
)

pub read_receiverstatus-append :
    (xs ys : Bytes) → 32 ≤ length xs → read_receiverstatus (xs ++ ys) ≡ read_receiverstatus xs
unfolding read_receiverstatus
read_receiverstatus-append xs ys h = rw (
  rd_u32-append xs ys 8 (omega arith),
  rd_u16-append xs ys 12 (omega arith),
  byte-append xs ys 14 (omega arith),
  byte-append xs ys 15 (omega arith),
  rd_u32-append xs ys 16 (omega arith),
  rd_u32-append xs ys 20 (omega arith),
  rd_u32-append xs ys 24 (omega arith),
  byte-append xs ys 28 (omega arith),
  byte-append xs ys 31 (omega arith),
)

-- How far each decoder reads.
abbrev pub layout_len : ℕ → ℕ
layout_len num =
    if num == 4007 then 94 else if num == 5938 || num == 4001 || num == 4014 then 32 else 8

decode_block-append :
    (fpu : Fpu) (p : Parser) (xs ys : Bytes) (num : ℕ)
    → layout_len num ≤ length xs
    → decode_block fpu p (xs ++ ys) num ≡ decode_block fpu p xs num
unfolding decode_block
decode_block-append fpu p xs ys num h = ground (
  arith,
  read_pvtgeodetic-append fpu xs ys,
  read_atteuler-append xs ys,
  read_dop-append fpu xs ys,
  read_receiverstatus-append xs ys,
)

-- A decoder neither reads nor writes the buffer's bookkeeping.
decode_block-hold :
    (fpu : Fpu) (p : Parser) (xs st b : Bytes) (num : ℕ)
    → decode_block fpu (hold p xs st) b num ≡ hold (decode_block fpu p b num) xs st
unfolding decode_block
decode_block-hold fpu p xs st b num = ground arith

-- A block that arrives whole on an idle parser, and is as long as the decoder of its number
-- reads, is decoded from its own bytes and counted; the buffer is then empty, its array holds the
-- block, and the call returns 1. Nothing else of the parser changes.
pub sbf_parser_feed-IsFrame :
    (fpu : Fpu) (p : Parser) (f : Bytes)
    → IsWaiting p
    → p.len ≡ 0
    → IsFrame f
    → layout_len (block_num f) ≤ length f
    → sbf_parser_feed fpu p f ≡ (
      hold (count_valid fpu (decode_block fpu p f (block_num f))) [] (f ++ drop (length f) p.buf),
      1,
    )
sbf_parser_feed-IsFrame fpu p f w e v l =
    let st = drop (length f) p.buf in
    let h = v.header in
    let n : rd_u16 (f ++ st) 4 ≡ rd_u16 f 4 = rd_u16-append f st 4 (omega arith) in
    let d : decode_block fpu (hold p f st) (f ++ st) (block_num (f ++ st))
        ≡ hold (decode_block fpu p f (block_num f)) f st =
      ap (λ k. decode_block fpu (hold p f st) (f ++ st) (bit_and k 0x1FFF)) n
      ∙ decode_block-hold fpu p f st (f ++ st) (block_num f)
      ∙ ap (λ q. hold q f st) (decode_block-append fpu p f st (block_num f) l) in
    sbf_parser_feed-at_buffer fpu p f w e v ∙ ap (λ q. (hold (count_valid fpu q) [] (f ++ st), 1)) d

-- A position block that is too short for its layout is decoded all the same, past its end: the
-- satellite count is then whatever the buffer held at its place before.
pub sbf_parser_feed-short_pvt :
    (fpu : Fpu) (p : Parser) (f : Bytes)
    → IsWaiting p
    → p.len ≡ 0
    → IsFrame f
    → block_num f ≡ 4007
    → length f ≤ 74
    → let (q, decoded) = sbf_parser_feed fpu p f in
      (decoded ≡ 1) × (q.pvt_valid ≡ true) × (q.pvt.nr_sv ≡ byte p.buf 74)
unfolding decode_block read_pvtgeodetic
sbf_parser_feed-short_pvt fpu p f w e v n s =
    let st = drop (length f) p.buf in
    let h = v.header in
    let k : block_num (f ++ st) ≡ 4007 =
      ap (λ m. bit_and m 0x1FFF) (rd_u16-append f st 4 (omega arith)) ∙ n in
    rw (sbf_parser_feed-at_buffer fpu p f w e v, k) (refl, refl, byte-behind f p.buf 74 s)

abbrev pub concat : List Bytes → Bytes
concat [] = []
concat (f ∷ fs) = f ++ concat fs

abbrev pub AllFrames : List Bytes → Type 0
AllFrames [] = Unit
AllFrames (f ∷ fs) = IsFrame f × (layout_len (block_num f) ≤ length f) × AllFrames fs

-- Decoding the blocks one after the other, with no framing at all.
unfoldable pub decode_all : Fpu → Parser → List Bytes → Parser
decode_all fpu p [] = p
decode_all fpu p (f ∷ fs) =
    decode_all fpu
      (hold (count_valid fpu (decode_block fpu p f (block_num f))) [] (f ++ drop (length f) p.buf))
      fs

abbrev then_feed : Fpu → Bytes → Parser × ℕ → Parser × ℕ
then_feed fpu rest (q, d) = let (r, e) = sbf_parser_feed fpu q rest in (r, u32 (d + e))

-- A stream of well-formed blocks is decoded block by block, in order, as if nothing had to be
-- framed, and each is counted once.
pub sbf_parser_feed-AllFrames :
    (fpu : Fpu) (fs : List Bytes) (p : Parser)
    → IsWaiting p
    → p.len ≡ 0
    → AllFrames fs
    → sbf_parser_feed fpu p (concat fs) ≡ (decode_all fpu p fs, u32 (length fs))
unfolding sbf_parser_feed feed_loop decode_all
sbf_parser_feed-AllFrames fpu [] p w e a = refl
sbf_parser_feed-AllFrames fpu (f ∷ fs) p w e (v, l, a) =
    let q =
      hold (count_valid fpu (decode_block fpu p f (block_num f))) [] (f ++ drop (length f) p.buf) in
    let one = sbf_parser_feed-IsFrame fpu p f w e v l in
    let next : IsWaiting q = subst (λ o. IsWaiting o.0) one (sbf_parser_feed-IsWaiting fpu f w) in
    let count : u32 (1 + u32 (length fs)) ≡ u32 (suc (length fs)) = omega arith in
    sbf_parser_feed-append fpu p f (concat fs)
    ∙ ap (then_feed fpu (concat fs)) one
    ∙ ap (λ o. (o.0, u32 (1 + o.1))) (sbf_parser_feed-AllFrames fpu fs q next refl a)
    ∙ ap (λ n. (decode_all fpu q fs, n)) count
