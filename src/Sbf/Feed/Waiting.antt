-- ===== src/Sbf/Feed/Waiting.antt =====
-- Between two chunks the parser of main/sbf_parser.c holds less than one block.
use tab5_client.Prelude.{
  ℕ, zero, suc, ◌+◌, ◌-◌, ◌%◌, ◌^◌, ◌≤◌, ◌<◌, ◌≡◌, refl, ap, ◌∙◌, [], ◌∷◌, arith, length, take,
  drop, length-append, length-set, length-take, length-drop, length-replicate, Bytes, u32, sub_u32,
}
use mathlib.Core.Path.{subst₂}
use tab5_client.Float.{Fpu}
use tab5_client.Sbf.Blocks.{Parser, sbf_max_block, sbf_buf_cap, decode_block}
use tab5_client.Sbf.Fields.{byte, rd_u16}
use tab5_client.Sbf.Crc.{crc16_ccitt}
use tab5_client.Sbf.Feed.{
  sbf_parser_init, memmove_front, Verdict, stop, skip, bad_crc, accept, examine, block_num,
  count_valid, count_failed, scan, make_room, append_byte, compact, feed_byte, feed_loop,
  sbf_parser_feed,
}

-- The bytes that the scan leaves are less than the longest block.
pub examine-stop-lt : (b : Bytes) (avail : ℕ) → examine b avail ≡ stop → avail < sbf_max_block
unfolding examine
examine-stop-lt b avail h = ground arith

pub examine-skip-le : (b : Bytes) (avail : ℕ) → examine b avail ≡ skip → 8 ≤ avail
unfolding examine
examine-skip-le b avail h = ground arith

pub examine-bad_crc-le : (b : Bytes) (avail : ℕ) → examine b avail ≡ bad_crc → 8 ≤ avail
unfolding examine
examine-bad_crc-le b avail h = ground arith

-- What is known of a block that the scan takes.
pub record IsAccepted (b : Bytes) (avail blen : ℕ) : Type 0 where
  pub length_is : blen ≡ rd_u16 b 6
  pub sync1 : byte b 0 ≡ 0x24
  pub sync2 : byte b 1 ≡ 0x40
  pub header : 8 ≤ blen
  pub longest : blen ≤ sbf_max_block
  pub aligned : blen % 4 ≡ 0
  pub arrived : blen ≤ avail
  pub crc : crc16_ccitt b 4 (blen - 4) ≡ rd_u16 b 2

pub examine-accept :
    (b : Bytes) (avail blen : ℕ) → examine b avail ≡ accept blen → IsAccepted b avail blen
unfolding examine
examine-accept b avail blen h = ground arith

pub decode_block-buf :
    (fpu : Fpu) (p : Parser) (b : Bytes) (n : ℕ) → (decode_block fpu p b n).buf ≡ p.buf
unfolding decode_block
decode_block-buf fpu p b n = ground arith

pub decode_block-len :
    (fpu : Fpu) (p : Parser) (b : Bytes) (n : ℕ) → (decode_block fpu p b n).len ≡ p.len
unfolding decode_block
decode_block-len fpu p b n = ground arith

-- What a scan from `i` on leaves as it was, and where it stops.
pub record Stops (buf : Bytes) (len i : ℕ) (out : Parser × ℕ × ℕ) : Type 0 where
  pub buf_kept : out.0.buf ≡ buf
  pub len_kept : out.0.len ≡ len
  pub forward : i ≤ out.1
  pub within : out.1 ≤ len
  pub stopped : examine (drop out.1 buf) (len - out.1) ≡ stop

Stops-here :
    (p : Parser) (i d : ℕ)
    → i ≤ p.len
    → examine (drop i p.buf) (p.len - i) ≡ stop
    → Stops p.buf p.len i (p, i, d)
Stops-here p i d h e = record {
  buf_kept = refl;
  len_kept = refl;
  forward = omega arith;
  within = h;
  stopped = e;
}

Stops-later :
    {buf buf' : Bytes} {len len' i j : ℕ} {out : Parser × ℕ × ℕ}
    → buf' ≡ buf
    → len' ≡ len
    → i ≤ j
    → Stops buf' len' j out
    → Stops buf len i out
Stops-later {out} eb el h s = record {
  buf_kept = s.buf_kept ∙ eb;
  len_kept = s.len_kept ∙ el;
  forward = omega arith;
  within = omega arith;
  stopped = subst₂ (λ b l. examine (drop out.1 b) (l - out.1) ≡ stop) eb el s.stopped;
}

pub data IsVerdict (v : Verdict) : Type 0 where
  is_stop : v ≡ stop → IsVerdict v
  is_skip : v ≡ skip → IsVerdict v
  is_bad_crc : v ≡ bad_crc → IsVerdict v
  is_accept : (blen : ℕ) → v ≡ accept blen → IsVerdict v

pub Verdict-cases : (v : Verdict) → IsVerdict v
Verdict-cases stop = is_stop refl
Verdict-cases skip = is_skip refl
Verdict-cases bad_crc = is_bad_crc refl
Verdict-cases (accept blen) = is_accept blen refl

-- The rounds of the scan, one equation for each verdict.
module _ (fpu : Fpu) (fuel : ℕ) (p : Parser) (i d : ℕ) where
  pub scan-stop :
      examine (drop i p.buf) (sub_u32 p.len i) ≡ stop → scan fpu (suc fuel) p i d ≡ (p, i, d)
  unfolding scan
  scan-stop e = rw (e, scan)

  pub scan-skip :
      examine (drop i p.buf) (sub_u32 p.len i) ≡ skip
      → scan fpu (suc fuel) p i d ≡ scan fpu fuel p (i + 1) d
  unfolding scan
  scan-skip e = rw (e, scan)

  pub scan-bad_crc :
      examine (drop i p.buf) (sub_u32 p.len i) ≡ bad_crc
      → scan fpu (suc fuel) p i d ≡ scan fpu fuel (count_failed fpu p) (i + 1) d
  unfolding scan
  scan-bad_crc e = rw (e, scan)

  pub scan-accept :
      {blen : ℕ}
      → examine (drop i p.buf) (sub_u32 p.len i) ≡ accept blen
      → scan fpu (suc fuel) p i d
        ≡ scan fpu fuel
            (count_valid fpu (decode_block fpu p (drop i p.buf) (block_num (drop i p.buf))))
            (i + blen)
            (u32 (d + 1))
  unfolding scan
  scan-accept e = rw (e, scan)

-- With more fuel than bytes the scan ends by its own test.
pub scan-Stops :
    (fpu : Fpu) (fuel : ℕ) (p : Parser) (i d : ℕ)
    → i ≤ p.len
    → p.len < 2 ^ 32
    → p.len - i < fuel
    → Stops p.buf p.len i (scan fpu fuel p i d)
scan-Stops fpu zero p i d h w f = absurd (omega arith)
scan-Stops fpu (suc fuel) p i d h w f =
    let b = drop i p.buf in
    let wide : sub_u32 p.len i ≡ p.len - i = omega arith in
    let block = decode_block fpu p b (block_num b) in
    elim (Verdict-cases (examine b (sub_u32 p.len i))) [
      | is_stop e ↦ rw (scan-stop fpu fuel p i d e) (Stops-here p i d h (rw wide at e))
      | is_skip e ↦
          let k = examine-skip-le b _ e in
          rw (scan-skip fpu fuel p i d e) (
            Stops-later refl refl (omega arith)
              (scan-Stops fpu fuel p (i + 1) d (omega arith) w (omega arith)))
      | is_bad_crc e ↦
          let k = examine-bad_crc-le b _ e in
          rw (scan-bad_crc fpu fuel p i d e) (
            Stops-later refl refl (omega arith)
              (scan-Stops fpu fuel (count_failed fpu p) (i + 1) d (omega arith) w (omega arith)))
      | is_accept n e ↦
          let k = examine-accept b _ n e in
          let el = decode_block-len fpu p b (block_num b) in
          rw (scan-accept fpu fuel p i d e) (
            Stops-later (decode_block-buf fpu p b (block_num b)) el (omega arith) (
              scan-Stops fpu fuel (count_valid fpu block) (i + n) (u32 (d + 1)) (omega arith)
                (omega arith) (omega arith)))
    ]

-- The parser between two bytes: the array has its size, and less than a block is in use.
pub record IsWaiting (p : Parser) : Type 0 where
  pub array : length p.buf ≡ sbf_buf_cap
  pub partial : p.len < sbf_max_block

pub sbf_parser_init-IsWaiting : IsWaiting sbf_parser_init
unfolding sbf_parser_init
sbf_parser_init-IsWaiting = record {
  array = length-replicate {A = ℕ} sbf_buf_cap 0;
  partial = omega arith;
}

-- The discard of the oldest byte never runs.
pub make_room_idle : (fpu : Fpu) {p : Parser} → IsWaiting p → make_room fpu p ≡ p
make_room_idle fpu w = ground arith

pub length-memmove_front :
    (buf : Bytes) (src n : ℕ) → src + n ≤ length buf → length (memmove_front buf src n) ≡ length buf
length-memmove_front buf src n h = omega (
  arith,
  length-append (take n (drop src buf)) (drop n buf),
  length-take n (drop src buf),
  length-drop src buf,
  length-drop n buf,
)

pub compact-IsWaiting :
    (fpu : Fpu) (p : Parser) (i : ℕ)
    → length p.buf ≡ sbf_buf_cap
    → p.len ≤ sbf_buf_cap
    → i ≤ p.len
    → p.len - i < sbf_max_block
    → IsWaiting (compact fpu p i)
compact-IsWaiting fpu p i h l w s = ground (arith, length-memmove_front p.buf i (p.len - i))

-- What one round leaves in the buffer, from the scan's own result.
feed_byte-of_scan :
    (fpu : Fpu) (q : Parser) (out : Parser × ℕ × ℕ)
    → length q.buf ≡ sbf_buf_cap
    → q.len ≤ sbf_max_block
    → Stops q.buf q.len 0 out
    → IsWaiting (compact fpu out.0 out.1)
feed_byte-of_scan fpu q out h l s =
    compact-IsWaiting fpu out.0 out.1 (ap length s.buf_kept ∙ h) (omega (arith, s.len_kept))
      (omega (arith, s.within, s.len_kept))
      (omega (arith, s.len_kept, examine-stop-lt (drop out.1 q.buf) (q.len - out.1) s.stopped))

-- Every byte leaves the parser waiting.
pub feed_byte-IsWaiting :
    (fpu : Fpu) {p : Parser} (c d : ℕ) → IsWaiting p → IsWaiting (feed_byte fpu p c d).0
unfolding feed_byte
feed_byte-IsWaiting fpu {p} c d w =
    let q = append_byte fpu p c in
    let m = w.partial in
    rw (make_room_idle fpu w) (
      feed_byte-of_scan fpu q (scan fpu (q.len + 1) q 0 d) (length-set p.buf p.len c ∙ w.array)
        (omega arith) (scan-Stops fpu (q.len + 1) q 0 d (omega arith) (omega arith) (omega arith)))

pub feed_loop-IsWaiting :
    (fpu : Fpu) (cs : Bytes) {p : Parser} (d : ℕ) → IsWaiting p → IsWaiting (feed_loop fpu p cs d).0
unfolding feed_loop
feed_loop-IsWaiting fpu [] d w = w
feed_loop-IsWaiting fpu (c ∷ cs) {p} d w =
    feed_loop-IsWaiting fpu cs (feed_byte fpu p c d).1 (feed_byte-IsWaiting fpu c d w)

-- However the input is cut, and whatever it holds, a call of `sbf_parser_feed` on a parser that
-- holds less than a block leaves less than a block in the buffer, whose size stays 1024.
pub sbf_parser_feed-IsWaiting :
    (fpu : Fpu) {p : Parser} (bytes : Bytes)
    → IsWaiting p
    → IsWaiting (sbf_parser_feed fpu p bytes).0
unfolding sbf_parser_feed
sbf_parser_feed-IsWaiting fpu bytes w = feed_loop-IsWaiting fpu bytes 0 w
