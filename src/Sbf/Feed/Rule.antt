-- ===== src/Sbf/Feed/Rule.antt =====
-- An induction rule for what `sbf_parser_feed` of main/sbf_parser.c does to the parser's state.
use tab5_client.Prelude.{
  ℕ, zero, suc, ◌+◌, ◌-◌, ◌^◌, ◌≤◌, ◌<◌, ◌≡◌, refl, ap, inl, inr, [], ◌∷◌, ◌++◌, arith, ltb,
  Bool-cases, length, take, drop, length-take, length-drop, length-set, Bytes, u32, sub_u32,
}
use tab5_client.Float.{Fpu}
use tab5_client.Sbf.Blocks.{Parser, decode_block}
use tab5_client.Sbf.Feed.{
  append_byte, sbf_parser_feed, feed_loop, feed_byte, examine, block_num, count_valid, count_failed,
  scan, compact,
}
use tab5_client.Sbf.Feed.Parts.{Part, Held, Held-Part, Held-same, append_byte-Held, compact-Held}
use tab5_client.Sbf.Feed.Waiting.{
  IsAccepted, IsWaiting, scan-Stops, make_room_idle, feed_byte-IsWaiting, examine-skip-le,
  examine-bad_crc-le, decode_block-buf, decode_block-len, examine-accept, is_stop, is_skip,
  is_bad_crc, is_accept, Verdict-cases, scan-stop, scan-skip, scan-bad_crc, scan-accept,
}

-- A reflexive and transitive relation that holds across each move of the parser, with each block
-- that it takes a part of the input.
pub record IsTracked {ℓ} (fpu : Fpu) (input : Bytes) (R : Parser → Parser → Type ℓ) : Type ℓ where
  pub same : (p : Parser) → R p p
  pub then_ : (p q r : Parser) → R p q → R q r → R p r
  pub moved : (p : Parser) (b : Bytes) (n : ℕ) → R p (record p { buf = b; len = n })
  pub failed : (p : Parser) → R p (count_failed fpu p)
  pub accepted :
      (p : Parser) (b : Bytes) (avail blen : ℕ)
      → IsAccepted b avail blen
      → length (take blen b) ≡ blen
      → Part input (take blen b)
      → R p (count_valid fpu (decode_block fpu p b (block_num b)))

module _ {ℓ} (fpu : Fpu) (input : Bytes) (R : Parser → Parser → Type ℓ)
    (t : IsTracked fpu input R) where
  scan-tracked :
      (rest : Bytes) (fuel : ℕ) (p : Parser) (i d : ℕ)
      → Held input p rest
      → p.len ≤ length p.buf
      → p.len < 2 ^ 32
      → i ≤ p.len
      → R p (scan fpu fuel p i d).0
  unfolding scan
  scan-tracked rest zero p i d h f w k = t.same p
  scan-tracked rest (suc fuel) p i d h f w k =
      let b = drop i p.buf in
      let wide : sub_u32 p.len i ≡ p.len - i = omega arith in
      elim (Verdict-cases (examine b (sub_u32 p.len i))) [
        | is_stop e ↦ rw (scan-stop fpu fuel p i d e) (t.same p)
        | is_skip e ↦
            let more = examine-skip-le b _ e in
            rw (scan-skip fpu fuel p i d e)
              (scan-tracked rest fuel p (i + 1) d h f w (omega (arith, more, wide)))
        | is_bad_crc e ↦
            let more = examine-bad_crc-le b _ e in
            rw (scan-bad_crc fpu fuel p i d e) (
              t.then_ p (count_failed fpu p) _ (t.failed p) (
                scan-tracked rest fuel (count_failed fpu p) (i + 1) d h f w
                  (omega (arith, more, wide))))
        | is_accept n e ↦
            let ok = examine-accept b _ n e in
            let room : n ≤ p.len - i = omega (arith, ok.arrived, wide) in
            let q = count_valid fpu (decode_block fpu p b (block_num b)) in
            let eb = decode_block-buf fpu p b (block_num b) in
            let el = decode_block-len fpu p b (block_num b) in
            let size : length (take n b) ≡ n =
              omega (arith, length-take n b, length-drop i p.buf, room, f, k) in
            rw (scan-accept fpu fuel p i d e) (
              t.then_ p q _
                (t.accepted p b (sub_u32 p.len i) n ok size (Held-Part input p rest i n h k room))
                (scan-tracked rest fuel q (i + n) (u32 (d + 1)) (Held-same input p q rest eb el h)
                  (omega (arith, ap length eb, el, f)) (omega (arith, el, w))
                  (omega (arith, el, room, k))))
      ]

  compact-tracked : (p : Parser) (i : ℕ) → R p (compact fpu p i)
  compact-tracked p i = elim (Bool-cases (ltb 0 i)) [
    | inl e ↦ rw e (t.moved p _ _)
    | inr e ↦ rw e (t.same p)
  ]

  -- A byte of the input: it is stored, and the scan takes what is complete.
  feed_byte-tracked :
      (p : Parser) (c d : ℕ) (rest : Bytes)
      → IsWaiting p
      → Held input p (c ∷ rest)
      → R p (feed_byte fpu p c d).0 × Held input (feed_byte fpu p c d).0 rest
  unfolding feed_byte
  feed_byte-tracked p c d rest v h =
      let q = append_byte fpu p c in
      let (r, i, d') = scan fpu (q.len + 1) q 0 d in
      let size = length-set p.buf p.len c in
      let stops =
        scan-Stops fpu (q.len + 1) q 0 d (omega arith) (omega (arith, v.partial)) (omega arith) in
      let held = append_byte-Held fpu input p c rest (omega (arith, v.array, v.partial)) h in
      let scanned =
        scan-tracked rest (q.len + 1) q 0 d held (omega (arith, size, v.array, v.partial))
          (omega (arith, v.partial)) (omega arith) in
      let kept = Held-same input q r rest stops.buf_kept stops.len_kept held in
      rw (make_room_idle fpu v) (
        t.then_ p q _ (t.moved p _ _) (t.then_ q r _ scanned (compact-tracked r i)),
        compact-Held fpu input r i rest (omega (arith, stops.within, stops.len_kept))
            (omega (arith, ap length stops.buf_kept, stops.len_kept, size, v.array, v.partial))
            kept,
      )

  feed_loop-tracked :
      (cs : Bytes) (p : Parser) (d : ℕ)
      → IsWaiting p
      → Held input p cs
      → R p (feed_loop fpu p cs d).0
  unfolding feed_loop
  feed_loop-tracked [] p d v h = t.same p
  feed_loop-tracked (c ∷ cs) p d v h =
      let (step, held) = feed_byte-tracked p c d cs v h in
      let next = (feed_byte fpu p c d).0 in
      t.then_ p next _ step
        (feed_loop-tracked cs next (feed_byte fpu p c d).1 (feed_byte-IsWaiting fpu c d v) held)

-- The input of a call: what was in use in the buffer, and the new bytes.
abbrev pub input_of : Parser → Bytes → Bytes
input_of p bytes = take p.len p.buf ++ bytes

pub sbf_parser_feed-tracked {ℓ} :
    (fpu : Fpu) (p : Parser) (bytes : Bytes) (R : Parser → Parser → Type ℓ)
    → IsTracked fpu (input_of p bytes) R
    → IsWaiting p
    → R p (sbf_parser_feed fpu p bytes).0
unfolding sbf_parser_feed
sbf_parser_feed-tracked fpu p bytes R t v =
    feed_loop-tracked fpu (input_of p bytes) R t bytes p 0 v ([], refl)
