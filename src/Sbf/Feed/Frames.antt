-- ===== src/Sbf/Feed/Frames.antt =====
-- What `sbf_parser_feed` of main/sbf_parser.c makes of a well-formed block.
use tab5_client.Prelude.{
  ℕ, zero, suc, ◌+◌, ◌-◌, ◌^◌, ◌≤◌, ◌<◌, ◌≡◌, refl, sym, ap, ◌∙◌, true, false, [], ◌∷◌, ◌++◌,
  append_assoc, arith, ltb, leb, length, drop, length-append, set-append, Bytes, u32, sub_u32,
}
use tab5_client.Sbf.Framing.{IsFrame, examine-IsFrame, examine-part}
use tab5_client.Sbf.Blocks.{decode_block, Parser, sbf_max_block}
use tab5_client.Sbf.Feed.Waiting.{
  IsWaiting, scan-stop, scan-accept, decode_block-buf, decode_block-len,
}
use tab5_client.Sbf.Feed.{
  feed_byte, feed_loop, sbf_parser_feed, block_num, compact, scan, count_valid, Fpu, stop, accept,
  examine,
}

-- The parser with `xs` in its buffer and `st` behind it.
abbrev pub hold : Parser → Bytes → Bytes → Parser
hold p xs st = record p { buf = xs ++ st; len = length xs }

examine-none : (b : Bytes) → examine b 0 ≡ stop
unfolding examine
examine-none b = refl

scan-stop_pos :
    (fpu : Fpu) (fuel : ℕ) (p : Parser) (i d : ℕ)
    → 0 < fuel
    → examine (drop i p.buf) (sub_u32 p.len i) ≡ stop
    → scan fpu fuel p i d ≡ (p, i, d)
scan-stop_pos fpu zero p i d h e = absurd (omega arith)
scan-stop_pos fpu (suc fuel) p i d h e = scan-stop fpu fuel p i d e

-- Compacting behind all bytes in use moves nothing.
compact-all :
    (fpu : Fpu) (q : Parser) (n : ℕ) → 0 < n → q.len ≡ n → compact fpu q n ≡ record q { len = 0 }
compact-all fpu q n h e =
    let t : ltb 0 n ≡ true = ground arith in let z : q.len - n ≡ 0 = omega arith in rw (t, z)

abbrev compact_count : Fpu → Parser × ℕ × ℕ → Parser × ℕ
compact_count fpu (r, i, k) = (compact fpu r i, k)

-- A round of `sbf_parser_feed` behind the store of the byte: scan, then compact.
abbrev settle : Fpu → Parser → ℕ → Parser × ℕ
settle fpu q d = compact_count fpu (scan fpu (q.len + 1) q 0 d)

-- The parser after an accepted block, before its bytes leave the buffer.
abbrev pub taken : Fpu → Parser → Bytes → Bytes → Parser
taken fpu p xs st =
    count_valid fpu (decode_block fpu (hold p xs st) (xs ++ st) (block_num (xs ++ st)))

module _ (fpu : Fpu) (p : Parser) (d : ℕ) where
  settle-stop :
      (xs st : Bytes)
      → length xs < 2 ^ 32
      → examine (xs ++ st) (length xs) ≡ stop
      → settle fpu (hold p xs st) d ≡ (hold p xs st, d)
  settle-stop xs st w e =
      let q = hold p xs st in
      let n : sub_u32 (length xs) 0 ≡ length xs = omega arith in
      let f : length xs + 1 ≡ suc (length xs) = omega arith in
      rw (f, scan-stop fpu (length xs) q 0 d (rw n e))

  settle-accept :
      (xs st : Bytes)
      → length xs < 2 ^ 31
      → 8 ≤ length xs
      → examine (xs ++ st) (length xs) ≡ accept (length xs)
      → settle fpu (hold p xs st) d ≡ (hold (taken fpu p xs st) [] (xs ++ st), u32 (d + 1))
  settle-accept xs st w g e =
      let q = hold p xs st in
      let n = length xs in
      let b = xs ++ st in
      let whole : sub_u32 n 0 ≡ n = omega arith in
      let f : n + 1 ≡ suc n = omega arith in
      let here : examine (drop 0 q.buf) (sub_u32 q.len 0) ≡ accept n = rw whole e in
      let len_is = decode_block-len fpu q b (block_num b) in
      let rest : sub_u32 (taken fpu p xs st).len (0 + n) ≡ 0 = omega arith in
      let end : examine (drop (0 + n) (taken fpu p xs st).buf)
            (sub_u32 (taken fpu p xs st).len (0 + n))
          ≡ stop =
        rw rest (examine-none _) in
      let out : scan fpu (q.len + 1) q 0 d ≡ (taken fpu p xs st, 0 + n, u32 (d + 1)) =
        ap (λ k. scan fpu k q 0 d) f
        ∙ scan-accept fpu n q 0 d here
        ∙ scan-stop_pos fpu n (taken fpu p xs st) (0 + n) (u32 (d + 1)) (omega arith) end in
      ap (compact_count fpu) out
      ∙ ap (λ r. (r, u32 (d + 1)))
          (compact-all fpu (taken fpu p xs st) (0 + n) (omega arith) (omega arith)
            ∙ ap (λ k. record (taken fpu p xs st) { buf = k; len = 0 })
                (decode_block-buf fpu q b (block_num b)))

-- The array keeps its size, so a byte can be stored behind the bytes in use.
feed_byte-hold :
    (fpu : Fpu) (p : Parser) (xs : Bytes) (s : ℕ) (st : Bytes) (c d : ℕ)
    → length xs < sbf_max_block
    → feed_byte fpu (hold p xs (s ∷ st)) c d ≡ settle fpu (hold p (xs ++ c ∷ []) st) d
unfolding feed_byte
feed_byte-hold fpu p xs s st c d h =
    let room : leb 1024 (length xs) ≡ false = ground arith in
    let grown : length xs + 1 ≡ length (xs ++ c ∷ []) = omega (arith, length-append xs (c ∷ [])) in
    rw (room, set-append xs s st (length xs) c refl, grown)

-- A block that is not there as a whole is waited for, and then taken.
feed_loop-IsFrame :
    (fpu : Fpu) (p : Parser) (d : ℕ) (ys xs st f : Bytes)
    → xs ++ ys ≡ f
    → 0 < length ys
    → length ys ≤ length st
    → IsFrame f
    → feed_loop fpu (hold p xs st) ys d
      ≡ (hold (taken fpu p f (drop (length ys) st)) [] (f ++ drop (length ys) st), u32 (d + 1))
unfolding feed_loop
feed_loop-IsFrame fpu p d [] xs st f e pos room v = absurd (omega arith)
feed_loop-IsFrame fpu p d (c ∷ ys) xs [] f e pos room v = absurd (omega arith)
feed_loop-IsFrame fpu p d (c ∷ []) xs (s ∷ st) f e pos room v =
    let short : length xs < sbf_max_block =
      omega (arith, length-append xs (c ∷ []), ap length e, v.longest) in
    let h = v.header in
    let m = v.longest in
    let step : feed_byte fpu (hold p xs (s ∷ st)) c d ≡ settle fpu (hold p (xs ++ c ∷ []) st) d =
      feed_byte-hold fpu p xs s st c d short in
    step
    ∙ ap (λ g. settle fpu (hold p g st) d) e
    ∙ settle-accept fpu p d f st (omega arith) h (examine-IsFrame st v)
feed_loop-IsFrame fpu p d (c ∷ c' ∷ ys) xs (s ∷ st) f e pos room v =
    let rest = c' ∷ ys in
    let grown = xs ++ c ∷ [] in
    let e' : grown ++ rest ≡ f = append_assoc xs (c ∷ []) rest ∙ e in
    let total : length grown + length rest ≡ length f =
      sym (length-append grown rest) ∙ ap length e' in
    let size : length grown ≡ length xs + 1 = omega (arith, length-append xs (c ∷ [])) in
    let m = v.longest in
    let part : examine (grown ++ st) (length grown) ≡ stop =
      examine-part grown rest st (rw e' v) (rw (length-append grown rest) (omega arith)) in
    let step : feed_byte fpu (hold p xs (s ∷ st)) c d ≡ (hold p grown st, d) =
      feed_byte-hold fpu p xs s st c d (omega arith)
      ∙ settle-stop fpu p d grown st (omega arith) part in
    rw step (feed_loop-IsFrame fpu p d rest grown st f e' (omega arith) (omega arith) v)

-- A block that arrives whole on an idle parser is counted and decoded where it lies in the
-- buffer; the buffer is empty again, and the call returns one block.
pub sbf_parser_feed-at_buffer :
    (fpu : Fpu) (p : Parser) (f : Bytes)
    → IsWaiting p
    → p.len ≡ 0
    → IsFrame f
    → let st = drop (length f) p.buf in
      sbf_parser_feed fpu p f ≡ (hold (taken fpu p f st) [] (f ++ st), 1)
unfolding sbf_parser_feed
sbf_parser_feed-at_buffer fpu p f w e v =
    let h = v.header in
    let m = v.longest in
    let a = w.array in
    let idle : hold p [] p.buf ≡ p = ap (λ n. record p { len = n }) (sym e) in
    ap (λ q. feed_loop fpu q f 0) (sym idle)
    ∙ feed_loop-IsFrame fpu p 0 f [] p.buf f refl (omega arith) (omega arith) v
