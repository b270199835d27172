-- ===== src/Nmea/Lines.antt =====
-- How main/nmea_source.c cuts the byte stream into lines.
use tab5_client.Prelude.{
  ℕ, ◌+◌, ◌-◌, ◌<◌, ◌≡◌, refl, sym, ap, ◌∙◌, true, false, List, [], ◌∷◌, ◌++◌, append_assoc,
  append-nil, arith, ltb, length, get_or, drop, length-append, Bytes, u32,
}
use tab5_client.Float.{Fpu}
use tab5_client.Str.{c_str, strlcpy}
use tab5_client.Nmea.{
  NmeaStatus, NmeaSource, add_sat, sat_upsert, gsv_loop, parse_gsv, parse_gga, dispatch, talker_of,
  fields_of, split_fields, line_size, is_eol, process_line, take_byte, data_loop, nmea_data_cb,
}

abbrev count_st : NmeaStatus → ℕ → NmeaStatus
count_st st n = record st { bytes = n }

-- The byte counter set to `n`.
abbrev count : NmeaSource → ℕ → NmeaSource
count s n = record s { st = count_st s.st n }

add_sat-count :
    (tk n : ℕ) (st : NmeaStatus) (prn el az cn : Bytes)
    → add_sat tk (count_st st n) prn el az cn ≡ count_st (add_sat tk st prn el az cn) n
unfolding sat_upsert
add_sat-count tk n st [] el az cn = refl
add_sat-count tk n st (c ∷ cs) el az cn = ground arith

gsv_loop-count :
    (tk n : ℕ) (fs : List Bytes) (st : NmeaStatus)
    → gsv_loop tk (count_st st n) fs ≡ count_st (gsv_loop tk st fs) n
unfolding gsv_loop
gsv_loop-count tk n (prn ∷ el ∷ az ∷ cn ∷ fs) st =
    ap (λ q. gsv_loop tk q fs) (add_sat-count tk n st prn el az cn)
    ∙ gsv_loop-count tk n fs (add_sat tk st prn el az cn)
gsv_loop-count tk n [] st = refl
gsv_loop-count tk n (a ∷ []) st = refl
gsv_loop-count tk n (a ∷ b ∷ []) st = refl
gsv_loop-count tk n (a ∷ b ∷ c ∷ []) st = refl

dispatch-count :
    (fpu : Fpu) (n : ℕ) (st : NmeaStatus) (split : Bytes × List ℕ)
    → dispatch fpu (count_st st n) split ≡ count_st (dispatch fpu st split) n
unfolding dispatch parse_gsv parse_gga
dispatch-count fpu n st (l, fs) =
    let tk = talker_of (get_or (fields_of (l, fs)) 0 []) in
    let st_gsv = record st { gsv_sentences = u32 (st.gsv_sentences + 1) } in
    ground (arith, gsv_loop-count tk n (drop 4 (fields_of (l, fs))) st_gsv)

process_line-count :
    (fpu : Fpu) (n : ℕ) (st : NmeaStatus) (line : Bytes)
    → process_line fpu (count_st st n) line ≡ count_st (process_line fpu st line) n
unfolding process_line
process_line-count fpu n st line =
    ground (
      arith,
      dispatch-count fpu n (record st { last_line = strlcpy line 96 }) (split_fields line 40),
    )

take_byte-count :
    (fpu : Fpu) (s : NmeaSource) (c n : ℕ)
    → take_byte fpu (count s n) c ≡ count (take_byte fpu s c) n
unfolding take_byte
take_byte-count fpu s c n = ground (arith, process_line-count fpu n s.st (c_str s.line))

abbrev pub NoEol : Bytes → Type 0
NoEol [] = Unit
NoEol (c ∷ cs) = (is_eol c ≡ false) × NoEol cs

module _ (fpu : Fpu) where
  data_loop-append :
      (xs ys : Bytes) (s : NmeaSource)
      → data_loop fpu s (xs ++ ys) ≡ data_loop fpu (data_loop fpu s xs) ys
  unfolding data_loop
  data_loop-append [] ys s = refl
  data_loop-append (x ∷ xs) ys s = data_loop-append xs ys (take_byte fpu s x)

  take_byte-line :
      (s : NmeaSource) (c : ℕ)
      → length s.line < line_size
      → length (take_byte fpu s c).line < line_size
  unfolding take_byte
  take_byte-line s c h = ground (arith, length-append s.line (c ∷ []))

  data_loop-line :
      (bytes : Bytes) (s : NmeaSource)
      → length s.line < line_size
      → length (data_loop fpu s bytes).line < line_size
  unfolding data_loop
  data_loop-line [] s h = h
  data_loop-line (c ∷ cs) s h = data_loop-line cs (take_byte fpu s c) (take_byte-line s c h)

  -- Whatever bytes arrive, the line buffer keeps room for the NUL that ends a line.
  pub nmea_data_cb-line :
      (s : NmeaSource) (bytes : Bytes)
      → length s.line < line_size
      → length (nmea_data_cb fpu s bytes).line < line_size
  unfolding nmea_data_cb
  nmea_data_cb-line s bytes h =
      data_loop-line bytes
        (record s { st = record s.st { bytes = u32 (s.st.bytes + length bytes) } }) h

  collect :
      (cs : Bytes) (s : NmeaSource)
      → NoEol cs
      → length s.line + length cs < line_size
      → data_loop fpu s cs ≡ record s { line = s.line ++ cs }
  unfolding data_loop take_byte
  collect [] s e h = ap (λ l. record s { line = l }) (sym (append-nil s.line))
  collect (c ∷ cs) s (n, e) h =
      let s' = record s { line = s.line ++ c ∷ [] } in
      let room : ltb (length s.line) (line_size - 1) ≡ true = ground (arith, h) in
      let step : take_byte fpu s c ≡ s' = simp (n, room) in
      ap (λ q. data_loop fpu q cs) step
      ∙ collect cs s' e (omega (arith, length-append s.line (c ∷ [])))
      ∙ ap (λ l. record s { line = l }) (append_assoc s.line (c ∷ []) cs)

  -- CR ends a line, and LF then finds none.
  finish :
      (s : NmeaSource)
      → 0 < length s.line
      → data_loop fpu s (13 ∷ 10 ∷ [])
        ≡ record { st = process_line fpu s.st (c_str s.line); line = [] }
  unfolding data_loop take_byte
  finish s h = let full : ltb 0 (length s.line) ≡ true = ground (arith, h) in simp full

  -- A line of 1 to 127 bytes that reaches an idle assembler, then CR and LF, is processed as one
  -- string, once, and the assembler is idle again.
  pub nmea_data_cb-process_line :
      (s : NmeaSource) (line : Bytes)
      → s.line ≡ []
      → NoEol line
      → 0 < length line
      → length line < line_size
      → nmea_data_cb fpu s (line ++ 13 ∷ 10 ∷ []) ≡ record {
        st =
            process_line fpu
              (record s.st { bytes = u32 (s.st.bytes + length line + 2) })
              (c_str line);
        line = [];
      }
  unfolding nmea_data_cb
  nmea_data_cb-process_line s line i e p h =
      let b = u32 (s.st.bytes + length line + 2) in
      let total : u32 (s.st.bytes + length (line ++ 13 ∷ 10 ∷ [])) ≡ b =
        ap (λ n. u32 n) (omega (arith, length-append line (13 ∷ 10 ∷ []))) in
      let start : NmeaSource = record { st = record s.st { bytes = b }; line = [] } in
      ap (λ n. data_loop fpu (record s { st = record s.st { bytes = n } }) (line ++ 13 ∷ 10 ∷ []))
        total
      ∙ ap
          (λ l.
            data_loop fpu (record { st = record s.st { bytes = b }; line = l })
              (line ++ 13 ∷ 10 ∷ []))
          i
      ∙ data_loop-append line (13 ∷ 10 ∷ []) start
      ∙ ap (λ q. data_loop fpu q (13 ∷ 10 ∷ [])) (collect line start e (omega (arith, h)))
      ∙ finish (record start { line = line }) p

  data_loop-count :
      (bytes : Bytes) (s : NmeaSource) (n : ℕ)
      → data_loop fpu (count s n) bytes ≡ count (data_loop fpu s bytes) n
  unfolding data_loop
  data_loop-count [] s n = refl
  data_loop-count (c ∷ cs) s n =
      ap (λ q. data_loop fpu q cs) (take_byte-count fpu s c n)
      ∙ data_loop-count cs (take_byte fpu s c) n

  -- The bytes may arrive in chunks of any size: two calls leave what one call on both chunks does.
  pub nmea_data_cb-append :
      (s : NmeaSource) (xs ys : Bytes)
      → nmea_data_cb fpu (nmea_data_cb fpu s xs) ys ≡ nmea_data_cb fpu s (xs ++ ys)
  unfolding nmea_data_cb
  nmea_data_cb-append s xs ys =
      let n = u32 (s.st.bytes + length xs) in
      let m = u32 (s.st.bytes + length (xs ++ ys)) in
      let total : u32 (n + length ys) ≡ m = omega (arith, length-append xs ys) in
      let first : data_loop fpu (count s n) xs ≡ count (data_loop fpu s xs) n =
        data_loop-count xs s n in
      ap (λ q. data_loop fpu (count q (u32 (q.st.bytes + length ys))) ys) first
      ∙ ap (λ k. data_loop fpu (count (data_loop fpu s xs) k) ys) total
      ∙ ap (λ q. data_loop fpu q ys) (sym (data_loop-count xs s m))
      ∙ sym (data_loop-append xs ys (count s m))
