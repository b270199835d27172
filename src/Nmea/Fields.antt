-- ===== src/Nmea/Fields.antt =====
-- How main/nmea_source.c reads a sentence, against a plain description of its fields.
use tab5_client.Prelude.{
  ℕ, zero, suc, ◌+◌, ◌-◌, ◌≤◌, ◌<◌, ◌≡◌, refl, sym, ap, ◌∙◌, inl, inr, true, false, List, [], ◌∷◌,
  ◌++◌, map, append_assoc, arith, ◌==◌, if◌then◌else◌, Bool-cases, length, get_or, drop,
  length-append, drop-append, Bytes, u32, codes,
}
use tab5_client.Float.{Fpu}
use tab5_client.Str.{c_str, is_prefix, strlcpy}
use tab5_client.Nmea.{
  NmeaStatus, comma, star, ends, separates, plain, mark, split_from, split_fields, field_at,
  fields_of, parse_gsv, parse_gga, dispatch, process_line, is_sentence,
}

abbrev pub NoNul : Bytes → Type 0
NoNul [] = Unit
NoNul (c ∷ cs) = (0 < c) × NoNul cs

pub c_str-NoNul : (s : Bytes) → NoNul (c_str s)
c_str-NoNul [] = tt
c_str-NoNul (zero ∷ cs) = tt
c_str-NoNul (suc c ∷ cs) = (omega arith, c_str-NoNul cs)

pub c_str_lem : (s : Bytes) → NoNul s → c_str s ≡ s
c_str_lem [] n = refl
c_str_lem (zero ∷ cs) (h, n) = absurd (omega arith)
c_str_lem (suc c ∷ cs) (h, n) = ap (◌∷◌ (suc c)) (c_str_lem cs n)

-- The text before the checksum, cut at its commas.
abbrev pub until_star : Bytes → Bytes
until_star [] = []
until_star (c ∷ cs) = if c == star then [] else c ∷ until_star cs

abbrev onto_first : ℕ → List Bytes → List Bytes
onto_first c [] = (c ∷ []) ∷ []
onto_first c (f ∷ fs) = (c ∷ f) ∷ fs

abbrev pub split_commas : Bytes → List Bytes
split_commas [] = [] ∷ []
split_commas (c ∷ cs) = if c == comma then [] ∷ split_commas cs else onto_first c (split_commas cs)

abbrev pub commas : Bytes → ℕ
commas [] = 0
commas (c ∷ cs) = if c == comma then suc (commas cs) else commas cs

data Marked (c : ℕ) : Type 0 where
  is_end : mark c ≡ ends → c ≡ star → Marked c
  is_comma : mark c ≡ separates → c ≡ comma → Marked c
  is_plain : mark c ≡ plain → (c == star) ≡ false → (c == comma) ≡ false → Marked c

mark-cases : (c : ℕ) → Marked c
unfolding mark
mark-cases c = elim (Bool-cases (c == star)) [
  | inl e ↦ let d : c ≡ star = ground arith in is_end (rw d refl) d
  | inr a ↦ elim (Bool-cases (c == comma)) [
    | inl e ↦ let d : c ≡ comma = ground arith in is_comma (rw d refl) d
    | inr b ↦ is_plain (rw (a, b)) a b
  ]
]

-- The fields that a loop at the end of `pre` finds, the running one included.
abbrev found : Bytes → Bytes × List ℕ → List Bytes
found pre (l, fs) = c_str l ∷ map (field_at (pre ++ l)) fs

append_one : (pre : Bytes) (c : ℕ) (l : Bytes) → pre ++ c ∷ l ≡ (pre ++ c ∷ []) ++ l
append_one pre c l = sym (append_assoc pre (c ∷ []) l)

next_position : (pre : Bytes) (c : ℕ) → length pre + 1 ≡ length (pre ++ c ∷ [])
next_position pre c = omega (arith, length-append pre (c ∷ []))

found-separated :
    (pre l : Bytes) (fs : List ℕ)
    → found pre (0 ∷ l, (length pre + 1) ∷ fs) ≡ [] ∷ found (pre ++ 0 ∷ []) (l, fs)
found-separated pre l fs =
    let moved = append_one pre 0 l in
    let behind : c_str (drop (length pre + 1) ((pre ++ 0 ∷ []) ++ l)) ≡ c_str l =
      ap c_str (drop-append (pre ++ 0 ∷ []) l (length pre + 1) (next_position pre 0)) in
    ap (λ w. [] ∷ c_str (drop (length pre + 1) w) ∷ map (field_at w) fs) moved
    ∙ ap (λ f. [] ∷ f ∷ map (field_at ((pre ++ 0 ∷ []) ++ l)) fs) behind

found-extended :
    (pre : Bytes) (c : ℕ) (l : Bytes) (fs : List ℕ)
    → 0 < c
    → found pre (c ∷ l, fs) ≡ onto_first c (found (pre ++ c ∷ []) (l, fs))
found-extended pre zero l fs h = absurd (omega arith)
found-extended pre (suc c) l fs h =
    ap (λ w. (suc c ∷ c_str l) ∷ map (field_at w) fs) (append_one pre (suc c) l)

split_from-ends :
    (room i c : ℕ) (cs : Bytes) → mark c ≡ ends → split_from (suc room) i (c ∷ cs) ≡ (0 ∷ cs, [])
unfolding split_from
split_from-ends room i c cs m = rw (m, split_from)

split_from-separates :
    (room i c : ℕ) (cs : Bytes)
    → mark c ≡ separates
    → let (l, fs) = split_from room (i + 1) cs in
      split_from (suc room) i (c ∷ cs) ≡ (0 ∷ l, (i + 1) ∷ fs)
unfolding split_from
split_from-separates room i c cs m = rw (m, split_from)

split_from-plain :
    (room i c : ℕ) (cs : Bytes)
    → mark c ≡ plain
    → let (l, fs) = split_from (suc room) (i + 1) cs in
      split_from (suc room) i (c ∷ cs) ≡ (c ∷ l, fs)
unfolding split_from
split_from-plain room i c cs m = rw (m, split_from)

split_from-split_commas :
    (room : ℕ) (pre cs : Bytes)
    → NoNul cs
    → commas (until_star cs) < room
    → found pre (split_from room (length pre) cs) ≡ split_commas (until_star cs)
unfolding split_from
split_from-split_commas zero pre cs n h = absurd (omega arith)
split_from-split_commas (suc room) pre [] n h = refl
split_from-split_commas (suc room) pre (c ∷ cs) (p, n) h = elim (mark-cases c) [
  | is_end m e ↦ ap (found pre) (split_from-ends room (length pre) c cs m) ∙ rw e refl
  | is_comma m e ↦
      let fewer : commas (until_star cs) < room = ground (arith, e, h) in
      let (l, fs) = split_from room (length pre + 1) cs in
      ap (found pre) (split_from-separates room (length pre) c cs m)
      ∙ found-separated pre l fs
      ∙ ap (λ k. [] ∷ found (pre ++ 0 ∷ []) (split_from room k cs)) (next_position pre 0)
      ∙ ap (◌∷◌ []) (split_from-split_commas room (pre ++ 0 ∷ []) cs n fewer)
      ∙ rw e refl
  | is_plain m a b ↦
      let same : commas (until_star cs) < suc room = ground (arith, a, b, h) in
      let (l, fs) = split_from (suc room) (length pre + 1) cs in
      ap (found pre) (split_from-plain room (length pre) c cs m)
      ∙ found-extended pre c l fs p
      ∙ ap (λ k. onto_first c (found (pre ++ c ∷ []) (split_from (suc room) k cs)))
          (next_position pre c)
      ∙ ap (onto_first c) (split_from-split_commas (suc room) (pre ++ c ∷ []) cs n same)
      ∙ rw (a, b) refl
]

-- A line without NUL, with fewer commas before its checksum than there is room for fields, is
-- split into exactly the texts between those commas, the checksum cut off.
pub split_fields-split_commas :
    (line : Bytes) (most : ℕ)
    → NoNul line
    → commas (until_star line) + 1 < most
    → fields_of (split_fields line most) ≡ split_commas (until_star line)
unfolding split_fields
split_fields-split_commas line most n h = split_from-split_commas (most - 1) [] line n (omega arith)

first : List Bytes → Bytes
first fs = get_or fs 0 []

c_str-drop : (k : ℕ) (l : Bytes) → k ≤ length (c_str l) → c_str (drop k l) ≡ drop k (c_str l)
c_str-drop zero l h = refl
c_str-drop (suc k) [] h = absurd (omega arith)
c_str-drop (suc k) (zero ∷ l) h = absurd (omega arith)
c_str-drop (suc k) (suc c ∷ l) h = c_str-drop k l (omega arith)

module _ (fpu : Fpu) where
  -- What a sentence with these fields does to the status.
  unfoldable pub read_fields : NmeaStatus → List Bytes → NmeaStatus
  read_fields st fs =
      let code = drop 3 (get_or fs 0 []) in
      if is_prefix (codes "GSV") code
      then parse_gsv (record st { gsv_sentences = u32 (st.gsv_sentences + 1) }) fs
      else if is_prefix (codes "GGA") code
      then parse_gga fpu (record st { gga_sentences = u32 (st.gga_sentences + 1) }) fs
      else st

  -- A sentence of at least 6 characters, with at most 38 commas and an address of at least 3
  -- characters, is read by its fields: the texts between the commas before the checksum.
  pub process_line-read_fields :
      (st : NmeaStatus) (line : Bytes)
      → NoNul line
      → is_sentence line ≡ true
      → commas (until_star line) < 39
      → 3 ≤ length (get_or (split_commas (until_star line)) 0 [])
      → process_line fpu st line
        ≡ read_fields (record st { last_line = strlcpy line 96 }) (split_commas (until_star line))
  unfolding process_line dispatch read_fields split_fields
  process_line-read_fields st line n v c a =
      let fs = split_fields-split_commas line 40 n (omega arith) in
      let address = ap (λ f. get_or f 0 []) fs in
      let code : c_str (drop 3 (split_fields line 40).0)
          ≡ drop 3 (get_or (split_commas (until_star line)) 0 []) =
        c_str-drop 3 (split_fields line 40).0 (rw (sym address) at a) ∙ ap (drop 3) address in
      rw (v, code, fs) refl
