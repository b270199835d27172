-- ===== src/Nmea/Sky.antt =====
-- The satellite table of main/nmea_source.c: a map from constellation and number to the last
-- report of that satellite.
use tab5_client.Prelude.{
  ℕ, suc, ◌+◌, ◌-◌, ◌≤◌, ◌<◌, ◌≡◌, refl, ap, ◌∙◌, ◌⊎◌, inl, inr, Bool, true, false, not, ◌&&◌, ◌||◌,
  Option, none, some, List, [], ◌∷◌, arith, ltb, ◌==◌, if◌then◌else◌, Bool-cases, if-both, length,
  get_or, drop, Bytes, u32, codes,
}
use tab5_client.Float.{Fpu}
use tab5_client.Str.{c_str, is_prefix, strlcpy, u8_of_int, atoi}
use tab5_client.Nmea.{
  report, Sat, NmeaStatus, NmeaSource, nmea_max_sats, is_sat, is_sentence, is_eol, report, upsert,
  sat_upsert, add_sat, gsv_loop, parse_gsv, parse_gga, dispatch, process_line, take_byte, data_loop,
  nmea_data_cb, split_fields, talker_of, fields_of, line_size,
}

-- The last report of a satellite.
abbrev pub lookup : ℕ → ℕ → List Sat → Option Sat
lookup t n [] = none
lookup t n (s ∷ ss) = if is_sat t n s then some s else lookup t n ss

abbrev pub is_listed : ℕ → ℕ → List Sat → Bool
is_listed t n [] = false
is_listed t n (s ∷ ss) = is_sat t n s || is_listed t n ss

-- No satellite is listed twice, and none has number 0.
abbrev pub IsTable : List Sat → Type 0
IsTable [] = Unit
IsTable (s ∷ ss) = (is_listed s.talker s.prn ss ≡ false) × (0 < s.prn) × IsTable ss

upsert-is_listed :
    (count t n : ℕ) (ss : List Sat) (new : Sat)
    → is_sat t n new ≡ false
    → is_listed t n (upsert count ss new) ≡ is_listed t n ss
unfolding upsert
upsert-is_listed count t n [] new h = ground arith
upsert-is_listed count t n (s ∷ ss) new h = ground (arith, upsert-is_listed count t n ss new h)

upsert-IsTable :
    (count : ℕ) (ss : List Sat) (new : Sat)
    → 0 < new.prn
    → IsTable ss
    → IsTable (upsert count ss new)
unfolding upsert
upsert-IsTable count [] new h v = ground arith
upsert-IsTable count (s ∷ ss) new h (l, p, v) =
    ground (arith, upsert-IsTable count ss new h v, upsert-is_listed count s.talker s.prn ss new)

length-upsert :
    (count : ℕ) (ss : List Sat) (new : Sat)
    → length (upsert count ss new) ≡ (
        if is_listed new.talker new.prn ss
        then length ss
        else if ltb count nmea_max_sats
        then suc (length ss)
        else length ss)
unfolding upsert
length-upsert count [] new = ground arith
length-upsert count (s ∷ ss) new = ground (arith, length-upsert count ss new)

lookup-upsert_other :
    (count t n : ℕ) (ss : List Sat) (new : Sat)
    → is_sat t n new ≡ false
    → lookup t n (upsert count ss new) ≡ lookup t n ss
unfolding upsert
lookup-upsert_other count t n [] new h = ground arith
lookup-upsert_other count t n (s ∷ ss) new h =
    ground (arith, lookup-upsert_other count t n ss new h)

lookup-upsert_same :
    (count : ℕ) (ss : List Sat) (new : Sat)
    → (is_listed new.talker new.prn ss ≡ true) ⊎ (count < nmea_max_sats)
    → lookup new.talker new.prn (upsert count ss new) ≡ some new
unfolding upsert
lookup-upsert_same count [] new h = ground arith
lookup-upsert_same count (s ∷ ss) new h = ground (arith, lookup-upsert_same count ss new)

-- The table is a table of at most 64 satellites.
pub record IsSky (ss : List Sat) : Type 0 where
  pub table : IsTable ss
  pub small : length ss ≤ nmea_max_sats

pub sat_upsert-IsSky :
    (st : NmeaStatus) (new : Sat) → 0 < new.prn → IsSky st.sats → IsSky (sat_upsert st new).sats
unfolding sat_upsert
sat_upsert-IsSky st new h v = record {
  table = upsert-IsTable (length st.sats) st.sats new h v.table;
  small = ground (arith, length-upsert (length st.sats) st.sats new, v.small);
}

-- Reporting a satellite that is listed, or while the table has room, makes the report the last
-- one of that satellite; no other satellite is touched.
pub sat_upsert-lookup :
    (st : NmeaStatus) (new : Sat) (t n : ℕ)
    → (is_listed new.talker new.prn st.sats ≡ true) ⊎ (length st.sats < nmea_max_sats)
    → lookup t n (sat_upsert st new).sats
      ≡ (if is_sat t n new then some new else lookup t n st.sats)
unfolding sat_upsert
sat_upsert-lookup st new t n h = ground (
  arith,
  lookup-upsert_other (length st.sats) t n st.sats new,
  lookup-upsert_same (length st.sats) st.sats new,
)

add_sat-IsSky :
    (tk : ℕ) (st : NmeaStatus) (prn el az cn : Bytes)
    → IsSky st.sats
    → IsSky (add_sat tk st prn el az cn).sats
add_sat-IsSky tk st [] el az cn v = v
add_sat-IsSky tk st (c ∷ cs) el az cn v = elim (Bool-cases (u8_of_int (atoi (c ∷ cs)) == 0)) [
  | inl z ↦ rw z v
  | inr z ↦ rw z (sat_upsert-IsSky st (report tk (c ∷ cs) el az cn) (ground (arith, z)) v)
]

gsv_loop-IsSky :
    (tk : ℕ) (fs : List Bytes) (st : NmeaStatus) → IsSky st.sats → IsSky (gsv_loop tk st fs).sats
unfolding gsv_loop
gsv_loop-IsSky tk (prn ∷ el ∷ az ∷ cn ∷ fs) st v =
    gsv_loop-IsSky tk fs (add_sat tk st prn el az cn) (add_sat-IsSky tk st prn el az cn v)
gsv_loop-IsSky tk [] st v = v
gsv_loop-IsSky tk (a ∷ []) st v = v
gsv_loop-IsSky tk (a ∷ b ∷ []) st v = v
gsv_loop-IsSky tk (a ∷ b ∷ c ∷ []) st v = v

-- The last report of satellite `n` of constellation `t` after a sentence's fields `fs`, if it was
-- `old` before.
abbrev heard : ℕ → ℕ → ℕ → Bytes → Bytes → Bytes → Bytes → Option Sat → Option Sat
heard tk t n [] el az cn old = old
heard tk t n (c ∷ cs) el az cn old =
    let new = report tk (c ∷ cs) el az cn in
    if not (new.prn == 0) && is_sat t n new then some new else old

abbrev pub last_report : ℕ → ℕ → ℕ → List Bytes → Option Sat → Option Sat
last_report tk t n (prn ∷ el ∷ az ∷ cn ∷ fs) old =
    last_report tk t n fs (heard tk t n prn el az cn old)
last_report tk t n fs old = old

-- How many satellites the fields have room for.
abbrev pub slots : List Bytes → ℕ
slots (prn ∷ el ∷ az ∷ cn ∷ fs) = suc (slots fs)
slots fs = 0

add_sat-lookup :
    (tk t n : ℕ) (st : NmeaStatus) (prn el az cn : Bytes)
    → length st.sats < nmea_max_sats
    → (lookup t n (add_sat tk st prn el az cn).sats
        ≡ heard tk t n prn el az cn (lookup t n st.sats))
      × (length (add_sat tk st prn el az cn).sats ≤ suc (length st.sats))
unfolding sat_upsert
add_sat-lookup tk t n st [] el az cn h = (refl, omega arith)
add_sat-lookup tk t n st (c ∷ cs) el az cn h =
    let new = report tk (c ∷ cs) el az cn in
    ground (arith, sat_upsert-lookup st new t n (inr h), length-upsert (length st.sats) st.sats new)

-- A GSV sentence updates the table as a map: afterwards every satellite's last report is the last
-- one the sentence holds of it, or the one from before; provided that the table has room for as
-- many satellites as the sentence has slots. Empty slots and number 0 are no reports.
pub gsv_loop-lookup :
    (tk t n : ℕ) (fs : List Bytes) (st : NmeaStatus)
    → length st.sats + slots fs ≤ nmea_max_sats
    → lookup t n (gsv_loop tk st fs).sats ≡ last_report tk t n fs (lookup t n st.sats)
unfolding gsv_loop
gsv_loop-lookup tk t n (prn ∷ el ∷ az ∷ cn ∷ fs) st h =
    let (found, grown) = add_sat-lookup tk t n st prn el az cn (omega arith) in
    gsv_loop-lookup tk t n fs (add_sat tk st prn el az cn) (omega arith)
    ∙ ap (last_report tk t n fs) found
gsv_loop-lookup tk t n [] st h = refl
gsv_loop-lookup tk t n (a ∷ []) st h = refl
gsv_loop-lookup tk t n (a ∷ b ∷ []) st h = refl
gsv_loop-lookup tk t n (a ∷ b ∷ c ∷ []) st h = refl

module _ (fpu : Fpu) where
  parse_gga-sats : (st : NmeaStatus) (fs : List Bytes) → (parse_gga fpu st fs).sats ≡ st.sats
  unfolding parse_gga
  parse_gga-sats st fs = ground arith

  dispatch-IsSky :
      (st : NmeaStatus) (split : Bytes × List ℕ)
      → IsSky st.sats
      → IsSky (dispatch fpu st split).sats
  unfolding dispatch parse_gsv
  dispatch-IsSky st (l, fs) v =
      let fields = fields_of (l, fs) in
      let code = c_str (drop 3 l) in
      let tk = talker_of (get_or fields 0 []) in
      let st_gsv = record st { gsv_sentences = u32 (st.gsv_sentences + 1) } in
      let st_gga = record st { gga_sentences = u32 (st.gga_sentences + 1) } in
      if-both (λ (r : NmeaStatus). IsSky r.sats) (is_prefix (codes "GSV") code)
        (gsv_loop-IsSky tk (drop 4 fields) st_gsv v)
        (if-both (λ (r : NmeaStatus). IsSky r.sats) (is_prefix (codes "GGA") code)
          (rw (parse_gga-sats st_gga fields) v) v)

  process_line-IsSky :
      (st : NmeaStatus) (line : Bytes) → IsSky st.sats → IsSky (process_line fpu st line).sats
  unfolding process_line
  process_line-IsSky st line v =
      if-both (λ (r : NmeaStatus). IsSky r.sats) (not (is_sentence line)) v
        (dispatch-IsSky (record st { last_line = strlcpy line 96 }) (split_fields line 40) v)

  take_byte-IsSky : (s : NmeaSource) (c : ℕ) → IsSky s.st.sats → IsSky (take_byte fpu s c).st.sats
  unfolding take_byte
  take_byte-IsSky s c v =
      if-both (λ (r : NmeaSource). IsSky r.st.sats) (is_eol c)
        (if-both (λ (r : NmeaSource). IsSky r.st.sats) (ltb 0 (length s.line))
          (process_line-IsSky s.st (c_str s.line) v) v)
        (if-both (λ (r : NmeaSource). IsSky r.st.sats) (ltb (length s.line) (line_size - 1)) v v)

  data_loop-IsSky :
      (bytes : Bytes) (s : NmeaSource) → IsSky s.st.sats → IsSky (data_loop fpu s bytes).st.sats
  unfolding data_loop
  data_loop-IsSky [] s v = v
  data_loop-IsSky (c ∷ cs) s v = data_loop-IsSky cs (take_byte fpu s c) (take_byte-IsSky s c v)

  -- Whatever bytes arrive, the table never lists a satellite twice, has no number 0, and holds at
  -- most 64 satellites.
  pub nmea_data_cb-IsSky :
      (s : NmeaSource) (bytes : Bytes) → IsSky s.st.sats → IsSky (nmea_data_cb fpu s bytes).st.sats
  unfolding nmea_data_cb
  nmea_data_cb-IsSky s bytes v =
      data_loop-IsSky bytes
        (record s { st = record s.st { bytes = u32 (s.st.bytes + length bytes) } }) v
