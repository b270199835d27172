-- ===== src/Nmea.antt =====
-- main/nmea_source.c: the line assembler, the sentence parser and the satellite table. Its mutex
-- spans every access to the status, so a call is one step here.
pub mod Fields
pub mod Sky
pub mod Lines
pub mod Sentence
use tab5_client.Prelude.{
  ℕ, zero, suc, ◌+◌, ◌-◌, Bool, true, false, not, ◌&&◌, ◌||◌, List, [], ◌∷◌, ◌++◌, map, ltb, leb,
  ◌==◌, if◌then◌else◌, length, get_or, drop, Bytes, u32, codes,
}
use tab5_client.Prelude.Int.{ℤ, pos, negsuc, ◌*ℤ◌}
use tab5_client.Float.{F64, Fpu}
use tab5_client.Str.{c_str, is_prefix, strlcpy, atoi, u8_of_int, i16_of_int}

abbrev pub nmea_max_sats : ℕ
nmea_max_sats = 64

abbrev pub comma : ℕ
comma = 44

abbrev pub star : ℕ
star = 42

abbrev dollar : ℕ
dollar = 36

pub record Sat : Type 0 where
  pub talker : ℕ
  pub prn : ℕ
  pub elev : ℤ
  pub azim : ℤ
  pub cn0 : ℤ

-- `sats` is the table up to `sat_count`.
pub record NmeaStatus : Type 0 where
  pub itf_open : Bool
  pub bytes : ℕ
  pub gsv_sentences : ℕ
  pub gga_sentences : ℕ
  pub sats : List Sat
  pub last_line : Bytes
  pub lat : F64
  pub lon : F64
  pub fix_quality : ℤ
  pub gga_sats : ℤ

-- `line` is `s_line` up to `s_linepos`.
pub record NmeaSource : Type 0 where
  pub st : NmeaStatus
  pub line : Bytes

abbrev pub line_size : ℕ
line_size = 128

abbrev talker_code : ℕ → ℕ → ℕ
talker_code a b =
    if a == 71 && b == 80
    then 71
    else if a == 71 && b == 76
    then 82
    else if a == 71 && b == 65
    then 69
    else if a == 71 && b == 66
    then 67
    else if a == 66 && b == 68
    then 67
    else if a == 71 && b == 81
    then 74
    else if a == 71 && b == 73
    then 73
    else if a == 71 && b == 78
    then 78
    else 63

-- `?` is 63.
unfoldable pub talker_of : Bytes → ℕ
talker_of f0 =
    if not (get_or f0 0 0 == dollar) then 63 else talker_code (get_or f0 1 0) (get_or f0 2 0)

abbrev pub is_sat : ℕ → ℕ → Sat → Bool
is_sat talker prn s = s.talker == talker && s.prn == prn

-- The search of `sat_upsert` and what it does at its end; `count` is `sat_count`.
unfoldable pub upsert : ℕ → List Sat → Sat → List Sat
upsert count [] new = if ltb count nmea_max_sats then new ∷ [] else []
upsert count (s ∷ ss) new =
    let rest = upsert count ss new in
    if is_sat new.talker new.prn s
    then record s { elev = new.elev; azim = new.azim; cn0 = new.cn0 } ∷ ss
    else s ∷ rest

unfoldable pub sat_upsert : NmeaStatus → Sat → NmeaStatus
sat_upsert st new = record st { sats = upsert (length st.sats) st.sats new }

pub data Mark : Type 0 where
  ends separates plain : Mark

unfoldable pub mark : ℕ → Mark
mark c = if c == star then ends else if c == comma then separates else plain

-- The loop of `split_fields` at position `i`, with room for that many more fields: the line it
-- leaves, and where those fields start.
unfoldable pub split_from : ℕ → ℕ → Bytes → Bytes × List ℕ
split_from room i [] = ([], [])
split_from zero i (c ∷ cs) = (c ∷ cs, [])
split_from (suc room) i (c ∷ cs) = elim (mark c) [
  | ends ↦ (0 ∷ cs, [])
  | separates ↦ let (l, fs) = split_from room (i + 1) cs in (0 ∷ l, (i + 1) ∷ fs)
  | plain ↦ let (l, fs) = split_from (suc room) (i + 1) cs in (c ∷ l, fs)
]

unfoldable pub split_fields : Bytes → ℕ → Bytes × List ℕ
split_fields line most = let (l, fs) = split_from (most - 1) 0 line in (l, 0 ∷ fs)

-- The strings that `split_fields` points to.
abbrev pub field_at : Bytes → ℕ → Bytes
field_at l o = c_str (drop o l)

abbrev pub fields_of : Bytes × List ℕ → List Bytes
fields_of (l, fs) = map (field_at l) fs

abbrev pub number_or : ℤ → Bytes → ℤ
number_or d [] = d
number_or d (c ∷ cs) = i16_of_int (atoi (c ∷ cs))

abbrev pub report : ℕ → Bytes → Bytes → Bytes → Bytes → Sat
report talker prn el az cn = record {
  talker = talker;
  prn = u8_of_int (atoi prn);
  elev = number_or (negsuc 0) el;
  azim = number_or (negsuc 0) az;
  cn0 = number_or (negsuc 0) cn;
}

abbrev pub add_sat : ℕ → NmeaStatus → Bytes → Bytes → Bytes → Bytes → NmeaStatus
add_sat talker st [] el az cn = st
add_sat talker st (c ∷ cs) el az cn =
    if u8_of_int (atoi (c ∷ cs)) == 0 then st else sat_upsert st (report talker (c ∷ cs) el az cn)

-- The loop of `parse_gsv`, over the fields from the fifth on.
unfoldable pub gsv_loop : ℕ → NmeaStatus → List Bytes → NmeaStatus
gsv_loop talker st (prn ∷ el ∷ az ∷ cn ∷ fs) = gsv_loop talker (add_sat talker st prn el az cn) fs
gsv_loop talker st fs = st

unfoldable pub parse_gsv : NmeaStatus → List Bytes → NmeaStatus
parse_gsv st fs = gsv_loop (talker_of (get_or fs 0 [])) st (drop 4 fs)

abbrev f64_100 : F64
f64_100 = 0x4059000000000000

abbrev f64_60 : F64
f64_60 = 0x404E000000000000

abbrev pub is_sentence : Bytes → Bool
is_sentence line = get_or line 0 0 == dollar && leb 6 (length line)

abbrev pub is_eol : ℕ → Bool
is_eol c = c == 13 || c == 10

module _ (fpu : Fpu) where
  -- 83 is S, and 87 is W.
  unfoldable pub dm_to_deg : Bytes → Bytes → F64
  unfolding ◌*ℤ◌
  dm_to_deg [] hemi = 0
  dm_to_deg (c ∷ cs) hemi =
      let v = fpu.atof (c ∷ cs) in
      let deg = fpu.int_of_f64 (fpu.f64_div v f64_100) in
      let minutes = fpu.f64_sub v (fpu.f64_of_int (deg *ℤ pos 100)) in
      let d = fpu.f64_add (fpu.f64_of_int deg) (fpu.f64_div minutes f64_60) in
      if get_or hemi 0 0 == 83 || get_or hemi 0 0 == 87 then fpu.f64_neg d else d

  unfoldable pub parse_gga : NmeaStatus → List Bytes → NmeaStatus
  parse_gga st fs = if ltb (length fs) 8 then st else record st {
    lat = dm_to_deg (get_or fs 2 []) (get_or fs 3 []);
    lon = dm_to_deg (get_or fs 4 []) (get_or fs 5 []);
    fix_quality = atoi (get_or fs 6 []);
    gga_sats = atoi (get_or fs 7 []);
  }

  -- What `process_line` does with a split line.
  unfoldable pub dispatch : NmeaStatus → Bytes × List ℕ → NmeaStatus
  dispatch st (l, fs) =
      let code = c_str (drop 3 l) in
      if is_prefix (codes "GSV") code
      then parse_gsv (record st { gsv_sentences = u32 (st.gsv_sentences + 1) }) (fields_of (l, fs))
      else if is_prefix (codes "GGA") code
      then parse_gga (record st { gga_sentences = u32 (st.gga_sentences + 1) }) (fields_of (l, fs))
      else st

  -- On the string in `s_line`.
  unfoldable pub process_line : NmeaStatus → Bytes → NmeaStatus
  process_line st line =
      if not (is_sentence line)
      then st
      else dispatch (record st { last_line = strlcpy line 96 }) (split_fields line 40)

  unfoldable pub take_byte : NmeaSource → ℕ → NmeaSource
  take_byte s c =
      if is_eol c
      then if ltb 0 (length s.line)
        then record { st = process_line s.st (c_str s.line); line = [] }
        else s
      else if ltb (length s.line) (line_size - 1)
      then record s { line = s.line ++ c ∷ [] }
      else record s { line = [] }

  unfoldable pub data_loop : NmeaSource → Bytes → NmeaSource
  data_loop s [] = s
  data_loop s (c ∷ cs) = data_loop (take_byte s c) cs

  unfoldable pub nmea_data_cb : NmeaSource → Bytes → NmeaSource
  nmea_data_cb s bytes =
      data_loop (record s { st = record s.st { bytes = u32 (s.st.bytes + length bytes) } }) bytes

-- The event callback on a disconnect, and the task once the interface is open.
unfoldable pub nmea_event_cb : NmeaSource → NmeaSource
nmea_event_cb s = record s { st = record s.st { itf_open = false } }

unfoldable pub nmea_opened : NmeaSource → NmeaSource
nmea_opened s = record s { st = record s.st { itf_open = true } }
