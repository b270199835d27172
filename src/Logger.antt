-- ===== src/Logger.antt =====
-- main/logger.c: the card logger. What it does to the card is a list of operations; what `stat`
-- and `fopen` would answer, the position and the levelling status are arguments of a tick.
pub mod Discipline
pub mod Naming
use tab5_client.Prelude.{
  ℕ, zero, suc, ◌+◌, ◌-◌, ◌%◌, Bool, true, false, not, ◌&&◌, ◌||◌, List, [], ◌∷◌, ◌++◌, ◌==◌,
  if◌then◌else◌, length, take, replicate, Bytes, u32, codes,
}
use tab5_client.Prelude.Int.{ℤ, pos, ltb_ℤ}
use tab5_client.Float.{F64, Fpu, is_nan64, nan64, nan32}
use tab5_client.Str.{dec, strlcpy}
use tab5_client.Gnss.{GnssSnapshot}
use tab5_client.Sbf.Labels.{sbf_pvt_mode_str}
use tab5_client.Leveler.Status.{LevelerStatus}

pub data Op : Type 0 where
  fopen : Bytes → Bool → Op  -- and whether it succeeded
  fprintf : Bytes → Op
  fflush : Op
  fclose : Op

-- The statics; `has_file` is `s_file != NULL`, `has_pwr` is `s_pwr != NULL`.
pub record Logger : Type 0 where
  pub mounted : Bool
  pub want_logging : Bool
  pub has_pwr : Bool
  pub has_file : Bool
  pub rows : ℕ
  pub path : Bytes

abbrev pub logger_boot : Logger
logger_boot = record {
  mounted = false;
  want_logging = false;
  has_pwr = false;
  has_file = false;
  rows = 0;
  path = [];
}

-- `mount_sd`, with whether the supply comes up and whether the card mounts.
unfoldable pub mount_sd : Bool → Bool → Logger → Logger × Bool
mount_sd ldo mounts s =
    if not s.has_pwr && not ldo then (s, false) else (record s { has_pwr = true }, mounts)

-- With whether the task is created.
unfoldable pub logger_init : Bool → Bool → Bool → Logger → Logger × Bool
unfolding mount_sd
logger_init ldo mounts created s =
    let (t, ok) = mount_sd ldo mounts s in
    if ok
    then (record t { mounted = true; want_logging = true }, created)
    else (record t { mounted = false }, false)

unfoldable pub logger_set : Bool → Logger → Logger
logger_set on s = record s { want_logging = on }

abbrev path_size : ℕ
path_size = 40

-- `%03d`.
abbrev dec3 : ℕ → Bytes
dec3 i = let d = dec (pos i) in replicate (3 - length d) 48 ++ d

unfoldable pub log_name : ℕ → Bytes
unfolding dec
log_name i = take (path_size - 1) (codes "/sdcard/lvl_" ++ (dec3 i ++ codes ".csv"))

abbrev pub header : Bytes
header =
    codes "tow_ms,lat_deg,lon_deg,height_m,fix,sv,hacc_m,vacc_m,pitch_deg,roll_deg,heading_deg,"
    ++ codes "cutfill_m,state\n"

-- What the card answers in a tick.
pub record Card : Type 0 where
  pub stats : Bytes → Bool
  pub opens : Bytes → Bool

-- The attempt on the first name that is free.
abbrev pub open_name : Card → Bytes → Logger → Logger × List Op
open_name card p s =
    if card.opens p
    then (
      record s { has_file = true; path = strlcpy p path_size; rows = 0 },
      fopen p true ∷ fprintf header ∷ fflush ∷ [],
    )
    else (s, fopen p false ∷ [])

-- The loop of `open_file` from `i` on, with the rounds left.
unfoldable pub open_loop : ℕ → ℕ → Card → Logger → Logger × List Op
open_loop zero i card s = (s, [])
open_loop (suc k) i card s = elim (card.stats (log_name i)) [
  | true ↦ open_loop k (i + 1) card s
  | false ↦ open_name card (log_name i) s
]

abbrev pub max_logs : ℕ
max_logs = 1000

unfoldable pub open_file : Card → Logger → Logger × List Op
open_file card s = open_loop max_logs 0 card s

unfoldable pub close_file : Logger → Logger × List Op
close_file s =
    if s.has_file
    then (record s { has_file = false; path = [] }, fclose ∷ [])
    else (record s { path = [] }, [])

-- The commas of a row.
abbrev separated : List Bytes → Bytes
separated [] = []
separated (t ∷ []) = t
separated (t ∷ u ∷ us) = t ++ (codes "," ++ separated (u ∷ us))

-- A second between the rows, and a flush every 8 of them.
abbrev flush_every : ℕ
flush_every = 8

module _ (fpu : Fpu) where
  -- `fnum` into a buffer of 16.
  abbrev fnum : F64 → ℕ → Bytes
  fnum v decimals = if is_nan64 v then [] else take 15 (fpu.f64_fmt decimals v)

  abbrev state_str : LevelerStatus → Bytes
  state_str lv =
      if not lv.have_delta
      then []
      else if ltb_ℤ (pos 0) lv.state
      then codes "CUT"
      else if ltb_ℤ lv.state (pos 0)
      then codes "FILL"
      else codes "ONGRADE"

  abbrev att_or_nan : GnssSnapshot → ℕ → F64
  att_or_nan g v = fpu.f64_of_f32 (if g.att_valid then v else nan32)

  -- The values of a row, in the order of the header.
  unfoldable pub row_text : GnssSnapshot → LevelerStatus → Bytes
  row_text g lv =
      separated (
        dec (pos g.pvt.tow_ms)
        ∷ fpu.f64_fmt 7 g.pvt.lat_deg
        ∷ fpu.f64_fmt 7 g.pvt.lon_deg
        ∷ fpu.f64_fmt 3 g.pvt.height_m
        ∷ sbf_pvt_mode_str g.pvt.mode_type
        ∷ dec (pos g.pvt.nr_sv)
        ∷ fnum (fpu.f64_of_f32 g.pvt.h_accuracy_m) 3
        ∷ fnum (fpu.f64_of_f32 g.pvt.v_accuracy_m) 3
        ∷ fnum (att_or_nan g g.att.pitch_deg) 2
        ∷ fnum (att_or_nan g g.att.roll_deg) 2
        ∷ fnum (att_or_nan g g.att.heading_deg) 1
        ∷ fnum (if lv.have_delta then lv.delta_m else nan64) 3
        ∷ state_str lv
        ∷ [])
      ++ codes "\n"

  -- Only a real fix is logged.
  unfoldable pub write_row : GnssSnapshot → LevelerStatus → Logger → Logger × List Op
  unfolding row_text
  write_row g lv s =
      let rows = u32 (s.rows + 1) in
      if not g.pvt_valid || is_nan64 g.pvt.lat_deg then (s, []) else (
        record s { rows = rows },
        fprintf (row_text g lv) ∷ (if rows % flush_every == 0 then fflush ∷ [] else []),
      )

  -- A round of `logger_task`.
  unfoldable pub logger_round : Card → GnssSnapshot → LevelerStatus → Logger → Logger × List Op
  logger_round card g lv s =
      let (s1, o1) = if s.want_logging && not s.has_file then open_file card s else (s, []) in
      let (s2, o2) = if not s1.want_logging && s1.has_file then close_file s1 else (s1, []) in
      let (s3, o3) = if s2.want_logging && s2.has_file then write_row g lv s2 else (s2, []) in
      (s3, o1 ++ (o2 ++ o3))

pub record LoggerStatus : Type 0 where
  pub mounted : Bool
  pub logging : Bool
  pub rows : ℕ
  pub path : Bytes

unfoldable pub logger_status_get : Logger → LoggerStatus
logger_status_get s = record {
  mounted = s.mounted;
  logging = s.want_logging && s.has_file;
  rows = s.rows;
  path = strlcpy s.path path_size;
}
