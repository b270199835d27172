-- ===== src/Console.antt =====
-- main/debug_console.c: the commands that change something, with what they print. A command gets
-- the words behind its name. The position that a call reads, the fuel of the volumes and whether
-- the display's lock is got are arguments, as are the names of the errors.
pub mod Commands
pub mod Joining
pub mod Credentials
use tab5_client.Str.{dec, eq_bytes}
use tab5_client.Screen.Drawing.{status_screen_show_map}
use tab5_client.Screen.{App, Drawn}
use tab5_client.Prelude.Int.{pos}
use tab5_client.Ntrip.{Ntrip}
use tab5_client.Logger.{Logger}
use tab5_client.Leveler.Demo.{leveler_demo_field}
use tab5_client.Leveler.{
  Leveler, Mode, Rec, leveler_compute_volumes, leveler_fit_balance, leveler_record_set,
  leveler_set_flat_here, leveler_survey_add_current, leveler_survey_clear, mode_balance, mode_flat,
  mode_none, rec_off, rec_perimeter, rec_survey,
}
use tab5_client.Leveler.Status.{LevelerStatus, leveler_get}
use tab5_client.Gnss.{GnssSnapshot}
use tab5_client.Float.{Fpu}
use tab5_client.Cutfill.{fitted}
use tab5_client.Prelude.{
  ℕ, ◌+◌, ◌-◌, Bool, true, false, ◌&&◌, ◌||◌, Option, none, some, List, [], ◌∷◌, ◌++◌, ltb, leb,
  ◌==◌, if◌then◌else◌, length, take, Bytes, codes,
}

-- What the commands act on; `reboots` says that the box restarts with this store.
pub record Device (S W : Type 0) : Type 0 where
  pub app : App
  pub logger : Logger
  pub ntrip : Ntrip
  pub store : S
  pub receiver : W
  pub reboots : Bool

-- What the calls of a command meet.
pub record Env : Type 0 where
  pub snapshot : GnssSnapshot
  pub fuel : ℕ
  pub locks : Bool

-- UTF-8 of the em dash.
abbrev dash : Bytes
dash = 0xE2 ∷ 0x80 ∷ 0x94 ∷ []

abbrev mode_word : Mode → Bytes
mode_word mode_none = codes "none"
mode_word mode_balance = codes "balance"
mode_word mode_flat = codes "flat"

abbrev rec_word : Rec → Bytes
rec_word rec_off = codes "off"
rec_word rec_perimeter = codes "perimeter"
rec_word rec_survey = codes "survey"

abbrev survey_usage : Bytes
survey_usage = codes "usage: survey [add|clear|fit]\n"

abbrev record_usage : Bytes
record_usage = codes "usage: record <perim|field|stop>\n"

abbrev record_help : Bytes
record_help =
    record_usage
    ++ (codes "  drive the field edge with 'perim' (traces boundary + cloud),\n"
        ++ codes "  drive interior passes with 'field' (cloud only), then 'stop'.\n")

-- The buffer of a command to the receiver.
abbrev cmd_size : ℕ
cmd_size = 224

-- The loop of `cmd_mosaic`, with the text so far and `pos`; the first word has no space before it.
unfoldable pub join_loop : Bool → List Bytes → Bytes → ℕ → Bytes
join_loop first [] cmd at = cmd
join_loop first (word ∷ words) cmd at =
    let piece = if first then word else 32 ∷ word in
    let rest = join_loop false words (cmd ++ take (cmd_size - at - 1) piece) (at + length piece) in
    if ltb at (cmd_size - 1) then rest else cmd

-- Of a reply, what the console shows.
abbrev shown_byte : ℕ → ℕ
shown_byte c = if c == 13 || c == 10 || leb 0x20 c && ltb c 0x7F then c else 46

abbrev no_volumes : Bytes
no_volumes =
    codes "cannot compute "
    ++ (dash
        ++ codes
            " need a plane (survey fit / flat), a boundary (record perim), and survey points\n")

abbrev demo_text : Bytes
demo_text =
    codes "synthetic 60x40 m field loaded (boundary + cloud + balance plane).\n"
    ++ codes "run 'screen map' to view it.\n"

module _ (fpu : Fpu) where
  abbrev volumes_text : LevelerStatus → Bytes
  volumes_text s =
      codes "volumes vs plane: cut="
      ++ (fpu.f64_fmt 1 s.cut_m3
          ++ (codes "  fill="
              ++ (fpu.f64_fmt 1 s.fill_m3
                  ++ (codes "  net="
                      ++ (fpu.f64_fmt 1 s.net_m3
                          ++ (codes " m3   area="
                              ++ (fpu.f64_fmt 0 s.area_m2 ++ codes " m2\n")))))))

module _ (fpu : Fpu) {S W : Type 0} where
  abbrev put_leveler : Device S W → Leveler → Device S W
  put_leveler d l = record d { app = record d.app { leveler = l } }

  abbrev survey_status : Env → Device S W → Bytes
  survey_status env d =
      let s = leveler_get fpu d.app.leveler env.snapshot in
      codes "survey points="
      ++ (dec (pos s.survey_points)
          ++ (codes "  boundary="
              ++ (dec (pos s.boundary_pts)
                  ++ (codes "  area="
                      ++ (fpu.f64_fmt 0 s.area_m2
                          ++ (codes " m2  origin="
                              ++ ((if s.has_origin then codes "1" else codes "0")
                                  ++ (codes "  mode="
                                      ++ (mode_word s.mode
                                          ++ (codes "  rec="
                                              ++ (rec_word s.rec ++ codes "\n")))))))))))

  unfoldable pub cmd_survey : Env → Device S W → List Bytes → Device S W × Bytes
  cmd_survey env d [] = (d, survey_status env d)
  cmd_survey env d (word ∷ words) =
      let (added, ok) = leveler_survey_add_current fpu d.app.leveler env.snapshot in
      let (fitted, enough) = leveler_fit_balance fpu d.app.leveler in
      if eq_bytes word (codes "add")
      then (put_leveler d added, if ok then codes "point added\n" else codes "no usable fix yet\n")
      else if eq_bytes word (codes "clear")
      then (put_leveler d (leveler_survey_clear d.app.leveler), codes "survey + plane cleared\n")
      else if eq_bytes word (codes "fit")
      then (
        put_leveler d fitted,
        if enough
            then codes "balance plane fitted (cut ~= fill)\n"
            else codes "need >= 3 survey points\n",
      )
      else (d, survey_usage)

  unfoldable pub cmd_record : Device S W → List Bytes → Device S W × Bytes
  cmd_record d [] = (d, record_help)
  cmd_record d (word ∷ words) =
      if eq_bytes word (codes "perim")
      then (
        put_leveler d (leveler_record_set d.app.leveler rec_perimeter),
        codes "recording PERIMETER "
            ++ (dash ++ codes " drive the field edge, then 'record stop'\n"),
      )
      else if eq_bytes word (codes "field")
      then (
        put_leveler d (leveler_record_set d.app.leveler rec_survey),
        codes "recording SURVEY " ++ (dash ++ codes " drive interior passes, then 'record stop'\n"),
      )
      else if eq_bytes word (codes "stop")
      then (put_leveler d (leveler_record_set d.app.leveler rec_off), codes "recording stopped\n")
      else (d, record_usage)

  abbrev show_volumes : Env → Device S W → Option (Leveler × Bool) → Option (Device S W × Bytes)
  show_volumes env d none = none
  show_volumes env d (some (l, ok)) = some (
    put_leveler d l,
    if ok then volumes_text fpu (leveler_get fpu l env.snapshot) else no_volumes,
  )

  unfoldable pub cmd_vol : Env → Device S W → Option (Device S W × Bytes)
  cmd_vol env d = show_volumes env d (leveler_compute_volumes fpu env.fuel d.app.leveler)

  abbrev shown_app : Device S W → Bytes → Option (App × Drawn) → Option (Device S W × Bytes)
  shown_app d text none = none
  shown_app d text (some (a, drawn)) = some (record d { app = a }, text)

  unfoldable pub cmd_screen : Env → Device S W → List Bytes → Option (Device S W × Bytes)
  cmd_screen env d [] = some (d, codes "usage: screen <work|map>\n")
  cmd_screen env d (word ∷ words) =
      if eq_bytes word (codes "map")
      then shown_app d (codes "showing field map\n")
          (status_screen_show_map fpu env.fuel env.locks true d.app)
      else if eq_bytes word (codes "work")
      then shown_app d (codes "showing leveler work screen\n")
          (status_screen_show_map fpu env.fuel env.locks false d.app)
      else some (d, codes "usage: screen <work|map>\n")

  abbrev show_demo : Device S W → Option Leveler → Option (Device S W × Bytes)
  show_demo d none = none
  show_demo d (some l) = some (put_leveler d l, demo_text)

  unfoldable pub cmd_demofield : Env → Device S W → Option (Device S W × Bytes)
  cmd_demofield env d = show_demo d (leveler_demo_field fpu env.fuel d.app.leveler)

  unfoldable pub cmd_flat : Env → Device S W → Device S W × Bytes
  cmd_flat env d =
      let (l, ok) = leveler_set_flat_here fpu d.app.leveler env.snapshot in
      (
        put_leveler d l,
        if ok then codes "flat target set at current height\n" else codes "no usable fix yet\n",
      )
