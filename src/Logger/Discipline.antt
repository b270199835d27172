-- ===== src/Logger/Discipline.antt =====
-- main/logger.c: how the logger uses its file.
use tab5_client.Prelude.{
  ℕ, zero, suc, ◌+◌, ◌%◌, ◌≡◌, refl, ap, ◌∙◌, ◌⊎◌, inl, inr, Bool, true, false, not, ◌&&◌, ◌||◌,
  Option, none, some, List, [], ◌∷◌, ◌++◌, arith, ltb, ◌==◌, if◌then◌else◌, Bool-cases, Bytes, u32,
}
use tab5_client.Float.{Fpu, is_nan64}
use tab5_client.Gnss.{GnssSnapshot}
use tab5_client.Leveler.Status.{LevelerStatus}
use tab5_client.Logger.{
  Op, fopen, fprintf, fflush, fclose, Logger, Card, log_name, open_loop, open_file, close_file,
  row_text, write_row, logger_round, logger_set, max_logs,
}

-- The file: closed, or open with so many texts that were not flushed since.
pub data Disk : Type 0 where
  closed : Disk
  opened : ℕ → Disk

-- What an operation does to it; `none` is an operation on a file that is not open, a second
-- open, or a ninth text without a flush. An open may fail.
abbrev pub step : Disk → Op → Option Disk
step closed (fopen p success) = some (if success then opened 0 else closed)
step closed (fprintf t) = none
step closed fflush = none
step closed fclose = none
step (opened k) (fopen p success) = none
step (opened k) (fprintf t) = if ltb k 8 then some (opened (k + 1)) else none
step (opened k) fflush = some (opened 0)
step (opened k) fclose = some closed

abbrev pub replay : Disk → List Op → Option Disk
replay d [] = some d
replay d (o ∷ os) = elim (step d o) [ some e ↦ replay e os | none ↦ none ]

-- The file as the logger's state has it: with the rows since the last eighth one.
abbrev pub disk_of : Logger → Disk
disk_of s = if s.has_file then opened (s.rows % 8) else closed

Step-cases : (o : Option Disk) → ((d : Disk) × (o ≡ some d)) ⊎ (o ≡ none)
Step-cases none = inr refl
Step-cases (some d) = inl (d, refl)

replay-append :
    (d : Disk) (xs ys : List Op) (e : Disk)
    → replay d xs ≡ some e
    → replay d (xs ++ ys) ≡ replay e ys
replay-append d [] ys e h = let q : d ≡ e = cc in rw q refl
replay-append d (o ∷ xs) ys e h = elim (Step-cases (step d o)) [
  | inl (c, t) ↦ rw (t, replay) (replay-append c xs ys e (rw (t, replay) at h))
  | inr t ↦ absurd (ground (arith, t, h))
]

open_loop-replay :
    (k i : ℕ) (card : Card) (s : Logger)
    → s.has_file ≡ false
    → let (r, os) = open_loop k i card s in (replay closed os ≡ some (disk_of r))
unfolding open_loop
open_loop-replay zero i card s h = rw h refl
open_loop-replay (suc k) i card s h = elim (Bool-cases (card.stats (log_name i))) [
  | inl t ↦ rw (t, open_loop) (open_loop-replay k (i + 1) card s h)
  | inr t ↦
      rw (t, open_loop)
        (elim (Bool-cases (card.opens (log_name i))) [ inl u ↦ rw u refl | inr u ↦ rw (u, h) refl ])
]

closed_of : (s : Logger) → s.has_file ≡ false → disk_of s ≡ closed
closed_of s h = ground arith

open_file-replay :
    (card : Card) (s : Logger)
    → s.has_file ≡ false
    → let (r, os) = open_file card s in replay (disk_of s) os ≡ some (disk_of r)
unfolding open_file
open_file-replay card s h =
    ap (λ (d : Disk). replay d (open_loop max_logs 0 card s).1) (closed_of s h)
    ∙ open_loop-replay max_logs 0 card s h

close_file-replay :
    (s : Logger)
    → s.has_file ≡ true
    → let (r, os) = close_file s in replay (disk_of s) os ≡ some (disk_of r)
unfolding close_file
close_file-replay s h = rw h refl

-- Rows are counted modulo 2^32, which 8 divides.
row-replay :
    (n : ℕ) (t : Bytes)
    → replay (opened (n % 8)) (fprintf t ∷ (if u32 (n + 1) % 8 == 0 then fflush ∷ [] else []))
      ≡ some (opened (u32 (n + 1) % 8))
row-replay n t = elim (Bool-cases (u32 (n + 1) % 8 == 0)) [
  | inl z ↦ ground (arith, z)
  | inr z ↦ ground (arith, z)
]

module _ (fpu : Fpu) where
  write_row-replay :
      (g : GnssSnapshot) (lv : LevelerStatus) (s : Logger)
      → s.has_file ≡ true
      → let (r, os) = write_row fpu g lv s in replay (disk_of s) os ≡ some (disk_of r)
  unfolding write_row
  write_row-replay g lv s h = elim (Bool-cases (not g.pvt_valid || is_nan64 g.pvt.lat_deg)) [
    | inl t ↦ rw (t, h) refl
    | inr t ↦ rw (t, h) (row-replay s.rows (row_text fpu g lv))
  ]

  -- A part of a logger_round under its condition.
  when_replay :
      (b : Bool) (s : Logger) (p : Logger × List Op)
      → (b ≡ true → replay (disk_of s) p.1 ≡ some (disk_of p.0))
      → let (r, os) = if b then p else (s, []) in replay (disk_of s) os ≡ some (disk_of r)
  when_replay true s p h = h refl
  when_replay false s p h = refl

  logger_round-replay :
      (card : Card) (g : GnssSnapshot) (lv : LevelerStatus) (s : Logger)
      → let (r, os) = logger_round fpu card g lv s in replay (disk_of s) os ≡ some (disk_of r)
  unfolding logger_round
  logger_round-replay card g lv s =
      let (s1, o1) = if s.want_logging && not s.has_file then open_file card s else (s, []) in
      let (s2, o2) = if not s1.want_logging && s1.has_file then close_file s1 else (s1, []) in
      let (s3, o3) = if s2.want_logging && s2.has_file then write_row fpu g lv s2 else (s2, []) in
      let p1 : replay (disk_of s) o1 ≡ some (disk_of s1) =
        when_replay (s.want_logging && not s.has_file) s (open_file card s)
          (λ h. open_file-replay card s (ground (arith, h))) in
      let p2 : replay (disk_of s1) o2 ≡ some (disk_of s2) =
        when_replay (not s1.want_logging && s1.has_file) s1 (close_file s1)
          (λ h. close_file-replay s1 (ground (arith, h))) in
      let p3 : replay (disk_of s2) o3 ≡ some (disk_of s3) =
        when_replay (s2.want_logging && s2.has_file) s2 (write_row fpu g lv s2)
          (λ h. write_row-replay g lv s2 (ground (arith, h))) in
      replay-append (disk_of s) o1 (o2 ++ o3) (disk_of s1) p1
      ∙ replay-append (disk_of s1) o2 o3 (disk_of s2) p2
      ∙ p3

  -- What happens to the logger after its start.
  pub data Event : Type 0 where
    set_logging : Bool → Event
    second : Card → GnssSnapshot → LevelerStatus → Event

  pub handle : Logger → Event → Logger × List Op
  handle s (set_logging on) = (logger_set on s, [])
  handle s (second card g lv) = logger_round fpu card g lv s

  pub run : Logger → List Event → Logger × List Op
  run s [] = (s, [])
  run s (e ∷ es) = let (t, os) = handle s e in let (r, ps) = run t es in (r, os ++ ps)

  -- Over any run of seconds and of requests to start or stop, the logger opens no file while one
  -- is open, writes, flushes and closes only an open one, and has written less than 8 texts since
  -- the last flush whenever a second is over.
  pub run-replay :
      (es : List Event) (s : Logger)
      → let (r, os) = run s es in replay (disk_of s) os ≡ some (disk_of r)
  unfolding run handle logger_set
  run-replay [] s = refl
  run-replay (set_logging on ∷ es) s = run-replay es (logger_set on s)
  run-replay (second card g lv ∷ es) s =
      let (t, os) = logger_round fpu card g lv s in
      replay-append (disk_of s) os (run t es).1 (disk_of t) (logger_round-replay card g lv s)
      ∙ run-replay es t
