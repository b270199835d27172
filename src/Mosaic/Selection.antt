-- ===== src/Mosaic/Selection.antt =====
-- The NMEA command of main/mosaic_config.c names the operator's messages, and none is cut off.
use tab5_client.Prelude.{
  ℕ, zero, suc, ◌+◌, ◌-◌, ◌*◌, ◌≤◌, ◌<◌, bit_and, ◌≡◌, refl, sym, ap, ◌∙◌, inl, inr, Bool, true,
  false, not, ◌&&◌, List, [], ◌∷◌, ◌++◌, arith, ltb, ◌==◌, if◌then◌else◌, Bool-cases, length,
  get_or, take, length-append, take-all, Bytes, codes,
}
use tab5_client.Mosaic.{com_port, nmea_rate_off}
use tab5_client.Mosaic.Commands.{
  nmea_msgs_tbl, nmea_rate_cmd, list_loop, plus, output_cmd, none_cmd, piece, build_nmea_cmd,
}

-- The names whose bit is set, in the order of the table.
abbrev pub selected : List (ℕ × Bytes) → ℕ → List Bytes
selected [] msgs = []
selected ((bit, name) ∷ rest) msgs =
    if bit_and msgs bit == 0 then selected rest msgs else name ∷ selected rest msgs

-- `list` with names added, a plus between any two.
abbrev pub joined : Bytes → List Bytes → Bytes
joined list [] = list
joined list (n ∷ ns) = joined (if length list == 0 then n else list ++ (plus ++ n)) ns

-- Names of three letters.
abbrev AllShort : List (ℕ × Bytes) → Type 0
AllShort [] = Unit
AllShort ((bit, name) ∷ rest) = (length name ≡ 3) × AllShort rest

list-piece :
    (list name : Bytes)
    → list ++ piece (length list) name ≡ (if length list == 0 then name else list ++ (plus ++ name))
list-piece [] name = refl
list-piece (c ∷ list) name = ground arith

length-piece : (pos : ℕ) (name : Bytes) → length name ≡ 3 → length (piece pos name) ≤ 4
length-piece pos name h = ground (arith, h)

list_loop-joined :
    (tbl : List (ℕ × Bytes)) (msgs : ℕ) (list : Bytes)
    → AllShort tbl
    → length list + 4 * length tbl < 64
    → (list_loop tbl msgs list (length list) ≡ joined list (selected tbl msgs))
      × (length (joined list (selected tbl msgs)) ≤ length list + 4 * length tbl)
unfolding list_loop
list_loop-joined [] msgs list a h = (refl, omega arith)
list_loop-joined ((bit, name) ∷ rest) msgs list (n, a) h =
    let p = piece (length list) name in
    let short = length-piece (length list) name n in
    let longer = length-append list p in
    elim (Bool-cases (bit_and msgs bit == 0)) [
      | inl z ↦
          let (e, l) = list_loop-joined rest msgs list a (omega arith) in
          (rw z e, rw z (omega (arith, l)))
      | inr z ↦
          let (e, l) = list_loop-joined rest msgs (list ++ p) a (omega (arith, longer, short, h)) in
          let whole : take (64 - length list - 1) p ≡ p =
            take-all (64 - length list - 1) p (omega (arith, short, h)) in
          let same = ap (λ w. joined w (selected rest msgs)) (list-piece list name) in
          (rw (z, whole, sym longer) (e ∙ same), rw (z, sym same) (omega (arith, l, longer, short)))
    ]

AllShort-tbl : AllShort nmea_msgs_tbl
AllShort-tbl = (refl, (refl, (refl, (refl, (refl, (refl, tt))))))

length-output_cmd : (port : ℕ) → length (output_cmd (com_port port)) ≡ 28
length-output_cmd zero = refl
length-output_cmd (suc n) = refl

length-rate_cmd : (rate : ℕ) → length (get_or nmea_rate_cmd rate []) ≤ 7
length-rate_cmd zero = omega arith
length-rate_cmd (suc zero) = omega arith
length-rate_cmd (suc (suc zero)) = omega arith
length-rate_cmd (suc (suc (suc zero))) = omega arith
length-rate_cmd (suc (suc (suc (suc zero)))) = omega arith
length-rate_cmd (suc (suc (suc (suc (suc n))))) = omega arith

-- For an enabled port with messages and a selectable rate, the command of 160 bytes at most names
-- the port's stream, the port, exactly the selected messages, joined by plus signs, and the rate;
-- nothing is cut off. For any other settings it is the command that switches the output off.
pub build_nmea_cmd-selected :
    (port : ℕ) (enabled : Bool) (msgs rate : ℕ)
    → let p = com_port port in
      build_nmea_cmd port enabled msgs rate 160 ≡ (
        if enabled && not (msgs == 0) && ltb rate nmea_rate_off
        then (
          output_cmd p
              ++ codes ", "
              ++ joined [] (selected nmea_msgs_tbl msgs)
              ++ codes ", "
              ++ get_or nmea_rate_cmd rate [],
          true,
        )
        else (none_cmd p, false))
unfolding build_nmea_cmd
build_nmea_cmd-selected port enabled msgs rate =
    let p = com_port port in
    let (e, l) = list_loop-joined nmea_msgs_tbl msgs [] AllShort-tbl (omega arith) in
    let head = output_cmd p ++ codes ", " in
    let names = joined [] (selected nmea_msgs_tbl msgs) in
    let tail = get_or nmea_rate_cmd rate [] in
    let whole : take 159 (head ++ names ++ codes ", " ++ tail)
        ≡ head ++ names ++ codes ", " ++ tail =
      take-all 159 (head ++ names ++ codes ", " ++ tail) (
        omega (
          arith,
          l,
          length-output_cmd port,
          length-rate_cmd rate,
          length-append (output_cmd p) (codes ", "),
          length-append head names,
          length-append (head ++ names) (codes ", "),
          length-append (head ++ names ++ codes ", ") tail,
        )) in
    let off : take 159 (none_cmd p) ≡ none_cmd p =
      take-all 159 (none_cmd p)
        (omega (arith, length-output_cmd port, length-append (output_cmd p) (codes ", none"))) in
    rw (e, whole, off) (ground arith)
