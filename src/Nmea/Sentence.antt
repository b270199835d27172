-- ===== src/Nmea/Sentence.antt =====
-- A whole GSV sentence of main/nmea_source.c, from the bytes on the wire to the satellite table.
use tab5_client.Prelude.{
  ℕ, ◌+◌, ◌≤◌, ◌<◌, ◌≡◌, ap, ◌∙◌, true, [], ◌∷◌, ◌++◌, arith, length, get_or, drop, Bytes, u32,
  codes,
}
use tab5_client.Float.{Fpu}
use tab5_client.Str.{is_prefix, strlcpy}
use tab5_client.Nmea.{
  NmeaSource, is_sentence, line_size, nmea_max_sats, talker_of, parse_gsv, nmea_data_cb,
}
use tab5_client.Nmea.Fields.{
  NoNul, c_str_lem, until_star, split_commas, commas, read_fields, process_line-read_fields,
}
use tab5_client.Nmea.Sky.{lookup, last_report, slots, gsv_loop-lookup}
use tab5_client.Nmea.Lines.{NoEol, nmea_data_cb-process_line}

-- What a GSV line looks like: it fits the buffers, and GSV follows the talker in its address.
pub record IsGsv (line : Bytes) : Type 0 where
  pub no_nul : NoNul line
  pub no_eol : NoEol line
  pub sentence : is_sentence line ≡ true
  pub fits : length line < line_size
  pub few : commas (until_star line) < 39
  pub address : 3 ≤ length (get_or (split_commas (until_star line)) 0 [])
  pub gsv : is_prefix (codes "GSV") (drop 3 (get_or (split_commas (until_star line)) 0 [])) ≡ true

-- A GSV line that arrives between lines, ended by CR and LF, is read as its fields say: every
-- satellite's last report is then the last one of the line, or the one from before; the table must
-- have room for as many satellites as the line has slots.
pub nmea_data_cb-lookup :
    (fpu : Fpu) (s : NmeaSource) (line : Bytes) (t n : ℕ)
    → s.line ≡ []
    → IsGsv line
    → length s.st.sats + slots (drop 4 (split_commas (until_star line))) ≤ nmea_max_sats
    → let fs = split_commas (until_star line) in
      lookup t n (nmea_data_cb fpu s (line ++ 13 ∷ 10 ∷ [])).st.sats
      ≡ last_report (talker_of (get_or fs 0 [])) t n (drop 4 fs) (lookup t n s.st.sats)
unfolding read_fields parse_gsv
nmea_data_cb-lookup fpu s line t n i v room =
    let fs = split_commas (until_star line) in
    let st = record s.st { bytes = u32 (s.st.bytes + length line + 2) } in
    let read = process_line-read_fields fpu st line v.no_nul v.sentence v.few v.address in
    let st' = record st {
      last_line = strlcpy line 96;
      gsv_sentences = u32 (st.gsv_sentences + 1);
    } in
    ap (λ q. lookup t n q.st.sats)
      (nmea_data_cb-process_line fpu s line i v.no_eol (ground (arith, v.sentence)) v.fits)
    ∙ rw (c_str_lem line v.no_nul, read, v.gsv)
        (gsv_loop-lookup (talker_of (get_or fs 0 [])) t n (drop 4 fs) st' room)
