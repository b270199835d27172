-- ===== src/Tests/Nmea.antt =====
-- main/nmea_source.c on a short stream.
use tab5_client.Prelude.{◌-◌, ◌^◌, ◌≡◌, refl, true, none, [], ◌∷◌, ◌++◌, arith, drop, Bytes, codes}
use tab5_client.Prelude.Int.{pos, negsuc}
use tab5_client.Str.{atoi}
use tab5_client.Nmea.{
  Sat, NmeaSource, split_fields, talker_of, sat_upsert, upsert, gsv_loop, process_line,
  nmea_data_cb, data_loop, take_byte, dispatch, parse_gsv, split_from, mark,
}
use tab5_client.Nmea.Fields.{until_star, split_commas}
use tab5_client.Nmea.Sky.{IsSky, lookup, last_report, nmea_data_cb-IsSky}
use tab5_client.Nmea.Sentence.{IsGsv, nmea_data_cb-lookup}
use tab5_client.Tests.Sbf.{toy}

abbrev quiet : NmeaSource
quiet = record {
  st = record {
    itf_open = true;
    bytes = 0;
    gsv_sentences = 0;
    gga_sentences = 0;
    sats = [];
    last_line = [];
    lat = 0;
    lon = 0;
    fix_quality = pos 0;
    gga_sats = pos 0;
  };
  line = [];
}

abbrev gsv : Bytes
gsv = codes "$GPGSV,1,1,02,07,45,120,38,11,,,*72"

abbrev line_end : Bytes
line_end = 13 ∷ 10 ∷ []

abbrev sv07 : Sat
sv07 = record { talker = 71; prn = 7; elev = pos 45; azim = pos 120; cn0 = pos 38 }

abbrev sv11 : Sat
sv11 = record { talker = 71; prn = 11; elev = negsuc 0; azim = negsuc 0; cn0 = negsuc 0 }

gsv_run : (nmea_data_cb toy quiet (gsv ++ line_end)).st.sats ≡ sv07 ∷ sv11 ∷ []
unfolding nmea_data_cb data_loop take_byte process_line dispatch parse_gsv gsv_loop sat_upsert
    upsert split_fields split_from mark talker_of atoi
gsv_run = refl

numbers : (atoi (codes " -12x") ≡ negsuc 11) × (atoi (codes "99999999999") ≡ pos (2 ^ 31 - 1))
unfolding atoi
numbers = (refl, refl)

quiet-IsSky : IsSky quiet.st.sats
quiet-IsSky = record { table = tt; small = omega arith }

gsv-IsGsv : IsGsv gsv
gsv-IsGsv = record {
  no_nul = ground arith;
  no_eol = ground arith;
  sentence = refl;
  fits = omega arith;
  few = omega arith;
  address = omega arith;
  gsv = refl;
}

nmea_data_cb-lookup_example :
    lookup 71 11 (nmea_data_cb toy quiet (gsv ++ line_end)).st.sats
    ≡ last_report 71 71 11 (drop 4 (split_commas (until_star gsv))) none
unfolding talker_of
nmea_data_cb-lookup_example = nmea_data_cb-lookup toy quiet gsv 71 11 refl gsv-IsGsv (omega arith)

nmea_data_cb-IsSky_example : IsSky (nmea_data_cb toy quiet (gsv ++ line_end)).st.sats
nmea_data_cb-IsSky_example = nmea_data_cb-IsSky toy quiet (gsv ++ line_end) quiet-IsSky
