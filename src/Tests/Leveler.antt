-- ===== src/Tests/Leveler.antt =====
-- main/leveler.c on a short survey, with arithmetic on small numbers.
use tab5_client.Prelude.{◌≡◌, refl, true, false, length}
use tab5_client.Gnss.{GnssSnapshot}
use tab5_client.Sbf.Feed.{sbf_parser_init}
use tab5_client.Cutfill.{cutfill_geo_init, cutfill_project, cutfill_survey_add_en}
use tab5_client.Fieldmap.{fieldmap_init, fieldmap_point_add, fieldmap_boundary_add}
use tab5_client.Leveler.{
  Leveler, rec_perimeter, mode_flat, leveler_boot, leveler_init, leveler_record_set,
  leveler_record_tick, add_sample, current_fix,
}
use tab5_client.Leveler.Kept.{IsLeveler}
use tab5_client.Leveler.Invariant.{switch, gate, start, step, Reachable-IsLeveler}
use tab5_client.Leveler.Recording.{Ticked, leveler_record_tick-Ticked}
use tab5_client.Tests.Sbf.{toy}

abbrev pub nowhere : GnssSnapshot
nowhere = record {
  valid_blocks = 1;
  crc_failed = 0;
  last_block_us = 5;
  pvt = sbf_parser_init.pvt;
  pvt_valid = true;
  att = sbf_parser_init.att;
  att_valid = false;
  dop = sbf_parser_init.dop;
  dop_valid = false;
  rxstatus = sbf_parser_init.rxstatus;
  rxstatus_valid = false;
}

abbrev begun : Leveler
begun = leveler_record_set (leveler_init true true leveler_boot) rec_perimeter

abbrev ticked : Leveler
ticked = leveler_record_tick toy begun nowhere

ticked_run : (ticked.points ≡ 1) × (ticked.boundary ≡ 1) × (length ticked.field.bound ≡ 1)
unfolding leveler_record_set leveler_init fieldmap_init leveler_record_tick current_fix add_sample
    cutfill_geo_init cutfill_project cutfill_survey_add_en fieldmap_point_add fieldmap_boundary_add
    sbf_parser_init
ticked_run = (refl, refl, refl)

Reachable-IsLeveler_example : IsLeveler ticked
Reachable-IsLeveler_example =
    Reachable-IsLeveler toy (step (step (start true true) (switch rec_perimeter)) (gate nowhere))

leveler_record_tick-Ticked_example : Ticked toy begun nowhere ticked
leveler_record_tick-Ticked_example = leveler_record_tick-Ticked toy begun nowhere

abbrev leveled : Leveler
leveled = record (leveler_init true true leveler_boot) {
  plane = record { a = 0; b = 0; c = 0; valid = true };
  mode = mode_flat;
}
