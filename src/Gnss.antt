-- ===== src/Gnss.antt =====
-- main/gnss_state.c and main/gnss_state.h: the shared receiver state. Every access to the
-- parser runs under one mutex, so a call is one step here; `now` is what `esp_timer_get_time`
-- returns, in microseconds since boot.
pub mod Freshness
use tab5_client.Prelude.{ℕ, ◌+◌, Bool, false, not, ◌||◌, ltb, ◌==◌, if◌then◌else◌, Bytes}
use tab5_client.Float.{Fpu}
use tab5_client.Sbf.Blocks.{PvtGeodetic, AttEuler, Dop, ReceiverStatus, Parser}
use tab5_client.Sbf.Feed.{sbf_parser_init, sbf_parser_feed, no_pvt, no_att, no_dop, no_rxstatus}

-- `has_lock` is `s_lock != NULL`.
pub record GnssState : Type 0 where
  pub parser : Parser
  pub has_lock : Bool
  pub last_block_us : ℕ

pub record GnssSnapshot : Type 0 where
  pub valid_blocks : ℕ
  pub crc_failed : ℕ
  pub last_block_us : ℕ
  pub pvt : PvtGeodetic
  pub pvt_valid : Bool
  pub att : AttEuler
  pub att_valid : Bool
  pub dop : Dop
  pub dop_valid : Bool
  pub rxstatus : ReceiverStatus
  pub rxstatus_valid : Bool

-- Before `gnss_state_init`: static storage.
unfoldable pub gnss_state_boot : GnssState
unfolding sbf_parser_init
gnss_state_boot = record { parser = sbf_parser_init; has_lock = false; last_block_us = 0 }

-- `created`: whether `xSemaphoreCreateMutex` finds memory.
unfoldable pub gnss_state_init : Bool → GnssState → GnssState
unfolding sbf_parser_init
gnss_state_init created s = record {
  parser = sbf_parser_init;
  has_lock = s.has_lock || created;
  last_block_us = 0;
}

unfoldable pub gnss_state_feed : Fpu → GnssState → Bytes → ℕ → GnssState × ℕ
gnss_state_feed fpu s bytes now =
    if not s.has_lock
    then (s, 0)
    else (let (p, decoded) = sbf_parser_feed fpu s.parser bytes in
        (
          record s { parser = p; last_block_us = if ltb 0 decoded then now else s.last_block_us },
          decoded,
        ))

abbrev empty_snapshot : GnssSnapshot
empty_snapshot = record {
  valid_blocks = 0;
  crc_failed = 0;
  last_block_us = 0;
  pvt = no_pvt;
  pvt_valid = false;
  att = no_att;
  att_valid = false;
  dop = no_dop;
  dop_valid = false;
  rxstatus = no_rxstatus;
  rxstatus_valid = false;
}

unfoldable pub gnss_state_snapshot : GnssState → GnssSnapshot
gnss_state_snapshot s = if not s.has_lock then empty_snapshot else record {
  valid_blocks = s.parser.valid_blocks;
  crc_failed = s.parser.crc_failed;
  last_block_us = s.last_block_us;
  pvt = s.parser.pvt;
  pvt_valid = s.parser.pvt_valid;
  att = s.parser.att;
  att_valid = s.parser.att_valid;
  dop = s.parser.dop;
  dop_valid = s.parser.dop_valid;
  rxstatus = s.parser.rxstatus;
  rxstatus_valid = s.parser.rxstatus_valid;
}

unfoldable pub gnss_state_valid_blocks : GnssState → ℕ
gnss_state_valid_blocks s = s.parser.valid_blocks

unfoldable pub gnss_state_last_block_us : GnssState → ℕ
gnss_state_last_block_us s = s.last_block_us

-- `(now - last) < max_age_us` in signed arithmetic, with no overflow at times since boot.
unfoldable pub gnss_state_fresh : GnssState → ℕ → ℕ → Bool
gnss_state_fresh s max_age_us now =
    if s.last_block_us == 0 then false else ltb now (s.last_block_us + max_age_us)
