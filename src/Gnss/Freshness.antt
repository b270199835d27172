-- ===== src/Gnss/Freshness.antt =====
-- What the readers of main/gnss_state.c are told, and how fresh it is.
use tab5_client.Prelude.{
  ℕ, ◌+◌, ◌<◌, ◌≡◌, ◌⊎◌, inl, inr, true, false, arith, ltb, ◌==◌, if◌then◌else◌, Bool-cases, Bytes,
}
use tab5_client.Float.{Fpu}
use tab5_client.Sbf.Blocks.{read_pvtgeodetic, read_atteuler, read_dop, read_receiverstatus}
use tab5_client.Sbf.Feed.{sbf_parser_feed}
use tab5_client.Sbf.Feed.Rule.{input_of}
use tab5_client.Sbf.Feed.Waiting.{IsWaiting}
use tab5_client.Sbf.Feed.Provenance.{IsSourced, sbf_parser_feed-Sourced}
use tab5_client.Gnss.{
  GnssState, GnssSnapshot, gnss_state_feed, gnss_state_snapshot, gnss_state_fresh,
}

feed-is_locked :
    (fpu : Fpu) (s : GnssState) (bytes : Bytes) (now : ℕ)
    → s.has_lock ≡ true
    → let (p, decoded) = sbf_parser_feed fpu s.parser bytes in
      gnss_state_feed fpu s bytes now ≡ (
        record s { parser = p; last_block_us = if ltb 0 decoded then now else s.last_block_us },
        decoded,
      )
unfolding gnss_state_feed
feed-is_locked fpu s bytes now l = simp l

-- After a feed at a time after boot, the receiver counts as fresh for exactly max_age_us if the
-- call decoded a block and otherwise as before, both only after gnss_state_init; before it a call
-- changes nothing and decodes nothing.
pub gnss_state_feed-fresh :
    (fpu : Fpu) (s : GnssState) (bytes : Bytes) (now age later : ℕ)
    → 0 < now
    → let (r, decoded) = gnss_state_feed fpu s bytes now in
      ((s.has_lock ≡ false) × (decoded ≡ 0) × (r ≡ s))
      ⊎ ((s.has_lock ≡ true)
          × (decoded ≡ 0)
          × (gnss_state_fresh r age later ≡ gnss_state_fresh s age later))
      ⊎ ((s.has_lock ≡ true)
          × (0 < decoded)
          × (gnss_state_fresh r age later ≡ ltb later (now + age)))
unfolding gnss_state_feed gnss_state_fresh
gnss_state_feed-fresh fpu s bytes now age later h =
    let d = (sbf_parser_feed fpu s.parser bytes).1 in
    elim (Bool-cases s.has_lock) [
      | inr l ↦ inl (l, simp l, simp l)
      | inl l ↦ elim (Bool-cases (ltb 0 d)) [
        | inl p ↦
            let set_ : (now == 0) ≡ false = ground arith in
            let some_ : 0 < d = ground arith in inr (inr (l, simp l some_, simp (l, p, set_)))
        | inr p ↦ let none_ : d ≡ 0 = ground arith in inr (inl (l, simp l none_, simp (l, p)))
      ]
    ]

-- What a reader sees after a call, against what it saw before.
pub record SnapshotSourced (fpu : Fpu) (input : Bytes) (a b : GnssSnapshot) : Type 0 where
  pub pvt : IsSourced input 4007 94 (read_pvtgeodetic fpu) a.pvt a.pvt_valid b.pvt b.pvt_valid
  pub att : IsSourced input 5938 32 read_atteuler a.att a.att_valid b.att b.att_valid
  pub dop : IsSourced input 4001 32 (read_dop fpu) a.dop a.dop_valid b.dop b.dop_valid
  pub rxstatus :
      IsSourced input 4014 32 read_receiverstatus a.rxstatus a.rxstatus_valid b.rxstatus
        b.rxstatus_valid

-- After `gnss_state_init`, a snapshot taken after a call of `gnss_state_feed` on a parser that holds
-- less than a block shows each block as the snapshot before it did, or as read from a block of its
-- number that stands in the input, with sync, sane length and matching CRC.
pub gnss_state_snapshot-Sourced :
    (fpu : Fpu) (s : GnssState) (bytes : Bytes) (now : ℕ)
    → s.has_lock ≡ true
    → IsWaiting s.parser
    → SnapshotSourced fpu
        (input_of s.parser bytes)
        (gnss_state_snapshot s)
        (gnss_state_snapshot (gnss_state_feed fpu s bytes now).0)
unfolding gnss_state_snapshot
gnss_state_snapshot-Sourced fpu s bytes now l waiting =
    let v = sbf_parser_feed-Sourced fpu s.parser bytes waiting in
    rw (feed-is_locked fpu s bytes now l, l)
      (record { pvt = v.pvt; att = v.att; dop = v.dop; rxstatus = v.rxstatus })
