-- ===== src/Usb/Sweep.antt =====
-- What the sweep of main/usb_cdc_source.c keeps to.
use tab5_client.Prelude.{
  ℕ, zero, suc, ◌+◌, ◌/◌, ◌≤◌, ◌<◌, ◌≡◌, refl, sym, ◌⊎◌, inl, inr, Bool, true, false, not, ◌&&◌,
  ◌||◌, arith, ltb, leb, if◌then◌else◌, Bool-cases, if-both, length,
}
use tab5_client.Mosaic.{EspErr}
use tab5_client.Usb.{
  mosaic_sweep_dwell_ms, Usb, usb_start, mosaic_com_itfs, mosaic_open_retries, Dwell, disconnected,
  streaming, quiet, dwell_loop, open_done, after_dwell, cdc_round, is_ok,
}

-- Between rounds nothing is open, the interface exists, and fewer opens failed than make it hop.
pub record IsIdle (u : Usb) : Type 0 where
  pub no_cdc : u.has_cdc ≡ false
  pub closed : u.cdc_open ≡ false
  pub in_range : u.sweep < length mosaic_com_itfs
  pub few_fails : u.open_fails < mosaic_open_retries

pub usb_start-IsIdle : IsIdle usb_start
unfolding usb_start
usb_start-IsIdle = ground arith

-- Valid blocks came during a wait: at some round the count was above the base, and up to then
-- nobody had unplugged the receiver.
pub record Latched (rounds i : ℕ) (seen : ℕ → Bool × ℕ) (base : ℕ) : Type 0 where
  pub at : ℕ
  pub in_time : at < i + rounds
  pub advanced : base < (seen at).1
  pub in_order : i ≤ at
  pub plugged : (j : ℕ) → i ≤ j → j ≤ at → (seen j).0 ≡ false

dwell_loop-streaming :
    (rounds i : ℕ) (seen : ℕ → Bool × ℕ) (base : ℕ)
    → dwell_loop rounds i seen base ≡ streaming
    → Latched rounds i seen base
unfolding dwell_loop
dwell_loop-streaming zero i seen base h = absurd (ground (arith, h))
dwell_loop-streaming (suc rounds) i seen base h = elim (Bool-cases (seen i).0) [
  | inl gone ↦ absurd (ground (arith, gone, h))
  | inr plugged ↦ elim (Bool-cases (ltb base (seen i).1)) [
    | inl advanced ↦ record {
      at = i;
      in_time = omega arith;
      advanced = ground (arith, advanced);
      in_order = omega arith;
      plugged = λ j l h. let same : i ≡ j = omega (arith, l, h) in rw (sym same) plugged;
    }
    | inr not_yet ↦
        let v =
          dwell_loop-streaming rounds (i + 1) seen base (ground (arith, plugged, not_yet, h)) in
        record {
          at = v.at;
          in_time = omega (arith, v.in_time);
          advanced = v.advanced;
          in_order = omega (arith, v.in_order);
          plugged = λ j l h. elim (Bool-cases (leb (i + 1) j)) [
            | inl later ↦ v.plugged j (ground (arith, later)) h
            | inr now ↦ let same : i ≡ j = ground (arith, now, l) in rw (sym same) plugged
          ];
        }
  ]
]

after_dwell-IsIdle :
    (u : Usb) (w : Dwell) → u.open_fails < mosaic_open_retries → IsIdle (after_dwell u w)
unfolding after_dwell
after_dwell-IsIdle u disconnected h = ground arith
after_dwell-IsIdle u streaming h = ground arith
after_dwell-IsIdle u quiet h = ground arith

after_dwell-stream_itf :
    (u : Usb) (w : Dwell) → (w ≡ streaming) ⊎ ((after_dwell u w).stream_itf ≡ u.stream_itf)
unfolding after_dwell
after_dwell-stream_itf u disconnected = inr refl
after_dwell-stream_itf u streaming = inl refl
after_dwell-stream_itf u quiet = inr refl

-- A round of the sweep ends with nothing open, the next interface in range and fewer than three
-- failed opens on record; and it only records the interface as the streaming one if it opened and,
-- within 15 seconds and before any disconnect, the parser's count of valid blocks advanced.
pub cdc_round-IsIdle :
    (u : Usb) (opens : Bool) (err : EspErr) (base : ℕ) (seen : ℕ → Bool × ℕ)
    → IsIdle u
    → let r = cdc_round u opens err base seen in
      IsIdle r × ((r.stream_itf ≡ u.stream_itf) ⊎ ((opens ≡ true) × Latched 60 0 seen base))
unfolding cdc_round
cdc_round-IsIdle u true err base seen v =
    let o = open_done u in
    let here = not o.provisioned && is_ok err in
    let p = record o { provisioned = o.provisioned || here } in
    let rounds = (if here then 15000 else mosaic_sweep_dwell_ms) / 250 in
    let most : rounds ≤ 60 = if-both (λ n. n / 250 ≤ 60) here (omega arith) (omega arith) in
    let w = dwell_loop rounds 0 seen base in
    (
      after_dwell-IsIdle p w (omega arith),
      elim (after_dwell-stream_itf p w) [
        | inl e ↦
            let l = dwell_loop-streaming rounds 0 seen base e in
            inr (
              refl,
              record {
                at = l.at;
                in_time = omega (arith, l.in_time, most);
                advanced = l.advanced;
                in_order = l.in_order;
                plugged = l.plugged;
              },
            )
        | inr e ↦ inl e
      ],
    )
cdc_round-IsIdle u false err base seen v = (
  ground arith,
  inl (
      if-both (λ (r : Usb). r.stream_itf ≡ u.stream_itf)
        (leb mosaic_open_retries (u.open_fails + 1)) refl refl),
)
