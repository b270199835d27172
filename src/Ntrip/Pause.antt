-- ===== src/Ntrip/Pause.antt =====
-- The pauses between the sessions of main/ntrip_client.c.
use tab5_client.Prelude.{
  ℕ, zero, suc, ◌+◌, ◌*◌, ◌^◌, ◌<◌, ◌≡◌, refl, ap, ◌∙◌, true, false, List, [], ◌∷◌, arith, ltb,
  if◌then◌else◌, length, get_or, replicate, u32,
}
use tab5_client.Nvs.{Nvs}
use tab5_client.Ntrip.{
  Ntrip, Task, Session, is_configured, backoff_min_ms, backoff_max_ms, next_backoff, creds_load,
  stream_once, ntrip_round,
}
use tab5_client.Ntrip.Stream.{forwarded, stream_once-IsSession}

-- The pauses before the first data: doubled as long as they are below 15 s, which overshoots it
-- once, and 15 s from then on.
abbrev pub pause_at : ℕ → ℕ
pause_at i = get_or (1000 ∷ 2000 ∷ 4000 ∷ 8000 ∷ 16000 ∷ []) i backoff_max_ms

abbrev pub pauses_from : ℕ → ℕ → List ℕ
pauses_from i zero = []
pauses_from i (suc n) = pause_at i ∷ pauses_from (suc i) n

pause_at-suc :
    (i : ℕ)
    → (if ltb (pause_at i) backoff_max_ms then pause_at i * 2 else backoff_max_ms)
      ≡ pause_at (suc i)
pause_at-suc zero = refl
pause_at-suc (suc zero) = refl
pause_at-suc (suc (suc zero)) = refl
pause_at-suc (suc (suc (suc zero))) = refl
pause_at-suc (suc (suc (suc (suc zero)))) = refl
pause_at-suc (suc (suc (suc (suc (suc i))))) = refl

cons_same : {x y : ℕ} {xs ys : List ℕ} → x ≡ y → xs ≡ ys → x ∷ xs ≡ y ∷ ys
cons_same {x} {y} {xs} {ys} e es = ap (◌∷ xs) e ∙ ap (◌∷◌ y) es

module _ {S : Type 0} (nvs : Nvs S) where
  -- Rounds with a caster to connect to, of which none brings data; and the pauses they make.
  pub data Outage : Task → List ℕ → Task → Type 0 where
    over : {k : Task} → Outage k [] k
    retry :
        {k k' : Task} {pauses : List ℕ} (s : S) (session : Session)
        → is_configured k.st ≡ true
        → forwarded session ≡ []
        → Outage (ntrip_round nvs s session k).0 pauses k'
        → Outage k ((ntrip_round nvs s session k).1 ∷ pauses) k'

  creds_load-kept :
      (s : S) (t : Ntrip)
      → let r = creds_load nvs s t in (r.connected ≡ t.connected) × (r.bytes_in ≡ t.bytes_in)
  unfolding creds_load
  creds_load-kept s t = ground arith

  -- A round of an outage.
  record IsRetry (k r : Task) (pause : ℕ) : Type 0 where
    paused : pause ≡ k.backoff
    disconnected : r.st.connected ≡ false
    bytes_in : r.st.bytes_in ≡ k.st.bytes_in
    backoff : r.backoff ≡ next_backoff k.backoff r.st

  ntrip_round-IsRetry :
      (s : S) (session : Session) (k : Task)
      → is_configured k.st ≡ true
      → k.st.connected ≡ false
      → k.st.bytes_in < 2 ^ 64
      → forwarded session ≡ []
      → IsRetry k (ntrip_round nvs s session k).0 (ntrip_round nvs s session k).1
  unfolding ntrip_round
  ntrip_round-IsRetry s session k c d h f =
      let (t, piped) = stream_once k.st session in
      let (off, same, v) = stream_once-IsSession k.st session d h in
      let none_piped : length piped ≡ 0 = ap length (same ∙ f) in
      let t' = record t { reconnects = u32 (t.reconnects + 1) } in
      let (kept_c, kept_b) = creds_load-kept s t' in
      rw c (record {
        paused = refl;
        disconnected = kept_c ∙ off;
        bytes_in = omega (arith, v.bytes_in, none_piped, kept_b);
        backoff = rw (kept_c, kept_b) refl;
      })

  escalates :
      {k k' : Task} {pauses : List ℕ} (i : ℕ)
      → Outage k pauses k'
      → k.st.connected ≡ false
      → k.st.bytes_in ≡ 0
      → k.backoff ≡ pause_at i
      → pauses ≡ pauses_from i (length pauses)
  escalates i over d z b = refl
  escalates {k} i (retry s session c f rest) d z b =
      let v = ntrip_round-IsRetry s session k c d (omega (arith, z)) f in
      let r = (ntrip_round nvs s session k).0 in
      let later : r.backoff ≡ pause_at (suc i) =
        v.backoff ∙ rw (v.disconnected, v.bytes_in, z, b) (pause_at-suc i) in
      cons_same (v.paused ∙ b) (escalates (suc i) rest v.disconnected (v.bytes_in ∙ z) later)

  -- As long as no data ever came since the start, the pauses between failed sessions are 1, 2, 4,
  -- 8 and 16 seconds, and then 15 seconds each.
  pub ntrip_round-pauses_from :
      {k k' : Task} {pauses : List ℕ}
      → Outage k pauses k'
      → k.st.connected ≡ false
      → k.st.bytes_in ≡ 0
      → k.backoff ≡ backoff_min_ms
      → pauses ≡ pauses_from 0 (length pauses)
  ntrip_round-pauses_from o d z b = escalates 0 o d z b

  -- Once any data has come, however long ago, every pause of a later outage is 1 second.
  pub ntrip_round-replicate :
      {k k' : Task} {pauses : List ℕ}
      → Outage k pauses k'
      → k.st.connected ≡ false
      → 0 < k.st.bytes_in
      → k.st.bytes_in < 2 ^ 64
      → k.backoff ≡ backoff_min_ms
      → pauses ≡ replicate (length pauses) backoff_min_ms
  ntrip_round-replicate over d p h b = refl
  ntrip_round-replicate {k} (retry s session c f rest) d p h b =
      let v = ntrip_round-IsRetry s session k c d h f in
      let r = (ntrip_round nvs s session k).0 in
      let some_data : ltb 0 k.st.bytes_in ≡ true = ground (arith, p) in
      let later : r.backoff ≡ backoff_min_ms =
        v.backoff ∙ rw (v.disconnected, v.bytes_in, some_data) refl in
      cons_same (v.paused ∙ b)
        (ntrip_round-replicate rest v.disconnected (rw v.bytes_in p) (rw v.bytes_in h) later)
