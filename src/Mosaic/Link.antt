-- ===== src/Mosaic/Link.antt =====
-- Acknowledged sending in main/mosaic_config.c, over the command channel of
-- main/usb_cdc_source.c.
use tab5_client.Prelude.{
  ℕ, zero, suc, ◌≤◌, ◌<◌, ◌≡◌, refl, ap, ◌∙◌, ◌⊎◌, inl, inr, ◌&&◌, List, [], ◌∷◌, ◌++◌,
  append_assoc, arith, ltb, if◌then◌else◌, length, replicate, Bytes, codes,
}
use tab5_client.Mosaic.{EspErr, esp_ok, esp_fail, esp_err_invalid_state, esp_err_timeout}
use tab5_client.Mosaic.Commands.{buf_contains}

-- What the channel offers: sending a command, with the reply's bytes, in a world `W` that keeps
-- the commands sent.
pub record Link (W : Type 0) : Type 0 where
  pub usb_cdc_send_command : W → Bytes → W × EspErr × Bytes
  pub sent : W → List Bytes
  pub sent_lem : (w : W) (cmd : Bytes) → sent (usb_cdc_send_command w cmd).0 ≡ sent w ++ cmd ∷ []

-- What one reply settles.
pub data Answer : Type 0 where
  settled : EspErr → Answer
  again : EspErr → Answer

abbrev pub rejects : Bytes
rejects = codes "$R?"

abbrev pub acks : Bytes
acks = codes "$R:"

abbrev pub answer : EspErr → Bytes → Answer
answer esp_err_invalid_state reply = settled esp_err_invalid_state
answer esp_ok reply =
    if ltb 0 (length reply) && buf_contains reply rejects
    then settled esp_fail
    else if ltb 0 (length reply) && buf_contains reply acks
    then settled esp_ok
    else again esp_ok
answer err reply = again err

module _ {W : Type 0} (link : Link W) where
  abbrev pub send : W → Bytes → W × EspErr × Bytes
  send = link.usb_cdc_send_command

  -- The loop of `send_acked`, with `last`.
  unfoldable pub send_loop : ℕ → W → Bytes → EspErr → W × EspErr
  send_loop zero w cmd last = (w, last)
  send_loop (suc tries) w cmd last =
      let (w', err, reply) = send w cmd in
      elim (answer err reply) [ settled result ↦ (w', result) | again e ↦ send_loop tries w' cmd e ]

  unfoldable pub send_acked : W → Bytes → ℕ → W × EspErr
  send_acked w cmd tries = send_loop tries w cmd esp_err_timeout

  -- Between `w` and `w'` the command was sent once or more, at most `most` times, and no other.
  pub record Sends (cmd : Bytes) (most : ℕ) (w w' : W) : Type 0 where
    pub times : ℕ
    pub once : 0 < times
    pub bounded : times ≤ most
    pub log : link.sent w' ≡ link.sent w ++ replicate times cmd

  once-Sends : (cmd : Bytes) (most : ℕ) (w : W) → Sends cmd (suc most) w (send w cmd).0
  once-Sends cmd most w = record {
    times = 1;
    once = omega arith;
    bounded = omega arith;
    log = link.sent_lem w cmd;
  }

  more-Sends :
      {cmd : Bytes} {most : ℕ} {w w' : W}
      → Sends cmd most (send w cmd).0 w'
      → Sends cmd (suc most) w w'
  more-Sends {cmd} {most} {w} {w'} v = record {
    times = suc v.times;
    once = omega arith;
    bounded = omega (arith, v.bounded);
    log =
        v.log
        ∙ ap (◌++ replicate v.times cmd) (link.sent_lem w cmd)
        ∙ append_assoc (link.sent w) (cmd ∷ []) (replicate v.times cmd);
  }

  answer-cases : (a : Answer) → ((r : EspErr) × (a ≡ settled r)) ⊎ ((e : EspErr) × (a ≡ again e))
  answer-cases (settled r) = inl (r, refl)
  answer-cases (again e) = inr (e, refl)

  -- The loop on one more try.
  send_loop-settled :
      (tries : ℕ) (w : W) (cmd : Bytes) (last r : EspErr)
      → let (w', err, reply) = send w cmd in
        answer err reply ≡ settled r → send_loop (suc tries) w cmd last ≡ (w', r)
  unfolding send_loop
  send_loop-settled tries w cmd last r e = rw (e, send_loop)

  send_loop-again :
      (tries : ℕ) (w : W) (cmd : Bytes) (last r : EspErr)
      → let (w', err, reply) = send w cmd in
        answer err reply ≡ again r → send_loop (suc tries) w cmd last ≡ send_loop tries w' cmd r
  unfolding send_loop
  send_loop-again tries w cmd last r e = rw (e, send_loop)

  send_loop-Sends :
      (tries : ℕ) (w : W) (cmd : Bytes) (last : EspErr)
      → Sends cmd (suc tries) w (send_loop (suc tries) w cmd last).0
  unfolding send_loop
  send_loop-Sends zero w cmd last =
      let (w', err, reply) = send w cmd in
      elim (answer-cases (answer err reply)) [
        | inl (r, e) ↦ rw (send_loop-settled 0 w cmd last r e) (once-Sends cmd 0 w)
        | inr (r, e) ↦ rw (send_loop-again 0 w cmd last r e) (once-Sends cmd 0 w)
      ]
  send_loop-Sends (suc tries) w cmd last =
      let (w', err, reply) = send w cmd in
      elim (answer-cases (answer err reply)) [
        | inl (r, e) ↦
            rw (send_loop-settled (suc tries) w cmd last r e) (once-Sends cmd (suc tries) w)
        | inr (r, e) ↦
            rw (send_loop-again (suc tries) w cmd last r e)
              (more-Sends (send_loop-Sends tries w' cmd r))
      ]

  -- A command is sent at least once and at most as often as is allowed, and nothing else is sent.
  pub send_acked-Sends :
      (w : W) (cmd : Bytes) (tries : ℕ) → 0 < tries → Sends cmd tries w (send_acked w cmd tries).0
  unfolding send_acked
  send_acked-Sends w cmd zero h = absurd (omega arith)
  send_acked-Sends w cmd (suc tries) h = send_loop-Sends tries w cmd esp_err_timeout

  -- On a channel that takes every command and never answers, the result is success all the same.
  pub send_acked-silent :
      (w : W) (cmd : Bytes) (tries : ℕ)
      → 0 < tries
      → ((v : W) → (send v cmd).1 ≡ esp_ok)
      → ((v : W) → (send v cmd).2 ≡ [])
      → (send_acked w cmd tries).1 ≡ esp_ok
  unfolding send_acked send_loop
  send_acked-silent w cmd zero h takes silent = absurd (omega arith)
  send_acked-silent w cmd (suc tries) h takes silent = go tries w esp_err_timeout
    where
      go : (tries : ℕ) (w : W) (last : EspErr) → (send_loop (suc tries) w cmd last).1 ≡ esp_ok
      go zero w last =
          rw (send_loop-again 0 w cmd last esp_ok (rw (takes w, silent w) refl), send_loop) refl
      go (suc tries) w last =
          rw (send_loop-again (suc tries) w cmd last esp_ok (rw (takes w, silent w) refl))
            (go tries (send w cmd).0 esp_ok)
