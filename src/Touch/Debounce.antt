-- ===== src/Touch/Debounce.antt =====
-- What the window of main/touch.c lets through.
use tab5_client.Prelude.{
  ℕ, zero, suc, ◌+◌, ◌*◌, ◌/◌, ◌%◌, ◌≤◌, ◌<◌, bit_and, ◌≡◌, refl, ap, ◌∙◌, Bool, true, false, ◌&&◌,
  Option, none, some, List, [], ◌∷◌, arith, leb, ◌==◌, Bytes,
}
use tab5_client.Prelude.Tables.{all_below, all_below-lt}
use tab5_client.Touch.{
  Touch, read_point0, popcount, win_mask, to_bit, shift_in, is_pressed, touch_min, poll,
}

-- The five lowest bits of the history, added up.
abbrev window : ℕ → ℕ
window = popcount 5

window-table : all_below 256 (λ h. popcount 32 (bit_and h win_mask) == window h) ≡ true
unfolding all_below popcount
window-table = refl

shift-table :
    all_below 256 (λ h. shift_in h true == (2 * h + 1) % 256 && shift_in h false == 2 * h % 256)
    ≡ true
unfolding all_below
shift-table = refl

popcount-window : (h : ℕ) → h < 256 → popcount 32 (bit_and h win_mask) ≡ window h
popcount-window h l =
    ground
      (arith, all_below-lt 256 (λ h. popcount 32 (bit_and h win_mask) == window h) h window-table l)

shift_in_lem : (h : ℕ) (v : Bool) → h < 256 → shift_in h v ≡ (2 * h + to_bit v) % 256
shift_in_lem h true l = ground (
  arith,
  all_below-lt 256 (λ h. shift_in h true == (2 * h + 1) % 256 && shift_in h false == 2 * h % 256) h
      shift-table l,
)
shift_in_lem h false l = ground (
  arith,
  all_below-lt 256 (λ h. shift_in h true == (2 * h + 1) % 256 && shift_in h false == 2 * h % 256) h
      shift-table l,
)

-- What one poll reports: a failed transfer counts as no touch.
abbrev pub sample : Option Bytes → Bool
sample none = false
sample (some b) = (read_point0 b).valid

-- How many of the `k` newest samples saw a touch; a history lists the newest first.
abbrev pub touches : ℕ → List Bool → ℕ
touches zero vs = 0
touches (suc k) [] = 0
touches (suc k) (v ∷ vs) = to_bit v + touches k vs

-- The history as the number that `poll_task` keeps of it.
abbrev encode : ℕ → List Bool → ℕ
encode zero vs = 0
encode (suc k) [] = 0
encode (suc k) (v ∷ vs) = to_bit v + 2 * encode k vs

-- Polls in order of time, with what `esp_timer_get_time` returns in each.
unfoldable pub polls : Touch → List (Option Bytes × ℕ) → Touch
polls t [] = t
polls t ((r, now) ∷ rs) = polls (poll t r now) rs

touches-nil : (k : ℕ) → touches k [] ≡ 0
touches-nil zero = refl
touches-nil (suc k) = refl

encode-nil : (k : ℕ) → encode k [] ≡ 0
encode-nil zero = refl
encode-nil (suc k) = refl

popcount-zero : (k : ℕ) → popcount k 0 ≡ 0
unfolding popcount
popcount-zero zero = refl
popcount-zero (suc k) = omega (arith, popcount-zero k)

abbrev pow2 : ℕ → ℕ
pow2 zero = 1
pow2 (suc k) = 2 * pow2 k

abbrev oldest : ℕ → List Bool → ℕ
oldest k [] = 0
oldest zero (v ∷ vs) = to_bit v
oldest (suc k) (v ∷ vs) = oldest k vs

-- One more sample stands above the others.
encode-suc : (k : ℕ) (vs : List Bool) → encode (suc k) vs ≡ encode k vs + pow2 k * oldest k vs
encode-suc zero [] = refl
encode-suc zero (v ∷ vs) = omega arith
encode-suc (suc k) [] = omega arith
encode-suc (suc k) (v ∷ vs) = omega (arith, encode-suc k vs)

encode-lt : (k : ℕ) (vs : List Bool) → encode k vs < pow2 k
encode-lt zero vs = omega arith
encode-lt (suc k) [] = omega (arith, encode-lt k [])
encode-lt (suc k) (true ∷ vs) = omega (arith, encode-lt k vs)
encode-lt (suc k) (false ∷ vs) = omega (arith, encode-lt k vs)

popcount-encode : (k j : ℕ) (vs : List Bool) → k ≤ j → popcount k (encode j vs) ≡ touches k vs
unfolding popcount
popcount-encode zero j vs h = refl
popcount-encode (suc k) zero vs h = absurd (omega arith)
popcount-encode (suc k) (suc j) [] h = popcount-zero (suc k)
popcount-encode (suc k) (suc j) (true ∷ vs) h =
    let half : (1 + 2 * encode j vs) / 2 ≡ encode j vs = omega arith in
    let low : (1 + 2 * encode j vs) % 2 ≡ 1 = omega arith in
    rw (half, low, popcount-encode k j vs (omega arith))
popcount-encode (suc k) (suc j) (false ∷ vs) h =
    let half : (0 + 2 * encode j vs) / 2 ≡ encode j vs = omega arith in
    let low : (0 + 2 * encode j vs) % 2 ≡ 0 = omega arith in
    rw (half, low, popcount-encode k j vs (omega arith))

-- `poll_task` has taken the samples `vs`, the newest first.
pub record Tracks (t : Touch) (vs : List Bool) : Type 0 where
  pub hist_is : t.hist ≡ encode 8 vs
  pub pressed_is : t.pressed ≡ leb touch_min (touches 5 vs)

encode-shift : (v : Bool) (vs : List Bool) → shift_in (encode 8 vs) v ≡ encode 8 (v ∷ vs)
encode-shift v vs =
    let top = encode-suc 7 vs in
    let low = encode-lt 7 vs in shift_in_lem (encode 8 vs) v (encode-lt 8 vs) ∙ ground arith

is_pressed-encode : (vs : List Bool) → is_pressed (encode 8 vs) ≡ leb touch_min (touches 5 vs)
is_pressed-encode vs =
    ap (leb touch_min)
      (popcount-window (encode 8 vs) (encode-lt 8 vs) ∙ popcount-encode 5 8 vs (omega arith))

poll-hist :
    (t : Touch) (r : Option Bytes) (now : ℕ) → (poll t r now).hist ≡ shift_in t.hist (sample r)
unfolding poll
poll-hist t none now = refl
poll-hist t (some b) now = refl

poll-pressed :
    (t : Touch) (r : Option Bytes) (now : ℕ)
    → (poll t r now).pressed ≡ is_pressed (poll t r now).hist
unfolding poll
poll-pressed t none now = refl
poll-pressed t (some b) now = refl

poll-Tracks :
    {t : Touch} {vs : List Bool} (r : Option Bytes) (now : ℕ)
    → Tracks t vs
    → Tracks (poll t r now) (sample r ∷ vs)
poll-Tracks {t} {vs} r now h =
    let e =
      poll-hist t r now ∙ ap (λ n. shift_in n (sample r)) h.hist_is ∙ encode-shift (sample r) vs in
    record {
      hist_is = e;
      pressed_is = poll-pressed t r now ∙ ap is_pressed e ∙ is_pressed-encode (sample r ∷ vs);
    }

-- The samples of a run, the newest first, put before those that came earlier.
abbrev pub samples : List (Option Bytes × ℕ) → List Bool → List Bool
samples [] vs = vs
samples ((r, now) ∷ rs) vs = samples rs (sample r ∷ vs)

-- After any polls the detector says "pressed" exactly if at least two of the five newest samples
-- saw a touch, failed transfers counting as none; so one lone sample in five never does.
pub polls-Tracks :
    (rs : List (Option Bytes × ℕ)) {t : Touch} {vs : List Bool}
    → Tracks t vs
    → Tracks (polls t rs) (samples rs vs)
unfolding polls
polls-Tracks [] h = h
polls-Tracks ((r, now) ∷ rs) h = polls-Tracks rs (poll-Tracks r now h)
