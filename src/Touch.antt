-- ===== src/Touch.antt =====
-- main/touch.c: the ST7123 touch controller, its report and the debounced activity detector.
pub mod Debounce
use tab5_client.Prelude.{
  ℕ, zero, suc, ◌+◌, ◌-◌, ◌/◌, ◌%◌, ◌^◌, bit_and, bit_or, Bool, true, false, not, Option, none,
  some, leb, ◌==◌, if◌then◌else◌, get_or, drop, Bytes, u8, ◌<<<◌,
}

abbrev touch_valid : ℕ
touch_valid = 0x80

abbrev coord_high_mask : ℕ
coord_high_mask = 0x3F

abbrev point0_off : ℕ
point0_off = 4

abbrev touch_win : ℕ
touch_win = 5

abbrev pub touch_min : ℕ
touch_min = 2

-- A point of the report: valid, x and y.
pub record Point : Type 0 where
  pub valid : Bool
  pub x : ℕ
  pub y : ℕ

abbrev coordinate : Bytes → ℕ → ℕ
coordinate p k = bit_or (bit_and (get_or p k 0) coord_high_mask <<< 8) (get_or p (k + 1) 0)

-- The first point of a report table as `read_block` fills it.
unfoldable pub read_point0 : Bytes → Point
read_point0 b =
    let p = drop point0_off b in
    record {
      valid = not (bit_and (get_or p 0 0) touch_valid == 0);
      x = coordinate p 0;
      y = coordinate p 2;
    }

-- The file's statics, and the local `hist` of `poll_task`.
pub record Touch : Type 0 where
  pub present : Bool
  pub last_us : ℕ
  pub x : ℕ
  pub y : ℕ
  pub pressed : Bool
  pub hist : ℕ

-- `__builtin_popcount`, over the `k` lowest bits.
unfoldable pub popcount : ℕ → ℕ → ℕ
popcount zero n = 0
popcount (suc k) n = n % 2 + popcount k (n / 2)

abbrev pub win_mask : ℕ
win_mask = 2 ^ touch_win - 1

abbrev pub to_bit : Bool → ℕ
to_bit true = 1
to_bit false = 0

abbrev pub shift_in : ℕ → Bool → ℕ
shift_in hist valid = u8 (bit_or (hist <<< 1) (to_bit valid))

abbrev pub is_pressed : ℕ → Bool
is_pressed hist = leb touch_min (popcount 32 (bit_and hist win_mask))

-- One round of `poll_task`: `none` is a failed transfer.
unfoldable pub poll : Touch → Option Bytes → ℕ → Touch
poll t none now =
    let hist = shift_in t.hist false in
    record t {
      hist = hist;
      pressed = is_pressed hist;
      last_us = if is_pressed hist then now else t.last_us;
    }
poll t (some b) now =
    let point = read_point0 b in
    let hist = shift_in t.hist point.valid in
    record t {
      x = if point.valid then point.x else t.x;
      y = if point.valid then point.y else t.y;
      hist = hist;
      pressed = is_pressed hist;
      last_us = if is_pressed hist then now else t.last_us;
    }

unfoldable pub touch_get_point : Touch → ℕ × ℕ × Bool
touch_get_point t = (t.x, t.y, t.pressed)
