-- ===== src/Tests/Memory.antt =====
-- A key-value store in memory, with one namespace.
use tab5_client.Prelude.{
  ℕ, ◌≡◌, refl, Bool, true, false, Option, none, some, ltb, if◌then◌else◌, length, Bytes, u8, u16,
}
use tab5_client.Nvs.{Nvs, Stores, StoresText}
use tab5_client.Str.{eq_bytes}

pub record Memory : Type 0 where
  pub made : Bool
  pub u8s : Bytes → Option ℕ
  pub u16s : Bytes → Option ℕ
  pub strs : Bytes → Option Bytes

abbrev pub blank_memory : Memory
blank_memory = record { made = false; u8s = λ k. none; u16s = λ k. none; strs = λ k. none }

abbrev fitting : Option Bytes → ℕ → Option Bytes
fitting none size = none
fitting (some v) size = if ltb (length v) size then some v else none

abbrev pub memory : Nvs Memory
memory = record {
  opens_ro = λ s ns. s.made;
  opens_rw = λ s ns. true;
  get_u8 = λ s ns k. s.u8s k;
  get_u16 = λ s ns k. s.u16s k;
  get_str = λ s ns k size. fitting (s.strs k) size;
  set_u8 = λ s ns k v. record s {
    made = true;
    u8s = λ j. if eq_bytes k j then some (u8 v) else s.u8s j;
  };
  set_u16 = λ s ns k v. record s {
    made = true;
    u16s = λ j. if eq_bytes k j then some (u16 v) else s.u16s j;
  };
  set_str =
      λ s ns k v. record s { made = true; strs = λ j. if eq_bytes k j then some v else s.strs j };
  erase_all = λ s ns. record { made = true; u8s = λ k. none; u16s = λ k. none; strs = λ k. none };
}

fitting-if :
    (b : Bool) (v : Bytes) (o : Option Bytes) (size : ℕ)
    → fitting (if b then some v else o) size
      ≡ (if b then if ltb (length v) size then some v else none else fitting o size)
fitting-if true v o size = refl
fitting-if false v o size = refl

pub memory-Stores : (ns : Bytes) → Stores memory ns
memory-Stores ns = record {
  u8_u8 = λ s k j v. refl;
  u16_u16 = λ s k j v. refl;
  u8_u16 = λ s k j v d. refl;
  u16_u8 = λ s k j v d. refl;
  opens_u8 = λ s k v. refl;
}

pub memory-StoresText : (ns : Bytes) → StoresText memory ns
memory-StoresText ns = record {
  str_str = λ s k j v size. fitting-if (eq_bytes k j) v (s.strs j) size;
  str_u16 = λ s k j v size d. refl;
  u16_u16 = λ s k j v. refl;
  opens_u16 = λ s k v. refl;
  opens_str = λ s k v. refl;
  str_erase = λ s k size. refl;
}
