-- ===== src/Nvs.antt =====
-- The key-value store of ESP-IDF (nvs.h), a parameter of the development: its operations over a
-- store `S`, each on an open namespace, and what the source relies on of them. A getter that
-- fails gives `none`.
use tab5_client.Prelude.{
  ℕ, ◌≡◌, Bool, true, false, Option, none, some, ltb, if◌then◌else◌, length, Bytes, u8, u16,
}
use tab5_client.Str.{eq_bytes}

pub record Nvs (S : Type 0) : Type 1 where
  pub opens_ro : S → Bytes → Bool
  pub opens_rw : S → Bytes → Bool
  pub get_u8 : S → Bytes → Bytes → Option ℕ
  pub get_u16 : S → Bytes → Bytes → Option ℕ
  pub get_str : S → Bytes → Bytes → ℕ → Option Bytes
  pub set_u8 : S → Bytes → Bytes → ℕ → S
  pub set_u16 : S → Bytes → Bytes → ℕ → S
  pub set_str : S → Bytes → Bytes → Bytes → S
  pub erase_all : S → Bytes → S

-- Writes that succeed: the value is read back, no other key of the namespace is touched, and the
-- namespace then exists for readers. Keys are looked up with one type each.
pub record Stores {S : Type 0} (nvs : Nvs S) (ns : Bytes) : Type 0 where
  pub u8_u8 :
      (s : S) (k j : Bytes) (v : ℕ)
      → nvs.get_u8 (nvs.set_u8 s ns k v) ns j
        ≡ (if eq_bytes k j then some (u8 v) else nvs.get_u8 s ns j)
  pub u16_u16 :
      (s : S) (k j : Bytes) (v : ℕ)
      → nvs.get_u16 (nvs.set_u16 s ns k v) ns j
        ≡ (if eq_bytes k j then some (u16 v) else nvs.get_u16 s ns j)
  pub u8_u16 :
      (s : S) (k j : Bytes) (v : ℕ)
      → eq_bytes k j ≡ false
      → nvs.get_u8 (nvs.set_u16 s ns k v) ns j ≡ nvs.get_u8 s ns j
  pub u16_u8 :
      (s : S) (k j : Bytes) (v : ℕ)
      → eq_bytes k j ≡ false
      → nvs.get_u16 (nvs.set_u8 s ns k v) ns j ≡ nvs.get_u16 s ns j
  pub opens_u8 : (s : S) (k : Bytes) (v : ℕ) → nvs.opens_ro (nvs.set_u8 s ns k v) ns ≡ true

-- Strings: one that fits the buffer, its NUL included, is read back, and writes of other keys do
-- not touch it. A namespace that was erased has no value.
pub record StoresText {S : Type 0} (nvs : Nvs S) (ns : Bytes) : Type 0 where
  pub str_str :
      (s : S) (k j v : Bytes) (size : ℕ)
      → nvs.get_str (nvs.set_str s ns k v) ns j size ≡ (
          if eq_bytes k j
          then if ltb (length v) size then some v else none
          else nvs.get_str s ns j size)
  pub str_u16 :
      (s : S) (k j : Bytes) (v size : ℕ)
      → eq_bytes k j ≡ false
      → nvs.get_str (nvs.set_u16 s ns k v) ns j size ≡ nvs.get_str s ns j size
  pub u16_u16 :
      (s : S) (k j : Bytes) (v : ℕ)
      → nvs.get_u16 (nvs.set_u16 s ns k v) ns j
        ≡ (if eq_bytes k j then some (u16 v) else nvs.get_u16 s ns j)
  pub opens_u16 : (s : S) (k : Bytes) (v : ℕ) → nvs.opens_ro (nvs.set_u16 s ns k v) ns ≡ true
  pub opens_str : (s : S) (k v : Bytes) → nvs.opens_ro (nvs.set_str s ns k v) ns ≡ true
  pub str_erase : (s : S) (k : Bytes) (size : ℕ) → nvs.get_str (nvs.erase_all s ns) ns k size ≡ none
