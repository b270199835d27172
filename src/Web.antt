-- ===== src/Web.antt =====
-- main/web_server.c: the escaping of text for JSON and the decoding of form fields; the handlers
-- stand in Web/Admin. Strings are
-- the bytes before their NUL.
pub mod Escapes
pub mod Forms
pub mod Admin
pub mod Guard
pub mod Actions
use tab5_client.Prelude.{
  ℕ, ◌+◌, ◌-◌, bit_or, ◌&&◌, ◌||◌, Option, none, some, [], ◌∷◌, ◌++◌, ltb, leb, ◌==◌, if◌then◌else◌,
  length, Bytes, ◌<<<◌,
}
use tab5_client.Str.{is_digit}

-- What one character becomes: quote (34) and backslash (92) are escaped, line ends (10, 13)
-- named, other control characters dropped.
abbrev pub json_char : ℕ → Bytes
json_char c =
    if c == 34 || c == 92
    then 92 ∷ c ∷ []
    else if c == 10
    then 92 ∷ 110 ∷ []
    else if c == 13
    then 92 ∷ 114 ∷ []
    else if leb 0x20 c
    then c ∷ []
    else []

-- The loop of `json_str` with `o` bytes written.
unfoldable pub json_loop : ℕ → Bytes → ℕ → Bytes
json_loop out_max [] o = []
json_loop out_max (c ∷ cs) o =
    let rest = json_loop out_max cs (o + length (json_char c)) in
    if ltb (o + 2) out_max then json_char c ++ rest else []

unfoldable pub json_str : ℕ → Bytes → Bytes
json_str out_max s = json_loop out_max s 0

-- `none` is -1.
unfoldable pub hexval : ℕ → Option ℕ
hexval c =
    if is_digit c
    then some (c - 48)
    else if leb 97 c && leb c 102
    then some (c - 97 + 10)
    else if leb 65 c && leb c 70
    then some (c - 65 + 10)
    else none

abbrev pub percent : ℕ
percent = 37

abbrev both : Option ℕ → Option ℕ → Option ℕ
both (some hi) (some lo) = some (bit_or (hi <<< 4) lo)
both none lo = none
both (some hi) none = none

-- The byte that `c` and the two characters behind it stand for, if they are an escape.
unfoldable pub escape : ℕ → ℕ → ℕ → Option ℕ
unfolding hexval
escape c a b = if c == percent then both (hexval a) (hexval b) else none

-- Any other character.
abbrev pub unescaped : ℕ → ℕ
unescaped c = if c == 43 then 32 else c

unfoldable pub urldecode : Bytes → Bytes
urldecode [] = []
urldecode (c ∷ []) = unescaped c ∷ []
urldecode (c ∷ a ∷ []) = unescaped c ∷ urldecode (a ∷ [])
urldecode (c ∷ a ∷ b ∷ cs) = elim (escape c a b) [
  | some v ↦ v ∷ urldecode cs
  | none ↦ unescaped c ∷ urldecode (a ∷ b ∷ cs)
]
