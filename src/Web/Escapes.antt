-- ===== src/Web/Escapes.antt =====
-- Form fields that the page encodes, and text for JSON that fits its buffer, in main/web_server.c.
use tab5_client.Prelude.{
  ℕ, ◌+◌, ◌*◌, ◌/◌, ◌%◌, ◌≤◌, ◌<◌, ◌≡◌, refl, ap, ◌∙◌, ◌⊎◌, inl, inr, Bool, true, false, not, ◌&&◌,
  ◌||◌, Option, none, some, [], ◌∷◌, ◌++◌, arith, ltb, leb, ◌==◌, if◌then◌else◌, Bool-cases, length,
  length-append, Bytes,
}
use tab5_client.Prelude.Tables.{all_below, all_below-lt}
use tab5_client.Str.{is_digit}
use tab5_client.Web.{json_char, json_loop, json_str, percent, escape, unescaped, urldecode}

unfoldable pub hex_digit : ℕ → ℕ
hex_digit n = if ltb n 10 then 48 + n else 55 + n

-- The characters that `encodeURIComponent` leaves as they are: A-Z a-z 0-9 - _ . ! ~ * ' ( ).
abbrev pub is_unreserved : ℕ → Bool
is_unreserved c =
    is_digit c
    || (leb 65 c && leb c 90)
    || (leb 97 c && leb c 122)
    || c == 45
    || c == 95
    || c == 46
    || c == 33
    || c == 126
    || (leb 39 c && leb c 42)

abbrev pub encode_byte : ℕ → Bytes
encode_byte c =
    if is_unreserved c then c ∷ [] else percent ∷ hex_digit (c / 16) ∷ hex_digit (c % 16) ∷ []

-- JavaScript's `encodeURIComponent`, as the page's `post` calls it, on a text's UTF-8 bytes.
unfoldable pub encode_uri_component : Bytes → Bytes
encode_uri_component [] = []
encode_uri_component (c ∷ cs) = encode_byte c ++ encode_uri_component cs

abbrev pub AllBytes : Bytes → Type 0
AllBytes [] = Unit
AllBytes (c ∷ cs) = (c < 256) × AllBytes cs

abbrev is_some : ℕ → Option ℕ → Bool
is_some v none = false
is_some v (some w) = v == w

abbrev decodes : ℕ → Bool
decodes c = is_some c (escape percent (hex_digit (c / 16)) (hex_digit (c % 16)))

escape-table : all_below 256 decodes ≡ true
unfolding all_below escape hex_digit
escape-table = refl

is_some_lem : (v : ℕ) (o : Option ℕ) → is_some v o ≡ true → o ≡ some v
is_some_lem v none h = absurd (ground (arith, h))
is_some_lem v (some w) h = let e : w ≡ v = ground (arith, h) in ap some e

escape-hex_digit :
    (c : ℕ) → c < 256 → escape percent (hex_digit (c / 16)) (hex_digit (c % 16)) ≡ some c
escape-hex_digit c h =
    is_some_lem c (escape percent (hex_digit (c / 16)) (hex_digit (c % 16)))
      (all_below-lt 256 decodes c escape-table h)

escape-other : (c a b : ℕ) → (c == percent) ≡ false → escape c a b ≡ none
unfolding escape
escape-other c a b h = rw h refl

urldecode-plain :
    (c : ℕ) (cs : Bytes) → (c == percent) ≡ false → urldecode (c ∷ cs) ≡ unescaped c ∷ urldecode cs
unfolding urldecode
urldecode-plain c [] h = refl
urldecode-plain c (a ∷ []) h = refl
urldecode-plain c (a ∷ b ∷ cs) h = rw (escape-other c a b h, urldecode) refl

urldecode-escape :
    (c a b v : ℕ) (cs : Bytes)
    → escape c a b ≡ some v
    → urldecode (c ∷ a ∷ b ∷ cs) ≡ v ∷ urldecode cs
unfolding urldecode
urldecode-escape c a b v cs e = rw (e, urldecode) refl

-- Any bytes that the page encodes by encodeURIComponent are what urldecode gives back.
pub urldecode-encode_uri_component :
    (s : Bytes) → AllBytes s → urldecode (encode_uri_component s) ≡ s
unfolding encode_uri_component urldecode
urldecode-encode_uri_component [] a = refl
urldecode-encode_uri_component (c ∷ cs) (h, a) =
    let rest = urldecode-encode_uri_component cs a in
    elim (Bool-cases (is_unreserved c)) [
      | inl p ↦
          let other : (c == percent) ≡ false = ground (arith, p) in
          let same : unescaped c ≡ c = ground (arith, p) in
          rw p (urldecode-plain c (encode_uri_component cs) other ∙ rw (same, rest) refl)
      | inr q ↦ rw q (
          urldecode-escape percent (hex_digit (c / 16)) (hex_digit (c % 16)) c
            (encode_uri_component cs) (escape-hex_digit c h)
          ∙ ap (◌∷◌ c) rest)
    ]

length-json_char : (c : ℕ) → length (json_char c) ≤ 2
length-json_char c = ground arith

json_loop-fits :
    (out_max : ℕ) (s : Bytes) (o : ℕ) → o < out_max → o + length (json_loop out_max s o) < out_max
unfolding json_loop
json_loop-fits out_max [] o h = omega (arith, h)
json_loop-fits out_max (c ∷ cs) o h = elim (Bool-cases (ltb (o + 2) out_max)) [
  | inl r ↦
      let next : o + length (json_char c) < out_max = ground (arith, r, length-json_char c) in
      let k = o + length (json_char c) in
      rw r (
        omega (
          arith,
          length-append (json_char c) (json_loop out_max cs k),
          json_loop-fits out_max cs k next,
        ))
  | inr r ↦ rw r (omega (arith, h))
]

-- What the character behind a backslash stands for in a JSON string, but for `u`.
abbrev pub json_escape : ℕ → Option ℕ
json_escape c =
    if c == 34 || c == 92 || c == 47
    then some c
    else if c == 98
    then some 8
    else if c == 102
    then some 12
    else if c == 110
    then some 10
    else if c == 114
    then some 13
    else if c == 116
    then some 9
    else none

-- A character that may stand for itself: no control character, quote or backslash.
abbrev pub is_json_plain : ℕ → Bool
is_json_plain c = leb 0x20 c && not (c == 34) && not (c == 92)

abbrev pub cons_some : Option ℕ → Option Bytes → Option Bytes
cons_some none cs = none
cons_some (some c) none = none
cons_some (some c) (some cs) = some (c ∷ cs)

abbrev pub plain_some : ℕ → Option Bytes → Option Bytes
plain_some c cs = if is_json_plain c then cons_some (some c) cs else none

-- What a JSON reader makes of the text between a string's quotes; `none` if that is no JSON: it has
-- a raw quote or control character, or a backslash without an escape.
abbrev pub json_read : Bytes → Option Bytes
json_read [] = some []
json_read (c ∷ []) = plain_some c (some [])
json_read (c ∷ d ∷ cs) =
    if c == 92 then cons_some (json_escape d) (json_read cs) else plain_some c (json_read (d ∷ cs))

-- The characters that are not dropped.
abbrev pub kept : Bytes → Bytes
kept [] = []
kept (c ∷ cs) = if leb 0x20 c || c == 10 || c == 13 then c ∷ kept cs else kept cs

json_read-plain :
    (c : ℕ) (cs : Bytes)
    → is_json_plain c ≡ true
    → json_read (c ∷ cs) ≡ cons_some (some c) (json_read cs)
json_read-plain c [] h = rw h refl
json_read-plain c (d ∷ cs) h =
    let other : (c == 92) ≡ false = ground (arith, h) in rw (h, other) refl

json_read-json_char :
    (c : ℕ) (rest text : Bytes)
    → json_read rest ≡ some text
    → json_read (json_char c ++ rest)
      ≡ some (if leb 0x20 c || c == 10 || c == 13 then c ∷ text else text)
json_read-json_char c rest text h = elim (Bool-cases (c == 34 || c == 92)) [
  | inl q ↦
      let same : json_escape c ≡ some c = ground (arith, q) in
      let keep : (leb 0x20 c || c == 10 || c == 13) ≡ true = ground (arith, q) in
      rw (q, keep, same, h) refl
  | inr q ↦ elim (Bool-cases (c == 10)) [
    | inl n ↦ let e : c ≡ 10 = ground (arith, n) in rw (e, h) refl
    | inr n ↦ elim (Bool-cases (c == 13)) [
      | inl r ↦ let e : c ≡ 13 = ground (arith, r) in rw (e, h) refl
      | inr r ↦ elim (Bool-cases (leb 0x20 c)) [
        | inl v ↦
            let plain : is_json_plain c ≡ true = ground (arith, q, v) in
            rw (q, n, r, v) (json_read-plain c rest plain ∙ rw h refl)
        | inr v ↦ rw (q, n, r, v) h
      ]
    ]
  ]
]

json_loop-json_read :
    (out_max : ℕ) (s : Bytes) (o : ℕ)
    → o + 2 * length s + 2 ≤ out_max
    → json_read (json_loop out_max s o) ≡ some (kept s)
unfolding json_loop
json_loop-json_read out_max [] o h = refl
json_loop-json_read out_max (c ∷ cs) o h =
    let k = o + length (json_char c) in
    let room : ltb (o + 2) out_max ≡ true = ground (arith, h) in
    let next : k + 2 * length cs + 2 ≤ out_max = omega (arith, h, length-json_char c) in
    let rest = json_loop-json_read out_max cs k next in
    rw room (json_read-json_char c (json_loop out_max cs k) (kept cs) rest)

-- The text that json_str writes leaves room for its NUL in any buffer that is not empty; and
-- unless the buffer has less than two bytes for each character and two more, it is the text of a
-- JSON string, with no raw quote, control character or lone backslash, in which a reader finds
-- exactly the input without its control characters other than line ends.
pub json_str-json_read :
    (out_max : ℕ) (s : Bytes)
    → 0 < out_max
    → (length (json_str out_max s) < out_max)
      × ((out_max < 2 * length s + 2) ⊎ (json_read (json_str out_max s) ≡ some (kept s)))
unfolding json_str
json_str-json_read out_max s h = (
  omega (arith, json_loop-fits out_max s 0 h),
  elim (Bool-cases (leb (2 * length s + 2) out_max)) [
    | inl r ↦ inr (json_loop-json_read out_max s 0 (ground (arith, r)))
    | inr r ↦ inl (ground (arith, r))
  ],
)
