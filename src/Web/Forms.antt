-- ===== src/Web/Forms.antt =====
-- main/web_server.c: the body that the administrator's page posts, and what the HTTP server's
-- `httpd_query_key_value` finds in it.
use tab5_client.Prelude.{
  ℕ, ◌/◌, ◌%◌, ◌≤◌, ◌<◌, ◌≡◌, refl, ap, Bool, true, false, Option, none, some, List, [], ◌∷◌, ◌++◌,
  map, arith, ◌==◌, if◌then◌else◌, Bool-cases, inl, inr, length, Bytes, codes,
}
use tab5_client.Str.{eq_bytes}
use tab5_client.Web.Escapes.{
  AllBytes, hex_digit, is_unreserved, encode_byte, encode_uri_component,
  urldecode-encode_uri_component,
}
use tab5_client.Web.Admin.{Httpd, found, missing, form_field}

abbrev pub field_text : Bytes × Bytes → Bytes
field_text (k, v) = k ++ 61 ∷ v

-- `key=value&key=value`.
abbrev pub join_fields : List (Bytes × Bytes) → Bytes
join_fields [] = []
join_fields (f ∷ []) = field_text f
join_fields (f ∷ g ∷ fs) = field_text f ++ 38 ∷ join_fields (g ∷ fs)

abbrev pub encode_field : Bytes × Bytes → Bytes × Bytes
encode_field (k, v) = (encode_uri_component k, encode_uri_component v)

-- The body that the page's `post` sends.
abbrev pub post_body : List (Bytes × Bytes) → Bytes
post_body fields = join_fields (map encode_field fields)

-- The fields of the page's `sendM` and `saveWifi`: an empty password is not sent.
abbrev pub command_fields : Bytes → List (Bytes × Bytes)
command_fields cmd = (codes "cmd", cmd) ∷ []

abbrev pub wifi_fields : Bytes → Bytes → List (Bytes × Bytes)
wifi_fields ssid [] = (codes "ssid", ssid) ∷ []
wifi_fields ssid (p ∷ ps) = (codes "ssid", ssid) ∷ (codes "pass", p ∷ ps) ∷ []

abbrev pub value_of : Bytes → List (Bytes × Bytes) → Option Bytes
value_of key [] = none
value_of key ((k, v) ∷ fs) = if eq_bytes k key then some v else value_of key fs

-- A key of small letters, and a value with no NUL and none of the form's own signs.
abbrev pub IsKey : Bytes → Type 0
IsKey [] = Unit {0}
IsKey (c ∷ cs) = ((97 ≤ c) × (c ≤ 122)) × IsKey cs

abbrev pub IsToken : Bytes → Type 0
IsToken [] = Unit {0}
IsToken (c ∷ cs) = ((0 < c) × ((c == 38) ≡ false) × ((c == 61) ≡ false)) × IsToken cs

abbrev pub AllFields : List (Bytes × Bytes) → Type 0
AllFields [] = Unit {0}
AllFields ((k, v) ∷ fs) = (IsKey k × IsToken v) × AllFields fs

-- What the documentation of `httpd_query_key_value` says of such a form: the value of the key's
-- first field, if it leaves room for its NUL, and otherwise that there is no such field.
pub record ReadsForms (httpd : Httpd) : Type 0 where
  pub present :
      (fs : List (Bytes × Bytes)) (key v : Bytes) (size : ℕ)
      → AllFields fs
      → value_of key fs ≡ some v
      → length v < size
      → httpd.query_key_value (join_fields fs) key size ≡ found v
  pub absent :
      (fs : List (Bytes × Bytes)) (key : Bytes) (size : ℕ)
      → AllFields fs
      → value_of key fs ≡ none
      → httpd.query_key_value (join_fields fs) key size ≡ missing

hex_digit-IsToken :
    (n : ℕ)
    → n < 16
    → (0 < hex_digit n) × ((hex_digit n == 38) ≡ false) × ((hex_digit n == 61) ≡ false)
unfolding hex_digit
hex_digit-IsToken n h = (ground (arith, h), ground (arith, h), ground (arith, h))

encode_byte-IsToken : (c : ℕ) (cs : Bytes) → c < 256 → IsToken cs → IsToken (encode_byte c ++ cs)
encode_byte-IsToken c cs h t = elim (Bool-cases (is_unreserved c)) [
  | inl p ↦ rw p ((ground (arith, p), ground (arith, p), ground (arith, p)), t)
  | inr q ↦ rw q (
    (omega arith, refl, refl),
    (hex_digit-IsToken (c / 16) (omega (arith, h)), (hex_digit-IsToken (c % 16) (omega arith), t)),
  )
]

encode-IsToken : (s : Bytes) → AllBytes s → IsToken (encode_uri_component s)
unfolding encode_uri_component
encode-IsToken [] a = tt
encode-IsToken (c ∷ cs) (h, a) =
    encode_byte-IsToken c (encode_uri_component cs) h (encode-IsToken cs a)

encode-cmd : encode_uri_component (codes "cmd") ≡ codes "cmd"
unfolding encode_uri_component
encode-cmd = refl

encode-ssid : encode_uri_component (codes "ssid") ≡ codes "ssid"
unfolding encode_uri_component
encode-ssid = refl

encode-pass : encode_uri_component (codes "pass") ≡ codes "pass"
unfolding encode_uri_component
encode-pass = refl

cmd-IsKey : IsKey (codes "cmd")
cmd-IsKey = ground arith

ssid-IsKey : IsKey (codes "ssid")
ssid-IsKey = ground arith

pass-IsKey : IsKey (codes "pass")
pass-IsKey = ground arith

module _ (httpd : Httpd) (reads : ReadsForms httpd) where
  form_field-present :
      (fs : List (Bytes × Bytes)) (key v : Bytes) (size : ℕ)
      → AllFields fs
      → AllBytes v
      → value_of key fs ≡ some (encode_uri_component v)
      → length (encode_uri_component v) < size
      → form_field httpd (join_fields fs) key size ≡ (v, true)
  unfolding form_field
  form_field-present fs key v size all a e fits =
      rw (reads.present fs key (encode_uri_component v) size all e fits)
        (ap (λ t. (t, true)) (urldecode-encode_uri_component v a))

  form_field-absent :
      (fs : List (Bytes × Bytes)) (key : Bytes) (size : ℕ)
      → AllFields fs
      → value_of key fs ≡ none
      → form_field httpd (join_fields fs) key size ≡ ([], false)
  unfolding form_field
  form_field-absent fs key size all e = rw (reads.absent fs key size all e) refl

  pub command_field :
      (cmd : Bytes) (size : ℕ)
      → AllBytes cmd
      → length (encode_uri_component cmd) < size
      → form_field httpd (post_body (command_fields cmd)) (codes "cmd") size ≡ (cmd, true)
  command_field cmd size a fits = rw encode-cmd (
      form_field-present ((codes "cmd", encode_uri_component cmd) ∷ []) (codes "cmd") cmd size
        ((cmd-IsKey, encode-IsToken cmd a), tt) a refl fits)

  pub ssid_field :
      (ssid pass : Bytes) (size : ℕ)
      → AllBytes ssid
      → AllBytes pass
      → length (encode_uri_component ssid) < size
      → form_field httpd (post_body (wifi_fields ssid pass)) (codes "ssid") size ≡ (ssid, true)
  ssid_field ssid [] size a b fits = rw encode-ssid (
      form_field-present ((codes "ssid", encode_uri_component ssid) ∷ []) (codes "ssid") ssid size
        ((ssid-IsKey, encode-IsToken ssid a), tt) a refl fits)
  ssid_field ssid (p ∷ ps) size a b fits =
      let v = encode_uri_component (p ∷ ps) in
      rw (encode-ssid, encode-pass)
        (form_field-present ((codes "ssid", encode_uri_component ssid) ∷ (codes "pass", v) ∷ [])
          (codes "ssid") ssid size
          ((ssid-IsKey, encode-IsToken ssid a), ((pass-IsKey, encode-IsToken (p ∷ ps) b), tt)) a
          refl fits)

  pub pass_field :
      (ssid pass : Bytes) (size : ℕ)
      → AllBytes ssid
      → AllBytes pass
      → length (encode_uri_component pass) < size
      → (form_field httpd (post_body (wifi_fields ssid pass)) (codes "pass") size).0 ≡ pass
  pass_field ssid [] size a b fits = rw encode-ssid (
      ap (λ (t : Bytes × Bool). t.0)
        (form_field-absent ((codes "ssid", encode_uri_component ssid) ∷ []) (codes "pass") size
          ((ssid-IsKey, encode-IsToken ssid a), tt) refl))
  pass_field ssid (p ∷ ps) size a b fits =
      let v = encode_uri_component (p ∷ ps) in
      rw (encode-ssid, encode-pass)
        (ap (λ (t : Bytes × Bool). t.0)
          (form_field-present ((codes "ssid", encode_uri_component ssid) ∷ (codes "pass", v) ∷ [])
            (codes "pass") (p ∷ ps) size
            ((ssid-IsKey, encode-IsToken ssid a), ((pass-IsKey, encode-IsToken (p ∷ ps) b), tt)) b
            refl fits))

  pub forget_field :
      (ssid pass : Bytes) (size : ℕ)
      → AllBytes ssid
      → AllBytes pass
      → form_field httpd (post_body (wifi_fields ssid pass)) (codes "forget") size ≡ ([], false)
  forget_field ssid [] size a b = rw encode-ssid (
      form_field-absent ((codes "ssid", encode_uri_component ssid) ∷ []) (codes "forget") size
        ((ssid-IsKey, encode-IsToken ssid a), tt) refl)
  forget_field ssid (p ∷ ps) size a b =
      let v = encode_uri_component (p ∷ ps) in
      rw (encode-ssid, encode-pass)
        (form_field-absent ((codes "ssid", encode_uri_component ssid) ∷ (codes "pass", v) ∷ [])
          (codes "forget") size
          ((ssid-IsKey, encode-IsToken ssid a), ((pass-IsKey, encode-IsToken (p ∷ ps) b), tt)) refl)
