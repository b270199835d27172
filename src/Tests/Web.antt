-- ===== src/Tests/Web.antt =====
-- main/web_server.c on short texts.
use tab5_client.Prelude.{◌+◌, ◌*◌, ◌<◌, ◌≡◌, refl, ◌⊎◌, some, [], ◌∷◌, arith, length, Bytes, codes}
use tab5_client.Web.{json_str, json_loop, urldecode}
use tab5_client.Web.Escapes.{
  hex_digit, encode_uri_component, AllBytes, json_read, kept, urldecode-encode_uri_component,
  json_str-json_read,
}

abbrev field : Bytes
field = codes "a b+%"

encode_uri_component_run : encode_uri_component field ≡ codes "a%20b%2B%25"
unfolding encode_uri_component hex_digit
encode_uri_component_run = refl

field-AllBytes : AllBytes field
field-AllBytes = ground arith

urldecode-encode_uri_component_example : urldecode (encode_uri_component field) ≡ field
urldecode-encode_uri_component_example = urldecode-encode_uri_component field field-AllBytes

-- A quote, a bell and a line end.
abbrev ssid : Bytes
ssid = 34 ∷ 7 ∷ 10 ∷ 65 ∷ []

json_run : json_str 128 ssid ≡ 92 ∷ 34 ∷ 92 ∷ 110 ∷ 65 ∷ []
unfolding json_str json_loop
json_run = refl

json_str-json_read_example :
    (length (json_str 128 ssid) < 128)
    × ((128 < 2 * length ssid + 2) ⊎ (json_read (json_str 128 ssid) ≡ some (kept ssid)))
json_str-json_read_example = json_str-json_read 128 ssid (omega arith)
