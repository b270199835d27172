-- ===== src/Tests/Forms.antt =====
-- A reader of forms for the server's `httpd_query_key_value`, with what its documentation promises.
use tab5_client.Prelude.{
  ℕ, ◌-◌, ◌≡◌, refl, ap, ◌∙◌, true, false, Option, none, some, List, [], ◌∷◌, ◌++◌, arith, ltb,
  ◌==◌, if◌then◌else◌, length, take, Bytes,
}
use tab5_client.Str.{eq_bytes}
use tab5_client.Web.Admin.{Httpd, Query, found, truncated, missing}
use tab5_client.Web.Forms.{field_text, join_fields, value_of, IsKey, IsToken, AllFields, ReadsForms}

abbrev push : ℕ → List Bytes → List Bytes
push x [] = (x ∷ []) ∷ []
push x (p ∷ ps) = (x ∷ p) ∷ ps

-- The parts between the signs `c`.
unfoldable split : ℕ → Bytes → List Bytes
split c [] = [] ∷ []
split c (x ∷ xs) = let rest = split c xs in if x == c then [] ∷ rest else push x rest

abbrev Free : ℕ → Bytes → Type 0
Free c [] = Unit {0}
Free c (x ∷ xs) = ((x == c) ≡ false) × Free c xs

split-cut : (c : ℕ) (a rest : Bytes) → Free c a → split c (a ++ c ∷ rest) ≡ a ∷ split c rest
unfolding split
split-cut c [] rest f = let same : (c == c) ≡ true = ground arith in rw same refl
split-cut c (x ∷ xs) rest f = rw (f.0, split-cut c xs rest f.1) refl

split-whole : (c : ℕ) (a : Bytes) → Free c a → split c a ≡ a ∷ []
unfolding split
split-whole c [] f = refl
split-whole c (x ∷ xs) f = rw (f.0, split-whole c xs f.1) refl

abbrev field_value : Bytes → List Bytes → Option Bytes → Option Bytes
field_value key (k ∷ v ∷ []) rest = if eq_bytes k key then some v else rest
field_value key ps rest = rest

unfoldable find_key : Bytes → List Bytes → Option Bytes
find_key key [] = none
find_key key (p ∷ ps) = field_value key (split 61 p) (find_key key ps)

abbrev answer_of : ℕ → Option Bytes → Query
answer_of size none = missing
answer_of size (some v) = if ltb (length v) size then found v else truncated (take (size - 1) v)

pub query_form : Bytes → Bytes → ℕ → Query
query_form body key size = answer_of size (find_key key (split 38 body))

key-Free : (k : Bytes) → IsKey k → Free 38 k × Free 61 k
key-Free [] h = (tt, tt)
key-Free (c ∷ cs) (h, hs) =
    let f = key-Free cs hs in ((ground (arith, h), f.0), (ground (arith, h), f.1))

token-Free : (v : Bytes) → IsToken v → Free 38 v × Free 61 v
token-Free [] h = (tt, tt)
token-Free (c ∷ cs) (h, hs) = let f = token-Free cs hs in ((h.1, f.0), (h.2, f.1))

append-Free : (c : ℕ) (a b : Bytes) → Free c a → Free c b → Free c (a ++ b)
append-Free c [] b f g = g
append-Free c (x ∷ xs) b f g = (f.0, append-Free c xs b f.1 g)

field_text-Free : (k v : Bytes) → IsKey k → IsToken v → Free 38 (field_text (k, v))
field_text-Free k v hk hv = append-Free 38 k (61 ∷ v) (key-Free k hk).0 (refl, (token-Free v hv).0)

split-field_text : (k v : Bytes) → IsKey k → IsToken v → split 61 (field_text (k, v)) ≡ k ∷ v ∷ []
split-field_text k v hk hv =
    split-cut 61 k v (key-Free k hk).1 ∙ ap (◌∷◌ k) (split-whole 61 v (token-Free v hv).1)

find_key-join_fields :
    (fs : List (Bytes × Bytes)) (key : Bytes)
    → AllFields fs
    → find_key key (split 38 (join_fields fs)) ≡ value_of key fs
unfolding find_key
find_key-join_fields [] key h = rw (split-whole 38 [] tt, split-whole 61 [] tt) refl
find_key-join_fields ((k, v) ∷ []) key (h, hs) =
    rw
      (
        split-whole 38 (field_text (k, v)) (field_text-Free k v h.0 h.1),
        split-field_text k v h.0 h.1,
      )
      refl
find_key-join_fields ((k, v) ∷ g ∷ fs) key (h, hs) =
    let rest = find_key-join_fields (g ∷ fs) key hs in
    rw
      (
        split-cut 38 (field_text (k, v)) (join_fields (g ∷ fs)) (field_text-Free k v h.0 h.1),
        split-field_text k v h.0 h.1,
        rest,
      )
      refl

abbrev pub plain_httpd : Httpd
plain_httpd = record {
  query_key_value = λ body key size. query_form body key size;
  base64_decode = λ t n. some t;
}

pub plain_httpd-ReadsForms : ReadsForms plain_httpd
unfolding query_form
plain_httpd-ReadsForms = record {
  present = λ fs key v size h e l.
      let fits : ltb (length v) size ≡ true = ground (arith, l) in
      rw (find_key-join_fields fs key h, e, fits) refl;
  absent = λ fs key size h e. rw (find_key-join_fields fs key h, e) refl;
}
