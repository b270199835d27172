-- ===== src/Web/Actions.antt =====
-- main/web_server.c: what the administrator's forms do, from the body as it arrives to the
-- receiver and to the network that the next start joins.
use tab5_client.Prelude.{
  ℕ, zero, suc, ◌-◌, ◌≤◌, ◌<◌, ◌≡◌, refl, ap, ◌∙◌, ◌⊎◌, inl, inr, false, not, ◌&&◌, ◌||◌, none,
  some, List, [], ◌∷◌, ◌++◌, map, append_assoc, append-nil, arith, ltb, leb, ◌==◌, Bool-cases,
  length, take, length-append, take-all, Bytes,
}
use tab5_client.Nvs.{Nvs}
use tab5_client.Str.{c_str}
use tab5_client.Mosaic.Link.{Link}
use tab5_client.Wifi.{Wifi}
use tab5_client.Web.Escapes.{AllBytes, encode_uri_component}
use tab5_client.Web.Forms.{ReadsForms, post_body, command_fields, command_field}
use tab5_client.Web.Admin.{
  Recv, received, timed_out, broken, Request, Httpd, Box, recv_loop, recv_body, require_admin,
  mosaic_post, gated, saved_text, shown, saved_text,
}

-- A body that arrives in parts, none empty, with time-outs between.
abbrev pub body_of : List Recv → Bytes
body_of [] = []
body_of (received chunk ∷ rs) = chunk ++ body_of rs
body_of (timed_out ∷ rs) = body_of rs
body_of (broken ∷ rs) = body_of rs

abbrev pub AllParts : List Recv → Type 0
AllParts [] = Unit {0}
AllParts (received chunk ∷ rs) = (0 < length chunk) × AllParts rs
AllParts (timed_out ∷ rs) = AllParts rs
AllParts (broken ∷ rs) = ⊥

empty_of : (xs : Bytes) → length xs ≡ 0 → xs ≡ []
empty_of [] h = refl
empty_of (x ∷ xs) h = absurd (omega arith)

nothing_left : (rs : List Recv) (buf : Bytes) → recv_loop rs buf 0 ≡ some buf
unfolding recv_loop
nothing_left [] buf = refl
nothing_left (received c ∷ rs) buf = refl
nothing_left (timed_out ∷ rs) buf = refl
nothing_left (broken ∷ rs) buf = refl

recv_loop-parts :
    (rs : List Recv) (buf : Bytes) (left : ℕ)
    → AllParts rs
    → length (body_of rs) ≡ left
    → recv_loop rs buf left ≡ some (buf ++ body_of rs)
unfolding recv_loop
recv_loop-parts [] buf zero a h = rw append-nil refl
recv_loop-parts [] buf (suc n) a h = absurd (omega arith)
recv_loop-parts (timed_out ∷ rs) buf zero a h = rw (empty_of (body_of rs) h, append-nil) refl
recv_loop-parts (timed_out ∷ rs) buf (suc n) a h =
    let t : (suc n == 0) ≡ false = ground arith in rw t (recv_loop-parts rs buf (suc n) a h)
recv_loop-parts (broken ∷ rs) buf left a h = absurd a
recv_loop-parts (received c ∷ rs) buf zero a h =
    absurd (omega (arith, length-append c (body_of rs), a.0))
recv_loop-parts (received c ∷ rs) buf (suc n) a h =
    let sum = length-append c (body_of rs) in
    let t : (suc n == 0) ≡ false = ground arith in
    let all : take (suc n) c ≡ c = take-all (suc n) c (omega (arith, sum, h)) in
    let some_bytes : (length c == 0) ≡ false = ground (arith, a.0) in
    rw (t, all, some_bytes)
      (recv_loop-parts rs (buf ++ c) (suc n - length c) a.1 (omega (arith, sum, h))
        ∙ ap some (append_assoc buf c (body_of rs)))

-- A body that is shorter than the buffer is put together from its parts, however it is cut and
-- whatever time-outs there are.
pub recv_body-parts :
    (r : Request) (size : ℕ)
    → AllParts r.reads
    → length (body_of r.reads) ≡ r.content_len
    → r.content_len < size
    → recv_body r size ≡ some (body_of r.reads)
unfolding recv_body
recv_body-parts r size a h l =
    let fits : leb size r.content_len ≡ false = ground (arith, l) in
    rw fits (recv_loop-parts r.reads [] r.content_len a h)

abbrev pub NoNul : Bytes → Type 0
NoNul [] = Unit {0}
NoNul (c ∷ cs) = (0 < c) × NoNul cs

c_str-NoNul : (s : Bytes) → NoNul s → c_str s ≡ s
c_str-NoNul [] h = refl
c_str-NoNul (zero ∷ s) h = absurd (omega arith)
c_str-NoNul (suc c ∷ s) h = ap (◌∷◌ (suc c)) (c_str-NoNul s h.1)

-- Text that a browser can show.
abbrev pub AllShown : Bytes → Type 0
AllShown [] = Unit {0}
AllShown (c ∷ cs) = ((c ≡ 13) ⊎ (c ≡ 10) ⊎ (c ≡ 9) ⊎ ((0x20 ≤ c) × (c ≤ 0x7E))) × AllShown cs

map-shown-AllShown : (s : Bytes) → AllShown (map shown s)
map-shown-AllShown [] = tt
map-shown-AllShown (c ∷ cs) = (
  elim (Bool-cases (not (c == 13) && not (c == 10) && not (c == 9) && (ltb c 0x20 || ltb 0x7E c))) [
    | inl t ↦ rw t (inr (inr (inr (omega arith, omega arith))))
    | inr t ↦ rw t (ground (arith, t))
  ],
  map-shown-AllShown cs,
)

module _ (httpd : Httpd) (reads : ReadsForms httpd) {S W : Type 0} (nvs : Nvs S)
    (link : Link W) where
  -- The form that the page posts for a command that is not empty, has no NUL and an encoded form
  -- of less than 160 bytes, in a request that is let in, whose body of less than 256 bytes arrives
  -- in parts, sends exactly that command, once; the store and the reboot flag stay.
  pub mosaic_post-sends :
      (b : Box S W) (r : Request) (cmd : Bytes)
      → require_admin httpd nvs link b.store r ≡ none
      → AllParts r.reads
      → body_of r.reads ≡ post_body (command_fields cmd)
      → length (body_of r.reads) ≡ r.content_len
      → r.content_len < 256
      → length (encode_uri_component cmd) < 160
      → AllBytes cmd
      → NoNul cmd
      → 0 < length cmd
      → let b' = (mosaic_post httpd nvs link b r).0 in
        (link.sent b'.receiver ≡ link.sent b.receiver ++ cmd ∷ [])
        × (b'.store ≡ b.store)
        × (b'.reboots ≡ b.reboots)
  unfolding mosaic_post
  mosaic_post-sends b r cmd g a form h l fits ab nn pos_len =
      let field = command_field httpd reads cmd 160 ab fits in
      let body : recv_body r 256 ≡ some (post_body (command_fields cmd)) =
        recv_body-parts r 256 a h l ∙ ap some form in
      let some_cmd : (length cmd == 0) ≡ false = ground (arith, pos_len) in
      rw (g, gated, body, field, c_str-NoNul cmd nn, some_cmd)
        (link.sent_lem b.receiver cmd, refl, refl)
