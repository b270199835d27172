-- ===== src/Web/Guard.antt =====
-- main/web_server.c: who may use the administrator's pages.
use tab5_client.Prelude.{
  ◌<◌, ◌≡◌, refl, ◌∙◌, ◌⊎◌, inl, inr, Bool, true, false, Option, none, some, ◌++◌, arith, ltb, ◌==◌,
  if◌then◌else◌, Bool-cases, length, length-append, Bytes, codes,
}
use tab5_client.Nvs.{Nvs, StoresText}
use tab5_client.Str.{eq_bytes}
use tab5_client.Mosaic.Link.{Link}
use tab5_client.Web.Admin.{
  reboot_post, wifi_post, mosaic_post, admin_get, Httpd, Box, Request, Response, auth_required,
  service_unavailable, Uri, index_uri, admin_uri, mos_uri, wifi_uri, reboot_uri, admin_ns,
  web_admin_set_creds, web_admin_forget, admin_creds_load, require_admin, after_space, serve,
  check_basic, check_token, header_matches, matches_token, gated, wifi_post, mosaic_post,
  reboot_post, admin_get,
}

abbrev pub is_protected : Uri → Bool
is_protected index_uri = false
is_protected admin_uri = true
is_protected mos_uri = true
is_protected wifi_uri = true
is_protected reboot_uri = true

module _ (httpd : Httpd) where
  abbrev decodes_to : Option Bytes → Bytes → Bool
  decodes_to none t = false
  decodes_to (some d) t = eq_bytes d t

  abbrev token_decodes_to : Option Bytes → Bytes → Bool
  token_decodes_to none t = false
  token_decodes_to (some token) t = decodes_to (httpd.base64_decode token 127) t

  abbrev pub header_decodes_to : Option Bytes → Bytes → Bool
  header_decodes_to none t = false
  header_decodes_to (some h) t = token_decodes_to (after_space h) t

  -- Whether a request's token is base64 of the name and the password with a colon between.
  abbrev pub presents : Request → Bytes → Bytes → Bool
  presents r user pass = header_decodes_to r.authorization (user ++ (codes ":" ++ pass))

  matches-decodes :
      (o : Option Bytes) (t : Bytes)
      → 0 < length t
      → length t < 128
      → matches_token httpd o t ≡ decodes_to o t
  matches-decodes none t h l = refl
  matches-decodes (some d) t h l = ground arith

  check_token-decodes :
      (o : Option Bytes) (t : Bytes)
      → 0 < length t
      → length t < 128
      → check_token httpd o t ≡ token_decodes_to o t
  check_token-decodes none t h l = refl
  check_token-decodes (some token) t h l = matches-decodes (httpd.base64_decode token 127) t h l

  check_basic-presents :
      (h user pass : Bytes)
      → length user < 33
      → length pass < 65
      → check_basic httpd h user pass ≡ header_decodes_to (some h) (user ++ (codes ":" ++ pass))
  unfolding check_basic
  check_basic-presents h user pass l m =
      let len = length-append user (codes ":" ++ pass) in
      check_token-decodes (after_space h) (user ++ (codes ":" ++ pass)) (omega (arith, len))
        (omega (arith, len))

  module _ {S W : Type 0} (nvs : Nvs S) (link : Link W) where
    -- A request that is turned away changes nothing.
    serve-denied :
        (uri : Uri) (b : Box S W) (r : Request) (d : Response)
        → is_protected uri ≡ true
        → require_admin httpd nvs link b.store r ≡ some d
        → serve httpd nvs link uri b r ≡ some (b, d)
    unfolding serve admin_get mosaic_post wifi_post reboot_post
    serve-denied index_uri b r d p h = absurd (cc)
    serve-denied admin_uri b r d p h = rw (h, gated) refl
    serve-denied mos_uri b r d p h = rw (h, gated) refl
    serve-denied wifi_uri b r d p h = rw (h, wifi_post) refl
    serve-denied reboot_uri b r d p h = rw (h, gated) refl

    module _ (v : StoresText nvs admin_ns) where
      admin_creds_load-set :
          (s : S) (user pass : Bytes)
          → 0 < length user
          → length user < 33
          → length pass < 65
          → admin_creds_load httpd nvs link (
              nvs.set_str (nvs.set_str s admin_ns (codes "user") user) admin_ns (codes "pass") pass)
            ≡ some (user, pass)
      unfolding admin_creds_load
      admin_creds_load-set s user pass h l m =
          let k_user = codes "user" in
          let k_pass = codes "pass" in
          let s1 = nvs.set_str s admin_ns k_user user in
          let s2 = nvs.set_str s1 admin_ns k_pass pass in
          let fits_u : ltb (length user) 33 ≡ true = ground (arith, l) in
          let fits_p : ltb (length pass) 65 ≡ true = ground (arith, m) in
          let found_u : nvs.get_str s2 admin_ns k_user 33 ≡ some user =
            v.str_str s1 k_pass k_user pass 33
            ∙ v.str_str s k_user k_user user 33
            ∙ rw fits_u refl in
          let found_p : nvs.get_str s2 admin_ns k_pass 65 ≡ some pass =
            v.str_str s1 k_pass k_pass pass 65 ∙ rw fits_p refl in
          let named : (length user == 0) ≡ false = ground (arith, h) in
          rw (v.opens_str s1 k_pass pass, found_u, found_p, named) refl

      require_admin-presents :
          (s : S) (user pass : Bytes) (r : Request)
          → length user < 33
          → length pass < 65
          → admin_creds_load httpd nvs link s ≡ some (user, pass)
          → require_admin httpd nvs link s r
            ≡ (if presents r user pass then none else some auth_required)
      unfolding require_admin
      require_admin-presents s user pass r l m e = rw e (by_header r.authorization)
        where
          by_header :
              (o : Option Bytes)
              → (if header_matches httpd nvs link o user pass then none else some auth_required) ≡ (
                  if header_decodes_to o (user ++ (codes ":" ++ pass))
                  then none
                  else some auth_required)
          by_header none = refl
          by_header (some h) = rw (check_basic-presents h user pass l m) refl

      -- Once an administrator's name of 1 to 32 bytes and a password of at most 64 are set, on a
      -- store that can be written, a request for a protected page is let in if its token decodes
      -- to them with a colon between; any other is answered by 401 and changes neither the store
      -- nor the receiver, and starts no reboot.
      pub serve-web_admin_set_creds :
          (uri : Uri) (b : Box S W) (r : Request) (user pass : Bytes)
          → is_protected uri ≡ true
          → nvs.opens_rw b.store admin_ns ≡ true
          → 0 < length user
          → length user < 33
          → length pass < 65
          → (s : S) × (web_admin_set_creds httpd nvs link b.store user pass ≡ some s)
            × (((presents r user pass ≡ true) × (require_admin httpd nvs link s r ≡ none))
                ⊎ ((presents r user pass ≡ false)
                    × (serve httpd nvs link uri (record b { store = s }) r
                        ≡ some (record b { store = s }, auth_required))))
      unfolding web_admin_set_creds
      serve-web_admin_set_creds uri b r user pass p o h l m =
          let s =
            nvs.set_str (nvs.set_str b.store admin_ns (codes "user") user) admin_ns (codes "pass")
              pass in
          let gate =
            require_admin-presents s user pass r l m
              (admin_creds_load-set b.store user pass h l m) in
          (
            s,
            rw o refl,
            elim (Bool-cases (presents r user pass)) [
              | inl t ↦ inl (t, gate ∙ rw t refl)
              | inr t ↦ inr (
                t,
                serve-denied uri (record b { store = s }) r auth_required p (gate ∙ rw t refl),
              )
            ],
          )

      require_admin-erased :
          (s : S) (r : Request)
          → require_admin httpd nvs link (nvs.erase_all s admin_ns) r ≡ some service_unavailable
      unfolding require_admin admin_creds_load
      require_admin-erased s r =
          let e = nvs.erase_all s admin_ns in
          elim (Bool-cases (nvs.opens_ro e admin_ns)) [
            | inl t ↦ rw (t, v.str_erase s (codes "user") 33) refl
            | inr t ↦ rw t refl
          ]

      -- After the credentials are erased, every request for these pages is answered by 503 and
      -- changes nothing.
      pub serve-web_admin_forget :
          (uri : Uri) (b : Box S W) (r : Request)
          → is_protected uri ≡ true
          → nvs.opens_rw b.store admin_ns ≡ true
          → let c = record b { store = web_admin_forget httpd nvs link b.store } in
            serve httpd nvs link uri c r ≡ some (c, service_unavailable)
      unfolding web_admin_forget
      serve-web_admin_forget uri b r p o =
          let s = nvs.erase_all b.store admin_ns in
          rw o (
            serve-denied uri (record b { store = s }) r service_unavailable p
              (require_admin-erased b.store r))
