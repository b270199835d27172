-- ===== src/Web/Admin.antt =====
-- main/web_server.c: the administrator's credentials and the handlers. What the HTTP server and
-- the base64 decoder of mbedtls give is a parameter or an argument: a request with its header and
-- the results of its reads, and the value of a form field.
use tab5_client.Prelude.{
  ℕ, ◌-◌, Bool, true, false, not, ◌&&◌, ◌||◌, Option, none, some, List, [], ◌∷◌, ◌++◌, map, ltb,
  leb, ◌==◌, if◌then◌else◌, length, take, Bytes, codes,
}
use tab5_client.Nvs.{Nvs}
use tab5_client.Str.{eq_bytes, c_str, strlcpy}
use tab5_client.Mosaic.{EspErr, esp_ok, esp_err_invalid_state}
use tab5_client.Mosaic.Link.{Link}
use tab5_client.Wifi.{wifi_save_creds, wifi_clear_creds}
use tab5_client.Web.{urldecode}

abbrev pub admin_ns : Bytes
admin_ns = codes "webadmin"

-- A result of `httpd_req_recv`.
pub data Recv : Type 0 where
  received : Bytes → Recv
  timed_out : Recv
  broken : Recv

-- A request: the value of its `Authorization` header, if it has one that fits the buffer of 200;
-- the length that it announces; and what the reads of its body give, each at most what was asked
-- for. After the last, the peer has closed.
pub record Request : Type 0 where
  pub authorization : Option Bytes
  pub content_len : ℕ
  pub reads : List Recv

-- `httpd_query_key_value`: the value, one cut to the buffer, or no such key.
pub data Query : Type 0 where
  found : Bytes → Query
  truncated : Bytes → Query
  missing : Query

pub record Httpd : Type 0 where
  pub query_key_value : Bytes → Bytes → ℕ → Query
  pub base64_decode : Bytes → ℕ → Option Bytes

-- The box as the handlers change it: the store, the receiver, and whether a reboot is scheduled.
pub record Box (S W : Type 0) : Type 0 where
  pub store : S
  pub receiver : W
  pub reboots : Bool

pub data Response : Type 0 where
  service_unavailable : Response
  auth_required : Response
  bad_request : Bytes → Response
  plain : Bytes → Response
  page : Response

-- The loop of `recv_body` with what was read and how much is left.
unfoldable pub recv_loop : List Recv → Bytes → ℕ → Option Bytes
recv_loop [] buf left = if left == 0 then some buf else none
recv_loop (timed_out ∷ rs) buf left =
    let rest = recv_loop rs buf left in if left == 0 then some buf else rest
recv_loop (broken ∷ rs) buf left = if left == 0 then some buf else none
recv_loop (received chunk ∷ rs) buf left =
    let got = take left chunk in
    let rest = recv_loop rs (buf ++ got) (left - length got) in
    if left == 0 then some buf else if length got == 0 then none else rest

-- `none` is -1.
unfoldable pub recv_body : Request → ℕ → Option Bytes
recv_body r size = if leb size r.content_len then none else recv_loop r.reads [] r.content_len

-- The text behind the first space, if there is one.
abbrev pub after_space : Bytes → Option Bytes
after_space [] = none
after_space (c ∷ cs) = if c == 32 then some cs else after_space cs

-- Of a reply, what a browser can show.
abbrev pub shown : ℕ → ℕ
shown c =
    if not (c == 13) && not (c == 10) && not (c == 9) && (ltb c 0x20 || ltb 0x7E c) then 46 else c

-- UTF-8 of the em dash and of the ellipsis.
abbrev dash : Bytes
dash = 0xE2 ∷ 0x80 ∷ 0x94 ∷ []

abbrev ellipsis : Bytes
ellipsis = 0xE2 ∷ 0x80 ∷ 0xA6 ∷ []

-- The message of a saved network, in a buffer of 80.
abbrev pub saved_text : Bytes → Bytes
saved_text ssid =
    strlcpy (codes "saved '" ++ (ssid ++ (codes "' " ++ (dash ++ codes " rebooting to join")))) 80

pub data Uri : Type 0 where
  index_uri admin_uri mos_uri wifi_uri reboot_uri : Uri

abbrev no_reply : Bytes
no_reply = codes "(command sent " ++ (dash ++ codes " no reply captured)")

module _ (httpd : Httpd) where
  abbrev pub matches_token : Option Bytes → Bytes → Bool
  matches_token none expect = false
  matches_token (some d) expect =
      ltb (length expect) 128 && ltb 0 (length expect) && eq_bytes d expect

  abbrev pub check_token : Option Bytes → Bytes → Bool
  check_token none expect = false
  check_token (some token) expect = matches_token (httpd.base64_decode token 127) expect

  unfoldable pub check_basic : Bytes → Bytes → Bytes → Bool
  check_basic header user pass = check_token (after_space header) (user ++ (codes ":" ++ pass))

  -- What is left in the field's buffer, and whether the key was there and fitted.
  abbrev pub field_of : Query → Bytes × Bool
  field_of (found v) = (urldecode v, true)
  field_of (truncated v) = (v, false)
  field_of missing = ([], false)

  unfoldable pub form_field : Bytes → Bytes → ℕ → Bytes × Bool
  form_field body key size = field_of (httpd.query_key_value body key size)

  module _ {S W : Type 0} (nvs : Nvs S) (link : Link W) where
    -- `none` is the abort of `ESP_ERROR_CHECK`.
    unfoldable pub web_admin_set_creds : S → Bytes → Bytes → Option S
    web_admin_set_creds s user pass =
        if nvs.opens_rw s admin_ns
        then some
            (nvs.set_str (nvs.set_str s admin_ns (codes "user") user) admin_ns (codes "pass") pass)
        else none

    unfoldable pub web_admin_forget : S → S
    web_admin_forget s = if nvs.opens_rw s admin_ns then nvs.erase_all s admin_ns else s

    abbrev pub both_admin : Option Bytes → Option Bytes → Option (Bytes × Bytes)
    both_admin none pass = none
    both_admin (some user) none = none
    both_admin (some user) (some pass) = if length user == 0 then none else some (user, pass)

    unfoldable pub admin_creds_load : S → Option (Bytes × Bytes)
    admin_creds_load s =
        if not (nvs.opens_ro s admin_ns)
        then none
        else both_admin (nvs.get_str s admin_ns (codes "user") 33)
            (nvs.get_str s admin_ns (codes "pass") 65)

    abbrev pub header_matches : Option Bytes → Bytes → Bytes → Bool
    header_matches none user pass = false
    header_matches (some header) user pass = check_basic header user pass

    abbrev pub admitted : Option (Bytes × Bytes) → Request → Option Response
    admitted none r = some service_unavailable
    admitted (some (user, pass)) r =
        if header_matches r.authorization user pass then none else some auth_required

    -- The response to a request that is turned away.
    unfoldable pub require_admin : S → Request → Option Response
    unfolding admin_creds_load check_basic
    require_admin s r = admitted (admin_creds_load s) r

    -- A handler behind the gate.
    abbrev pub gated : Box S W → Request → Box S W × Response → Box S W × Response
    gated b r allowed = elim (require_admin b.store r) [
      | some denied ↦ (b, denied)
      | none ↦ allowed
    ]

    abbrev reply_text : EspErr → Bytes → Bytes
    reply_text esp_err_invalid_state reply = codes "(no Mosaic CDC interface open)"
    reply_text esp_ok reply = if length reply == 0 then no_reply else map shown reply
    reply_text err reply = no_reply

    abbrev pub send_field : Box S W → Bytes × Bool → Box S W × Response
    send_field b (cmd, present) =
        let (w, err, reply) = link.usb_cdc_send_command b.receiver (c_str cmd) in
        if not present || length (c_str cmd) == 0
        then (b, bad_request (codes "need cmd"))
        else (record b { receiver = w }, plain (reply_text err reply))

    abbrev pub mosaic_body : Box S W → Option Bytes → Box S W × Response
    mosaic_body b none = (b, bad_request (codes "bad body"))
    mosaic_body b (some body) = send_field b (form_field body (codes "cmd") 160)

    unfoldable pub mosaic_post : Box S W → Request → Box S W × Response
    unfolding recv_body form_field
    mosaic_post b r = gated b r (mosaic_body b (recv_body r 256))

    -- `none` is the abort of `wifi_save_creds`.
    abbrev pub save_fields : Box S W → Bytes → Bytes → Option (Box S W × Response)
    save_fields b ssid pass =
        if length ssid == 0
        then some (b, bad_request (codes "need ssid"))
        else elim (wifi_save_creds nvs b.store ssid pass) [
          | some s ↦ some (record b { store = s; reboots = true }, plain (saved_text ssid))
          | none ↦ none
        ]

    abbrev pub forget_asked : Bytes × Bool → Bool
    forget_asked (text, present) = present && eq_bytes (c_str text) (codes "1")

    abbrev pub wifi_body : Box S W → Option Bytes → Option (Box S W × Response)
    wifi_body b none = some (b, bad_request (codes "bad body"))
    wifi_body b (some body) =
        if forget_asked (form_field body (codes "forget") 4)
        then some (
          record b { store = wifi_clear_creds nvs b.store; reboots = true },
          plain (codes "WiFi creds erased " ++ (dash ++ codes " rebooting")),
        )
        else save_fields b (c_str (form_field body (codes "ssid") 33).0)
            (c_str (form_field body (codes "pass") 65).0)

    unfoldable pub wifi_post : Box S W → Request → Option (Box S W × Response)
    unfolding recv_body form_field
    wifi_post b r = elim (require_admin b.store r) [
      | some denied ↦ some (b, denied)
      | none ↦ wifi_body b (recv_body r 256)
    ]

    unfoldable pub reboot_post : Box S W → Request → Box S W × Response
    reboot_post b r = gated b r (record b { reboots = true }, plain (codes "rebooting" ++ ellipsis))

    unfoldable pub admin_get : Box S W → Request → Box S W × Response
    admin_get b r = gated b r (b, page)

    unfoldable pub index_get : Box S W → Request → Box S W × Response
    index_get b r = (b, page)

    -- The handlers that `web_server_start` registers, without the status page's data.
    unfoldable pub serve : Uri → Box S W → Request → Option (Box S W × Response)
    unfolding index_get admin_get mosaic_post wifi_post reboot_post
    serve index_uri b r = some (index_get b r)
    serve admin_uri b r = some (admin_get b r)
    serve mos_uri b r = some (mosaic_post b r)
    serve wifi_uri b r = wifi_post b r
    serve reboot_uri b r = some (reboot_post b r)
