-- ===== src/Tests/Admin.antt =====
-- main/web_server.c: requests for the administrator's pages.
use tab5_client.Web.Guard.{presents, serve-web_admin_set_creds}
use tab5_client.Web.Escapes.{hex_digit, encode_uri_component}
use tab5_client.Tests.Forms.{plain_httpd, plain_httpd-ReadsForms}
use tab5_client.Web.Actions.{mosaic_post-sends}
use tab5_client.Tests.Mosaic.{willing}
use tab5_client.Tests.Memory.{Memory, blank_memory, memory, memory-StoresText}
use tab5_client.Prelude.{
  ◌≡◌, refl, ◌⊎◌, true, false, none, some, List, [], ◌∷◌, ◌++◌, arith, Bytes, codes,
}
use tab5_client.Web.Admin.{
  admin_ns, mosaic_post, auth_required, web_admin_set_creds, serve, wifi_uri, timed_out,
  check_basic, received, admin_creds_load, require_admin, Request, Box,
}

abbrev box_new : Box Memory (List Bytes)
box_new = record { store = blank_memory; receiver = []; reboots = false }

abbrev store_set : Memory
store_set =
    memory.set_str (memory.set_str blank_memory admin_ns (codes "user") (codes "op")) admin_ns
      (codes "pass") (codes "pw")

abbrev box_set : Box Memory (List Bytes)
box_set = record { store = store_set; receiver = []; reboots = false }

-- A body of four bytes in two parts.
abbrev pub request : Request
request = record {
  authorization = some (codes "Basic op:pw");
  content_len = 4;
  reads = received (codes "abc") ∷ timed_out ∷ received (codes "d") ∷ [];
}

serve-web_admin_set_creds_example :
    (s : Memory) × (web_admin_set_creds plain_httpd memory willing blank_memory
        (codes "op")
        (codes "pw")
      ≡ some s)
    × (((presents plain_httpd request (codes "op") (codes "pw") ≡ true)
          × (require_admin plain_httpd memory willing s request ≡ none))
        ⊎ ((presents plain_httpd request (codes "op") (codes "pw") ≡ false)
            × (serve plain_httpd memory willing wifi_uri (record box_new { store = s }) request
                ≡ some (record box_new { store = s }, auth_required))))
serve-web_admin_set_creds_example =
    serve-web_admin_set_creds plain_httpd memory willing (memory-StoresText admin_ns) wifi_uri
      box_new request (codes "op") (codes "pw") refl refl (omega arith) (omega arith) (omega arith)

-- The page's body for the command `getX 1`, in two parts.
abbrev command_request : Request
command_request = record {
  authorization = some (codes "Basic op:pw");
  content_len = 12;
  reads = received (codes "cmd=ge") ∷ timed_out ∷ received (codes "tX%201") ∷ [];
}

command_admitted : require_admin plain_httpd memory willing store_set command_request ≡ none
unfolding require_admin admin_creds_load check_basic
command_admitted = refl

mosaic_post-sends_example :
    let b' = (mosaic_post plain_httpd memory willing box_set command_request).0 in
    (willing.sent b'.receiver ≡ willing.sent box_set.receiver ++ codes "getX 1" ∷ [])
    × (b'.store ≡ box_set.store)
    × (b'.reboots ≡ box_set.reboots)
unfolding encode_uri_component hex_digit
mosaic_post-sends_example =
    mosaic_post-sends plain_httpd plain_httpd-ReadsForms memory willing box_set command_request
      (codes "getX 1") command_admitted (ground arith) refl refl (omega arith) (omega arith)
      (ground arith) (ground arith) (omega arith)

-- The page's body for the network `field 1` and its password.
abbrev wifi_request : Request
wifi_request = record {
  authorization = some (codes "Basic op:pw");
  content_len = 27;
  reads = received (codes "ssid=field%201&pass=tractor") ∷ [];
}
