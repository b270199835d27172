-- ===== src/Tests/Console.antt =====
-- main/debug_console.c with a store in memory and a receiver that acknowledges every command.
use tab5_client.Web.Admin.{admin_ns, require_admin, service_unavailable}
use tab5_client.Tests.Screen.{app_up}
use tab5_client.Tests.Mosaic.{willing}
use tab5_client.Tests.Memory.{Memory, blank_memory, memory, memory-StoresText}
use tab5_client.Tests.Leveler.{nowhere}
use tab5_client.Tests.Admin.{request}
use tab5_client.Tests.Forms.{plain_httpd}
use tab5_client.Ntrip.{ntrip_boot, nvs_ns}
use tab5_client.Mosaic.{EspErr}
use tab5_client.Logger.{logger_boot}
use tab5_client.Console.Joining.{cmd_mosaic-spaced, spaced}
use tab5_client.Console.Credentials.{Cast, cmd_ntripset-Cast, cmd_webadmin-long}
use tab5_client.Console.Commands.{cmd_mosaic, cmd_ntripset, cmd_webadmin, webadmin_text}
use tab5_client.Console.{Device, Env, join_loop}
use tab5_client.Prelude.{
  ◌≡◌, refl, true, false, some, List, [], ◌∷◌, ◌++◌, arith, take, replicate, Bytes, codes,
}

abbrev device : Device Memory (List Bytes)
device = record {
  app = app_up;
  logger = logger_boot;
  ntrip = ntrip_boot;
  store = blank_memory;
  receiver = [];
  reboots = false;
}

abbrev env : Env
env = record { snapshot = nowhere; fuel = 9; locks = true }

abbrev perim : List Bytes
perim = codes "perim" ∷ []

abbrev no_names : EspErr → Bytes
no_names err = []

joined_run :
    (cmd_mosaic willing no_names device (codes "setSBFOutput," ∷ codes "Stream1" ∷ [])).0.receiver
    ≡ codes "setSBFOutput, Stream1" ∷ []
unfolding cmd_mosaic join_loop
joined_run = refl

cmd_mosaic-spaced_example :
    let r = (cmd_mosaic willing no_names device (codes "getX," ∷ codes "all" ∷ [])).0 in
    (willing.sent r.receiver
      ≡ willing.sent device.receiver ++ take 223 (spaced (codes "getX," ∷ codes "all" ∷ [])) ∷ [])
    × (r ≡ record device { receiver = r.receiver })
cmd_mosaic-spaced_example =
    cmd_mosaic-spaced willing no_names device (codes "getX,") (codes "all" ∷ [])

cmd_ntripset-Cast_example :
    Cast memory device
      (codes "rtk.example")
      (codes "2101")
      (codes "base")
      ntrip_boot
      (cmd_ntripset memory device (codes "rtk.example" ∷ codes "2101" ∷ codes "base" ∷ [])).0
cmd_ntripset-Cast_example =
    cmd_ntripset-Cast memory (memory-StoresText nvs_ns) device (codes "rtk.example") (codes "2101")
      (codes "base") [] ntrip_boot refl (omega arith) (omega arith)

abbrev long_name : Bytes
long_name = replicate 33 65

cmd_webadmin-long_example :
    (d' : Device Memory (List Bytes)) × (cmd_webadmin memory plain_httpd willing device
        (long_name ∷ codes "pw" ∷ [])
      ≡ some (d', webadmin_text long_name))
    × (require_admin plain_httpd memory willing d'.store request ≡ some service_unavailable)
cmd_webadmin-long_example =
    cmd_webadmin-long memory plain_httpd willing (memory-StoresText admin_ns) device request
      long_name (codes "pw") [] refl (omega arith)
