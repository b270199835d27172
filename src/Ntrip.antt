-- ===== src/Ntrip.antt =====
-- main/ntrip_client.c: the corrections client. A task alternates between a session with the
-- caster and a pause; the console and the web server change the caster between its rounds.
pub mod Stream
pub mod Pause
pub mod Caster
use tab5_client.Prelude.{
  ℕ, ◌+◌, ◌*◌, ◌%◌, ◌^◌, Bool, true, false, not, ◌&&◌, Option, none, some, List, [], ◌∷◌, ◌++◌, ltb,
  if◌then◌else◌, length, Bytes, u32, codes,
}
use tab5_client.Prelude.Int.{ℤ}
use tab5_client.Nvs.{Nvs}
use tab5_client.Str.{strlcpy, dec}

abbrev pub nvs_ns : Bytes
nvs_ns = codes "ntrip"

abbrev def_host : Bytes
def_host = codes "rtk.toiso.fit"

abbrev def_port : ℕ
def_port = 2101

abbrev def_mount : Bytes
def_mount = codes "eniwa-bd982"

abbrev pub backoff_min_ms : ℕ
backoff_min_ms = 1000

abbrev pub backoff_max_ms : ℕ
backoff_max_ms = 15000

abbrev pub host_size : ℕ
host_size = 64

abbrev pub mount_size : ℕ
mount_size = 32

abbrev pub u64 : ℕ → ℕ
u64 n = n % 2 ^ 64

-- The file's statics.
pub record Ntrip : Type 0 where
  pub connected : Bool
  pub bytes_in : ℕ
  pub reconnects : ℕ
  pub host : Bytes
  pub port : ℕ
  pub mount : Bytes
  pub last_msg : Bytes

unfoldable pub ntrip_boot : Ntrip
ntrip_boot = record {
  connected = false;
  bytes_in = 0;
  reconnects = 0;
  host = def_host;
  port = def_port;
  mount = def_mount;
  last_msg = codes "idle";
}

abbrev pub set_msg : Ntrip → Bytes → Ntrip
set_msg t m = record t { last_msg = strlcpy m 48 }

pub record NtripStatus : Type 0 where
  pub configured : Bool
  pub connected : Bool
  pub host : Bytes
  pub port : ℕ
  pub mount : Bytes
  pub bytes_in : ℕ
  pub reconnects : ℕ
  pub last_msg : Bytes

abbrev pub is_configured : Ntrip → Bool
is_configured t = ltb 0 (length t.host)

unfoldable pub ntrip_client_status : Ntrip → NtripStatus
ntrip_client_status t = record {
  configured = is_configured t;
  connected = t.connected;
  host = t.host;
  port = t.port;
  mount = t.mount;
  bytes_in = t.bytes_in;
  reconnects = t.reconnects;
  last_msg = t.last_msg;
}

abbrev pub or_text : Bytes → Option Bytes → Bytes
or_text d none = d
or_text d (some v) = v

abbrev pub or_number : ℕ → Option ℕ → ℕ
or_number d none = d
or_number d (some v) = v

module _ {S : Type 0} (nvs : Nvs S) where
  unfoldable pub creds_load : S → Ntrip → Ntrip
  creds_load s t = if not (nvs.opens_ro s nvs_ns) then t else record t {
    host = or_text t.host (nvs.get_str s nvs_ns (codes "host") host_size);
    mount = or_text t.mount (nvs.get_str s nvs_ns (codes "mount") mount_size);
    port = or_number t.port (nvs.get_u16 s nvs_ns (codes "port"));
  }

  -- `none` is NULL.
  unfoldable pub ntrip_client_set : S → Ntrip → Option Bytes → ℕ → Option Bytes → S × Ntrip
  ntrip_client_set s t host port mount =
      let h = or_text [] host in
      let m = or_text [] mount in
      let s1 = nvs.set_str s nvs_ns (codes "host") h in
      let s2 = nvs.set_str s1 nvs_ns (codes "mount") m in
      let s3 = nvs.set_u16 s2 nvs_ns (codes "port") port in
      if not (nvs.opens_rw s nvs_ns)
      then (s, t)
      else (s3, record t { host = strlcpy h host_size; mount = strlcpy m mount_size; port = port })

  unfoldable pub ntrip_client_forget : S → Ntrip → S × Ntrip
  ntrip_client_forget s t =
      (if nvs.opens_rw s nvs_ns then nvs.erase_all s nvs_ns else s, record t { host = [] })

-- What the HTTP client and the USB channel do in one session: the reads that bring data, each with
-- whether the receiver took it, up to the one that ends the stream.
pub data Session : Type 0 where
  init_failed open_failed : Session
  refused : ℤ → Session
  streamed : List (Bytes × Bool) → Session

-- The loop of `stream_once`, with what went to the receiver.
unfoldable pub read_loop : Ntrip → List (Bytes × Bool) → Ntrip × Bytes
read_loop t [] = (set_msg t (codes "stream ended"), [])
read_loop t ((buf, false) ∷ reads) = read_loop t reads
read_loop t ((buf, true) ∷ reads) =
    let (r, piped) = read_loop (record t { bytes_in = u64 (t.bytes_in + length buf) }) reads in
    (r, buf ++ piped)

unfoldable pub stream_once : Ntrip → Session → Ntrip × Bytes
stream_once t init_failed = (set_msg t (codes "init failed"), [])
stream_once t open_failed = (set_msg t (codes "connect failed"), [])
stream_once t (refused status) = (set_msg t (codes "HTTP " ++ dec status), [])
stream_once t (streamed reads) =
    let (r, piped) =
      read_loop (set_msg (record t { connected = true }) (codes "streaming")) reads in
    (record r { connected = false }, piped)

-- The task's local `backoff`, beside the statics.
pub record Task : Type 0 where
  pub st : Ntrip
  pub backoff : ℕ

-- The pause that follows a session, given the one before it.
abbrev pub next_backoff : ℕ → Ntrip → ℕ
next_backoff backoff t =
    if not t.connected && ltb 0 t.bytes_in
    then backoff_min_ms
    else if ltb backoff backoff_max_ms
    then backoff * 2
    else backoff_max_ms

module _ {S : Type 0} (nvs : Nvs S) where
  unfoldable pub ntrip_task_start : S → Ntrip → Task
  ntrip_task_start s t = record { st = creds_load nvs s t; backoff = backoff_min_ms }

  -- One round of `ntrip_task`: the state after it, and how long it paused, in milliseconds.
  unfoldable pub ntrip_round : S → Session → Task → Task × ℕ
  ntrip_round s session k =
      if not (is_configured k.st)
      then (record k { st = creds_load nvs s (set_msg k.st (codes "idle (no caster)")) }, 5000)
      else (let (t, piped) = stream_once k.st session in
          let t' = record t { reconnects = u32 (t.reconnects + 1) } in
          (record { st = creds_load nvs s t'; backoff = next_backoff k.backoff t' }, k.backoff))
