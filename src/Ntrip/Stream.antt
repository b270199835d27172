-- ===== src/Ntrip/Stream.antt =====
-- One session of main/ntrip_client.c.
use tab5_client.Prelude.{
  ℕ, ◌+◌, ◌^◌, ◌<◌, ◌≡◌, refl, ap, Bool, true, false, List, [], ◌∷◌, ◌++◌, arith, length,
  length-append, Bytes, codes,
}
use tab5_client.Str.{dec}
use tab5_client.Ntrip.{
  Ntrip, Session, init_failed, open_failed, refused, streamed, u64, set_msg, read_loop, stream_once,
}

-- The data that the receiver took, in order.
abbrev pub taken_bytes : List (Bytes × Bool) → Bytes
taken_bytes [] = []
taken_bytes ((buf, false) ∷ reads) = taken_bytes reads
taken_bytes ((buf, true) ∷ reads) = buf ++ taken_bytes reads

abbrev pub forwarded : Session → Bytes
forwarded init_failed = []
forwarded open_failed = []
forwarded (refused status) = []
forwarded (streamed reads) = taken_bytes reads

-- What stays the same over a session, and how the counter moves.
pub record IsSession (t r : Ntrip) (n : ℕ) : Type 0 where
  pub host : r.host ≡ t.host
  pub port : r.port ≡ t.port
  pub mount : r.mount ≡ t.mount
  pub reconnects : r.reconnects ≡ t.reconnects
  pub bytes_in : r.bytes_in ≡ u64 (t.bytes_in + n)

read_loop-piped :
    (reads : List (Bytes × Bool)) (t : Ntrip) → (read_loop t reads).1 ≡ taken_bytes reads
unfolding read_loop
read_loop-piped [] t = refl
read_loop-piped ((buf, false) ∷ reads) t = read_loop-piped reads t
read_loop-piped ((buf, true) ∷ reads) t =
    ap (◌++◌ buf) (read_loop-piped reads (record t { bytes_in = u64 (t.bytes_in + length buf) }))

read_loop-IsSession :
    (reads : List (Bytes × Bool)) (t : Ntrip)
    → t.bytes_in < 2 ^ 64
    → IsSession t (read_loop t reads).0 (length (taken_bytes reads))
unfolding read_loop
read_loop-IsSession [] t h = record {
  host = refl;
  port = refl;
  mount = refl;
  reconnects = refl;
  bytes_in = omega arith;
}
read_loop-IsSession ((buf, false) ∷ reads) t h = read_loop-IsSession reads t h
read_loop-IsSession ((buf, true) ∷ reads) t h =
    let v =
      read_loop-IsSession reads (record t { bytes_in = u64 (t.bytes_in + length buf) })
        (omega arith) in
    record {
      host = v.host;
      port = v.port;
      mount = v.mount;
      reconnects = v.reconnects;
      bytes_in = omega (arith, v.bytes_in, length-append buf (taken_bytes reads));
    }

settled : (t : Ntrip) (m : Bytes) → t.bytes_in < 2 ^ 64 → IsSession t (set_msg t m) 0
settled t m h = record {
  host = refl;
  port = refl;
  mount = refl;
  reconnects = refl;
  bytes_in = omega arith;
}

-- A session that ends leaves the client disconnected. The receiver got exactly the data of the
-- reads whose write succeeded, in order, and the byte counter grew by that much, modulo 2^64;
-- caster and reconnect counter stay as they were.
pub stream_once-IsSession :
    (t : Ntrip) (session : Session)
    → t.connected ≡ false
    → t.bytes_in < 2 ^ 64
    → let (r, piped) = stream_once t session in
      (r.connected ≡ false) × (piped ≡ forwarded session) × IsSession t r (length piped)
unfolding stream_once
stream_once-IsSession t init_failed c h = (c, refl, settled t (codes "init failed") h)
stream_once-IsSession t open_failed c h = (c, refl, settled t (codes "connect failed") h)
stream_once-IsSession t (refused status) c h = (c, refl, settled t (codes "HTTP " ++ dec status) h)
stream_once-IsSession t (streamed reads) c h =
    let started = set_msg (record t { connected = true }) (codes "streaming") in
    let v = read_loop-IsSession reads started h in
    let e = read_loop-piped reads started in
    (
      refl,
      e,
      rw e (record {
        host = v.host;
        port = v.port;
        mount = v.mount;
        reconnects = v.reconnects;
        bytes_in = v.bytes_in;
      }),
    )
