-- ===== src/Stream/Dial/Payload.antt =====
-- hook/hk_stream.c, dt_stream_thread: the fields of the DT_STOPEN payload.
use shadow_lan.Base.{ℕ, ◌<◌, ◌≡◌, ◌^◌, drop, length, refl, []}
use shadow_lan.Wire.{get32, get16, put32, put16}
use shadow_lan.Wire.Numbers.{get32-put32, get16-put16}
use shadow_lan.Members.{Lease, virt_node}
use shadow_lan.Stream.Dial.{Dial, open_payload}

-- The payload's fields, read at their offsets, are the node, the destination's node, the stream id
-- and the port, where each fits its field; it has DT_STOPEN_N bytes.
pub open_payload_fields :
    (l : Lease) (node : ℕ) (d : Dial)
    → node < 2 ^ 32
    → virt_node l d.orig.ip < 2 ^ 32
    → d.sid < 2 ^ 32
    → d.orig.port < 2 ^ 16
    → let p = open_payload l node d in
      (get32 p ≡ node)
      × (get32 (drop 4 p) ≡ virt_node l d.orig.ip)
      × (get32 (drop 8 p) ≡ d.sid)
      × (get16 (drop 12 p) ≡ d.orig.port)
      × (length p ≡ 14)
unfolding open_payload put32 put16
open_payload_fields l node d n v s q = (
  get32-put32 node _ n,
  get32-put32 (virt_node l d.orig.ip) _ v,
  get32-put32 d.sid _ s,
  get16-put16 d.orig.port [] q,
  refl,
)
