-- ===== src/Routes/Pings.antt =====
-- dt_on_icmp_send, dt_icmp_in and what they call: the echo messages of raw and of ping sockets; and
-- dt_on_sendto, which takes these sockets there.
use shadow_lan.Base.{
  ℕ, ◌+◌, Bool, true, ◌&&◌, ◌||◌, not, List, [], ◌∷◌, Option, none, some, ltb, ◌==◌, if◌then◌else◌,
  length, take,
}
use shadow_lan.Wire.{Bytes}
use shadow_lan.Net.{Addr, ipv4_is_local}
use shadow_lan.Members.{Lease, Member, virt_node, node_virt, relay_virt, is_vnet_bcast}
use shadow_lan.Datagrams.{Sockets, Queue, ensure, push, is_live}
use shadow_lan.Icmp.{Echo, parse_req, build_rep, tunnel_frame, answer, icmp_req}
use shadow_lan.Icmp.Waiting.{note, is_awaited}
use shadow_lan.Routes.{Site, World, Socket, Sendto, to_wire, consumed, tun_send, on_datagram}

-- dt_icmp_send_req
unfoldable pub send_req : Site → Socket → ℕ → Echo → World → World
send_req k x node e w =
    if x.memory then tun_send true k (tunnel_frame icmp_req k.me node e) w else w

-- The reply that is shown, as from an address
abbrev pub shown_reply : Bool → ℕ → Echo → ℕ → List Queue → List Queue
shown_reply memory virt e s t =
    push memory (record { p = build_rep e.id e.seq e.body; from = record { ip = virt; port = 0 } })
      s t

-- dt_icmp_self
unfoldable pub self_reply : Socket → Echo → World → World
self_reply x e w =
    if ltb 1500 (8 + length e.body) || w.lease.myvirt == 0
    then w
    else record w { ud = shown_reply x.memory w.lease.myvirt e x.fd w.ud }

abbrev pub noted : Socket → ℕ → Echo → World → World
noted x now e w = record w { waiters = note x.fd e.id now w.waiters }

-- The requests of a broadcast, one to each other member
abbrev pub send_all : Site → Socket → Echo → List Member → World → World
send_all k x e [] w = w
send_all k x e (m ∷ ms) w =
    let virt = node_virt w.lease m.node in
    let sent = send_req k x m.node e w in
    send_all k x e ms (if virt == 0 || virt == w.lease.myvirt then w else sent)

abbrev pub kept_queue : Socket → World → World
kept_queue x w = record w { ud = ensure w.ud x.fd }

abbrev pub send_echo : Site → Socket → Addr → ℕ → Option Echo → World → World × Sendto
send_echo k x dst now none w = (w, to_wire)
send_echo k x dst now (some e) w =
    let relay = relay_virt w.lease in
    let vnode = virt_node w.lease dst.ip in
    if dst.ip == w.lease.myvirt
    then (kept_queue x (self_reply x e w), consumed)
    else if not (relay == 0) && dst.ip == relay
    then (kept_queue x (send_req k x 0 e (noted x now e w)), consumed)
    else if not (vnode == 0)
    then (kept_queue x (send_req k x vnode e (noted x now e w)), consumed)
    else if is_vnet_bcast w.lease dst.ip
    then (
      kept_queue x (self_reply x e (send_all k x e w.lease.members (noted x now e w))),
      consumed,
    )
    else (w, to_wire)

-- dt_on_icmp_send
unfoldable pub on_icmp_send : Site → Socket → Bytes → Addr → ℕ → World → World × Sendto
on_icmp_send k x raw dst now w =
    if ipv4_is_local k.own dst.ip then (w, to_wire) else send_echo k x dst now (parse_req raw) w

-- dt_on_sendto; `is_icmp` is what dt_is_icmp_sock answers for the socket
unfoldable pub on_sendto :
    (Bytes → ℕ) → Sockets → Site → Socket → Bytes → Addr → ℕ → World → World × Sendto
on_sendto inet_addr ks k x raw dst now w =
    if x.is_icmp then on_icmp_send k x raw dst now w else on_datagram inet_addr ks k x raw dst w

abbrev live_socks : List Queue → List ℕ
live_socks [] = []
live_socks (q ∷ qs) = if is_live q then q.gsock ∷ live_socks qs else live_socks qs

-- The second loop of dt_icmp_deliver, over the sockets that the first one found
unfoldable pub deliver_to : (ℕ → Bool) → Bool → ℕ → Echo → ℕ → List ℕ → World → World
deliver_to is_icmp memory virt e now [] w = w
deliver_to is_icmp memory virt e now (s ∷ ss) w = deliver_to is_icmp memory virt e now ss (
    if is_icmp s && is_awaited s e.id now w.waiters
    then record w { ud = shown_reply memory virt e s w.ud }
    else w)

-- dt_icmp_deliver; `max` is DT_MAXICMP
unfoldable pub deliver : (ℕ → Bool) → Bool → ℕ → ℕ → Echo → ℕ → World → World
deliver is_icmp memory max virt e now w =
    if ltb 1500 (8 + length e.body)
    then w
    else deliver_to is_icmp memory virt e now (take max (live_socks w.ud)) w

abbrev source : Lease → ℕ → ℕ
source l src = if src == 0 then relay_virt l else node_virt l src

abbrev answered : Site → Bool → Option Bytes → World → World
answered k memory none w = w
answered k memory (some b) w = if memory then tun_send true k b w else w

-- dt_icmp_in of the Linux build
unfoldable pub icmp_in : Site → (ℕ → Bool) → Bool → ℕ → Bool → ℕ → ℕ → Echo → ℕ → World → World
icmp_in k is_icmp memory max is_rep src dest e now w =
    if not is_rep
    then answered k memory (answer k.me src dest e) w
    else if source w.lease src == 0
    then w
    else deliver is_icmp memory max (source w.lease src) e now w
