-- ===== src/Routes.antt =====
-- hook/hk_route.c, hook/hk_udp.c: which way a connect, a datagram or a ping of the application goes.
-- The tables are those of the other modules; `link` is the control link and `sent` what went out on
-- the tunnel's own socket, the newest last.
mod Tests
pub mod Isolation
pub mod Outcomes
pub mod Pings
use shadow_lan.Base.{
  ℕ, ◌+◌, ◌-◌, ◌*◌, ◌/◌, ◌%◌, ◌^◌, Bool, true, false, ◌&&◌, ◌||◌, not, List, [], ◌∷◌, ◌++◌, Option,
  none, some, ltb, leb, ◌==◌, if◌then◌else◌, find?, any, modify_first, length,
}
use shadow_lan.Wire.{Bytes, put32, put16}
use shadow_lan.Net.{Addr, loopback, ipv4_is_local, ipv4_is_bcast, is_lan_target}
use shadow_lan.Alias
use shadow_lan.Ledger.{sock_stream, sock_dgram}
use shadow_lan.Members.{
  Lease, Member, virt_node, node_virt, relay_virt, is_vnet_bcast, is_dial_local,
}
use shadow_lan.Stream.{Stream, by_sock, alloc}
use shadow_lan.Ports.{Dial, remember, Slot, slot_get}
use shadow_lan.Datagrams.{Queue, Sockets, lookup, ensure, push, direct_in}
use shadow_lan.Sessions.{Session, reply_port}
use shadow_lan.Control.{Link, queue, udp_tun, bcast}
use shadow_lan.Icmp.Waiting.{Waiter}
use shadow_lan.Tunnel.{c2s_frame, s2c_frame, pdat_frame}

-- This process' place: g_node, g_lan_only, g_only_ports, its interface addresses, g_udp_tcp, and the
-- machine's address text if dt_machine_ip finds one.
pub record Site : Type 0 where
  pub me : ℕ
  pub lan_only : Bool
  pub only : List ℕ
  pub own : List ℕ
  pub udp_tcp : Bool
  pub machine_ip : Option Bytes

pub record World : Type 0 where
  pub lease : Lease
  pub ta : Alias.Table
  pub dials : List Dial
  pub streams : List Stream
  pub slots : List Slot
  pub sessions : List Session
  pub ud : List Queue
  pub link : Link
  pub sent : List Bytes
  pub waiters : List Waiter

-- dt_reject_wire4
unfoldable pub reject_wire4 : Site → Lease → Addr → Bool
reject_wire4 k l dst =
    k.lan_only
    && (not (ipv4_is_local k.own dst.ip)
        && (virt_node l dst.ip == 0 && not (is_lan_target k.only dst)))

-- dt_on_connect's results: 0, 3, 2, -1, 4 and 1
pub data Connect : Type 0 where
  passed no_route already failed hairpin tunnelled : Connect

-- Where the hairpin connects: the loopback, at the real port if there is one
abbrev pub hairpin_to : Alias.Table → Addr → Addr
hairpin_to ta dst =
    let real = Alias.real ta dst.port sock_stream in
    record { ip = loopback; port = if ltb 0 real then real % 2 ^ 16 else dst.port }

abbrev pub is_some : Option Stream → Bool
is_some none = false
is_some (some st) = true

-- The end of dt_on_connect: a stream is started, or the table is full
abbrev pub dial : ℕ → Addr → ℕ → World → World × Connect
dial s dst sid w = (record w { streams = (alloc w.streams s dst sid).0 }, tunnelled)

-- dt_on_connect on a socket of type `kind`; `connects` says whether the kernel's connect to an
-- address succeeds or goes on, and `sid` is what dt_next_sid gives.
unfoldable pub on_connect : Site → (Addr → Bool) → ℕ → ℕ → Addr → ℕ → World → World × Connect
on_connect k connects kind s dst sid w =
    let vnode = virt_node w.lease dst.ip in
    if ipv4_is_local k.own dst.ip
    then (w, passed)
    else if not (kind == sock_stream)
    then (w, passed)
    else if reject_wire4 k w.lease dst
    then (w, no_route)
    else if is_some (by_sock w.streams s)
    then (w, already)
    else if is_dial_local k.me vnode
    then (if connects (hairpin_to w.ta dst)
        then (record w { dials = remember s dst w.dials }, hairpin)
        else (w, failed))
    else if not (vnode == 0) || is_lan_target k.only dst
    then dial s dst sid w
    else if reject_wire4 k w.lease dst
    then (w, failed)
    else (w, passed)

-- The decimal text of an octet, and of an address
abbrev pub digit : ℕ → ℕ
digit n = 48 + n % 10

abbrev pub digits : ℕ → Bytes
digits n =
    if ltb n 10
    then digit n ∷ []
    else if ltb n 100
    then digit (n / 10) ∷ digit n ∷ []
    else digit (n / 100) ∷ digit (n / 10) ∷ digit n ∷ []

unfoldable pub dotted : ℕ → Bytes
dotted a =
    digits (a / 2 ^ 24 % 256)
    ++ (46
        ∷ (digits (a / 2 ^ 16 % 256)
            ++ (46 ∷ (digits (a / 2 ^ 8 % 256) ++ (46 ∷ digits (a % 256))))))

-- dt_src_ip
unfoldable pub src_ip : ℕ → Option Bytes
src_ip myvirt = if myvirt == 0 then none else some (dotted myvirt)

-- "127.0.0.1"
abbrev pub loopback_text : Bytes
loopback_text = 49 ∷ 50 ∷ 55 ∷ 46 ∷ 48 ∷ 46 ∷ 48 ∷ 46 ∷ 49 ∷ []

abbrev pub text_or : Bytes → Option Bytes → Bytes
text_or d none = d
text_or d (some b) = b

-- dt_udp_tun_send where the relay's address resolves and the tunnel has its socket
unfoldable pub tun_send : Bool → Site → Bytes → World → World
tun_send memory k d w =
    if k.udp_tcp
    then record w { link = queue memory udp_tun d w.link }
    else record w { sent = w.sent ++ (d ∷ []) }

-- What the socket is beneath: its type, the port that getsockname gives it before a send, and the
-- one that it has after an implicit bind (0 where the call fails); and whether malloc succeeds.
pub record Socket : Type 0 where
  pub fd : ℕ
  pub kind : ℕ
  pub is_icmp : Bool
  pub port : ℕ
  pub auto_port : ℕ
  pub memory : Bool

abbrev pub shown_port : ℕ → ℕ → ℕ
shown_port bound auto = if bound == 0 then auto else bound

abbrev pub presented : Socket → Option ℕ → World → World × ℕ
presented x (some v) w = (w, v)
presented x none w =
    let p = shown_port x.port x.auto_port in
    if p == 0 then (w, 0) else (record w { ta = Alias.add w.ta x.fd p p x.kind }, p)

-- dt_sport_presentation: 0 if the socket has no port to show
unfoldable pub sport : Socket → World → World × ℕ
sport x w = presented x (Alias.vport w.ta x.fd) w

-- What dt_on_sendto answers: 0, 1 and -1
pub data Sendto : Type 0 where
  to_wire consumed refused : Sendto

abbrev pub loop_back : (Bytes → ℕ) → Sockets → ℕ → Option Bytes → Bytes → World → World
loop_back inet_addr ks port none raw w = w
loop_back inet_addr ks port (some text) raw w = record w {
  ud = direct_in inet_addr ks port text raw w.ud;
}

-- The frame goes out, and the socket gets its queue for what comes back.
abbrev pub launch : Site → Socket → (ℕ → Bytes) → World × ℕ → World
launch k x frame (w, p) =
    if p == 0 || not x.memory
    then w
    else (let w' = tun_send x.memory k (frame p) w in record w' { ud = ensure w'.ud x.fd })

abbrev pub through_slot : Site → Socket → Addr → (ℕ → Bytes) → List Slot × Bool → World → World
through_slot k x dst frame (t, false) w = record w { slots = t }
through_slot k x dst frame (t, true) w = launch k x frame (sport x (record w { slots = t }))

abbrev pub to_member : Site → Socket → ℕ → Addr → Bytes → Option ℕ → World → World
to_member k x vnode dst raw (some port) w =
    if x.memory then tun_send x.memory k (s2c_frame port (dotted dst.ip) dst.port raw) w else w
to_member k x vnode dst raw none w =
    through_slot k x dst
      (pdat_frame_from vnode dst.port (text_or loopback_text (src_ip w.lease.myvirt)) raw)
      (slot_get x.fd dst.port dst w.slots) w
  where
    pdat_frame_from : ℕ → ℕ → Bytes → Bytes → ℕ → Bytes
    pdat_frame_from vnode port text raw sp = pdat_frame vnode port text sp raw

abbrev pub vport_of : Option Queue → ℕ → ℕ
vport_of none port = port
vport_of (some e) port = if ltb 0 e.vport then e.vport else port

abbrev pub echo_text : Site → Lease → Option Bytes
echo_text k l = elim (src_ip l.myvirt) [
  | some b ↦ some b
  | none ↦ if k.lan_only then none else k.machine_ip
]

-- The broadcast branch: the beacon goes on the control link and comes back to the own sockets.
abbrev pub broadcast : (Bytes → ℕ) → Sockets → Site → Socket → Addr → Bytes → World → World
broadcast inet_addr ks k x dst raw w =
    let sp = vport_of (lookup w.ud x.fd) x.port in
    if x.memory
    then loop_back inet_addr ks dst.port (echo_text k w.lease) raw (record w {
      link = queue x.memory bcast (put16 dst.port ++ (put16 sp ++ raw)) w.link;
      ud = ensure w.ud x.fd;
    })
    else w

abbrev pub to_lan : Site → Socket → Addr → Bytes → World → World
to_lan k x dst raw w =
    through_slot k x dst (c2s_from dst.port (text_or loopback_text (src_ip w.lease.myvirt)) raw)
      (slot_get x.fd dst.port dst w.slots) w
  where
    c2s_from : ℕ → Bytes → Bytes → ℕ → Bytes
    c2s_from port text raw sp = c2s_frame port text sp raw

-- dt_on_sendto past its first line, which takes ICMP sockets elsewhere (Routes/Pings)
unfoldable pub on_datagram :
    (Bytes → ℕ) → Sockets → Site → Socket → Bytes → Addr → World → World × Sendto
on_datagram inet_addr ks k x raw dst w =
    let vnode = virt_node w.lease dst.ip in
    if ipv4_is_local k.own dst.ip
    then (w, to_wire)
    else if not (vnode == 0) && not (ipv4_is_bcast dst.ip)
    then (if dst.ip == w.lease.myvirt
        then (loop_back inet_addr ks dst.port (src_ip w.lease.myvirt) raw w, consumed)
        else (to_member k x vnode dst raw (reply_port dst w.sessions) w, consumed))
    else if not (is_lan_target k.only dst)
    then (w, if reject_wire4 k w.lease dst then refused else to_wire)
    else if ipv4_is_bcast dst.ip
    then (broadcast inet_addr ks k x dst raw w, consumed)
    else (to_lan k x dst raw w, consumed)
