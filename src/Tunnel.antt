-- ===== src/Tunnel.antt =====
-- hook/hk_stream.c, hook/hk_udp.c: the frames of the datagram tunnel and of the control link, as
-- they are built and as dt_udp_ingress and dt_ctl_dispatch take them apart and act on them. An
-- address text is its bytes. What a frame comes to is given before it is acted on.
mod Tests
pub mod Frames
pub mod Delivery
use shadow_lan.Base.{
  ℕ, zero, suc, ◌+◌, ◌-◌, ◌/◌, ◌%◌, ◌^◌, Bool, true, false, ◌&&◌, ◌||◌, not, List, [], ◌∷◌, ◌++◌,
  Option, none, some, ltb, leb, ◌==◌, if◌then◌else◌, find?, length, take, drop,
}
use shadow_lan.Wire.{Bytes, put32, put16, get32, get16, at}
use shadow_lan.Net.{Addr}
use shadow_lan.Alias
use shadow_lan.Datagrams.{Queue, Sockets, push, direct_in, dispatch_from}
use shadow_lan.Ports.{Slot}
use shadow_lan.Members.{Lease, apply_assign}
use shadow_lan.Sessions.{Session, Injected, hosted_udp_in, Host, on_streq}

-- DU_VER, DU_C2S, DU_S2C, DU_PDAT, DU_ICMP_REQ, DU_ICMP_REP
abbrev pub version : ℕ
version = 3

abbrev pub c2s : ℕ
c2s = 1

abbrev pub s2c : ℕ
s2c = 2

abbrev pub pdat : ℕ
pdat = 3

abbrev pub icmp_req : ℕ
icmp_req = 5

abbrev pub icmp_rep : ℕ
icmp_rep = 6

-- The flow triple and the datagram, after the head of a frame
abbrev pub flow_bytes : ℕ → Bytes → ℕ → Bytes → Bytes
flow_bytes gport ip port raw = put16 gport ++ (put16 (length ip) ++ (ip ++ (put16 port ++ raw)))

-- 'V' 'N' DU_VER and the operation
abbrev pub head : ℕ → Bytes → Bytes
head op b = 86 ∷ 78 ∷ version ∷ op ∷ b

-- The frame that dt_on_sendto sends for a datagram to a LAN address
unfoldable pub c2s_frame : ℕ → Bytes → ℕ → Bytes → Bytes
c2s_frame gport ip sport raw = head c2s (flow_bytes gport ip sport raw)

-- The frame that dt_hosted_thread and dt_on_sendto send back to a session's member
unfoldable pub s2c_frame : ℕ → Bytes → ℕ → Bytes → Bytes
s2c_frame gport ip cport raw = head s2c (flow_bytes gport ip cport raw)

-- The frame that dt_on_sendto sends for a datagram to a member
unfoldable pub pdat_frame : ℕ → ℕ → Bytes → ℕ → Bytes → Bytes
pdat_frame vnode gport ip sport raw = head pdat (put32 vnode ++ flow_bytes gport ip sport raw)

-- What dt_udp_ingress takes a frame for.
pub data Ingress : Type 0 where
  ignored : Ingress
  to_host : ℕ → Bytes → ℕ → Bytes → Ingress
  to_flow : ℕ → ℕ → Bytes → Ingress
  ping : Bool → ℕ → ℕ → ℕ → ℕ → Bytes → Ingress

abbrev pub ip_length : Bytes → ℕ
ip_length b = get16 (drop 6 b)

-- The operation, for a frame with the right head
unfoldable pub read_op : ℕ → Bytes → Ingress
read_op op b =
    let il = ip_length b in
    if op == c2s
    then (if ltb (length b) (8 + il + 2)
        then ignored
        else to_host (get16 (drop 4 b)) (take il (drop 8 b)) (get16 (drop (8 + il) b))
            (drop (10 + il) b))
    else if op == icmp_req || op == icmp_rep
    then (if leb 16 (length b)
        then ping (op == icmp_rep) (get32 (drop 4 b)) (get32 (drop 8 b)) (get16 (drop 12 b))
            (get16 (drop 14 b)) (drop 16 b)
        else ignored)
    else if not (op == s2c)
    then ignored
    else if ltb (length b) (8 + il + 2)
    then ignored
    else to_flow (get16 (drop 4 b)) (get16 (drop (8 + il) b)) (drop (10 + il) b)

-- dt_udp_ingress up to what it does with the frame
unfoldable pub read_frame : Bytes → Ingress
read_frame b =
    if ltb (length b) 10 || (not (at b 0 == 86) || (not (at b 1 == 78) || not (at b 2 == version)))
    then ignored
    else read_op (at b 3) b

-- The tables that the two threads of the tunnel share with the application.
pub record World : Type 0 where
  pub hosts : List Host
  pub sessions : List Session
  pub slots : List Slot
  pub ta : Alias.Table
  pub ud : List Queue
  pub lease : Lease
  pub listens : List ℕ

-- What the calls beneath answer: inet_addr, socket, the send to the game and its socket's port, the
-- clock, the queues' sockets, and malloc.
pub record Beneath : Type 0 where
  pub inet_addr : Bytes → ℕ
  pub socket : ℕ → Option ℕ
  pub sent : Bool
  pub own_port : ℕ
  pub now : ℕ
  pub sockets : Sockets
  pub memory : Bool

-- What leaves the tables: a datagram to the game, a message for dt_icmp_in, or a join thread.
pub data Effect : Type 0 where
  nothing : Effect
  to_game : Injected → Effect
  to_icmp : Bool → ℕ → ℕ → ℕ → ℕ → Bytes → Effect
  join : ℕ → ℕ → Effect

abbrev is_port : Option ℕ → ℕ → Bool
is_port none port = false
is_port (some v) port = v == port

-- The slot of the flow: the port of the host's service, and the port that the dialling socket shows
abbrev pub of_service : Alias.Table → ℕ → ℕ → Slot → Bool
of_service ta gp cport x = x.used && (x.game_port == gp && is_port (Alias.vport ta x.gsock) cport)

abbrev pub push_flow : Bool → Option Slot → Bytes → List Queue → List Queue
push_flow memory none raw t = t
push_flow memory (some x) raw t = push memory (record { p = raw; from = x.orig }) x.gsock t

abbrev or_direct :
    Beneath → ℕ → Bytes → Bytes → World → List Session × Option Injected → World × Effect
or_direct k gp ip raw w (t, some j) = (record w { sessions = t }, to_game j)
or_direct k gp ip raw w (t, none) =
    (record w { sessions = t; ud = direct_in k.inet_addr k.sockets gp ip raw w.ud }, nothing)

-- What dt_udp_ingress does with a frame
unfoldable pub act : Beneath → Ingress → World → World × Effect
act k ignored w = (w, nothing)
act k (ping rep src dest id seq body) w = (w, to_icmp rep src dest id seq body)
act k (to_host gp ip cport raw) w =
    or_direct k gp ip raw w
      (hosted_udp_in k.inet_addr k.socket w.ta k.now k.sent k.own_port gp ip cport raw w.sessions)
act k (to_flow gp cport raw) w = (
  record w { ud = push_flow k.memory (find? (of_service w.ta gp cport) w.slots) raw w.ud },
  nothing,
)

-- dt_udp_ingress
unfoldable pub ingress : Beneath → Bytes → World → World × Effect
ingress k b w = act k (read_frame b) w

-- What dt_ctl_dispatch takes a message of the control link for.
pub data Message : Type 0 where
  unknown : Message
  bcast : ℕ → ℕ → ℕ → Bytes → Message
  assign : Bytes → Message
  streq : ℕ → ℕ → ℕ → Message
  tunnelled : Bytes → Message

-- dt_ctl_dispatch up to the calls that it makes, from the type and what follows it
unfoldable pub read_message : ℕ → Bytes → Message
read_message t p =
    if t == 3 && leb 4 (length p)
    then bcast 0 (get16 p) (get16 (drop 2 p)) (drop 4 p)
    else if t == 4 && leb 8 (length p)
    then bcast (get32 p) (get16 (drop 4 p)) (get16 (drop 6 p)) (drop 8 p)
    else if t == 2 && leb 11 (length p)
    then assign p
    else if t == 8 && length p == 10
    then streq (get32 p) (get16 (drop 4 p)) (get32 (drop 6 p))
    else if t == 6 && leb 1 (length p)
    then tunnelled p
    else unknown

abbrev joining : ℕ → ℕ → World → List Host × Bool → World × Effect
joining sid gport w (t, false) = (record w { hosts = t }, nothing)
joining sid gport w (t, true) = (record w { hosts = t }, join sid gport)

-- The calls of dt_ctl_dispatch; `fakeip` is g_fakeip and `node_virt` dt_node_virt
unfoldable pub obey : Beneath → ℕ → (Lease → ℕ → ℕ) → Message → World → World × Effect
obey k fakeip node_virt unknown w = (w, nothing)
obey k fakeip node_virt (bcast node port sport raw) w = (
  record w { ud = dispatch_from (node_virt w.lease) fakeip k.sockets node port sport raw w.ud },
  nothing,
)
obey k fakeip node_virt (assign p) w = (record w { lease = apply_assign p w.lease }, nothing)
obey k fakeip node_virt (streq sid gport ovirt) w =
    joining sid gport w (on_streq k.memory w.listens sid gport ovirt k.now w.hosts)
obey k fakeip node_virt (tunnelled b) w = ingress k b w

-- dt_ctl_dispatch on a message's type and the bytes after it
unfoldable pub ctl_dispatch : Beneath → ℕ → (Lease → ℕ → ℕ) → ℕ → Bytes → World → World × Effect
ctl_dispatch k fakeip node_virt t p w = obey k fakeip node_virt (read_message t p) w
