-- ===== src/Routes/Tests.antt =====
-- A member of a network of two, with LAN_ONLY.
use shadow_lan.Base.{ℕ, Bool, ◌≡◌, refl, true, false, [], ◌∷◌, some, none, arith}
use shadow_lan.Wire.{Bytes, put32, get32}
use shadow_lan.Net.{Addr, ipv4_is_local, is_lan_target, ipv4_is_lan, port_allowed}
use shadow_lan.Ledger.{sock_stream, sock_dgram}
use shadow_lan.Members.{Lease, virt_node, has_prefix, is_dial_local}
use shadow_lan.Stream.{Stream, connecting, died, by_sock}
use shadow_lan.Ports.{dialled}
use shadow_lan.Datagrams.{Sockets}
use shadow_lan.Routes.{
  Site, World, Socket, reject_wire4, on_connect, passed, hairpin, tunnelled, on_datagram, refused,
  dotted, src_ip,
}
use shadow_lan.Routes.Isolation.{on_connect-passed}
use shadow_lan.Routes.Outcomes.{dialled-on_connect, by_sock-on_connect}

-- 10.64.0.5 of node 7 and 10.64.0.6 of node 8
abbrev lease : Lease
lease = record {
  myvirt = 0x0a40_0005;
  vnetb = 10 ∷ 64 ∷ 0 ∷ 0 ∷ [];
  vbits = 16;
  members = record { node = 7; virt = 0x0a40_0005 } ∷ record { node = 8; virt = 0x0a40_0006 } ∷ [];
  have_assign = true;
}

abbrev site : Site
site = record { me = 7; lan_only = true; only = []; own = []; udp_tcp = false; machine_ip = none }

abbrev free_stream : Stream
free_stream = record {
  used = false;
  gsock = 0;
  sid = 0;
  orig = record { ip = 0; port = 0 };
  inq = [];
  total = 0;
  dead = false;
  state = died;
  fail = 0;
  in_paused = false;
  connect_signaled = false;
  fd = none;
  fd_live = false;
  outq = [];
  ototal = 0;
  flushing = false;
  sending = false;
  thread_done = false;
  shut_done = false;
  ever_open = false;
  peer_fin = false;
  wr_shut = false;
  rd_shut = false;
  wr_full = false;
  wakes = 0;
  signals = 0;
}

abbrev world : World
world = record {
  lease = lease;
  ta = [];
  dials = record { sock = 0; dest = record { ip = 0; port = 0 } } ∷ [];
  streams = free_stream ∷ [];
  slots = [];
  sessions = [];
  ud = [];
  link = record {
    sq = [];
    sq_bytes = 0;
    cur = none;
    cur_off = 0;
    rbuf = [];
    wire = [] ∷ [];
    wakes = 0;
  };
  sent = [];
  waiters = [];
}

-- This machine's own address, the other member's, and one outside
abbrev self : Addr
self = record { ip = 0x0a40_0005; port = 5000 }

abbrev peer : Addr
peer = record { ip = 0x0a40_0006; port = 5000 }

abbrev outside : Addr
outside = record { ip = 0x0808_0808; port = 5000 }

abbrev here : Addr
here = record { ip = 0x7f00_0001; port = 5000 }

abbrev always : Addr → Bool
always a = true

abbrev inet_addr : Bytes → ℕ
inet_addr b = 0x0a40_0005

abbrev sockets : Sockets
sockets = record { bound_port = λ s. 0; is_dgram = λ s. true; memory = λ s. true }

abbrev socket : Socket
socket = record {
  fd = 5;
  kind = sock_dgram;
  is_icmp = false;
  port = 6000;
  auto_port = 6000;
  memory = true;
}

passes : (on_connect site always sock_stream 5 here 3 world).1 ≡ passed
unfolding on_connect ipv4_is_local
passes = refl

on_connect_passed_test : ipv4_is_local [] here.ip ≡ true
on_connect_passed_test = on_connect-passed site here world always 5 3 refl passes

refuses : (on_datagram inet_addr sockets site socket (1 ∷ []) outside world).1 ≡ refused
unfolding on_datagram ipv4_is_local virt_node has_prefix put32 get32 is_lan_target ipv4_is_lan
    port_allowed reject_wire4
refuses = refl

-- A ping socket sends an echo request outside, and to the other member.
abbrev ping_socket : Socket
ping_socket = record socket { is_icmp = true }

abbrev echo : Bytes
echo = 8 ∷ 0 ∷ 0 ∷ 0 ∷ 0 ∷ 1 ∷ 0 ∷ 1 ∷ []

loops : (on_connect site always sock_stream 5 self 3 world).1 ≡ hairpin
unfolding on_connect ipv4_is_local virt_node has_prefix put32 get32 reject_wire4 by_sock
    is_dial_local
loops = refl

dialled-on_connect_test :
    (dialled 5 (on_connect site always sock_stream 5 self 3 world).0.dials ≡ some self)
    × ((on_connect site always sock_stream 5 self 3 world).0.streams ≡ free_stream ∷ [])
dialled-on_connect_test = dialled-on_connect site always 5 3 self world (omega arith) refl loops

tunnels : (on_connect site always sock_stream 5 peer 3 world).1 ≡ tunnelled
unfolding on_connect ipv4_is_local virt_node has_prefix put32 get32 reject_wire4 by_sock
    is_dial_local
tunnels = refl

by_sock-on_connect_test :
    (by_sock (free_stream ∷ []) 5 ≡ none)
    × (st : Stream) × (by_sock (on_connect site always sock_stream 5 peer 3 world).0.streams 5
        ≡ some st)
    × (st.orig ≡ peer)
    × (st.sid ≡ 3)
    × (st.state ≡ connecting)
    × (st.outq ≡ [])
by_sock-on_connect_test = by_sock-on_connect site always 5 3 peer world (omega arith) refl tunnels

-- "10.64.0.5"
text : src_ip lease.myvirt ≡ some (49 ∷ 48 ∷ 46 ∷ 54 ∷ 52 ∷ 46 ∷ 48 ∷ 46 ∷ 53 ∷ [])
unfolding src_ip dotted
text = refl
