-- ===== src/Tunnel/Tests.antt =====
-- A member at port 6000 asks a host's game at port 5000, and the host answers.
use shadow_lan.Base.{◌≡◌, refl, true, false, [], ◌∷◌, some, none, arith, ◌+◌}
use shadow_lan.Wire.{Bytes, put32, put16, get16}
use shadow_lan.Net.{Addr}
use shadow_lan.Alias
use shadow_lan.Ledger.{sock_dgram}
use shadow_lan.Datagrams.{push}
use shadow_lan.Members.{Lease}
use shadow_lan.Ports.{Slot, slot_get}
use shadow_lan.Sessions.{
  Session, Injected, hosted_send, hosted_udp_in, usess_find, place, reply_port,
}
use shadow_lan.Tunnel.{
  c2s_frame, s2c_frame, read_frame, read_op, to_host, to_flow, World, Beneath, nothing, to_game,
  act, ingress, unknown, streq, bcast, read_message,
}
use shadow_lan.Tunnel.Frames.{read_frame-c2s_frame, read_frame-s2c_frame}
use shadow_lan.Tunnel.Delivery.{ingress-s2c_frame, ingress-ingress, ingress-slot_get}

-- "9"
abbrev text : Bytes
text = 57 ∷ []

read_frame-c2s_frame_test :
    read_frame (c2s_frame 5000 text 6000 (1 ∷ 2 ∷ [])) ≡ to_host 5000 text 6000 (1 ∷ 2 ∷ [])
read_frame-c2s_frame_test =
    read_frame-c2s_frame 5000 6000 text (1 ∷ 2 ∷ []) (omega arith) (omega arith) (omega arith)

read_frame-s2c_frame_test :
    read_frame (s2c_frame 5000 text 6000 (3 ∷ [])) ≡ to_flow 5000 6000 (3 ∷ [])
read_frame-s2c_frame_test =
    read_frame-s2c_frame 5000 6000 text (3 ∷ []) (omega arith) (omega arith) (omega arith)

abbrev beneath : Beneath
beneath = record {
  inet_addr = λ b. 0x0a40_0006;
  socket = λ i. some (20 + i);
  sent = true;
  own_port = 40000;
  now = 100;
  sockets = record { bound_port = λ s. 0; is_dgram = λ s. true; memory = λ s. true };
  memory = true;
}

abbrev lease : Lease
lease = record { myvirt = 0; vnetb = []; vbits = 0; members = []; have_assign = false }

abbrev free_session : Session
free_session = record {
  used = false;
  game_port = 0;
  cli = record { ip = 0; port = 0 };
  lport = 0;
  ovirt = 0;
  real = none;
  last = 0;
}

abbrev free_slot : Slot
free_slot = record { used = false; gsock = 0; game_port = 0; orig = record { ip = 0; port = 0 } }

abbrev host : World
host = record {
  hosts = [];
  sessions = free_session ∷ [];
  slots = [];
  ta = [];
  ud = [];
  lease = lease;
  listens = [];
}

-- Socket 5 shows port 6000.
abbrev member : World
member = record {
  hosts = [];
  sessions = [];
  slots = free_slot ∷ free_slot ∷ [];
  ta = record { sock = 5; vport = 6000; real = 6000; proto = 2; bindv = false } ∷ [];
  ud = [];
  lease = lease;
  listens = [];
}

abbrev dst : Addr
dst = record { ip = 0x0a40_0007; port = 5000 }

abbrev other : Addr
other = record { ip = 0x0a40_0008; port = 5000 }

shows : Alias.vport member.ta 5 ≡ some 6000
unfolding Alias.vport
shows = refl

unaliased : Alias.real host.ta 5000 sock_dgram ≡ 0
unfolding Alias.real
unaliased = refl

abbrev injected : Injected
injected = record { from = 20; to = record { ip = 0x7f00_0001; port = 5000 }; raw = 1 ∷ [] }

reaches : (ingress beneath (c2s_frame 5000 text 6000 (1 ∷ [])) host).1 ≡ to_game injected
unfolding ingress act read_frame read_op c2s_frame put16 get16 hosted_udp_in hosted_send usess_find
    place Alias.real
reaches = refl

abbrev asked : World
asked = record member { slots = (slot_get 5 5000 dst member.slots).0 }

abbrev asked_both : World
asked_both = record member {
  slots = (slot_get 5 5000 other (slot_get 5 5000 dst member.slots).0).0;
}

ingress-ingress_example :
    (injected.to.port ≡ 5000)
    × (reply_port
          (record { ip = 0x0a40_0006; port = 6000 })
          (ingress beneath (c2s_frame 5000 text 6000 (1 ∷ [])) host).0.sessions
        ≡ some 5000)
    × (ingress beneath (s2c_frame 5000 text 6000 (3 ∷ [])) asked
        ≡ (record asked { ud = push true (record { p = 3 ∷ []; from = dst }) 5 [] }, nothing))
ingress-ingress_example =
    ingress-ingress beneath beneath member host 5 5000 6000 text text (1 ∷ []) (3 ∷ [])
      (omega arith) (omega arith) (omega arith) (omega arith) shows refl refl dst injected unaliased
      refl reaches

ingress-slot_get_example :
    ingress beneath (s2c_frame 5000 text 6000 (3 ∷ [])) asked_both
    ≡ (record asked_both { ud = push true (record { p = 3 ∷ []; from = dst }) 5 [] }, nothing)
ingress-slot_get_example =
    ingress-slot_get beneath beneath member host 5 5000 6000 text text (1 ∷ []) (3 ∷ [])
      (omega arith) (omega arith) (omega arith) (omega arith) shows refl refl dst other

ingress-s2c_frame_test : ingress beneath (s2c_frame 5000 text 6000 (3 ∷ [])) host ≡ (host, nothing)
ingress-s2c_frame_test =
    ingress-s2c_frame beneath host 5000 6000 text (3 ∷ []) (omega arith) (omega arith) (omega arith)

messages :
    (read_message 8 (0 ∷ 0 ∷ 0 ∷ 9 ∷ 19 ∷ 136 ∷ 0 ∷ 0 ∷ 0 ∷ 7 ∷ []) ≡ streq 9 5000 7)
    × (read_message 8 (0 ∷ []) ≡ unknown)
    × (read_message 3 (19 ∷ 136 ∷ 0 ∷ 5 ∷ 42 ∷ []) ≡ bcast 0 5000 5 (42 ∷ []))
unfolding read_message shadow_lan.Wire.get32 get16
messages = (refl, refl, refl)
