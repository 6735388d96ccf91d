-- ===== src/Routes/Isolation.antt =====
-- LAN_ONLY: what keeps off the physical network, and what does not.
use shadow_lan.Base.{
  ◌||◌, ℕ, ◌≡◌, refl, Bool, true, false, ◌&&◌, not, Option, none, some, arith, ◌==◌, if◌then◌else◌,
}
use shadow_lan.Wire.{Bytes}
use shadow_lan.Net.{Addr, ipv4_is_local, ipv4_is_bcast}
use shadow_lan.Ledger.{sock_stream}
use shadow_lan.Members.{virt_node, relay_virt, is_vnet_bcast}
use shadow_lan.Datagrams.{Sockets}
use shadow_lan.Icmp.{Echo}
use shadow_lan.Routes.{
  Site, World, Socket, reject_wire4, passed, on_connect, Sendto, to_wire, consumed, on_datagram,
}

module _ (k : Site) (dst : Addr) (w : World) where
  module _ (connects : Addr → Bool) (s sid : ℕ) where
    -- With LAN_ONLY a stream socket's connect goes to the real stack for an address of this
    -- machine, and for no other.
    pub on_connect-passed :
        k.lan_only ≡ true
        → (on_connect k connects sock_stream s dst sid w).1 ≡ passed
        → ipv4_is_local k.own dst.ip ≡ true
    unfolding on_connect reject_wire4
    on_connect-passed only h = ground arith

  module _ (inet_addr : Bytes → ℕ) (ks : Sockets) (x : Socket) (raw : Bytes) where
    abbrev sendto : World × Sendto
    sendto = on_datagram inet_addr ks k x raw dst w

    abbrev member : Bool
    member = not (virt_node w.lease dst.ip == 0) && not (ipv4_is_bcast dst.ip)

    sendto_local : ipv4_is_local k.own dst.ip ≡ true → sendto ≡ (w, to_wire)
    unfolding on_datagram
    sendto_local e = rw e refl

    abbrev is_echo : Option Echo → Bool
    is_echo none = false
    is_echo (some e) = true

    -- The addresses at which the virtual network answers a ping: this node's, the relay's, a
    -- member's, and the net's broadcast forms.
    abbrev pub answers : Bool
    answers =
        dst.ip == w.lease.myvirt
        || ((not (relay_virt w.lease == 0) && dst.ip == relay_virt w.lease)
            || (not (virt_node w.lease dst.ip == 0) || is_vnet_bcast w.lease dst.ip))

    abbrev Goes : Bool → World × Sendto → Type 0
    Goes inside r = (r.1 ≡ (if inside then consumed else to_wire)) × (inside ≡ false → r.0 ≡ w)
