-- ===== src/Net.antt =====
-- hook/hk_core.c, hook/hk_stream.c: IPv4 addresses and the policy tests. An address is the number
-- that ntohl gives and a port the one that ntohs gives, so a sockaddr_in is a pair of numbers.
mod Tests
pub mod Lan
use shadow_lan.Base.{
  ℕ, ◌<◌, ◌≤◌, Bool, true, false, ◌&&◌, ◌||◌, not, List, [], ◌∷◌, bit_and, ltb, leb, ◌==◌,
  if◌then◌else◌, any,
}
use shadow_lan.Wire.{shr}

-- An AF_INET sockaddr_in.
pub record Addr : Type 0 where
  pub ip : ℕ
  pub port : ℕ

abbrev pub loopback : ℕ
loopback = 0x7f00_0001

abbrev pub same_addr : Addr → Addr → Bool
same_addr a b = a.ip == b.ip && a.port == b.port

-- port_allowed: no list allows every port.
unfoldable pub port_allowed : List ℕ → ℕ → Bool
port_allowed [] port = true
port_allowed (p ∷ ps) port = any (λ q. q == port) (p ∷ ps)

-- ipv4_is_lan
unfoldable pub ipv4_is_lan : ℕ → Bool
ipv4_is_lan h =
    shr h 24 == 0xff
    || bit_and h 0xff00_0000 == 0x0a00_0000
    || bit_and h 0xfff0_0000 == 0xac10_0000
    || bit_and h 0xffff_0000 == 0xc0a8_0000
    || bit_and h 0xffff_0000 == 0xa9fe_0000
    || bit_and h 0xf000_0000 == 0xe000_0000
    || bit_and h 0xff == 0xff

-- ipv4_is_bcast
unfoldable pub ipv4_is_bcast : ℕ → Bool
ipv4_is_bcast h = shr h 24 == 0xff || bit_and h 0xf000_0000 == 0xe000_0000 || bit_and h 0xff == 0xff

-- sockaddr_is_lan_target on an AF_INET address; `only` is g_only_ports
unfoldable pub is_lan_target : List ℕ → Addr → Bool
is_lan_target only a = if port_allowed only a.port then ipv4_is_lan a.ip else false

-- ipv4_is_loopback
unfoldable pub ipv4_is_loopback : ℕ → Bool
ipv4_is_loopback h = shr h 24 == 127

-- ipv4_is_local; `own` is the list of this machine's interface addresses that lips_refresh keeps
unfoldable pub ipv4_is_local : List ℕ → ℕ → Bool
ipv4_is_local own h = if shr h 24 == 127 then true else any (λ a. a == h) own
