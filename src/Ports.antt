-- ===== src/Ports.antt =====
-- hook/hk_ports.c, hook/hk_route.c, hook/hk_sess.c: the ports that the process listens on, the dials
-- that stay on this host, and the slots of the datagram flows. A free row has port or socket 0.
mod Tests
pub mod Listen
pub mod Hairpin
use shadow_lan.Base.{
  ℕ, zero, suc, ◌+◌, Bool, true, false, ◌&&◌, ◌||◌, not, List, [], ◌∷◌, Option, none, some, ltb,
  leb, ◌==◌, if◌then◌else◌, any, find?, modify_first,
}
use shadow_lan.Net.{Addr, same_addr}

-- DT_MAXLISTEN, DT_MAXHP, DT_MAXSLOT
abbrev pub max_listen : ℕ
max_listen = 32

abbrev pub max_hairpin : ℕ
max_hairpin = 32

abbrev pub max_slot : ℕ
max_slot = 256

abbrev pub is_port : ℕ → ℕ → Bool
is_port port p = p == port

-- dt_record_listen
unfoldable pub record_listen : ℕ → List ℕ → List ℕ
record_listen port t =
    if leb port 0
    then t
    else if any (is_port port) t
    then t
    else modify_first (is_port 0) (λ p. port) t

-- dt_owns_listen
unfoldable pub owns_listen : ℕ → List ℕ → Bool
owns_listen port t = any (is_port port) t

-- A row of g_hp
pub record Dial : Type 0 where
  pub sock : ℕ
  pub dest : Addr

abbrev pub of_sock : ℕ → Dial → Bool
of_sock s d = d.sock == s

-- dt_hairpin_remember
unfoldable pub remember : ℕ → Addr → List Dial → List Dial
remember s dest t =
    modify_first (λ d. d.sock == 0 || d.sock == s) (λ d. record { sock = s; dest = dest }) t

-- dt_hairpin_forget_locked
unfoldable pub forget : ℕ → List Dial → List Dial
forget s t = modify_first (of_sock s) (λ d. record d { sock = 0 }) t

-- dt_getpeer for a socket without a stream
unfoldable pub dialled : ℕ → List Dial → Option Addr
dialled s t = elim (find? (of_sock s) t) [ none ↦ none | some d ↦ some d.dest ]

-- dt_slot
pub record Slot : Type 0 where
  pub used : Bool
  pub gsock : ℕ
  pub game_port : ℕ
  pub orig : Addr

abbrev pub of_flow : ℕ → ℕ → Addr → Slot → Bool
of_flow s port orig x = x.used && (x.gsock == s && (x.game_port == port && same_addr x.orig orig))

abbrev pub is_free : Slot → Bool
is_free x = not x.used

-- dt_slot_get: the table, and whether a slot was found
unfoldable pub slot_get : ℕ → ℕ → Addr → List Slot → List Slot × Bool
slot_get s port orig t = if any (of_flow s port orig) t then (t, true) else (
  modify_first is_free (λ x. record { used = true; gsock = s; game_port = port; orig = orig }) t,
  any is_free t,
)
