-- ===== src/Accepted.antt =====
-- hook/hk_sess.c: accepted sockets whose real peer is a bridge of the hook, and the peer that the
-- application sees. The rows of g_hs and g_us carry only what these functions read.
mod Tests
pub mod Peer
use shadow_lan.Base.{
  ℕ, ◌%◌, ◌^◌, Bool, true, false, ◌&&◌, ◌||◌, not, List, [], ◌∷◌, Option, none, some, ltb, leb,
  ◌==◌, if◌then◌else◌, any, find?, modify_first,
}
use shadow_lan.Net.{Addr}
use shadow_lan.Alias.{Table, vport_by_real}
use shadow_lan.Ledger.{sock_stream}

-- dt_hosted, dt_usess
pub record Hosted : Type 0 where
  pub used : Bool
  pub live : Bool
  pub ovirt : ℕ
  pub lport : ℕ
  pub accsp : ℕ

pub record Session : Type 0 where
  pub used : Bool
  pub game_port : ℕ
  pub ovirt : ℕ
  pub lport : ℕ

-- dt_accfd
pub record Accepted : Type 0 where
  pub used : Bool
  pub gsock : ℕ
  pub vnode : ℕ
  pub lport : ℕ
  pub bport : ℕ

pub record State : Type 0 where
  pub hosted : List Hosted
  pub sessions : List Session
  pub acc : List Accepted

-- The row of a bridge for the peer's port `sp`, or the port that the socket listens on
abbrev pub bridges : ℕ → ℕ → Hosted → Bool
bridges sp listen h =
    (h.used && (h.live && not (h.ovirt == 0)))
    && ((not (sp == 0) && (h.lport == sp || h.accsp == sp))
        || (not (listen == 0) && h.lport == listen))

abbrev pub of_session : ℕ → Session → Bool
of_session sp u = u.used && (not (u.ovirt == 0) && u.lport == sp)

abbrev pub of_fd : ℕ → Accepted → Bool
of_fd fd a = a.used && a.gsock == fd

-- The rows that dt_acc_learn_fd may write for a socket
abbrev pub place : ℕ → Accepted → Bool
place fd a = not a.used || a.gsock == fd

abbrev pub write : ℕ → ℕ → ℕ → ℕ → List Accepted → List Accepted
write fd vnode lport bport t =
    modify_first (place fd)
      (λ a. record { used = true; gsock = fd; vnode = vnode; lport = lport; bport = bport }) t

abbrev learn_session : ℕ → ℕ → Option Session → State → State
learn_session fd sp none w = w
learn_session fd sp (some u) w = record w { acc = write fd u.ovirt u.game_port sp w.acc }

abbrev learn_hosted : ℕ → ℕ → ℕ → Option Hosted → State → State
learn_hosted fd sp listen none w = learn_session fd sp (find? (of_session sp) w.sessions) w
learn_hosted fd sp listen (some h) w = record w {
  hosted = modify_first (bridges sp listen) (λ x. record x { accsp = sp }) w.hosted;
  acc = write fd h.ovirt h.lport sp w.acc;
}

-- dt_acc_learn_fd, from the peer's port `sp`
unfoldable pub learn_fd : ℕ → ℕ → ℕ → State → State
learn_fd fd sp listen w = learn_hosted fd sp listen (find? (bridges sp listen) w.hosted) w

-- dt_acc_get: the peer to show, and the port of the real one
unfoldable pub get : ℕ → List Accepted → Option (Addr × ℕ)
get fd t = elim (find? (of_fd fd) t) [
  | none ↦ none
  | some a ↦ some (record { ip = a.vnode; port = a.lport % 2 ^ 16 }, a.bport)
]

-- dt_acc_forget
unfoldable pub forget_fd : ℕ → List Accepted → List Accepted
forget_fd fd t = modify_first (of_fd fd) (λ a. record a { used = false }) t

-- dt_acc_self_view on the local address of a socket; `myvirt` is g_myvirt
unfoldable pub self_view : ℕ → Table → ℕ → List Accepted → Addr → Addr
self_view myvirt ta fd t sa =
    let vp = vport_by_real ta sa.port sock_stream in
    elim (get fd t) [
      | none ↦ sa
      | some o ↦ record {
        ip = if myvirt == 0 then sa.ip else myvirt;
        port = if vp == 0 then sa.port else vp % 2 ^ 16;
      }
    ]
