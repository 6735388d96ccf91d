-- ===== src/Sessions.antt =====
-- hook/hk_sess.c, hook/hk_stream.c, hook/hk_udp.c: the host's side: the streams that other players
-- opened to this node (g_hs), and the datagram sessions that stand for their sockets (g_us). A
-- descriptor that is DTSOCK_BAD is `none`; `now` is dt_now_ms.
mod Tests
pub mod Hosts
pub mod Flows
pub mod Sources
use shadow_lan.Base.{
  ℕ, zero, suc, ◌+◌, Bool, true, false, ◌&&◌, ◌||◌, not, List, [], ◌∷◌, ◌++◌, Option, none, some,
  ltb, leb, ◌==◌, if◌then◌else◌, any, find?, modify_first, modify_all, length,
}
use shadow_lan.Wire.{Bytes}
use shadow_lan.Net.{Addr, same_addr, loopback}
use shadow_lan.Alias
use shadow_lan.Ledger.{sock_dgram}
use shadow_lan.Datagrams.{inaddr_none}
use shadow_lan.Ports.{owns_listen}

-- dt_hosted
pub record Host : Type 0 where
  pub used : Bool
  pub sid : ℕ
  pub real : Option ℕ
  pub fd : Option ℕ
  pub live : Bool
  pub dead : Bool
  pub last : ℕ
  pub ovirt : ℕ
  pub gport : ℕ
  pub lport : ℕ
  pub accsp : ℕ

abbrev pub of_sid : ℕ → Host → Bool
of_sid sid h = h.used && h.sid == sid

abbrev pub is_free : Host → Bool
is_free h = not h.used

-- dt_hs_by_sid
unfoldable pub hs_by_sid : ℕ → List Host → Option Host
hs_by_sid sid t = find? (of_sid sid) t

abbrev pub vacate : Host → Host
vacate h = record h { used = false; real = none; fd = none }

abbrev opened_fds : Option ℕ → Option ℕ → List ℕ
opened_fds none none = []
opened_fds none (some fd) = fd ∷ []
opened_fds (some r) none = r ∷ []
opened_fds (some r) (some fd) = r ∷ fd ∷ []

-- dt_hs_close: the table, and the descriptors that it closes
unfoldable pub hs_close : ℕ → List Host → List Host × List ℕ
hs_close sid t = elim (hs_by_sid sid t) [
  | none ↦ (t, [])
  | some h ↦ (modify_first (of_sid sid) vacate t, opened_fds h.real h.fd)
]

-- The row that dt_on_streq writes
abbrev pub pending : ℕ → ℕ → ℕ → ℕ → Host → Host
pending sid gport ovirt now h = record h {
  used = true;
  sid = sid;
  real = none;
  fd = none;
  live = false;
  dead = false;
  last = now;
  ovirt = ovirt;
  gport = gport;
  lport = 0;
}

-- dt_on_streq: the table, and whether the join thread is started; `memory` is malloc's result
unfoldable pub on_streq : Bool → List ℕ → ℕ → ℕ → ℕ → ℕ → List Host → List Host × Bool
on_streq memory listens sid gport ovirt now t =
    let opened = modify_first is_free (pending sid gport ovirt now) t in
    if not (owns_listen gport listens)
    then (t, false)
    else if not (any is_free t)
    then (t, false)
    else if memory
    then (opened, true)
    else ((hs_close sid opened).0, false)

abbrev pub is_stuck : ℕ → Host → Bool
is_stuck now h = h.used && (not h.live && ltb (h.last + 30000) now)

-- The sweep of dt_hosted_thread over g_hs
unfoldable pub sweep_hosts : ℕ → List Host → List Host
sweep_hosts now t = modify_all (is_stuck now) (λ h. record h { used = false }) t

-- dt_usess
pub record Session : Type 0 where
  pub used : Bool
  pub game_port : ℕ
  pub cli : Addr
  pub lport : ℕ
  pub ovirt : ℕ
  pub real : Option ℕ
  pub last : ℕ

abbrev pub of_flow : ℕ → Addr → Session → Bool
of_flow port cli u = u.used && (u.game_port == port && same_addr u.cli cli)

abbrev pub is_idle : ℕ → Session → Bool
is_idle now u = ltb (u.last + 45000) now

abbrev pub is_spare : ℕ → Session → Bool
is_spare now u = not u.used || is_idle now u

abbrev named : Option ℕ → ℕ
named none = 0
named (some v) = v

-- `if (ovirt && !u->ovirt) u->ovirt = *ovirt`
abbrev pub learn : Option ℕ → Session → Session
learn none u = u
learn (some v) u = if u.ovirt == 0 then record u { ovirt = v } else u

-- The row that dt_usess_find writes; `socket` is what the call of that name gave
abbrev pub session : ℕ → Option ℕ → Addr → ℕ → Option ℕ → Session
session port ovirt cli now none = record {
  used = false;
  game_port = port;
  cli = cli;
  lport = 0;
  ovirt = named ovirt;
  real = none;
  last = now;
}
session port ovirt cli now (some fd) = record {
  used = true;
  game_port = port;
  cli = cli;
  lport = 0;
  ovirt = named ovirt;
  real = some fd;
  last = now;
}

abbrev pub kept : Session → List Session × Option Session → List Session × Option Session
kept u (t, r) = (u ∷ t, r)

abbrev placed :
    ℕ
    → Option ℕ
    → Addr
    → ℕ
    → Option ℕ
    → List Session
    → List Session × Option Session
    → List Session × Option Session
placed port ovirt cli now (some fd) us rest =
    (session port ovirt cli now (some fd) ∷ us, some (session port ovirt cli now (some fd)))
placed port ovirt cli now none us rest = kept (session port ovirt cli now none) rest

-- The second loop of dt_usess_find from row `i`; `socket i` is what socket gives for that row
unfoldable pub place :
    (ℕ → Option ℕ) → ℕ → Option ℕ → Addr → ℕ → ℕ → List Session → List Session × Option Session
place socket port ovirt cli now i [] = ([], none)
place socket port ovirt cli now i (u ∷ us) =
    let rest = place socket port ovirt cli now (suc i) us in
    if is_spare now u then placed port ovirt cli now (socket i) us rest else kept u rest

-- dt_usess_find with `create`: the table, and the row
unfoldable pub usess_find :
    (ℕ → Option ℕ) → ℕ → Option ℕ → Addr → ℕ → List Session → List Session × Option Session
usess_find socket port ovirt cli now t = elim (find? (of_flow port cli) t) [
  | none ↦ place socket port ovirt cli now 0 t
  | some u ↦ (modify_first (of_flow port cli) (learn ovirt) t, some (learn ovirt u))
]

-- What dt_hosted_udp_in sends: from the session's socket, to the game's port on this host.
pub record Injected : Type 0 where
  pub from : ℕ
  pub to : Addr
  pub raw : Bytes

abbrev pub translated : ℕ → ℕ → ℕ
translated port al = if al == 0 then port else al

-- `u->last = now`, with the row found
abbrev pub touched : ℕ → Session → Session
touched now u = record u { last = now }

-- `if (lp && u->lport == 0) u->lport = lp`, where the send went out; `lp` is the socket's own port
abbrev pub noted : Bool → ℕ → Session → Session
noted sent lp u = record u {
  lport = if sent && (not (lp == 0) && u.lport == 0) then lp else u.lport;
}

abbrev pub hand_over :
    ℕ → Addr → ℕ → Bytes → List Session × Option Session → List Session × Option Injected
hand_over port cli now raw (t, none) = (t, none)
hand_over port cli now raw (t, some u) = (
  modify_first (of_flow port cli) (touched now) t,
  elim u.real [
    | none ↦ none
    | some fd ↦ some (record { from = fd; to = record { ip = loopback; port = port }; raw = raw })
  ],
)

-- dt_hosted_udp_in up to its send: the table, and what is sent, or `none` for the result 0.
-- `inet_addr` reads the address text.
unfoldable pub hosted_send :
    (Bytes → ℕ)
    → (ℕ → Option ℕ)
    → Alias.Table
    → ℕ
    → ℕ
    → Bytes
    → ℕ
    → Bytes
    → List Session
    → List Session × Option Injected
hosted_send inet_addr socket ta now port ip cport raw t =
    let real = translated port (Alias.real ta port sock_dgram) in
    let cli : Addr = record { ip = inet_addr ip; port = cport } in
    if leb (length ip) 0 || (leb 64 (length ip) || ltb 65000 (length raw))
    then (t, none)
    else if inet_addr ip == inaddr_none
    then (t, none)
    else hand_over real cli now raw (usess_find socket real (some cli.ip) cli now t)

-- The end of dt_hosted_udp_in, under the lock again
abbrev pub after_send :
    ℕ → Addr → Bool → ℕ → List Session × Option Injected → List Session × Option Injected
after_send port cli sent lp (t, none) = (t, none)
after_send port cli sent lp (t, some j) =
    (modify_first (of_flow port cli) (noted sent lp) t, some j)

-- dt_hosted_udp_in, where nothing else changes the table while it sends without the lock
unfoldable pub hosted_udp_in :
    (Bytes → ℕ)
    → (ℕ → Option ℕ)
    → Alias.Table
    → ℕ
    → Bool
    → ℕ
    → ℕ
    → Bytes
    → ℕ
    → Bytes
    → List Session
    → List Session × Option Injected
hosted_udp_in inet_addr socket ta now sent lp port ip cport raw t =
    after_send (translated port (Alias.real ta port sock_dgram))
      (record { ip = inet_addr ip; port = cport }) sent lp
      (hosted_send inet_addr socket ta now port ip cport raw t)

-- The sweep of dt_hosted_thread over g_us: the table, and the sockets that it closes
abbrev pub is_expired : ℕ → Session → Bool
is_expired now u = u.used && is_idle now u

abbrev pub lost : Session → Bool
lost u = u.used && elim u.real [ none ↦ true | some fd ↦ false ]

unfoldable pub sweep_sessions : ℕ → List Session → List Session
sweep_sessions now t =
    modify_all (λ u. lost u || is_expired now u) (λ u. record u { used = false }) t

-- The session that dt_on_sendto takes a reply for, by the address that it is sent to
abbrev pub of_cli : Addr → Session → Bool
of_cli dst u = u.used && same_addr u.cli dst

unfoldable pub reply_port : Addr → List Session → Option ℕ
reply_port dst t = elim (find? (of_cli dst) t) [ none ↦ none | some u ↦ some u.game_port ]

abbrev pub of_lport : ℕ → Session → Bool
of_lport port u = u.used && u.lport == port

abbrev pub shown : Addr → Option Session → Addr
shown a none = a
shown a (some u) = u.cli

-- dt_hosted_unsource on an IPv4 address that is not null
unfoldable pub unsource : Addr → List Session → Addr
unsource a t = if a.ip == loopback then shown a (find? (of_lport a.port) t) else a
