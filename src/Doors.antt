-- ===== src/Doors.antt =====
-- hook/hk_linux.c, hook/hk_sess.c: bind, getsockname and listen as the application calls them, over
-- the port ledger, the port presentation and the datagram queues. Addresses are AF_INET ones.
mod Tests
pub mod Binding
pub mod Search
pub mod Valid
use shadow_lan.Base.{
  ℕ, zero, suc, ◌+◌, ◌%◌, ◌^◌, Bool, true, false, ◌&&◌, ◌||◌, not, List, [], ◌∷◌, Option, none,
  some, ltb, ◌==◌, if◌then◌else◌, modify_first,
}
use shadow_lan.Net.{Addr}
use shadow_lan.Ledger.{
  Registry, Process, Os, Verdict, fresh, shared, conflict, unavailable, claim, release, used, taken,
  sock_stream, sock_dgram,
}
use shadow_lan.Alias
use shadow_lan.Datagrams.{Queue, of_sock, ensure}
use shadow_lan.Ports.{record_listen}
use shadow_lan.Accepted.{Accepted, get, self_view}

-- What the kernel answers to a bind: bound, with the port that getsockname then reports, or an
-- errno.
pub data Bound : Type 0 where
  bound : Option ℕ → Bound
  refused : ℕ → Bound

-- 0, or -1 with an errno
pub data Result : Type 0 where
  done : Result
  fails : ℕ → Result

abbrev pub eaddrinuse : ℕ
eaddrinuse = 98

abbrev pub inaddr_any : ℕ
inaddr_any = 0

-- The tables that the calls share.
pub record World : Type 0 where
  pub registry : Registry
  pub ta : Alias.Table
  pub ud : List Queue

-- One call of bind: the socket, its dt_sock_type (`none` is -1), its SO_REUSEADDR, g_direct,
-- g_myvirt, g_lan_only, and the kernel. A call tries an address once, so `kernel` is a function.
pub record Call : Type 0 where
  pub attached : Bool
  pub os : Os
  pub process : Process
  pub kernel : Addr → Bound
  pub sock : ℕ
  pub kind : Option ℕ
  pub reuse : ℕ
  pub direct : Bool
  pub myvirt : ℕ
  pub lan_only : Bool

abbrev proto_of : Option ℕ → ℕ
proto_of none = sock_stream
proto_of (some k) = k

abbrev pub proto : Call → ℕ
proto c = proto_of c.kind

abbrev pub is_vnode : Call → Addr → Bool
is_vnode c a = not (c.myvirt == 0) && a.ip == c.myvirt

-- A bind to the vnode is one to INADDR_ANY beneath.
abbrev pub beneath : Call → Addr → Addr
beneath c a = if is_vnode c a then record { ip = inaddr_any; port = a.port } else a

abbrev pub with_port : ℕ → Addr → Addr
with_port port a = record { ip = a.ip; port = port }

-- dt_udp_entry with `create`, then `if (e) e->vport = v`
abbrev pub set_vport : ℕ → ℕ → List Queue → List Queue
set_vport s v t = modify_first (of_sock s) (λ e. record e { vport = v }) (ensure t s)

abbrev pub mark : Bool → ℕ → Alias.Table → Alias.Table
mark bindv s t = if bindv then Alias.mark_bindv t s else t

abbrev pub give_back : Call → ℕ → World → World
give_back c port w = record w { registry = release c.attached c.process port (proto c) w.registry }

abbrev port_or_zero : Option ℕ → ℕ
port_or_zero none = 0
port_or_zero (some p) = p

abbrev is_dgram : Call → Bool
is_dgram c = proto c == sock_dgram

abbrev alias_beneath : Call → ℕ → Bound → World → World × Bool
alias_beneath c want (refused e) w = (w, false)
alias_beneath c want (bound got) w = (
  record w {
    ta =
        Alias.add w.ta c.sock want (port_or_zero got)
          (if is_dgram c then sock_dgram else sock_stream);
    ud = if is_dgram c then set_vport c.sock want w.ud else w.ud;
  },
  true,
)

-- dt_bind_alias
unfoldable pub bind_alias : Call → ℕ → World → World × Bool
bind_alias c want w = alias_beneath c want (c.kernel (record { ip = inaddr_any; port = 0 })) w

-- What bind does about dt_bind_alias' answer
abbrev pub after_alias : Call → Bool → ℕ → World × Bool → World × Result
after_alias c bindv want (w, false) = (give_back c want w, fails eaddrinuse)
after_alias c bindv want (w, true) = (
  record w { ta = mark bindv c.sock w.ta; ud = if is_dgram c then ensure w.ud c.sock else w.ud },
  done,
)

-- What bind does about the kernel's answer for the port it asked for
abbrev pub after_bind : Call → Bool → ℕ → Bound → World → World × Result
after_bind c bindv want (bound got) w = (
  record w {
    ta = mark bindv c.sock (Alias.add w.ta c.sock want want (proto c));
    ud = if bindv && is_dgram c then ensure w.ud c.sock else w.ud;
  },
  done,
)
after_bind c bindv want (refused e) w =
    if e == eaddrinuse
    then after_alias c bindv want (bind_alias c want w)
    else (give_back c want w, fails e)

abbrev pub after_claim : Call → Addr → Verdict → World → World × Result
after_claim c a conflict w = (w, fails eaddrinuse)
after_claim c a fresh w = after_bind c (is_vnode c a) a.port (c.kernel (beneath c a)) w
after_claim c a shared w = after_bind c (is_vnode c a) a.port (c.kernel (beneath c a)) w
after_claim c a unavailable w = after_bind c (is_vnode c a) a.port (c.kernel (beneath c a)) w

-- bind to a port that is not 0
unfoldable pub bind_port : Call → Addr → World → World × Result
bind_port c a w =
    let r = claim c.attached c.os c.process a.port (proto c) c.reuse a.port w.registry in
    after_claim c a r.0 (record w { registry = r.1 })

-- What one round of the search for a port comes to
pub data Round : Type 0 where
  found next_port given_up : Round

-- The port of round `i`, where `pid` is current_pid
abbrev pub candidate : ℕ → ℕ → ℕ
candidate pid i = 49152 + (pid % 4096 + i) % 16383

abbrev pub take_port : Call → Addr → ℕ → Bound → World → World × Round
take_port c a port (bound got) w = (
  record w {
    ta = mark (is_vnode c a) c.sock (Alias.add w.ta c.sock port port (proto c));
    ud = if is_dgram c then set_vport c.sock port w.ud else w.ud;
  },
  found,
)
take_port c a port (refused e) w =
    (give_back c port w, if e == eaddrinuse then next_port else given_up)

abbrev pub try_claimed : Call → Addr → ℕ → Verdict → World → World × Round
try_claimed c a port conflict w = (w, next_port)
try_claimed c a port fresh w = take_port c a port (c.kernel (with_port port (beneath c a))) w
try_claimed c a port shared w = take_port c a port (c.kernel (with_port port (beneath c a))) w
try_claimed c a port unavailable w = take_port c a port (c.kernel (with_port port (beneath c a))) w

-- The body of the loop
unfoldable pub try_port : Call → Addr → ℕ → World → World × Round
try_port c a port w =
    if taken c.attached c.process port w.registry
    then (w, next_port)
    else (let r = claim c.attached c.os c.process port (proto c) 1 0 w.registry in
        try_claimed c a port r.0 (record w { registry = r.1 }))

abbrev pub continue : World × Round → World × Bool → World × Bool
continue (w, found) rest = (w, true)
continue (w, next_port) rest = rest
continue (w, given_up) rest = (w, false)

-- The loop from round `i` with `n` rounds left: whether a port was bound
unfoldable pub try_ports : Call → Addr → ℕ → ℕ → World → World × Bool
try_ports c a i zero w = (w, false)
try_ports c a i (suc n) w =
    let r = try_port c a (candidate c.process.pid i) w in
    let rest = try_ports c a (suc i) n r.0 in continue r rest

abbrev pub rounds : ℕ
rounds = 4096

abbrev pub after_pick : Call → Addr → Bound → World → World × Result
after_pick c a (refused e) w = (w, fails e)
after_pick c a (bound none) w = (w, done)
after_pick c a (bound (some port)) w = (
  record {
    registry = (claim c.attached c.os c.process port (proto c) c.reuse port w.registry).1;
    ta = mark (is_vnode c a) c.sock (Alias.add w.ta c.sock port port (proto c));
    ud = if is_vnode c a && is_dgram c then ensure w.ud c.sock else w.ud;
  },
  done,
)

-- The operating system's own pick
unfoldable pub pick : Call → Addr → World → World × Result
pick c a w = after_pick c a (c.kernel (with_port 0 (beneath c a))) w

abbrev pub after_search : Call → Addr → World × Bool → World × Result
after_search c a (w, true) = (w, done)
after_search c a (w, false) = pick c a w

-- bind to port 0
unfoldable pub bind_any : Call → Addr → World → World × Result
bind_any c a w =
    if c.lan_only || ltb 0 (used c.attached w.registry)
    then after_search c a (try_ports c a 0 rounds w)
    else pick c a w

abbrev answered : Bound → Result
answered (bound got) = done
answered (refused e) = fails e

-- bind
unfoldable pub bind : Call → Addr → World → World × Result
bind c a w =
    if c.direct
    then (if a.port == 0 then bind_any c a w else bind_port c a w)
    else (w, answered (c.kernel a))

abbrev shown : ℕ → Bool → Option ℕ → Addr → Addr
shown myvirt bindv none sa = sa
shown myvirt bindv (some vp) sa = record {
  ip = if bindv && (not (myvirt == 0) && sa.ip == inaddr_any) then myvirt else sa.ip;
  port = vp % 2 ^ 16;
}

-- getsockname from what the kernel reports; `acc` is the table of accepted sockets
unfoldable pub getsockname : Bool → ℕ → Alias.Table → List Accepted → ℕ → Addr → Addr
getsockname direct myvirt ta acc sock sa =
    if direct
    then elim (get sock acc) [
      | none ↦ shown myvirt (Alias.is_bindv ta sock) (Alias.vport ta sock) sa
      | some o ↦ self_view myvirt ta sock acc sa
    ]
    else sa

abbrev port_for : Option ℕ → ℕ → ℕ
port_for none port = port
port_for (some vp) port = vp

-- What listen records where the kernel took it, from the address that getsockname shows, and
-- whether it calls dt_claim
unfoldable pub listen : Bool → Bool → Option ℕ → Alias.Table → ℕ → Addr → List ℕ → List ℕ × Bool
listen direct ok kind ta sock view listens =
    if ok && (direct && proto_of kind == sock_stream && not (kind_missing kind))
    then (record_listen (port_for (Alias.vport ta sock) view.port) listens, true)
    else (listens, false)
  where
    kind_missing : Option ℕ → Bool
    kind_missing none = true
    kind_missing (some k) = false
