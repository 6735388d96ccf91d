-- ===== src/Datagrams.antt =====
-- hook/hk_sess.c, hook/hk_route.c: the datagram queues of the application's sockets. The list h..t is
-- `q`; `signals` counts the calls of dt_sig_locked for the row's socket. What stands between
-- DUNLOCK and DLOCK inside a scan is taken as one step.
mod Tests
pub mod Valid
pub mod Fanout
pub mod Fifo
use shadow_lan.Base.{
  ℕ, ◌+◌, ◌-◌, ◌%◌, ◌^◌, Bool, true, false, ◌&&◌, not, List, [], ◌∷◌, ◌++◌, Option, none, some, min,
  leb, ltb, ◌==◌, if◌then◌else◌, any, find?, modify_first, modify_all, length, take,
}
use shadow_lan.Wire.{Bytes}
use shadow_lan.Net.{Addr}

-- dt_dgram
pub record Dgram : Type 0 where
  pub p : Bytes
  pub from : Addr

-- dt_udp
pub record Queue : Type 0 where
  pub used : Bool
  pub gsock : ℕ
  pub q : List Dgram
  pub nq : ℕ
  pub closed : Bool
  pub vport : ℕ
  pub signals : ℕ

-- DT_MAXQ, DT_MAXUDP
abbrev pub max_queue : ℕ
max_queue = 64

abbrev pub max_udp : ℕ
max_udp = 128

abbrev pub of_sock : ℕ → Queue → Bool
of_sock s e = e.used && e.gsock == s

abbrev pub is_free : Queue → Bool
is_free e = not e.used

-- The row that dt_udp_entry makes
abbrev pub opened : ℕ → Queue → Queue
opened s e = record e { used = true; gsock = s; q = []; nq = 0; closed = false; vport = 0 }

-- dt_udp_entry without and with `create`
unfoldable pub lookup : List Queue → ℕ → Option Queue
lookup t s = find? (of_sock s) t

unfoldable pub ensure : List Queue → ℕ → List Queue
ensure t s = if any (of_sock s) t then t else modify_first is_free (opened s) t

-- Where a datagram and its copy were allocated it is put last.
abbrev pub append : Dgram → Queue → Queue
append d e = record e { q = e.q ++ (d ∷ []); nq = e.nq + 1; signals = e.signals + 1 }

-- dt_udp_push on the row; `memory` is the result of the calls of malloc
unfoldable pub push_row : Bool → Dgram → Queue → Queue
push_row memory d e =
    if e.closed then e else if leb max_queue e.nq then e else if memory then append d e else e

-- dt_udp_push
unfoldable pub push : Bool → Dgram → ℕ → List Queue → List Queue
push memory d s t = modify_first (of_sock s) (push_row memory d) (ensure t s)

-- What dt_udp_pop returns: 0, -1, or 1 with the bytes and the source.
pub data Popped : Type 0 where
  nothing gone : Popped
  got : Bytes → Addr → Popped

abbrev unlink : List Dgram → Queue → Queue
unlink [] e = e
unlink (d ∷ ds) e = record e { q = ds; nq = e.nq - 1 }

abbrev answer : List Dgram → ℕ → Queue → Popped
answer [] blen e = if e.closed then gone else nothing
answer (d ∷ ds) blen e = got (take (min (length d.p) blen) d.p) d.from

-- dt_udp_pop on the row
unfoldable pub pop_row : ℕ → Queue → Queue × Popped
pop_row blen e = (unlink e.q e, answer e.q blen e)

-- dt_udp_pop
unfoldable pub pop : ℕ → ℕ → List Queue → List Queue × Popped
pop blen s t = elim (lookup t s) [
  | none ↦ (t, nothing)
  | some e ↦ (modify_first (of_sock s) (λ r. (pop_row blen r).0) t, (pop_row blen e).1)
]

abbrev has_first : List Dgram → Bool
has_first [] = false
has_first (d ∷ ds) = true

-- dt_udp_has
unfoldable pub has : ℕ → List Queue → Bool
has s t = elim (lookup t s) [ none ↦ false | some e ↦ not e.closed && has_first e.q ]

-- The datagram part of dt_on_close
unfoldable pub close_row : Queue → Queue
close_row e = record e { closed = true; used = false; q = [] }

unfoldable pub close : ℕ → List Queue → List Queue
close s t = modify_first (of_sock s) close_row t

abbrev pub is_live : Queue → Bool
is_live e = e.used && not e.closed

-- What dt_bound_port and dt_sock_type give for a socket, and whether malloc succeeds for it.
pub record Sockets : Type 0 where
  pub bound_port : ℕ → ℕ
  pub is_dgram : ℕ → Bool
  pub memory : ℕ → Bool

abbrev pub port_of : Sockets → Queue → ℕ
port_of k e = if e.vport == 0 then k.bound_port e.gsock else e.vport

abbrev pub listens : Sockets → ℕ → Queue → Bool
listens k port e = is_live e && (k.is_dgram e.gsock && port_of k e == port)

abbrev pub offer : Bool → Dgram → Queue → Queue
offer memory d e = if leb max_queue e.nq then e else if memory then append d e else e

-- INADDR_NONE
abbrev pub inaddr_none : ℕ
inaddr_none = 0xffff_ffff

-- dt_direct_udp_in from the address text `ip`, which inet_addr reads
unfoldable pub direct_in : (Bytes → ℕ) → Sockets → ℕ → Bytes → Bytes → List Queue → List Queue
direct_in inet_addr k port ip raw t =
    if leb (length ip) 0
    then t
    else if leb 64 (length ip)
    then t
    else if ltb 65000 (length raw)
    then t
    else if inet_addr ip == inaddr_none
    then t
    else modify_all (listens k port)
        (λ e.
          offer (k.memory e.gsock)
            (record { p = raw; from = record { ip = inet_addr ip; port = port % 2 ^ 16 } }) e)
        t

-- The row that dt_dispatch_bcast_from finds for a socket takes the datagram.
abbrev pub dispatch_row : Sockets → ℕ → Dgram → Queue → Queue
dispatch_row k port d e = if port_of k e == port then offer (k.memory e.gsock) d e else e

-- The scan of dt_dispatch_bcast_from over the rows, which finds each live row's socket again
unfoldable pub dispatch_rows : Sockets → ℕ → Dgram → List Queue → List Queue → List Queue
dispatch_rows k port d [] t = t
dispatch_rows k port d (r ∷ rs) t =
    let next = if is_live r then modify_first (of_sock r.gsock) (dispatch_row k port d) t else t in
    dispatch_rows k port d rs next

-- The source that a fan-out shows: the sender's virtual address, else g_fakeip, and its port,
-- else the destination's. `node_virt` is dt_node_virt.
unfoldable pub shown_from : (ℕ → ℕ) → ℕ → ℕ → ℕ → ℕ → Addr
shown_from node_virt fakeip node port sport =
    let virt = if node == 0 then 0 else node_virt node in
    record {
      ip = if virt == 0 then fakeip else virt;
      port = (if sport == 0 then port else sport) % 2 ^ 16;
    }

-- dt_dispatch_bcast_from
unfoldable pub dispatch_from : (ℕ → ℕ) → ℕ → Sockets → ℕ → ℕ → ℕ → Bytes → List Queue → List Queue
dispatch_from node_virt fakeip k node port sport raw t =
    dispatch_rows k port (record { p = raw; from = shown_from node_virt fakeip node port sport }) t
      t
