-- ===== src/Stream/Dial.antt =====
-- hook/hk_stream.c, dt_stream_thread from its start to the verdict of the relay. Each part that runs
-- under the lock is an operation of its own on the table as it finds it, for the other threads run
-- in between. The thread keeps a pointer to its row: here the row's number. The channel that wakes
-- the pump is not part of a row.
mod Tests
pub mod Payload
pub mod Rows
pub mod Verdicts
use mathlib.Core.Option
use shadow_lan.Base.{
  ℕ, zero, suc, Bool, true, false, ◌&&◌, not, List, [], ◌∷◌, ◌++◌, Option, none, some, ◌==◌,
  if◌then◌else◌, length, modify_first,
}
use shadow_lan.Wire.{Bytes, put32, get32, put16, at}
use shadow_lan.Net.{Addr}
use shadow_lan.Members.{Lease, virt_node}
use shadow_lan.Stream.{
  Stream, State, connecting, opened, died, is_connecting, is_opened, signal, of_sid, by_sid,
}
use shadow_lan.Stream.Close.{Answer, fail_local, join_timeout, verdict, is_ok, is_fail}

abbrev pub row_at : ℕ → List Stream → Option Stream
row_at i [] = none
row_at zero (x ∷ xs) = some x
row_at (suc i) (x ∷ xs) = row_at i xs

abbrev pub change_at : ℕ → (Stream → Stream) → List Stream → List Stream
change_at i f [] = []
change_at zero f (x ∷ xs) = f x ∷ xs
change_at (suc i) f (x ∷ xs) = x ∷ change_at i f xs

abbrev pub position : (Stream → Bool) → List Stream → Option ℕ
position p [] = none
position p (x ∷ xs) = if p x then some 0 else Option.map suc (position p xs)

-- What the thread keeps of its row
pub record Dial : Type 0 where
  pub row : ℕ
  pub sid : ℕ
  pub orig : Addr

abbrev pub kept : ℕ → List Stream → Option Stream → Option Dial
kept sid t none = none
kept sid t (some st) =
    if st.gsock == 0
    then none
    else Option.map (λ i. record { row = i; sid = sid; orig = st.orig }) (position (of_sid sid) t)

-- The start of dt_stream_thread: `none` where the thread ends at once
unfoldable pub start : ℕ → List Stream → Option Dial
start sid t = kept sid t (by_sid t sid)

abbrev pub goes_on : Option Stream → Bool
goes_on none = false
goes_on (some st) = st.used && not st.dead

-- After dt_st_dial_relay: the table, and whether the thread goes on
unfoldable pub dialled : Dial → Option ℕ → List Stream → List Stream × Bool
dialled d none t = (change_at d.row (fail_local join_timeout) t, false)
dialled d (some fd) t = (t, goes_on (row_at d.row t))

-- DT_STOPEN's payload, from the node `node`
unfoldable pub open_payload : Lease → ℕ → Dial → Bytes
open_payload l node d =
    put32 node ++ (put32 (virt_node l d.orig.ip) ++ (put32 d.sid ++ put16 d.orig.port))

abbrev pub attach : ℕ → ℕ → Stream → Stream
attach sid fd st = if of_sid sid st then record st { fd = some fd; fd_live = true } else st

-- After the frame: `sent` tells whether dt_st_send_frame has sent it.
unfoldable pub submitted : Dial → ℕ → Bool → List Stream → List Stream × Bool
submitted d fd sent t =
    if sent
    then (change_at d.row (attach d.sid fd) t, true)
    else (change_at d.row (fail_local join_timeout) t, false)

-- What dt_st_recv_frame comes to: it failed for good, or the frame of a type and a payload.
pub data Heard : Type 0 where
  lost : Heard
  heard : ℕ → Bytes → Heard

-- The loop around dt_st_recv_frame: `none` is a failure that leaves errno at EAGAIN.
unfoldable pub hear : List (Option Heard) → Option Heard
hear [] = none
hear (none ∷ rs) = hear rs
hear (some h ∷ rs) = some h

-- STF_NO_ROUTE
abbrev pub no_route : ℕ
no_route = 1

abbrev pub lose : ℕ → Stream → Stream
lose sid st =
    let gone = record st { state = died; fail = no_route } in
    if of_sid sid st then (if st.gsock == 0 then gone else signal gone) else st

-- DT_STOK, DT_STFAIL and their fields
abbrev pub answer_of : ℕ → Bytes → Answer
answer_of type p = record {
  ok = type == 0x0B;
  failed = type == 0x0C;
  sid = get32 p;
  reason = at p 4;
  length = length p;
}

-- What the thread finds at its row: the application's stream, one that the application has closed,
-- or no longer its own.
pub data Standing : Type 0 where
  held orphaned : Stream → Standing
  gone : Standing

abbrev pub standing : ℕ → Option Stream → Standing
standing sid none = gone
standing sid (some st) =
    if of_sid sid st then (if st.gsock == 0 then orphaned st else held st) else gone

-- `vfail`: why a stream that nobody waits for is refused to a retry; 0 where it did connect.
unfoldable pub orphan_reason : Answer → Stream → ℕ
orphan_reason a st = if is_ok st a then 0 else if is_fail st a then a.reason else no_route

-- dt_stream_by_sock_peeked
abbrev pub to_dest : Addr → Stream → Bool
to_dest dst st =
    st.used && (not (st.gsock == 0) && (st.orig.ip == dst.ip && st.orig.port == dst.port))

abbrev pub refuse : ℕ → Stream → Stream
refuse reason st =
    if is_connecting st.state then signal (record st { state = died; fail = reason }) else st

unfoldable pub hand_on : ℕ → Addr → List Stream → List Stream
hand_on reason dst t = if reason == 0 then t else modify_first (to_dest dst) (refuse reason) t

abbrev pub vacate : Stream → Stream
vacate st = record st {
  used = false;
  state = died;
  fd = none;
  inq = [];
  outq = [];
  total = 0;
  ototal = 0;
}

abbrev pub settle : Dial → Answer → Standing → List Stream → List Stream × Bool
settle d a (held st) t = (change_at d.row (verdict a) t, is_opened (verdict a st).state)
settle d a (orphaned st) t =
    (change_at d.row vacate (hand_on (orphan_reason a st) st.orig t), false)
settle d a gone t = (t, false)

-- After the loop: the table, and whether the thread goes on to the pipe
unfoldable pub conclude : Dial → Heard → List Stream → List Stream × Bool
conclude d lost t = (change_at d.row (lose d.sid) t, false)
conclude d (heard type p) t = settle d (answer_of type p) (standing d.sid (row_at d.row t)) t
