-- ===== src/Legs.antt =====
-- hook/hk_stream.c: framed sends and receives on a stream's own relay connection, before it turns
-- into a raw pipe. The socket does not block: each pass of a loop is one call of send or recv and,
-- where that would block, one of select and of the clock. `src` is what the peer has sent.
mod Tests
pub mod Passes
pub mod Frames
use shadow_lan.Base.{
  ℕ, zero, suc, ◌+◌, ◌-◌, Bool, true, false, ◌&&◌, ◌||◌, not, List, [], ◌∷◌, ◌++◌, ltb, ◌==◌, min,
  if◌then◌else◌, length, take, drop,
}
use shadow_lan.Wire.{Bytes, put32, get32, at}

-- What the call answers: bytes were moved, it would block, it failed, or (recv) the peer has ended,
-- with what errno is left at: whether it says that the call would block.
pub data Reply : Type 0 where
  moved : ℕ → Reply
  blocked broken : Reply
  closed : Bool → Reply

-- What select answers: a result that is not negative, EINTR, or another failure.
pub data Select : Type 0 where
  waited interrupted refused : Select

pub record Try : Type 0 where
  pub reply : Reply
  pub select : Select
  pub now : ℕ

-- How a loop stands: still going on after the passes, failed, or through.
pub data State : Type 0 where
  waiting failed through : State

abbrev pub is_empty : Bytes → Bool
is_empty [] = true
is_empty (b ∷ bs) = false

-- The end of a pass whose call would block
abbrev pub wait : {A : Type 0} → ℕ → ℕ → Try → A → A → A
wait tmo t0 t stop again = elim t.select [
  | refused ↦ stop
  | interrupted ↦ again
  | waited ↦ if ltb (t0 + tmo) t.now then stop else again
]

-- What a send loop comes to: its state and the bytes that went out.
pub record Sent : Type 0 where
  pub state : State
  pub wire : Bytes

abbrev pub sent_pass : ℕ → ℕ → Bytes → Bytes → Try → Reply → Sent → Sent → Sent
sent_pass tmo t0 wire b t (moved k) more again = more
sent_pass tmo t0 wire b t blocked more again =
    wait tmo t0 t (record { state = failed; wire = wire }) again
sent_pass tmo t0 wire b t broken more again = record { state = failed; wire = wire }
sent_pass tmo t0 wire b t (closed e) more again =
    if e
    then wait tmo t0 t (record { state = failed; wire = wire }) again
    else record { state = failed; wire = wire }

abbrev pub moved_by : Reply → ℕ
moved_by (moved k) = k
moved_by blocked = 0
moved_by broken = 0
moved_by (closed e) = 0

-- dt_st_send_all_tmo from the time `t0`, where `wire` went out before
unfoldable pub send_all : ℕ → ℕ → Bytes → Bytes → List Try → Sent
send_all tmo t0 wire b [] = record { state = if is_empty b then through else waiting; wire = wire }
send_all tmo t0 wire b (t ∷ ts) =
    let k = moved_by t.reply in
    let more = send_all tmo t0 (wire ++ take k b) (drop k b) ts in
    let again = send_all tmo t0 wire b ts in
    if is_empty b
    then record { state = through; wire = wire }
    else sent_pass tmo t0 wire b t t.reply more again

abbrev pub then_send : ℕ → ℕ → Bytes → List Try → State → Bytes → Sent
then_send tmo t1 p ts waiting wire = record { state = waiting; wire = wire }
then_send tmo t1 p ts failed wire = record { state = failed; wire = wire }
then_send tmo t1 p ts through wire = send_all tmo t1 wire p ts

-- dt_st_send_frame: the head, and the payload if there is one; `ts` and `ts'` are the passes of each
unfoldable pub send_frame : ℕ → ℕ → ℕ → ℕ → Bytes → List Try → List Try → Sent
send_frame tmo t0 t1 type p ts ts' =
    let head = send_all tmo t0 [] (put32 (1 + length p) ++ (type ∷ [])) ts in
    then_send tmo t1 p ts' head.state head.wire

-- What a receive loop comes to: its state, the bytes that it stored, what is left of the peer's,
-- and of the passes.
pub record Got : Type 0 where
  pub state : State
  pub bytes : Bytes
  pub src : Bytes
  pub rest : List Try

abbrev pub got_pass : Bool → ℕ → ℕ → Bytes → Bytes → Try → List Try → Reply → Got → Got → Got
got_pass header tmo t0 got src t ts (moved k) more again = more
got_pass header tmo t0 got src t ts blocked more again =
    wait tmo t0 t (record { state = failed; bytes = got; src = src; rest = ts }) again
got_pass header tmo t0 got src t ts broken more again = record {
  state = failed;
  bytes = got;
  src = src;
  rest = ts;
}
got_pass header tmo t0 got src t ts (closed e) more again =
    if header && is_empty got
    then record { state = failed; bytes = got; src = src; rest = ts }
    else if e
    then wait tmo t0 t (record { state = failed; bytes = got; src = src; rest = ts }) again
    else record { state = failed; bytes = got; src = src; rest = ts }

-- The two loops of dt_st_recv_frame, for `need` more bytes; `header` tells the first
unfoldable pub recv_all : Bool → ℕ → ℕ → ℕ → Bytes → Bytes → List Try → Got
recv_all header tmo t0 need got src [] = record {
  state = if need == 0 then through else waiting;
  bytes = got;
  src = src;
  rest = [];
}
recv_all header tmo t0 need got src (t ∷ ts) =
    let k = min (moved_by t.reply) need in
    let more = recv_all header tmo t0 (need - k) (got ++ take k src) (drop k src) ts in
    let again = recv_all header tmo t0 need got src ts in
    if need == 0
    then record { state = through; bytes = got; src = src; rest = t ∷ ts }
    else got_pass header tmo t0 got src t ts t.reply more again

-- dt_st_recv_frame's answers. `stored` is how many bytes the second loop wrote from `p` on.
pub data Frame : Type 0 where
  none_yet bad : Frame
  frame : ℕ → Bytes → ℕ → Bytes → Frame

abbrev pub body_of : State → Got → Frame
body_of waiting g = none_yet
body_of failed g = bad
body_of through g = frame (at g.bytes 0) (drop 1 g.bytes) (length g.bytes) g.src

abbrev pub too_long : ℕ → ℕ → Bool
too_long pcap ml = ltb ml 1 || (ltb 65536 ml || ltb (pcap + 1) ml)

abbrev pub head_of : ℕ → ℕ → ℕ → State → Got → Frame
head_of pcap tmo t1 waiting g = none_yet
head_of pcap tmo t1 failed g = bad
head_of pcap tmo t1 through g =
    let body = recv_all false tmo t1 (get32 g.bytes) [] g.src g.rest in
    if too_long pcap (get32 g.bytes) then bad else body_of body.state body

-- dt_st_recv_frame into a buffer of `pcap` bytes, whose loops start at `t0` and `t1`
unfoldable pub recv_frame : ℕ → ℕ → ℕ → ℕ → Bytes → List Try → Frame
recv_frame pcap tmo t0 t1 src ts =
    let head = recv_all true tmo t0 4 [] src ts in head_of pcap tmo t1 head.state head
