-- ===== src/Control.antt =====
-- hook/hk_ports.c, dt_tcp_queue; hook/hk_stream.c, the loop of the control link. The list
-- g_sqh..g_sqt is `sq`, the frame that is being sent `cur`, and the bytes received on the link
-- `rbuf`. `wire` is what send has taken on the links so far, one list of bytes for each link, the
-- newest first; `wakes` counts the bytes to the wake channel.
mod Tests
pub mod Frames
pub mod Order
pub mod Counts
use shadow_lan.Base.{
  ℕ, zero, suc, ◌+◌, ◌-◌, ◌*◌, Bool, true, false, ◌&&◌, ◌||◌, not, List, [], ◌∷◌, ◌++◌, Option,
  none, some, ltb, leb, ◌==◌, if◌then◌else◌, length, take, drop,
}
use shadow_lan.Wire.{Bytes, put32, get32}

-- dt_frame: its type and its wire bytes; `n` is their number.
pub record Frame : Type 0 where
  pub type : ℕ
  pub p : Bytes

pub record Link : Type 0 where
  pub sq : List Frame
  pub sq_bytes : ℕ
  pub cur : Option Frame
  pub cur_off : ℕ
  pub rbuf : Bytes
  pub wire : List Bytes
  pub wakes : ℕ

-- DT_BCAST, DT_UDP_TUN, DT_CTLQ_DROP
abbrev pub bcast : ℕ
bcast = 3

abbrev pub udp_tun : ℕ
udp_tun = 6

abbrev pub queue_drop : ℕ
queue_drop = 64 * 1024

abbrev pub is_droppable : ℕ → Bool
is_droppable type = type == udp_tun || type == bcast

-- The wire bytes of a control frame
unfoldable pub frame_bytes : ℕ → Bytes → Bytes
frame_bytes type p = put32 (1 + length p) ++ (type ∷ p)

abbrev pub put_last : Frame → Link → Link
put_last f l = record l {
  sq = l.sq ++ (f ∷ []);
  sq_bytes = l.sq_bytes + length f.p;
  wakes = l.wakes + 1;
}

-- dt_tcp_queue; `memory` is the result of its calls of malloc
unfoldable pub queue : Bool → ℕ → Bytes → Link → Link
queue memory type p l =
    let f : Frame = record { type = type; p = frame_bytes type p } in
    if not memory
    then l
    else if is_droppable type && ltb queue_drop (l.sq_bytes + length f.p)
    then l
    else put_last f l

abbrev pub pop_frame : List Frame → Link → Link
pop_frame [] l = record l { cur_off = 0 }
pop_frame (f ∷ fs) l = record l { sq = fs; cur = some f; cur_off = 0 }

abbrev pub next_of : Option Frame → Link → Link
next_of none l = pop_frame l.sq l
next_of (some f) l = l

-- The head of the flush loop: with no frame in hand, take the first of the queue.
unfoldable pub next_frame : Link → Link
next_frame l = next_of l.cur l

abbrev pub on_wire : Bytes → List Bytes → List Bytes
on_wire b [] = b ∷ []
on_wire b (w ∷ ws) = (w ++ b) ∷ ws

abbrev pub sent_of : ℕ → Option Frame → Link → Link
sent_of k none l = l
sent_of k (some f) l =
    let wire = on_wire (take k (drop l.cur_off f.p)) l.wire in
    if ltb (l.cur_off + k) (length f.p)
    then record l { cur_off = l.cur_off + k; wire = wire }
    else record l {
      cur_off = l.cur_off + k;
      wire = wire;
      sq_bytes = l.sq_bytes - length f.p;
      cur = none;
    }

-- `send` took `k` bytes of the frame in hand, at least one and at most what is left.
unfoldable pub sent : ℕ → Link → Link
sent k l = sent_of k l.cur l

abbrev pub redial_of : Option Frame → Link → Link
redial_of none l = record l { rbuf = []; wire = [] ∷ l.wire }
redial_of (some f) l =
    if l.cur_off == 0
    then record l { rbuf = []; sq = f ∷ l.sq; cur = none; wire = [] ∷ l.wire }
    else record l { rbuf = []; sq_bytes = l.sq_bytes - length f.p; cur = none; wire = [] ∷ l.wire }

-- The branch at `redial`: a frame that is not started is the next link's first.
unfoldable pub redial : Link → Link
redial l = redial_of l.cur l

-- The limit on a frame's length
abbrev pub frame_limit : ℕ
frame_limit = 8 * 1024 * 1024

-- The front of the received bytes: not a whole frame, a length that ends the link, or a message.
pub data Front : Type 0 where
  short bad : Front
  whole : Bytes → Bytes → Front

unfoldable pub front : Bytes → Front
front b =
    let ml = get32 b in
    if ltb (length b) 4
    then short
    else if ltb ml 1 || ltb frame_limit ml
    then bad
    else if ltb (length b - 4) ml
    then short
    else whole (take ml (drop 4 b)) (drop (4 + ml) b)

-- What the loop over the received bytes gives to dt_ctl_dispatch, what it keeps, and whether it
-- ended at a length that ends the link.
pub record Received : Type 0 where
  pub messages : List Bytes
  pub rest : Bytes
  pub broken : Bool

unfoldable pub read : ℕ → Bytes → Received
read zero b = record { messages = []; rest = b; broken = false }
read (suc fuel) b = elim (front b) [
  | short ↦ record { messages = []; rest = b; broken = false }
  | bad ↦ record { messages = []; rest = b; broken = true }
  | whole m r ↦
      let t = read fuel r in record { messages = m ∷ t.messages; rest = t.rest; broken = t.broken }
]

-- `recv` gave `b`: the messages to dispatch, and the link after it.
unfoldable pub receive : Bytes → Link → List Bytes × Link
receive b l =
    let t = read (length (l.rbuf ++ b)) (l.rbuf ++ b) in
    (t.messages, if t.broken then redial l else record l { rbuf = t.rest })
