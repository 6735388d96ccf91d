-- ===== src/Stream.antt =====
-- hook/hk_core.h, hook/hk_sess.c, hook/hk_udp.c: the table of tunnel streams. The queues h..t and
-- oh..ot are lists of chunks. What only the log reads (an_rx, an_tx, ab_rx, ab_tx, a_log) is left
-- out; `wakes` counts the bytes sent to the pump's wake channel and `signals` the calls of
-- dt_sig_locked for the stream's socket.
mod Tests
pub mod Chunks
pub mod App
pub mod Pump
pub mod Close
pub mod Dial
pub mod Drains
use shadow_lan.Base.{
  ℕ, ◌+◌, ◌*◌, ◌/◌, Bool, true, false, ◌&&◌, not, List, [], ◌∷◌, Option, none, some, ◌==◌,
  if◌then◌else◌, any, find?, modify_first,
}
use shadow_lan.Wire.{Bytes}
use shadow_lan.Net.{Addr}

-- dt_chunk: its bytes and how many of them are gone
pub record Chunk : Type 0 where
  pub p : Bytes
  pub off : ℕ

-- ST_CONNECTING, ST_OPEN, ST_DEAD
pub data State : Type 0 where
  connecting opened died : State

abbrev pub is_opened : State → Bool
is_opened opened = true
is_opened s = false

abbrev pub is_connecting : State → Bool
is_connecting connecting = true
is_connecting s = false

abbrev pub is_died : State → Bool
is_died died = true
is_died s = false

-- dt_stream
pub record Stream : Type 0 where
  pub used : Bool
  pub gsock : ℕ
  pub sid : ℕ
  pub orig : Addr
  pub inq : List Chunk
  pub total : ℕ
  pub dead : Bool
  pub state : State
  pub fail : ℕ
  pub in_paused : Bool
  pub connect_signaled : Bool
  pub fd : Option ℕ
  pub fd_live : Bool
  pub outq : List Chunk
  pub ototal : ℕ
  pub flushing : Bool
  pub sending : Bool
  pub thread_done : Bool
  pub shut_done : Bool
  pub ever_open : Bool
  pub peer_fin : Bool
  pub wr_shut : Bool
  pub rd_shut : Bool
  pub wr_full : Bool
  pub wakes : ℕ
  pub signals : ℕ

abbrev pub max_stream : ℕ
max_stream = 128

-- DT_ST_MAXIN, DT_ST_MAXOUT, DT_ST_WROOM
abbrev pub max_in : ℕ
max_in = 1024 * 1024

abbrev pub max_out : ℕ
max_out = 256 * 1024

abbrev pub write_room : ℕ
write_room = max_out / 3 * 2

-- dt_wake_write on the stream's channel, and dt_sig_locked for its socket
abbrev pub wake : Stream → Stream
wake st = record st { wakes = st.wakes + 1 }

abbrev pub signal : Stream → Stream
signal st = record st { signals = st.signals + 1 }

abbrev pub of_sock : ℕ → Stream → Bool
of_sock s st = st.used && st.gsock == s

-- dt_stream_by_sock: socket 0 marks a slot that a finished pump owns.
unfoldable pub by_sock : List Stream → ℕ → Option Stream
by_sock t s = if s == 0 then none else find? (of_sock s) t

-- dt_stream_by_sid
abbrev pub of_sid : ℕ → Stream → Bool
of_sid sid st = st.used && st.sid == sid

unfoldable pub by_sid : List Stream → ℕ → Option Stream
by_sid t sid = find? (of_sid sid) t

-- The row that dt_stream_alloc hands out: `fd_live` stays what the row's last stream left.
abbrev pub allocated : ℕ → Addr → ℕ → Stream → Stream
allocated gsock dst sid st = record st {
  used = true;
  gsock = gsock;
  sid = sid;
  orig = dst;
  inq = [];
  total = 0;
  dead = false;
  state = connecting;
  fail = 0;
  in_paused = false;
  connect_signaled = false;
  flushing = false;
  sending = false;
  thread_done = false;
  peer_fin = false;
  wr_shut = false;
  rd_shut = false;
  wr_full = false;
  shut_done = false;
  ever_open = false;
  fd = none;
  outq = [];
  ototal = 0;
}

abbrev pub is_free : Stream → Bool
is_free st = not st.used

-- dt_stream_alloc, for the stream id that dt_next_sid gave: the table, and whether a row was free
unfoldable pub alloc : List Stream → ℕ → Addr → ℕ → List Stream × Bool
alloc t gsock dst sid = (modify_first is_free (allocated gsock dst sid) t, any is_free t)
