-- ===== src/Stream/App.antt =====
-- hook/hk_route.c, hook/hk_sess.c, hook/hk_linux.c: what the application does to its stream. Each
-- function is given for the row that dt_stream_by_sock finds, and then for the table; `memory`
-- says whether malloc succeeds.
pub mod Valid
pub mod Sends
pub mod Reads
pub mod Ready
use shadow_lan.Base.{
  ℕ, ◌+◌, ◌-◌, ◌/◌, Bool, true, false, ◌&&◌, ◌||◌, not, List, [], ◌∷◌, ◌++◌, Option, none, some,
  ltb, leb, ◌==◌, if◌then◌else◌, any, modify_first, length, take,
}
use shadow_lan.Wire.{Bytes}
use shadow_lan.Net.{Addr}
use shadow_lan.Stream.{
  Chunk, Stream, State, is_died, is_opened, max_in, max_out, write_room, wake, signal, of_sock,
  by_sock,
}
use shadow_lan.Stream.Chunks.{chunk, gather}

-- dt_stream_send's results: a length, 0, -1, -2, -3
pub data Sent : Type 0 where
  queued : ℕ → Sent
  not_ours reset full shut : Sent

-- The tail of dt_stream_send: the chunk goes to the end of oh..ot and the pump is poked.
unfoldable pub enqueue : Bool → Stream → Bytes → Sent × Stream
enqueue memory st b =
    if length b == 0
    then (queued 0, wake st)
    else if memory
    then (
      queued (length b),
      wake (record st { outq = st.outq ++ (chunk b ∷ []); ototal = st.ototal + length b }),
    )
    else (full, st)

abbrev pub room : Stream → ℕ
room st = if ltb st.ototal max_out then max_out - st.ototal else 0

abbrev pub is_gone : Stream → Bool
is_gone st = st.dead || is_died st.state

-- dt_stream_send on its row
unfoldable pub send_row : Bool → Stream → Bytes → Sent × Stream
unfolding enqueue
send_row memory st buf =
    if st.wr_shut
    then (shut, st)
    else if is_gone st
    then (reset, st)
    else if ltb max_out (st.ototal + length buf)
    then (if leb (length buf) max_out || room st == 0
        then (full, record st { wr_full = true })
        else enqueue memory (record st { wr_full = true }) (take (room st) buf))
    else enqueue memory st buf

-- dt_stream_send
unfoldable pub send : Bool → List Stream → ℕ → Bytes → Sent × List Stream
send memory t s buf = elim (by_sock t s) [
  | none ↦ (not_ours, t)
  | some st ↦
      ((send_row memory st buf).0, modify_first (of_sock s) (λ r. (send_row memory r buf).1) t)
]

-- dt_stream_pop's results: 1 with the bytes, 0, -1
pub data Popped : Type 0 where
  got : Bytes → Popped
  nothing ended : Popped

abbrev pub has_bytes : List Chunk → Bool
has_bytes [] = false
has_bytes (c ∷ cs) = true

-- A paused pump is resumed once the in-queue is under half of its limit.
abbrev pub resume : Stream → Stream
resume st =
    if st.in_paused && ltb st.total (max_in / 2) then wake (record st { in_paused = false }) else st

abbrev pub taken : Stream → Bytes × List Chunk → Popped × Stream
taken st (bytes, left) =
    (got bytes, resume (record st { inq = left; total = st.total - length bytes }))

-- dt_stream_pop on its row
unfoldable pub pop_row : Stream → ℕ → Popped × Stream
pop_row st blen =
    if has_bytes st.inq
    then taken st (gather st.inq blen)
    else if is_gone st || st.peer_fin || st.rd_shut
    then (ended, st)
    else (nothing, st)

-- dt_stream_pop
unfoldable pub pop : List Stream → ℕ → ℕ → Popped × List Stream
pop t s blen = elim (by_sock t s) [
  | none ↦ (nothing, t)
  | some st ↦ ((pop_row st blen).0, modify_first (of_sock s) (λ r. (pop_row r blen).1) t)
]

-- dt_stream_has
unfoldable pub has_row : Stream → Bool
has_row st = has_bytes st.inq || st.peer_fin || st.rd_shut || is_gone st

unfoldable pub has : List Stream → ℕ → Bool
has t s = elim (by_sock t s) [ none ↦ false | some st ↦ has_row st ]

-- SHUT_RD, SHUT_WR, SHUT_RDWR
pub data How : Type 0 where
  rd wr rdwr : How

abbrev pub shut_read : Stream → Stream
shut_read st = record st { rd_shut = true; inq = []; total = 0; in_paused = false }

abbrev pub shut_write : Stream → Stream
shut_write st = record st { wr_shut = true }

-- shutdown of hk_linux.c on the row
unfoldable pub shutdown_row : How → Stream → Stream
shutdown_row rd st = signal (shut_read st)
shutdown_row wr st = shut_write st
shutdown_row rdwr st = signal (shut_write (shut_read st))

-- The stream part of dt_sock_state_locked: *data, *dead, *writable and *connect.
pub record Readiness : Type 0 where
  pub data_in : Bool
  pub is_dead : Bool
  pub writable : Bool
  pub connected : Bool

unfoldable pub state_row : Stream → Readiness
state_row st =
    let live = is_opened st.state && not st.dead in
    record {
      data_in = has_bytes st.inq || is_gone st;
      is_dead = is_gone st;
      writable = is_gone st || (live && leb st.ototal write_room);
      connected = live && not st.connect_signaled;
    }

-- dt_stream_mark_connect on the row
abbrev pub mark_connect : Stream → Stream
mark_connect st = record st { connect_signaled = true }
