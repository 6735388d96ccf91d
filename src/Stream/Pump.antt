-- ===== src/Stream/Pump.antt =====
-- hook/hk_stream.c, dt_stream_thread: what the pump does to its row between two selects, and how
-- it retires. The socket's answers are arguments: how many bytes send took, what recv returned.
pub mod Moves
pub mod Order
use shadow_lan.Base.{
  ℕ, ◌+◌, ◌-◌, ◌≤◌, Bool, true, false, ◌&&◌, ◌||◌, not, List, [], ◌∷◌, ◌++◌, Option, none, some,
  ltb, leb, ◌==◌, if◌then◌else◌, length, min,
}
use shadow_lan.Wire.{Bytes}
use shadow_lan.Stream.{
  Chunk, Stream, State, opened, died, is_died, max_in, max_out, write_room, wake, signal,
}
use shadow_lan.Stream.Chunks.{rest, chunk}

-- `st->oh->off += k`, and the chunk is freed once it is used up.
abbrev pub advance : ℕ → Chunk → List Chunk → List Chunk
advance k c cs = if leb (length c.p) (c.off + k) then cs else record c { off = c.off + k } ∷ cs

-- A full queue that has room again wakes the blocked senders.
abbrev pub reopen : Stream → Stream
reopen st =
    if st.wr_full && leb st.ototal write_room
    then (let open_again = record st { wr_full = false } in
        if st.gsock == 0 then open_again else signal open_again)
    else st

abbrev pub sent_front : ℕ → List Chunk → Stream → Stream
sent_front k [] st = st
sent_front k (c ∷ cs) st =
    reopen (record st { sending = false; outq = advance k c cs; ototal = st.ototal - k })

-- One send of the pump that took `k` bytes of the front chunk.
unfoldable pub sent : ℕ → Stream → Stream
sent k st = if st.flushing then st else sent_front k st.outq st

-- A send that returned EAGAIN or an error
abbrev pub not_sent : Stream → Stream
not_sent st = record st { sending = false }

-- One recv that returned the bytes `b`
unfoldable pub received : Bool → Bytes → Stream → Stream
received memory b st =
    if ltb max_in (st.total + length b)
    then record st { in_paused = true }
    else if memory
    then signal (record st { inq = st.inq ++ (chunk b ∷ []); total = st.total + length b })
    else record st { in_paused = true }

-- recv returned 0
abbrev pub is_empty : List Chunk → Bool
is_empty [] = true
is_empty (c ∷ cs) = false

unfoldable pub peer_finished : Stream → Stream
peer_finished st =
    if is_empty st.inq
    then signal (record st { peer_fin = true })
    else record st { peer_fin = true }

-- DT_RSTMARK
abbrev pub reset_mark : ℕ
reset_mark = 255

-- recv failed for good
unfoldable pub reset_by_peer : Stream → Stream
reset_by_peer st = signal (record st { state = died; fail = reset_mark })

-- The flush notice: whether DT_STSHUT is queued
unfoldable pub shut_notice : Stream → Bool × Stream
shut_notice st =
    if st.wr_shut && not st.shut_done && st.ototal == 0
    then (true, record st { shut_done = true })
    else (false, st)

-- The end of dt_stream_thread, where the row is still this stream's
unfoldable pub retire : Stream → Stream
retire st =
    let ended = record st { thread_done = true; state = died } in
    if st.dead || st.wr_shut
    then signal
        (record ended { used = false; fd = none; inq = []; outq = []; total = 0; ototal = 0 })
    else ended
