-- ===== src/Stream/Pump/Order.antt =====
-- One stream under any interleaving of the application's calls, close among them, the pump's moves
-- and the drains: what passes the stream's ends on each event.
pub mod Steps
use shadow_lan.Base.{
  not, ◌&&◌, ℕ, ◌+◌, ◌-◌, ◌≤◌, ◌<◌, ◌≡◌, refl, ap, sym, ◌∙◌, Bool, true, false, ◌⊎◌, ◌||◌, inl, inr,
  List, [], ◌∷◌, ◌++◌, arith, min, ltb, leb, ◌==◌, if◌then◌else◌, length, take, drop,
  take-append-drop, Bool-cases,
}
use mathlib.Core.List.{append-nil, append_assoc}
use shadow_lan.Wire.{Bytes}
use shadow_lan.Stream.{Stream, Chunk, max_in, is_connecting}
use shadow_lan.Stream.Close.{close_row}
use shadow_lan.Stream.Drains.{Call, Drained, close_drain, exit_drain}
use shadow_lan.Stream.Chunks.{pending, rest, HasBytes}
use shadow_lan.Stream.App.{
  How, rd, wr, rdwr, Sent, queued, not_ours, reset, full, shut, Popped, got, nothing, ended,
  send_row, pop_row, shutdown_row, has_bytes,
}
use shadow_lan.Stream.App.Valid.{
  IsValid, in_bytes, out_bytes, send_row-IsValid, pop_row-IsValid, shutdown_row-IsValid,
}
use shadow_lan.Stream.App.Sends
use shadow_lan.Stream.App.Reads
use shadow_lan.Stream.Pump.{sent, not_sent, received, peer_finished, reset_by_peer, retire}
use shadow_lan.Stream.Pump.Moves.{sent_lem, received_fits, received_lost, received-IsValid, CanSend}

-- What happens to the row: dt_stream_send and the pump's recv, each with what malloc answers,
-- dt_stream_pop, shutdown, the pump's send of some bytes, the peer's end, dt_on_close, the flag of
-- dt_flush_streams, the end of the pump, and the two drains with their calls.
pub data Event : Type 0 where
  app_send : Bool → Bytes → Event
  app_read : ℕ → Event
  app_shut : How → Event
  net_took : ℕ → Event
  net_gave : Bool → Bytes → Event
  net_fin net_reset : Event
  app_close exit_starts pump_ends : Event
  close_drains : List Call → Event
  exit_drains : ℕ → List Call → Event

-- The stream with what has passed its ends: the bytes that send accepted, those on the wire, those
-- that came from it, those that recv returned, whether some were discarded on the way in, and whether
-- the out-queue was cut short: freed with bytes in it, or left by a drain before its end.
pub record World : Type 0 where
  pub row : Stream
  pub accepted : Bytes
  pub wire : Bytes
  pub arrived : Bytes
  pub read : Bytes
  pub discarded : Bool
  pub cut : Bool

abbrev accepted_of : Sent → Bytes → Bytes
accepted_of (queued n) b = take n b
accepted_of not_ours b = []
accepted_of reset b = []
accepted_of full b = []
accepted_of shut b = []

abbrev bytes_of : Popped → Bytes
bytes_of (got b) = b
bytes_of nothing = []
bytes_of ended = []

-- What the pump can put on the wire: at most the front chunk, and nothing during an exit drain.
abbrev front : List Chunk → ℕ
front [] = 0
front (c ∷ cs) = length (rest c)

abbrev sendable : ℕ → Stream → ℕ
sendable k st = if st.flushing then 0 else min k (front st.outq)

abbrev unread : How → Stream → Bool
unread rd st = has_bytes st.inq
unread wr st = false
unread rdwr st = has_bytes st.inq

took : ℕ → World → World
took k w =
    if k == 0
    then record w { row = not_sent w.row }
    else record w { row = sent k w.row; wire = w.wire ++ take k (out_bytes w.row) }

-- The pump selects the connection for reading unless it is paused or has seen the peer's FIN.
gave : Bool → Bytes → World → World
gave m b w = if w.row.in_paused || (w.row.peer_fin || length b == 0) then w else record w {
  row = received m b w.row;
  arrived = w.arrived ++ b;
  discarded = w.discarded || (not m || ltb max_in (w.row.total + length b));
}

-- Where dt_on_close, and the end of the pump, free the row with its queues
abbrev pub close_frees : Stream → Bool
close_frees st = is_connecting st.state && not st.fd_live

abbrev pub end_frees : Stream → Bool
end_frees st = st.dead || st.wr_shut

abbrev pub put_out : Drained → World → World
put_out d w = record w {
  row = record w.row { outq = d.outq; ototal = d.ototal };
  wire = w.wire ++ d.wire;
  cut = w.cut || has_bytes d.outq;
}

abbrev pub freed : Bool → Stream → World → World
freed frees st w = record w {
  row = st;
  discarded = w.discarded || (frees && has_bytes w.row.inq);
  cut = w.cut || (frees && has_bytes w.row.outq);
}

unfoldable pub step : Event → World → World
unfolding took gave
step (app_send m b) w = record w {
  row = (send_row m w.row b).1;
  accepted = w.accepted ++ accepted_of (send_row m w.row b).0 b;
}
step (app_read n) w = record w {
  row = (pop_row w.row n).1;
  read = w.read ++ bytes_of (pop_row w.row n).0;
}
step (app_shut how) w = record w {
  row = shutdown_row how w.row;
  discarded = w.discarded || unread how w.row;
}
step (net_took k) w = took (sendable k w.row) w
step (net_gave m b) w = gave m b w
step net_fin w = record w { row = peer_finished w.row }
step net_reset w = record w { row = reset_by_peer w.row }
step app_close w = freed (close_frees w.row) (close_row w.row) w
step exit_starts w = record w { row = record w.row { flushing = true } }
step pump_ends w = freed (end_frees w.row) (retire w.row) w
step (close_drains ts) w = put_out (close_drain ts w.row.outq w.row.ototal) w
step (exit_drains t0 ts) w =
    let w' = put_out (exit_drain t0 ts w.row.outq w.row.ototal) w in
    record w' { row = record w'.row { flushing = false } }

unfoldable pub run : List Event → World → World
run [] w = w
run (e ∷ es) w = run es (step e w)

pub record InOrder (w : World) : Type 0 where
  pub valid : IsValid w.row
  pub out_order : w.cut ≡ false → w.accepted ≡ w.wire ++ out_bytes w.row
  pub in_order : w.discarded ≡ false → w.arrived ≡ w.read ++ in_bytes w.row
