-- ===== src/Stream/Tests.antt =====
-- A stream of socket 5 with a few bytes on the way.
use shadow_lan.Base.{◌≡◌, ◌↔◌, List, refl, true, false, [], ◌∷◌, none, some, arith}
use shadow_lan.Net.{Addr}
use shadow_lan.Stream.{Stream, opened, connecting, died, by_sock, alloc, allocated}
use shadow_lan.Stream.Chunks.{gather}
use shadow_lan.Stream.App.{queued, nothing, send_row, pop_row, state_row, has, pop}
use shadow_lan.Stream.App.Valid.{IsValid, in_bytes, send_row-IsValid}
use shadow_lan.Stream.App.Sends
use shadow_lan.Stream.App.Reads
use shadow_lan.Stream.App.Ready.{has-pop, writable-send}
use shadow_lan.Legs
use shadow_lan.Legs.{send_all}
use shadow_lan.Stream.Drains.{Call, drain, close_drain}
use shadow_lan.Stream.Pump.{retire, received, sent, peer_finished}
use shadow_lan.Stream.Pump.Moves.{received_bytes}
use shadow_lan.Stream.Pump.Order.{
  Event, app_send, app_read, net_took, net_gave, net_fin, app_close, close_drains, pump_ends, World,
  run, step,
}
use shadow_lan.Stream.Close.{close, close_row}
use shadow_lan.Stream.Close.Slots.{by_sock-alloc, by_sock-close}

abbrev there : Addr
there = record { ip = 0x0a50_0002; port = 2300 }

abbrev free_row : Stream
free_row = record {
  used = false;
  gsock = 0;
  sid = 0;
  orig = there;
  inq = [];
  total = 0;
  dead = false;
  state = died;
  fail = 0;
  in_paused = false;
  connect_signaled = false;
  fd = none;
  fd_live = false;
  outq = [];
  ototal = 0;
  flushing = false;
  sending = false;
  thread_done = false;
  shut_done = false;
  ever_open = false;
  peer_fin = false;
  wr_shut = false;
  rd_shut = false;
  wr_full = false;
  wakes = 0;
  signals = 0;
}

-- Two chunks wait for the application, one of them partly read, and three bytes for the network.
abbrev busy : Stream
busy = record free_row {
  used = true;
  gsock = 5;
  sid = 9;
  state = opened;
  ever_open = true;
  fd = some 30;
  fd_live = true;
  inq = record { p = 1 ∷ 2 ∷ 3 ∷ []; off = 1 } ∷ record { p = 4 ∷ []; off = 0 } ∷ [];
  total = 3;
  outq = record { p = 7 ∷ 8 ∷ 9 ∷ []; off = 0 } ∷ [];
  ototal = 3;
}

busy-IsValid : IsValid busy
busy-IsValid = record {
  in_chunks = (omega arith, (omega arith, tt));
  out_chunks = (omega arith, tt);
  in_count = refl;
  out_count = refl;
  out_limit = omega arith;
}

abbrev start : World
start = record {
  row = busy;
  accepted = 7 ∷ 8 ∷ 9 ∷ [];
  wire = [];
  arrived = 2 ∷ 3 ∷ 4 ∷ [];
  read = [];
  discarded = false;
  cut = false;
}

-- After the close one send takes the two bytes that are left.
abbrev calls : List Call
calls =
    record {
      start = 0;
      tries = record { reply = Legs.moved 2; select = Legs.waited; now = 0 } ∷ [];
      back = 1;
    }
    ∷ []

abbrev events : List Event
events =
    app_send true (10 ∷ 11 ∷ [])
    ∷ net_took 2
    ∷ app_read 2
    ∷ net_gave true (5 ∷ [])
    ∷ net_took 1
    ∷ net_fin
    ∷ app_close
    ∷ close_drains calls
    ∷ pump_ends
    ∷ []

send_row-IsValid_test : IsValid (send_row true busy (10 ∷ 11 ∷ [])).1
send_row-IsValid_test = send_row-IsValid true busy (10 ∷ 11 ∷ []) busy-IsValid

writable_send_test : (send_row true busy (10 ∷ 11 ∷ [])).0 ≡ queued 2
unfolding state_row
writable_send_test = writable-send busy (10 ∷ 11 ∷ []) refl refl refl (omega arith)

has-pop_test :
    (has (free_row ∷ busy ∷ []) 5 ≡ false) ↔ ((pop (free_row ∷ busy ∷ []) 5 2).0 ≡ nothing)
has-pop_test = has-pop (free_row ∷ busy ∷ []) 5 2

received_bytes_example :
    (in_bytes (received true (6 ∷ []) busy) ≡ 2 ∷ 3 ∷ 4 ∷ 6 ∷ [])
    × ((received true (6 ∷ []) busy).in_paused ≡ false)
received_bytes_example = received_bytes (6 ∷ []) busy

by_sock-alloc_test :
    by_sock (alloc (busy ∷ free_row ∷ []) 6 there 10).0 6 ≡ some (allocated 6 there 10 free_row)
by_sock-alloc_test =
    by_sock-alloc (busy ∷ free_row ∷ []) 6 10 there free_row (λ e. absurd (omega (arith, e))) refl
      refl

-- The relay's connection is up but has not answered: the row stays with its descriptor.
abbrev dialling : Stream
dialling = record busy { state = connecting; ever_open = false }

by_sock-close_test : by_sock (close (dialling ∷ []) 5) 5 ≡ some (close_row dialling)
unfolding by_sock
by_sock-close_test =
    by_sock-close (dialling ∷ []) 5 dialling (λ e. absurd (omega (arith, e))) (omega arith) refl

-- The bytes of a run: on the wire and read, and whether the out-queue was cut short.
run_bytes :
    ((run events start).wire ≡ 7 ∷ 8 ∷ 9 ∷ 10 ∷ 11 ∷ [])
    × ((run events start).read ≡ 2 ∷ 3 ∷ [])
    × ((run events start).cut ≡ false)
unfolding run step close_row close_drain drain send_all retire send_row sent pop_row received
    peer_finished gather
run_bytes = (refl, refl, refl)
