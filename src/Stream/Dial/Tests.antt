-- ===== src/Stream/Dial/Tests.antt =====
-- hook/hk_stream.c: the dials of a few rows.
use shadow_lan.Base.{◌≡◌, refl, true, false, [], ◌∷◌, none, some, arith}
use shadow_lan.Wire.{put32}
use shadow_lan.Net.{Addr}
use shadow_lan.Wire.{get32}
use shadow_lan.Stream.{signal, Stream, opened, connecting, died, by_sock, alloc}
use shadow_lan.Stream.Close.{join_timeout}
use shadow_lan.Stream.Dial.{Dial, Heard, heard, row_at, start, hear, dialled, submitted, conclude}
use shadow_lan.Stream.Dial.Verdicts.{Fate, conclude-Fate, row_at-conclude, dialled-alloc}

abbrev there : Addr
there = record { ip = 0x0a50_0002; port = 2300 }

abbrev free_row : Stream
free_row = record {
  used = false;
  gsock = 0;
  sid = 0;
  orig = there;
  inq = [];
  total = 0;
  dead = false;
  state = died;
  fail = 0;
  in_paused = false;
  connect_signaled = false;
  fd = none;
  fd_live = false;
  outq = [];
  ototal = 0;
  flushing = false;
  sending = false;
  thread_done = false;
  shut_done = false;
  ever_open = false;
  peer_fin = false;
  wr_shut = false;
  rd_shut = false;
  wr_full = false;
  wakes = 0;
  signals = 0;
}

-- Socket 5 waits for the verdict on stream 9.
abbrev dialling : Stream
dialling = record free_row {
  used = true;
  gsock = 5;
  sid = 9;
  state = connecting;
  fd = some 30;
  fd_live = true;
}

-- Its socket was taken off the row, and the retry of socket 6 waits for the same destination.
abbrev left_behind : Stream
left_behind = record dialling { gsock = 0; dead = true }

abbrev retry : Stream
retry = record dialling { gsock = 6; sid = 10 }

abbrev dial : Dial
dial = record { row = 0; sid = 9; orig = there }

-- DT_STOK of stream 9
abbrev accepted : Heard
accepted = heard 0x0B (0 ∷ 0 ∷ 0 ∷ 9 ∷ [])

starts : start 9 (dialling ∷ retry ∷ []) ≡ some dial
unfolding start shadow_lan.Stream.by_sid
starts = refl

goes : (conclude dial accepted (dialling ∷ retry ∷ [])).1 ≡ true
unfolding conclude shadow_lan.Stream.Close.verdict shadow_lan.Wire.get32
goes = refl

hears : hear (none ∷ none ∷ some accepted ∷ []) ≡ some accepted
unfolding hear
hears = refl

attaches : (submitted dial 30 true (record dialling { fd = none } ∷ [])).0 ≡ dialling ∷ []
unfolding submitted
attaches = refl

conclude-Fate_example :
    (y : Stream) × (row_at 0 (conclude dial accepted (dialling ∷ retry ∷ [])).0 ≡ some y)
    × Fate dial accepted dialling y (conclude dial accepted (dialling ∷ retry ∷ [])).1
conclude-Fate_example = conclude-Fate dial accepted (dialling ∷ retry ∷ []) dialling refl

-- DT_STFAIL of stream 9 with STF_HOST_FAILED
abbrev refused : Heard
refused = heard 0x0C (0 ∷ 0 ∷ 0 ∷ 9 ∷ 3 ∷ [])

row_at-conclude_example :
    row_at 1 (conclude dial refused (left_behind ∷ retry ∷ [])).0
    ≡ some (signal (record retry { state = died; fail = 3 }))
unfolding get32
row_at-conclude_example =
    row_at-conclude dial refused (left_behind ∷ retry ∷ []) 1 retry (λ e. absurd (omega (arith, e)))
      refl

-- dt_on_close gave row 0 back, and socket 7 connects.
dialled-alloc_example :
    (y : Stream) × (by_sock (dialled dial none (alloc (free_row ∷ retry ∷ []) 7 there 11).0).0 7
      ≡ some y)
    × (y.sid ≡ 11)
    × (y.state ≡ died)
    × (y.fail ≡ join_timeout)
dialled-alloc_example =
    dialled-alloc dial (free_row ∷ retry ∷ []) 7 11 there free_row (λ e. absurd (omega (arith, e)))
      refl refl refl
