-- ===== src/Control/Tests.antt =====
-- A control link with one frame in hand and one queued.
use shadow_lan.Base.{◌≡◌, ◌++◌, refl, true, false, [], ◌∷◌, none, arith, List, Every}
use shadow_lan.Wire.{Bytes, put32, get32}
use shadow_lan.Control.{Link, front, read, frame_bytes, queue, bcast}
use shadow_lan.Control.Frames.{
  after, read-append, Message, stream_bytes, contents, IsSmall, read-stream_bytes,
}
use shadow_lan.Control.Order.{
  outgoing, IsOrdered, Event, queued, taken, took, lost, run, run-IsOrdered,
}
use shadow_lan.Control.Counts.{IsCounted, Queued, run-IsCounted, queue_outcome}

abbrev first : Bytes
first = 0 ∷ 0 ∷ 0 ∷ 3 ∷ 4 ∷ 20 ∷ 21 ∷ []

-- Half of a second frame
abbrev second : Bytes
second = 0 ∷ 0 ∷ 0 ∷ 2 ∷ 5 ∷ []

first_read :
    read 12 (first ++ second)
    ≡ record { messages = (4 ∷ 20 ∷ 21 ∷ []) ∷ []; rest = second; broken = false }
unfolding read front get32
first_read = refl

not_broken : (read 12 (first ++ second)).broken ≡ false
unfolding read front get32
not_broken = refl

read-append_example :
    read 15 ((first ++ second) ++ (22 ∷ []))
    ≡ after
        (read 12 (first ++ second)).messages
        (read 15 ((read 12 (first ++ second)).rest ++ (22 ∷ [])))
read-append_example =
    read-append 12 15 15 (first ++ second) (22 ∷ []) (omega arith) (omega arith) (omega arith)
      not_broken

abbrev messages : List Message
messages = (4, 20 ∷ 21 ∷ []) ∷ (5, []) ∷ []

messages-IsSmall : Every IsSmall messages
unfolding IsSmall
messages-IsSmall = (omega arith, (omega arith, tt))

read-stream_bytes_example :
    read 30 (stream_bytes messages ++ (0 ∷ 0 ∷ []))
    ≡ record { messages = contents messages; rest = 0 ∷ 0 ∷ []; broken = false }
unfolding front frame_bytes put32
read-stream_bytes_example =
    read-stream_bytes messages (0 ∷ 0 ∷ []) 30 messages-IsSmall (omega arith) refl

abbrev idle : Link
idle = record {
  sq = [];
  sq_bytes = 0;
  cur = none;
  cur_off = 0;
  rbuf = [];
  wire = [] ∷ [];
  wakes = 0;
}

idle-IsOrdered : IsOrdered idle
unfolding outgoing
idle-IsOrdered = record { messages = []; frames = refl; queued = tt; in_hand = tt }

idle-IsCounted : IsCounted idle
unfolding IsCounted
idle-IsCounted = refl

abbrev events : List Event
events =
    queued true 4 (20 ∷ 21 ∷ [])
    ∷ queued true 3 (9 ∷ [])
    ∷ taken
    ∷ took 3
    ∷ lost
    ∷ taken
    ∷ took 6
    ∷ []

run-IsOrdered_example : IsOrdered (run events idle)
run-IsOrdered_example = run-IsOrdered events idle idle-IsOrdered

run-IsCounted_test : IsCounted (run events idle)
run-IsCounted_test = run-IsCounted events idle idle-IsCounted

-- A frame of seven bytes waits.
abbrev waiting : Link
waiting = record idle { sq = record { type = 4; p = first } ∷ []; sq_bytes = 7 }

waiting-IsCounted : IsCounted waiting
unfolding IsCounted
waiting-IsCounted = refl

queue_outcome_example :
    IsCounted (queue true bcast (1 ∷ 2 ∷ []) waiting)
    × Queued bcast (1 ∷ 2 ∷ []) waiting (queue true bcast (1 ∷ 2 ∷ []) waiting)
queue_outcome_example = queue_outcome bcast (1 ∷ 2 ∷ []) waiting waiting-IsCounted
