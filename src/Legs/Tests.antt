-- ===== src/Legs/Tests.antt =====
-- A frame of three bytes of payload, sent in two pieces and received byte by byte.
use shadow_lan.Base.{◌≡◌, refl, false, [], ◌∷◌, ◌++◌, arith, replicate}
use shadow_lan.Wire.{put32}
use shadow_lan.Control.{frame_bytes}
use shadow_lan.Legs.{
  Try, moved, blocked, closed, waited, failed, send_all, send_frame, recv_all, frame, bad,
  recv_frame,
}
use shadow_lan.Legs.Passes.{IsPart}
use shadow_lan.Legs.Frames.{send_frame-IsPart, recv_frame-frame_bytes}

abbrev fast : Try
fast = record { reply = moved 1; select = waited; now = 0 }

abbrev late : Try
late = record { reply = blocked; select = waited; now = 30000 }

abbrev quick : Try
quick = record { reply = moved 9; select = waited; now = 0 }

-- The connection stalls past the time that a send has.
stalled : (send_frame 5000 0 0 7 (1 ∷ 2 ∷ 3 ∷ []) (quick ∷ []) (fast ∷ late ∷ [])).state ≡ failed
unfolding send_frame send_all put32
stalled = refl

send_frame_IsPart_test :
    IsPart
      (frame_bytes 7 (1 ∷ 2 ∷ 3 ∷ []))
      (send_frame 5000 0 0 7 (1 ∷ 2 ∷ 3 ∷ []) (quick ∷ []) (fast ∷ late ∷ []))
send_frame_IsPart_test =
    send_frame-IsPart 5000 0 0 7 (1 ∷ 2 ∷ 3 ∷ []) (quick ∷ []) (fast ∷ late ∷ [])

-- The payload fills the buffer of three bytes, and four are stored.
recv_frame-frame_bytes_example :
    recv_frame 3 5000 0 0 (frame_bytes 7 (1 ∷ 2 ∷ 3 ∷ []) ++ (9 ∷ [])) (replicate 8 fast)
    ≡ frame 7 (1 ∷ 2 ∷ 3 ∷ []) 4 (9 ∷ [])
recv_frame-frame_bytes_example =
    recv_frame-frame_bytes 3 5000 0 0 7 (1 ∷ 2 ∷ 3 ∷ []) (9 ∷ []) (replicate 8 fast)
      (
        (0, refl),
        (
          (0, refl),
          ((0, refl), ((0, refl), ((0, refl), ((0, refl), ((0, refl), ((0, refl), tt)))))),
        ),
      )
      (omega arith) (omega arith) (omega arith)

-- The peer ends before the head is whole.
cut_off : recv_frame 3 5000 0 0 (0 ∷ []) (record fast { reply = closed false } ∷ []) ≡ bad
unfolding recv_frame recv_all
cut_off = refl
