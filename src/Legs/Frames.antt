-- ===== src/Legs/Frames.antt =====
-- A frame that one end sends is the one that the other receives.
use shadow_lan.Base.{
  ℕ, suc, ◌+◌, ◌≤◌, ◌<◌, ◌^◌, ◌≡◌, ◌∙◌, ap, sym, refl, true, false, List, [], ◌∷◌, ◌++◌, arith,
  length, take, drop, length-append, take_past, drop_past, Every,
}
use shadow_lan.Wire.{Bytes, put32, get32}
use shadow_lan.Wire.Numbers.{get32-put32, drop-put32, length-put32}
use shadow_lan.Control.{frame_bytes}
use shadow_lan.Legs.{
  Try, State, waiting, failed, through, then_send, send_all, send_frame, Got, recv_all, frame,
  body_of, too_long, head_of, recv_frame,
}
use shadow_lan.Legs.Passes.{
  append-nil, append_assoc, IsPart, send_all-IsPart, IsFast, IsThrough, recv_all-IsThrough,
}

module _ (tmo t0 t1 type : ℕ) (p : Bytes) (ts ts' : List Try) where
  abbrev head_bytes : Bytes
  head_bytes = put32 (1 + length p) ++ (type ∷ [])

  whole : head_bytes ++ p ≡ frame_bytes type p
  unfolding frame_bytes
  whole = append_assoc (put32 (1 + length p)) (type ∷ []) p

  second :
      (s : State) (wire : Bytes)
      → (rest : Bytes) × (wire ++ rest ≡ head_bytes) × (s ≡ through → rest ≡ [])
      → IsPart (head_bytes ++ p) (then_send tmo t1 p ts' s wire)
  second waiting wire (rest, same, all) =
      (rest ++ p, sym (append_assoc wire rest p) ∙ ap (λ z. z ++ p) same, λ h. absurd (cc))
  second failed wire (rest, same, all) =
      (rest ++ p, sym (append_assoc wire rest p) ∙ ap (λ z. z ++ p) same, λ h. absurd (cc))
  second through wire (rest, same, all) =
      let (left, part, ended) = send_all-IsPart tmo t1 ts' wire p in
      (
        left,
        part
            ∙ ap (λ z. z ++ p)
                (sym (append-nil wire) ∙ ap (λ z. wire ++ z) (sym (all refl)) ∙ same),
        ended,
      )

  -- Whatever the socket does, what goes out is the beginning of the frame's bytes, and it is the
  -- whole frame if the call succeeds.
  pub send_frame-IsPart : IsPart (frame_bytes type p) (send_frame tmo t0 t1 type p ts ts')
  unfolding send_frame
  send_frame-IsPart =
      let (rest, same, ended) =
        second (send_all tmo t0 [] head_bytes ts).state (send_all tmo t0 [] head_bytes ts).wire
          (send_all-IsPart tmo t0 ts [] head_bytes) in
      (rest, same ∙ whole, ended)

module _ (pcap tmo t0 t1 type : ℕ) (p rest : Bytes) (ts : List Try) (fast : Every IsFast ts)
    (small : 1 + length p < 2 ^ 16) (fits : length p ≤ pcap)
    (enough : 5 + length p ≤ length ts) where
  abbrev src : Bytes
  src = frame_bytes type p ++ rest

  abbrev head_got : Got
  head_got = recv_all true tmo t0 4 [] src ts

  head_src : src ≡ put32 (1 + length p) ++ (type ∷ (p ++ rest))
  unfolding frame_bytes
  head_src = append_assoc (put32 (1 + length p)) (type ∷ p) rest

  long_src : 4 ≤ length src
  long_src = rw head_src (omega (arith, length-put32 (1 + length p) (type ∷ (p ++ rest))))

  head-IsThrough : IsThrough 4 [] src ts head_got
  head-IsThrough = recv_all-IsThrough true tmo t0 ts 4 [] src fast (omega (arith, enough)) long_src

  body_src : head_got.src ≡ type ∷ (p ++ rest)
  body_src =
      head-IsThrough.2 ∙ ap (drop 4) head_src ∙ drop-put32 (1 + length p) (type ∷ (p ++ rest))

  body_length : get32 head_got.bytes ≡ 1 + length p
  body_length =
      ap get32
        (head-IsThrough.1 ∙ ap (take 4) head_src ∙ first_four (1 + length p) (type ∷ (p ++ rest)))
      ∙ get32-put32 (1 + length p) [] (omega (arith, small))
    where
      first_four : (v : ℕ) (b : Bytes) → take 4 (put32 v ++ b) ≡ put32 v ++ []
      first_four v b = unfold put32 in refl

  abbrev body_got : Got
  body_got = recv_all false tmo t1 (1 + length p) [] head_got.src head_got.rest

  body-IsThrough : IsThrough (1 + length p) [] head_got.src head_got.rest body_got
  body-IsThrough =
      recv_all-IsThrough false tmo t1 head_got.rest (1 + length p) [] head_got.src head-IsThrough.3
        (omega (arith, head-IsThrough.4, enough))
        (rw body_src (omega (arith, length-append p rest)))

  body_bytes : body_got.bytes ≡ type ∷ p
  body_bytes =
      body-IsThrough.1
      ∙ ap (take (1 + length p)) body_src
      ∙ ap (λ n. take n (type ∷ (p ++ rest))) {x = 1 + length p} {y = suc (length p)} (omega arith)
      ∙ ap (λ z. type ∷ z) (take_past p rest)

  left_over : body_got.src ≡ rest
  left_over =
      body-IsThrough.2
      ∙ ap (drop (1 + length p)) body_src
      ∙ ap (λ n. drop n (type ∷ (p ++ rest))) {x = 1 + length p} {y = suc (length p)} (omega arith)
      ∙ drop_past p rest

  not_long : too_long pcap (1 + length p) ≡ false
  not_long = ground (arith, small, fits)

  head_lem :
      (g : Got)
      → g.state ≡ through
      → get32 g.bytes ≡ 1 + length p
      → head_of pcap tmo t1 g.state g ≡ (
          let body = recv_all false tmo t1 (1 + length p) [] g.src g.rest in
          body_of body.state body)
  head_lem g e e' = rw (e, e', not_long) refl

  body_lem :
      (g : Got)
      → g.state ≡ through
      → g.bytes ≡ type ∷ p
      → g.src ≡ rest
      → body_of g.state g ≡ frame type p (1 + length p) rest
  body_lem g e e' e'' =
      rw (e, e', e'')
        (ap (λ n. frame type p n rest) {x = suc (length p)} {y = 1 + length p} (omega arith))

  -- A frame whose bytes have been sent is received, its payload as it was framed, whatever the sizes
  -- of the pieces, after as many passes at most as it has bytes; a payload may fill the buffer, and
  -- then the loop has stored one byte more than the buffer has.
  pub recv_frame-frame_bytes :
      recv_frame pcap tmo t0 t1 (frame_bytes type p ++ rest) ts ≡ frame type p (1 + length p) rest
  unfolding recv_frame
  recv_frame-frame_bytes =
      head_lem head_got head-IsThrough.0 body_length
      ∙ body_lem body_got body-IsThrough.0 body_bytes left_over
