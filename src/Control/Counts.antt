-- ===== src/Control/Counts.antt =====
-- g_sq_bytes against the frames that wait or are in hand, and DT_CTLQ_DROP.
use shadow_lan.Control.Frames.{length-frame_bytes}
use mathlib.Core.List.{append-nil}
use shadow_lan.Base.{
  ◌⊎◌, inl, inr, Bool-cases, ℕ, ◌+◌, ◌≤◌, ◌<◌, ◌≡◌, refl, sym, ap, ◌∙◌, Bool, true, ◌&&◌, List, [],
  ◌∷◌, ◌++◌, Option, none, some, arith, ltb, length, length-append,
}
use shadow_lan.Wire.{Bytes}
use shadow_lan.Control.{
  Frame, Link, frame_bytes, queue, next_frame, sent, redial, pop_frame, next_of, sent_of, redial_of,
  is_droppable, queue_drop,
}
use shadow_lan.Control.Order.{
  bytes_of, bytes_of-append, Event, queued, taken, took, lost, step, run,
}

abbrev pub size_of : Option Frame → ℕ
size_of none = 0
size_of (some f) = length f.p

-- g_sq_bytes is the size of the queue and of the frame in hand.
unfoldable pub IsCounted : Link → Type 0
IsCounted l = l.sq_bytes ≡ length (bytes_of l.sq) + size_of l.cur

module _ (l : Link) (v : IsCounted l) where
  queue-IsCounted : (memory : Bool) (type : ℕ) (p : Bytes) → IsCounted (queue memory type p l)
  unfolding queue IsCounted
  queue-IsCounted memory type p =
      let f : Frame = record { type = type; p = frame_bytes type p } in
      let more = ap length (bytes_of-append l.sq (f ∷ [])) in
      ground (
        arith,
        more,
        length-append (bytes_of l.sq) (frame_bytes type p ++ []),
        length-append (frame_bytes type p) [],
      )

  pop_frame-IsCounted : (fs : List Frame) → l.cur ≡ none → l.sq ≡ fs → IsCounted (pop_frame fs l)
  unfolding IsCounted
  pop_frame-IsCounted [] e q = v
  pop_frame-IsCounted (f ∷ fs) e q =
      let all = simp (e, q) at v in omega (arith, all, length-append f.p (bytes_of fs))

  next_of-IsCounted : (c : Option Frame) → l.cur ≡ c → IsCounted (next_of c l)
  next_of-IsCounted none e = pop_frame-IsCounted l.sq e refl
  next_of-IsCounted (some f) e = v

  sent_of-IsCounted : (k : ℕ) (c : Option Frame) → l.cur ≡ c → IsCounted (sent_of k c l)
  unfolding IsCounted
  sent_of-IsCounted k none e = v
  sent_of-IsCounted k (some f) e = let all = simp e at v in ground (arith, all)

  redial_of-IsCounted : (c : Option Frame) → l.cur ≡ c → IsCounted (redial_of c l)
  unfolding IsCounted
  redial_of-IsCounted none e = v
  redial_of-IsCounted (some f) e =
      let all = simp e at v in ground (arith, all, length-append f.p (bytes_of l.sq))

  step-IsCounted : (e : Event) → IsCounted (step e l)
  unfolding step next_frame sent redial
  step-IsCounted (queued memory type p) = queue-IsCounted memory type p
  step-IsCounted taken = next_of-IsCounted l.cur refl
  step-IsCounted (took k) = sent_of-IsCounted k l.cur refl
  step-IsCounted lost = redial_of-IsCounted l.cur refl

-- g_sq_bytes stays the number of the bytes queued and in hand, on every run of the link.
pub run-IsCounted : (es : List Event) (l : Link) → IsCounted l → IsCounted (run es l)
unfolding run
run-IsCounted [] l v = v
run-IsCounted (e ∷ es) l v = run-IsCounted es (step e l) (step-IsCounted l v e)

-- The bytes that wait to go out, in the queue and in hand
abbrev pub held : Link → ℕ
held l = length (bytes_of l.sq) + size_of l.cur

-- The two ways that a call of dt_tcp_queue ends
abbrev pub Queued : ℕ → Bytes → Link → Link → Type 0
Queued type p l new =
    ((new ≡ l) × (is_droppable type ≡ true) × (queue_drop < held l + (5 + length p)))
    ⊎ ((new.sq ≡ l.sq ++ (record { type = type; p = frame_bytes type p } ∷ []))
        × (new.wakes ≡ l.wakes + 1)
        × (held new ≡ held l + (5 + length p))
        × (is_droppable type ≡ true → held new ≤ queue_drop))

queue-Queued :
    (type : ℕ) (p : Bytes) (l : Link)
    → IsCounted l
    → IsCounted (queue true type p l)
    → length (frame_bytes type p) ≡ 5 + length p
    → Queued type p l (queue true type p l)
unfolding queue IsCounted
queue-Queued type p l v again n =
    elim (Bool-cases
      (is_droppable type && ltb queue_drop (l.sq_bytes + length (frame_bytes type p)))) [
        | inl e ↦ rw e (inl (refl, ground (arith, n), ground (arith, n, v)))
        | inr e ↦
            let again' : l.sq_bytes + length (frame_bytes type p)
                ≡ length (bytes_of (l.sq ++ (record { type = type; p = frame_bytes type p } ∷ [])))
                  + size_of l.cur =
              rw e at again in
            rw e (inr (refl, refl, omega (arith, again', v, n), λ d. ground (arith, n, again')))
      ]

-- Where memory lasts, and g_sq_bytes is the number of the bytes queued and in hand, dt_tcp_queue
-- drops a frame of a datagram type that would take those bytes past DT_CTLQ_DROP and leaves the link
-- as it was, or it puts the frame last, wakes the pump, and with a datagram type the bytes queued and
-- in hand stay within DT_CTLQ_DROP; and g_sq_bytes is their number again.
pub queue_outcome :
    (type : ℕ) (p : Bytes) (l : Link)
    → IsCounted l
    → IsCounted (queue true type p l) × Queued type p l (queue true type p l)
queue_outcome type p l v =
    let again = queue-IsCounted l v true type p in
    let n = ap length (sym (append-nil (frame_bytes type p))) ∙ length-frame_bytes type p [] in
    (again, queue-Queued type p l v again (omega (arith, n)))
