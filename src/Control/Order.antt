-- ===== src/Control/Order.antt =====
-- The bytes that the control link puts on a wire, as frames.
use shadow_lan.Base.{
  ℕ, ◌+◌, ◌≡◌, refl, sym, ap, ◌∙◌, Bool, List, [], ◌∷◌, ◌++◌, Option, none, some, arith, ltb, ◌==◌,
  length, take, drop, take-append-drop, drop-drop, drop_all, Bool-cases, inl, inr, Every,
}
use mathlib.Core.List.{append_assoc}
use shadow_lan.Wire.{Bytes}
use shadow_lan.Control.{
  Frame, Link, frame_bytes, queue, next_frame, sent, redial, on_wire, put_last, pop_frame, next_of,
  sent_of, redial_of,
}
use shadow_lan.Control.Frames.{Message, stream_bytes}

abbrev pub bytes_of : List Frame → Bytes
bytes_of [] = []
bytes_of (f ∷ fs) = f.p ++ bytes_of fs

abbrev pub on_link : List Bytes → Bytes
on_link [] = []
on_link (w ∷ ws) = w

abbrev pub left_of : Option Frame → ℕ → Bytes
left_of none off = []
left_of (some f) off = drop off f.p

-- The bytes that the present wire has and will have, if nothing more is queued
unfoldable pub outgoing : Link → Bytes
outgoing l = on_link l.wire ++ (left_of l.cur l.cur_off ++ bytes_of l.sq)

unfoldable pub IsWhole : Frame → Type 0
IsWhole f = (p : Bytes) × (f.p ≡ frame_bytes f.type p)

abbrev pub IsWholeOr : Option Frame → Type 0
IsWholeOr none = Unit
IsWholeOr (some f) = IsWhole f

pub record IsOrdered (l : Link) : Type 0 where
  pub messages : List Message
  pub frames : outgoing l ≡ stream_bytes messages
  pub queued : Every IsWhole l.sq
  pub in_hand : IsWholeOr l.cur

-- The steps of a link
pub data Event : Type 0 where
  queued : Bool → ℕ → Bytes → Event
  taken : Event
  took : ℕ → Event
  lost : Event

unfoldable pub step : Event → Link → Link
step (queued memory type p) l = queue memory type p l
step taken l = next_frame l
step (took k) l = sent k l
step lost l = redial l

unfoldable pub run : List Event → Link → Link
run [] l = l
run (e ∷ es) l = run es (step e l)

stream_bytes-append :
    (ms ns : List Message) → stream_bytes (ms ++ ns) ≡ stream_bytes ms ++ stream_bytes ns
stream_bytes-append [] ns = refl
stream_bytes-append ((type, p) ∷ ms) ns =
    ap (λ b. frame_bytes type p ++ b) (stream_bytes-append ms ns)
    ∙ sym (append_assoc (frame_bytes type p) (stream_bytes ms) (stream_bytes ns))

pub bytes_of-append : (fs gs : List Frame) → bytes_of (fs ++ gs) ≡ bytes_of fs ++ bytes_of gs
bytes_of-append [] gs = refl
bytes_of-append (f ∷ fs) gs =
    ap (λ b. f.p ++ b) (bytes_of-append fs gs) ∙ sym (append_assoc f.p (bytes_of fs) (bytes_of gs))

whole_messages :
    (fs : List Frame) → Every IsWhole fs → (ms : List Message) × (bytes_of fs ≡ stream_bytes ms)
unfolding IsWhole
whole_messages [] h = ([], refl)
whole_messages (f ∷ fs) h =
    let (ms, e) = whole_messages fs h.1 in
    (
      (f.type, h.0.0) ∷ ms,
      ap (λ b. b ++ bytes_of fs) h.0.1 ∙ ap (λ b. frame_bytes f.type h.0.0 ++ b) e,
    )

Every-append : (fs gs : List Frame) → Every IsWhole fs → Every IsWhole gs → Every IsWhole (fs ++ gs)
Every-append [] gs h k = k
Every-append (f ∷ fs) gs h k = (h.0, Every-append fs gs h.1 k)

on_link-on_wire : (b : Bytes) (ws : List Bytes) → on_link (on_wire b ws) ≡ on_link ws ++ b
on_link-on_wire b [] = refl
on_link-on_wire b (w ∷ ws) = refl

regroup : (w t d q : Bytes) → (w ++ t) ++ (d ++ q) ≡ w ++ ((t ++ d) ++ q)
regroup w t d q = append_assoc w t (d ++ q) ∙ ap (λ b. w ++ b) (sym (append_assoc t d q))

put_last-IsOrdered : (f : Frame) (l : Link) → IsWhole f → IsOrdered l → IsOrdered (put_last f l)
unfolding outgoing IsWhole
put_last-IsOrdered f l h v = record {
  messages = v.messages ++ ((f.type, h.0) ∷ []);
  frames =
      ap (λ b. on_link l.wire ++ (left_of l.cur l.cur_off ++ b)) (bytes_of-append l.sq (f ∷ []))
      ∙ (ap (λ b. on_link l.wire ++ b)
            (sym (append_assoc (left_of l.cur l.cur_off) (bytes_of l.sq) (f.p ++ [])))
          ∙ (sym (
                append_assoc (on_link l.wire) (left_of l.cur l.cur_off ++ bytes_of l.sq)
                  (f.p ++ []))
              ∙ (ap (λ b. b ++ (f.p ++ [])) v.frames
                  ∙ (ap (λ b. stream_bytes v.messages ++ (b ++ [])) h.1
                      ∙ sym (stream_bytes-append v.messages ((f.type, h.0) ∷ []))))));
  queued = Every-append l.sq (f ∷ []) v.queued (h, tt);
  in_hand = v.in_hand;
}

queue-IsOrdered :
    (memory : Bool) (type : ℕ) (p : Bytes) (l : Link)
    → IsOrdered l
    → IsOrdered (queue memory type p l)
unfolding queue IsWhole
queue-IsOrdered memory type p l v =
    let put = put_last-IsOrdered (record { type = type; p = frame_bytes type p }) l (p, refl) v in
    ground (arith, put)

module _ (l : Link) (v : IsOrdered l) where
  pop_frame-IsOrdered : (fs : List Frame) → l.cur ≡ none → l.sq ≡ fs → IsOrdered (pop_frame fs l)
  unfolding outgoing
  pop_frame-IsOrdered [] e q = record {
    messages = v.messages;
    frames =
        ap (λ c. on_link l.wire ++ (c ++ bytes_of l.sq)) {x = left_of l.cur 0}
          (ap (λ c. left_of c 0) e ∙ sym (ap (λ c. left_of c l.cur_off) e))
        ∙ v.frames;
    queued = v.queued;
    in_hand = v.in_hand;
  }
  pop_frame-IsOrdered (f ∷ fs) e q = record {
    messages = v.messages;
    frames = simp (e, q) at v.frames;
    queued = (simp q at v.queued).1;
    in_hand = (simp q at v.queued).0;
  }

  next_of-IsOrdered : (c : Option Frame) → l.cur ≡ c → IsOrdered (next_of c l)
  next_of-IsOrdered none e = pop_frame-IsOrdered l.sq e refl
  next_of-IsOrdered (some f) e = v

  redial_of-IsOrdered : (c : Option Frame) → l.cur ≡ c → IsOrdered (redial_of c l)
  unfolding outgoing
  redial_of-IsOrdered none e =
      let (ms, same) = whole_messages l.sq v.queued in
      record {
        messages = ms;
        frames = ap (λ c. left_of c l.cur_off ++ bytes_of l.sq) e ∙ same;
        queued = v.queued;
        in_hand = v.in_hand;
      }
  redial_of-IsOrdered (some f) e = elim (Bool-cases (l.cur_off == 0)) [
    | inl untouched ↦
        let (ms, same) = whole_messages (f ∷ l.sq) (simp e at v.in_hand, v.queued) in
        rw untouched (record {
          messages = ms;
          frames = same;
          queued = (simp e at v.in_hand, v.queued);
          in_hand = tt;
        })
    | inr started ↦
        let (ms, same) = whole_messages l.sq v.queued in
        rw started (record { messages = ms; frames = same; queued = v.queued; in_hand = tt })
  ]

  -- What is on the wire, in hand and queued, with the frame in hand named
  named :
      (f : Frame)
      → l.cur ≡ some f
      → on_link l.wire ++ (drop l.cur_off f.p ++ bytes_of l.sq) ≡ stream_bytes v.messages
  unfolding outgoing
  named f e = simp e at v.frames

  sent_part :
      (k : ℕ) (f : Frame)
      → l.cur ≡ some f
      → on_link (on_wire (take k (drop l.cur_off f.p)) l.wire)
          ++ (drop (l.cur_off + k) f.p ++ bytes_of l.sq)
        ≡ stream_bytes v.messages
  sent_part k f e =
      let part = take k (drop l.cur_off f.p) in
      ap (λ w. w ++ (drop (l.cur_off + k) f.p ++ bytes_of l.sq)) (on_link-on_wire part l.wire)
      ∙ (regroup (on_link l.wire) part (drop (l.cur_off + k) f.p) (bytes_of l.sq)
          ∙ (ap (λ b. on_link l.wire ++ (b ++ bytes_of l.sq))
                (ap (λ b. part ++ b) (sym (drop-drop k l.cur_off f.p))
                  ∙ take-append-drop k (drop l.cur_off f.p))
              ∙ named f e))

  sent_of-IsOrdered : (k : ℕ) (c : Option Frame) → l.cur ≡ c → IsOrdered (sent_of k c l)
  unfolding outgoing
  sent_of-IsOrdered k none e = v
  sent_of-IsOrdered k (some f) e = elim (Bool-cases (ltb (l.cur_off + k) (length f.p))) [
    | inl more ↦ rw more (record {
      messages = v.messages;
      frames =
          ap
            (λ c.
              on_link (on_wire (take k (drop l.cur_off f.p)) l.wire)
              ++ (left_of c (l.cur_off + k) ++ bytes_of l.sq))
            e
          ∙ sent_part k f e;
      queued = v.queued;
      in_hand = v.in_hand;
    })
    | inr all ↦ rw all (record {
      messages = v.messages;
      frames =
          ap (λ b. on_link (on_wire (take k (drop l.cur_off f.p)) l.wire) ++ (b ++ bytes_of l.sq))
            (sym (drop_all (l.cur_off + k) f.p (ground arith)))
          ∙ sent_part k f e;
      queued = v.queued;
      in_hand = tt;
    })
  ]

  step-IsOrdered : (e : Event) → IsOrdered (step e l)
  unfolding step next_frame sent redial
  step-IsOrdered (queued memory type p) = queue-IsOrdered memory type p l v
  step-IsOrdered taken = next_of-IsOrdered l.cur refl
  step-IsOrdered (took k) = sent_of-IsOrdered k l.cur refl
  step-IsOrdered lost = redial_of-IsOrdered l.cur refl

-- From a link that carries whole frames, whatever is queued, sent in part or lost with a link,
-- what a link carries is whole frames.
pub run-IsOrdered : (es : List Event) (l : Link) → IsOrdered l → IsOrdered (run es l)
unfolding run
run-IsOrdered [] l v = v
run-IsOrdered (e ∷ es) l v = run-IsOrdered es (step e l) (step-IsOrdered l v e)
