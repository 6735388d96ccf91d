-- ===== src/Control/Frames.antt =====
-- The loop over the bytes of the control link gives the same messages however recv cut them.
use shadow_lan.Base.{
  ◌⊎◌, ℕ, zero, suc, ◌+◌, ◌-◌, ◌≤◌, ◌<◌, ◌≡◌, refl, sym, ap, ◌∙◌, true, false, List, [], ◌∷◌, ◌++◌,
  arith, length, take, drop, length-append, length-drop, take-append_le, drop-append_le, inl, inr,
  take_all, drop-append_ge, drop-drop, Every,
}
use mathlib.Core.List.{append_assoc}
use shadow_lan.Wire.{Bytes, put32, get32}
use shadow_lan.Wire.Numbers.{get32-put32, drop-put32, length-put32}
use shadow_lan.Control.{Front, short, bad, whole, front, Received, read, frame_bytes, frame_limit}

get32-append : (a b : Bytes) → 4 ≤ length a → get32 (a ++ b) ≡ get32 a
unfolding get32
get32-append (w ∷ x ∷ y ∷ z ∷ a) b h = refl
get32-append [] b h = absurd (omega arith)
get32-append (w ∷ []) b h = absurd (omega arith)
get32-append (w ∷ x ∷ []) b h = absurd (omega arith)
get32-append (w ∷ x ∷ y ∷ []) b h = absurd (omega arith)

module _ (a b : Bytes) where
  front-append_bad : front a ≡ bad → front (a ++ b) ≡ bad
  unfolding front
  front-append_bad h = ground (arith, length-append a b, get32-append a b)

  front-append_whole : (m r : Bytes) → front a ≡ whole m r → front (a ++ b) ≡ whole m (r ++ b)
  unfolding front
  front-append_whole m r h = ground (
    arith,
    length-append a b,
    get32-append a b,
    take-append_le (get32 a) (drop 4 a) b,
    drop-append_le 4 a b,
    drop-append_le (4 + get32 a) a b,
    length-drop 4 a,
  )

  front_shorter : (m r : Bytes) → front a ≡ whole m r → length r < length a
  unfolding front
  front_shorter m r h = ground (arith, length-drop (4 + get32 a) a)

Front-cases :
    (f : Front) → (f ≡ short) ⊎ ((f ≡ bad) ⊎ ((m : Bytes) × (r : Bytes) × (f ≡ whole m r)))
Front-cases short = inl refl
Front-cases bad = inr (inl refl)
Front-cases (whole m r) = inr (inr (m, r, refl))

-- The messages of one run of the loop before those of a later one
abbrev pub after : List Bytes → Received → Received
after ms t = record { messages = ms ++ t.messages; rest = t.rest; broken = t.broken }

front_empty : front [] ≡ short
unfolding front
front_empty = refl

read_short :
    (f : ℕ) (b : Bytes)
    → front b ≡ short
    → read (suc f) b ≡ record { messages = []; rest = b; broken = false }
unfolding read
read_short f b e = rw (read, e) refl

read_bad :
    (f : ℕ) (b : Bytes)
    → front b ≡ bad
    → read (suc f) b ≡ record { messages = []; rest = b; broken = true }
unfolding read
read_bad f b e = rw (read, e) refl

read_whole :
    (f : ℕ) (b m r : Bytes) → front b ≡ whole m r → read (suc f) b ≡ after (m ∷ []) (read f r)
unfolding read
read_whole f b m r e = rw (read, e) refl

-- Any fuel that covers the bytes gives the same messages.
pub read_enough : (f g : ℕ) (b : Bytes) → length b ≤ f → length b ≤ g → read f b ≡ read g b
unfolding read
read_enough zero zero b hf hg = refl
read_enough zero (suc g) [] hf hg = sym (read_short g [] front_empty)
read_enough zero (suc g) (x ∷ b) hf hg = absurd (omega arith)
read_enough (suc f) zero [] hf hg = read_short f [] front_empty
read_enough (suc f) zero (x ∷ b) hf hg = absurd (omega arith)
read_enough (suc f) (suc g) b hf hg = elim (Front-cases (front b)) [
  | inl e ↦ read_short f b e ∙ sym (read_short g b e)
  | inr (inl e) ↦ read_bad f b e ∙ sym (read_bad g b e)
  | inr (inr (m, r, e)) ↦
      let less = front_shorter b [] m r e in
      read_whole f b m r e
      ∙ (ap (after (m ∷ [])) (read_enough f g r (omega arith) (omega arith))
          ∙ sym (read_whole g b m r e))
]

-- Two runs of the loop, on what recv gave before and on what it left with what recv gives next,
-- dispatch the messages of one run on all the bytes, and break off where it does, if the first
-- run did not break off and the fuel covers the bytes.
pub read-append :
    (f g h : ℕ) (a b : Bytes)
    → length a ≤ f
    → length (a ++ b) ≤ g
    → length (a ++ b) ≤ h
    → (read f a).broken ≡ false
    → read g (a ++ b) ≡ after (read f a).messages (read h ((read f a).rest ++ b))
unfolding read
read-append zero g h [] b hf hg hh ok = read_enough g h b hg hh
read-append zero g h (x ∷ a) b hf hg hh ok = absurd (omega arith)
read-append (suc f) zero h [] [] hf hg hh ok =
    read_enough zero h [] hg hh
    ∙ sym (ap (λ t. after t.messages (read h (t.rest ++ []))) (read_short f [] front_empty))
read-append (suc f) zero h [] (y ∷ b) hf hg hh ok = absurd (omega arith)
read-append (suc f) zero h (x ∷ a) b hf hg hh ok = absurd (omega arith)
read-append (suc f) (suc g) h a b hf hg hh ok = elim (Front-cases (front a)) [
  | inl e ↦ rw (read_short f a e) (read_enough (suc g) h (a ++ b) hg hh)
  | inr (inl e) ↦ absurd (ground (arith, ok, ap (λ t. t.broken) (read_bad f a e)))
  | inr (inr (m, r, e)) ↦
      let less = front_shorter a b m r e in
      let len = length-append a b in
      let lenr = length-append r b in
      read_whole g (a ++ b) m (r ++ b) (front-append_whole a b m r e)
      ∙ (ap (after (m ∷ [])) (
            read-append f g h r b (omega arith) (omega arith) (omega arith)
              (ap (λ t. t.broken) (sym (read_whole f a m r e)) ∙ ok))
          ∙ sym (ap (λ t. after t.messages (read h (t.rest ++ b))) (read_whole f a m r e)))
]

module _ (m b : Bytes) where
  cut_message : (take (length m) (m ++ b) ≡ m) × (drop (length m) (m ++ b) ≡ b)
  cut_message = (
    take-append_le (length m) m b (omega arith) ∙ take_all (length m) m (omega arith),
    drop-append_ge (length m) m b (omega arith)
        ∙ ap (λ k. drop k b) {x = length m - length m} {y = 0} (omega arith),
  )

  front-put32 :
      0 < length m → length m ≤ frame_limit → front (put32 (length m) ++ (m ++ b)) ≡ whole m b
  unfolding front
  front-put32 pos small = ground (
    arith,
    get32-put32 (length m) (m ++ b),
    length-put32 (length m) (m ++ b),
    length-append m b,
    drop-put32 (length m) (m ++ b),
    cut_message,
    drop-drop (length m) 4 (put32 (length m) ++ (m ++ b)),
  )

module _ (type : ℕ) (p b : Bytes) where
  -- The frame that dt_tcp_queue writes is read as one message, its type and its payload.
  pub front-frame_bytes :
      1 + length p ≤ frame_limit → front (frame_bytes type p ++ b) ≡ whole (type ∷ p) b
  unfolding frame_bytes
  front-frame_bytes small =
      ap front (append_assoc (put32 (1 + length p)) (type ∷ p) b)
      ∙ (ap (λ k. front (put32 k ++ ((type ∷ p) ++ b))) {x = 1 + length p} {y = suc (length p)}
            (omega arith)
          ∙ front-put32 (type ∷ p) b (omega arith) (omega (arith, small)))

pub length-frame_bytes :
    (type : ℕ) (p b : Bytes) → length (frame_bytes type p ++ b) ≡ 5 + length p + length b
unfolding frame_bytes
length-frame_bytes type p b = ground (
  arith,
  append_assoc (put32 (1 + length p)) (type ∷ p) b,
  length-put32 (1 + length p) ((type ∷ p) ++ b),
  length-append p b,
)

-- The messages that the frames of a list carry, and their bytes one after the other
abbrev pub Message : Type 0
Message = ℕ × Bytes

abbrev pub stream_bytes : List Message → Bytes
stream_bytes [] = []
stream_bytes ((type, p) ∷ ms) = frame_bytes type p ++ stream_bytes ms

abbrev pub contents : List Message → List Bytes
contents [] = []
contents ((type, p) ∷ ms) = (type ∷ p) ∷ contents ms

unfoldable pub IsSmall : Message → Type 0
IsSmall m = 1 + length m.1 ≤ frame_limit

-- A run of frames, none longer than the limit, is read back as their messages in order, and what
-- follows them is kept if it is no whole frame; the fuel covers the bytes.
pub read-stream_bytes :
    (ms : List Message) (b : Bytes) (fuel : ℕ)
    → Every IsSmall ms
    → length (stream_bytes ms ++ b) ≤ fuel
    → front b ≡ short
    → read fuel (stream_bytes ms ++ b) ≡ record { messages = contents ms; rest = b; broken = false }
unfolding read IsSmall
read-stream_bytes [] [] zero ok enough e = refl
read-stream_bytes [] (x ∷ b) zero ok enough e = absurd (omega arith)
read-stream_bytes [] b (suc fuel) ok enough e = read_short fuel b e
read-stream_bytes ((type, p) ∷ ms) b zero ok enough e = absurd (
    omega (
      arith,
      length-frame_bytes type p (stream_bytes ms),
      enough,
      length-append (stream_bytes ((type, p) ∷ ms)) b,
    ))
read-stream_bytes ((type, p) ∷ ms) b (suc fuel) ok enough e =
    let rest = stream_bytes ms ++ b in
    let split = append_assoc (frame_bytes type p) (stream_bytes ms) b in
    ap (read (suc fuel)) split
    ∙ (read_whole fuel (frame_bytes type p ++ rest) (type ∷ p) rest
          (front-frame_bytes type p rest ok.0)
        ∙ ap (after ((type ∷ p) ∷ [])) (
            read-stream_bytes ms b fuel ok.1
              (omega (arith, length-frame_bytes type p rest, enough, ap length split)) e))
