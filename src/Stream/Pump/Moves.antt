-- ===== src/Stream/Pump/Moves.antt =====
-- The pump's moves against the bytes of the queues.
use shadow_lan.Base.{
  ℕ, ◌+◌, ◌≤◌, ◌<◌, ◌≡◌, refl, ap, sym, Bool, true, false, inl, inr, List, [], ◌∷◌, ◌++◌, arith,
  leb, if◌then◌else◌, length, drop, length-drop, drop-drop, drop-append_le, drop_all, length-append,
  Bool-cases,
}
use mathlib.Core.Path.{subst}
use shadow_lan.Wire.{Bytes}
use shadow_lan.Stream.{Stream, Chunk, max_in}
use shadow_lan.Stream.Chunks.{pending, rest, HasBytes, length-rest}
use shadow_lan.Stream.App.Valid.{
  IsValid, in_bytes, out_bytes, pending-chunk, length-chunk, HasBytes-chunk,
}
use shadow_lan.Stream.Pump.{advance, sent_front, sent, received}

-- What a send can take: some bytes of the front chunk.
abbrev pub CanSend : ℕ → List Chunk → Type 0
CanSend k [] = ⊥
CanSend k (c ∷ cs) = (0 < k) × (k ≤ length (rest c))

advance_lem :
    (k : ℕ) (c : Chunk) (cs : List Chunk)
    → HasBytes (c ∷ cs)
    → k ≤ length (rest c)
    → (pending (advance k c cs) ≡ drop k (rest c ++ pending cs)) × HasBytes (advance k c cs)
advance_lem k c cs h fits = elim (Bool-cases (leb (length c.p) (c.off + k))) [
  | inl e ↦ rw e (
    rw
        (
          drop-append_le k (rest c) (pending cs) fits,
          drop_all k (rest c) (ground (arith, length-rest c)),
        )
        refl,
    h.1,
  )
  | inr e ↦ rw e (
    rw (drop-append_le k (rest c) (pending cs) fits, drop-drop k c.off c.p) refl,
    (ground arith, h.1),
  )
]

sent_front_lem :
    (k : ℕ) (q : List Chunk) (st : Stream)
    → q ≡ st.outq
    → CanSend k q
    → IsValid st
    → (out_bytes (sent_front k q st) ≡ drop k (out_bytes st)) × IsValid (sent_front k q st)
sent_front_lem k [] st same can v = absurd can
sent_front_lem k (c ∷ cs) st same can v = (
  ground (arith, gone),
  ground (
    arith,
    good,
    ap length gone,
    length-drop k (pending (c ∷ cs)),
    length-append (rest c) (pending cs),
    ap (λ q. length (pending q)) same,
  ),
)
  where
    chunks : HasBytes (c ∷ cs)
    chunks = subst HasBytes (sym same) v.out_chunks

    gone : pending (advance k c cs) ≡ drop k (pending (c ∷ cs))
    gone = (advance_lem k c cs chunks can.1).0

    good : HasBytes (advance k c cs)
    good = (advance_lem k c cs chunks can.1).1

-- A send that took `k` bytes removes just those from the front of the out-queue and keeps the counts.
pub sent_lem :
    (k : ℕ) (st : Stream)
    → st.flushing ≡ false
    → CanSend k st.outq
    → IsValid st
    → (out_bytes (sent k st) ≡ drop k (out_bytes st)) × IsValid (sent k st)
unfolding sent
sent_lem k st idle can v = simp idle (sent_front_lem k st.outq st refl can v)

-- A recv that fits the in-queue adds its bytes to the end and wakes the reader.
pub received_fits :
    (b : Bytes) (st : Stream)
    → st.total + length b ≤ max_in
    → (in_bytes (received true b st) ≡ in_bytes st ++ b)
      × ((received true b st).signals ≡ st.signals + 1)
unfolding received
received_fits b st h = ground (arith, pending-chunk st.inq b)

-- A recv that does not fit pauses the pump, and the bytes that it has taken off the connection are
-- in no queue: the stream loses them.
pub received_lost :
    (memory : Bool) (b : Bytes) (st : Stream)
    → max_in < st.total + length b
    → received memory b st ≡ record st { in_paused = true }
unfolding received
received_lost memory b st h = ground arith

-- Where memory lasts, what dt_stream_thread receives is put at the end of the in-queue if it
-- fits; if it does not, no byte of what recv handed over is kept, and the pump is paused.
pub received_bytes :
    (b : Bytes) (st : Stream)
    → (in_bytes (received true b st)
        ≡ (if leb (st.total + length b) max_in then in_bytes st ++ b else in_bytes st))
      × ((received true b st).in_paused
          ≡ (if leb (st.total + length b) max_in then st.in_paused else true))
unfolding received
received_bytes b st = ground (arith, pending-chunk st.inq b)

pub received-IsValid :
    (memory : Bool) (b : Bytes) (st : Stream)
    → 0 < length b
    → IsValid st
    → IsValid (received memory b st)
unfolding received
received-IsValid memory b st pos v = ground (arith, length-chunk st.inq b, HasBytes-chunk st.inq b)
