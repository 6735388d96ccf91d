-- ===== src/Stream/Chunks.antt =====
-- A queue of chunks as the bytes that it holds, and the loop of dt_stream_pop that gathers them.
use shadow_lan.Base.{
  ℕ, zero, suc, ◌+◌, ◌-◌, ◌≤◌, ◌<◌, ◌≡◌, refl, sym, ap, ◌∙◌, inl, inr, List, [], ◌∷◌, ◌++◌, arith,
  min, leb, if◌then◌else◌, length, take, drop, length-drop, take_all, take-append_le,
  drop-append_le, take-append_ge, drop-append_ge, drop-drop, Bool-cases,
}
use mathlib.Core.List.{append_assoc}
use shadow_lan.Wire.{Bytes}
use shadow_lan.Stream.{Chunk}

-- The bytes of a chunk that are still there.
abbrev pub rest : Chunk → Bytes
rest c = drop c.off c.p

abbrev pub pending : List Chunk → Bytes
pending [] = []
pending (c ∷ cs) = rest c ++ pending cs

-- No chunk of a queue is spent.
abbrev pub HasBytes : List Chunk → Type 0
HasBytes [] = Unit
HasBytes (c ∷ cs) = (c.off < length c.p) × HasBytes cs

abbrev pub chunk : Bytes → Chunk
chunk b = record { p = b; off = 0 }

-- `while (st->h && got < blen) ...` with room = blen - got. A chunk that is not used up fills the
-- room, and so ends the loop.
unfoldable pub gather : List Chunk → ℕ → Bytes × List Chunk
gather [] room = ([], [])
gather (c ∷ cs) zero = ([], c ∷ cs)
gather (c ∷ cs) (suc room) =
    let n : ℕ = min (length c.p - c.off) (suc room) in
    let (more, left) = gather cs (suc room - n) in
    if leb (length c.p) (c.off + n)
    then (take n (rest c) ++ more, left)
    else (take n (rest c), record c { off = c.off + n } ∷ cs)

pub pending-append : (cs ds : List Chunk) → pending (cs ++ ds) ≡ pending cs ++ pending ds
pending-append [] ds = refl
pending-append (c ∷ cs) ds =
    ap (λ bs. rest c ++ bs) (pending-append cs ds)
    ∙ sym (append_assoc (rest c) (pending cs) (pending ds))

pub HasBytes-append : (cs ds : List Chunk) → HasBytes cs → HasBytes ds → HasBytes (cs ++ ds)
HasBytes-append [] ds h k = k
HasBytes-append (c ∷ cs) ds h k = (h.0, HasBytes-append cs ds h.1 k)

pub length-rest : (c : Chunk) → length (rest c) ≡ length c.p - c.off
length-rest c = length-drop c.off c.p

-- The front chunk fits the room, and the loop goes on behind it.
used_up :
    (r p more : Bytes) (left : List Chunk) (room m : ℕ)
    → m ≡ length r
    → length r ≤ room
    → more ≡ take (room - m) p
    → pending left ≡ drop (room - m) p
    → (take m r ++ more ≡ take room (r ++ p)) × (pending left ≡ drop room (r ++ p))
used_up r p more left room m e fits hm hl = (
  rw (hm, take_all m r (omega arith), take-append_ge room r p fits)
      (ap (λ k. r ++ take k p) (omega arith)),
  rw (hl, drop-append_ge room r p fits) (ap (λ k. drop k p) (omega arith)),
)

-- The front chunk has more than the room.
kept :
    (b p : Bytes) (off room m : ℕ)
    → m ≡ room
    → room ≤ length (drop off b)
    → (take m (drop off b) ≡ take room (drop off b ++ p))
      × (drop (off + m) b ++ p ≡ drop room (drop off b ++ p))
kept b p off room m e fits = (
  rw (take-append_le room (drop off b) p fits) (ap (λ k. take k (drop off b)) e),
  rw (drop-append_le room (drop off b) p fits, drop-drop room off b)
      (ap (λ k. drop (off + k) b ++ p) e),
)

-- The gathered bytes are the front of the queue, and what is left is the rest of it.
pub gather_lem :
    (cs : List Chunk) (room : ℕ)
    → HasBytes cs
    → ((gather cs room).0 ≡ take room (pending cs))
      × (pending (gather cs room).1 ≡ drop room (pending cs))
      × HasBytes (gather cs room).1
unfolding gather
gather_lem [] zero h = (refl, refl, tt)
gather_lem [] (suc room) h = (refl, refl, tt)
gather_lem (c ∷ cs) zero h = (refl, refl, h)
gather_lem (c ∷ cs) (suc room) h =
    elim (Bool-cases (leb (length c.p) (c.off + min (length c.p - c.off) (suc room)))) [
      | inl e ↦
          let (front, back, good) =
            gather_lem cs (suc room - min (length c.p - c.off) (suc room)) h.1 in
          let (a, b) =
            used_up (rest c) (pending cs) _
              (gather cs (suc room - min (length c.p - c.off) (suc room))).1 (suc room) _
              (ground (arith, length-rest c)) (ground (arith, length-rest c)) front back in
          rw e (a, b, good)
      | inr e ↦
          let (a, b) =
            kept c.p (pending cs) c.off (suc room) (min (length c.p - c.off) (suc room))
              (ground arith) (ground (arith, length-rest c)) in
          rw e (a, b, (ground arith, h.1))
    ]
