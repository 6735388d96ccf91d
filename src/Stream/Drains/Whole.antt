-- ===== src/Stream/Drains/Whole.antt =====
-- hook/hk_stream.c: what a drain puts on the wire of the bytes that were queued.
use mathlib.Core.Path.{subst}
use mathlib.Core.List
use shadow_lan.Base.{
  ℕ, ◌-◌, ◌≡◌, ◌∙◌, ap, sym, refl, Bool, false, List, [], ◌∷◌, ◌++◌, arith, leb, length,
  length-append, length-drop, if-keeps,
}
use shadow_lan.Wire.{Bytes}
use shadow_lan.Stream.{Chunk}
use shadow_lan.Stream.Chunks.{rest, pending}
use shadow_lan.Legs
use shadow_lan.Legs.{send_all}
use shadow_lan.Legs.Passes.{append-nil, append_assoc, send_all-IsPart}
use shadow_lan.Stream.Drains.{Call, Drained, after_wire, after_call, drain, close_drain}

-- A part of what is left of the first chunk, and nothing of an empty queue
abbrev pub IsFront : Bytes → List Chunk → Type 0
IsFront part [] = part ≡ []
IsFront part (c ∷ cs) = (more : Bytes) × (part ++ more ≡ rest c)

-- The chunks `gone` are off the queue and on the wire whole, and of the first one that is left a part
-- may be on the wire too; the count is that of the bytes left.
unfoldable pub IsDrain : List Chunk → Drained → Type 0
IsDrain cs d =
    (gone : List Chunk) × (part : Bytes) × (gone ++ d.outq ≡ cs)
    × IsFront part d.outq
    × (d.wire ≡ pending gone ++ part)
    × (d.ototal ≡ length (pending d.outq))

-- A stop before the next call
stop-IsDrain :
    (cs : List Chunk) (total : ℕ)
    → total ≡ length (pending cs)
    → IsDrain cs (record { wire = []; outq = cs; ototal = total })
unfolding IsDrain
stop-IsDrain [] total h = ([], [], refl, refl, refl, h)
stop-IsDrain (c ∷ cs) total h = ([], [], refl, (rest c, refl), refl, h)

-- A call that is through takes its chunk off.
sent-IsDrain :
    (c : Chunk) (cs : List Chunk) (w : Bytes) (d : Drained)
    → w ≡ rest c
    → IsDrain cs d
    → IsDrain (c ∷ cs) (after_wire w d)
unfolding IsDrain
sent-IsDrain c cs w d whole (gone, part, q, p, s, n) = (
  c ∷ gone,
  part,
  ap (λ z. c ∷ z) q,
  p,
  ap (λ z. z ++ d.wire) whole
      ∙ ap (λ z. rest c ++ z) s
      ∙ sym (append_assoc (rest c) (pending gone) part),
  n,
)

-- A call that is not through leaves its chunk, with a part of it on the wire.
part-IsDrain :
    (c : Chunk) (cs : List Chunk) (w r : Bytes) (total : ℕ)
    → w ++ r ≡ rest c
    → total ≡ length (pending (c ∷ cs))
    → IsDrain (c ∷ cs) (after_wire w (record { wire = []; outq = c ∷ cs; ototal = total }))
unfolding IsDrain
part-IsDrain c cs w r total h n = ([], w, refl, (r, h), append-nil w, n)

after_call-IsDrain :
    (late : Bool) (s : Legs.State) (c : Chunk) (cs : List Chunk) (w r : Bytes) (more last : Drained)
    (total : ℕ)
    → w ++ r ≡ rest c
    → (s ≡ Legs.through → r ≡ [])
    → IsDrain cs more
    → IsDrain cs last
    → total ≡ length (pending (c ∷ cs))
    → IsDrain
        (c ∷ cs)
        (after_call late s w more last (record { wire = []; outq = c ∷ cs; ototal = total }))
after_call-IsDrain late Legs.through c cs w r more last total h all m l n =
    let whole : w ≡ rest c = sym (append-nil w) ∙ ap (λ z. w ++ z) (sym (all refl)) ∙ h in
    if-keeps (IsDrain (c ∷ cs)) late _ _ (sent-IsDrain c cs w last whole l)
      (sent-IsDrain c cs w more whole m)
after_call-IsDrain late Legs.failed c cs w r more last total h all m l n =
    part-IsDrain c cs w r total h n
after_call-IsDrain late Legs.waiting c cs w r more last total h all m l n =
    part-IsDrain c cs w r total h n

left_over :
    (c : Chunk) (cs : List Chunk) (total : ℕ)
    → total ≡ length (pending (c ∷ cs))
    → total - (length c.p - c.off) ≡ length (pending cs)
left_over c cs total h =
    omega (arith, h, length-append (rest c) (pending cs), length-drop c.off c.p)

-- Where the count of the queue is right, a drain, at close or at exit, takes chunks off the front of
-- the queue and leaves the rest as it is; what it has sent is what was left of those chunks, in
-- order, and after them at most a part of the first chunk that stays queued, and nothing more where
-- none stays; and the count is right again.
pub drain-IsDrain :
    (late : Call → Bool) (ts : List Call) (cs : List Chunk) (total : ℕ)
    → total ≡ length (pending cs)
    → IsDrain cs (drain late ts cs total)
unfolding drain
drain-IsDrain late ts [] total h = stop-IsDrain [] total h
drain-IsDrain late [] (c ∷ cs) total h = stop-IsDrain (c ∷ cs) total h
drain-IsDrain late (t ∷ ts) (c ∷ cs) total h =
    let (r, same, all) = send_all-IsPart 150 t.start t.tries [] (rest c) in
    if-keeps (IsDrain (c ∷ cs)) (leb (length c.p) c.off) _ _ (stop-IsDrain (c ∷ cs) total h) (
      after_call-IsDrain (late t) _ c cs _ r _ _ total same all
        (drain-IsDrain late ts cs (total - (length c.p - c.off)) (left_over c cs total h))
        (stop-IsDrain cs (total - (length c.p - c.off)) (left_over c cs total h)) h)

pub all_sent :
    (cs : List Chunk) (d : Drained)
    → IsDrain cs d
    → d.outq ≡ []
    → (d.wire ≡ pending cs) × (d.ototal ≡ 0)
unfolding IsDrain
all_sent cs d (gone, part, q, p, s, n) empty = (
  s
      ∙ ap (λ z. pending gone ++ z) (subst (IsFront part) empty p)
      ∙ append-nil (pending gone)
      ∙ ap pending (sym (List.append-nil gone) ∙ ap (λ z. gone ++ z) (sym empty) ∙ q),
  n ∙ ap (λ z. length (pending z)) empty,
)

-- A queue that is empty after the drain at close is all on the wire.
pub close_drain_whole :
    (ts : List Call) (cs : List Chunk) (total : ℕ)
    → total ≡ length (pending cs)
    → (close_drain ts cs total).outq ≡ []
    → ((close_drain ts cs total).wire ≡ pending cs) × ((close_drain ts cs total).ototal ≡ 0)
unfolding close_drain
close_drain_whole ts cs total h empty =
    all_sent cs (drain (λ t. false) ts cs total) (drain-IsDrain (λ t. false) ts cs total h) empty
