-- ===== src/Stream/Dial/Verdicts.antt =====
-- hook/hk_stream.c, dt_stream_thread: what the relay's verdict does to the thread's row and to the
-- others, and a dial that fails.
use mathlib.Core.Option
use mathlib.Core.Path.{subst}
use shadow_lan.Base.{
  ◌&&◌, not, if◌then◌else◌, ℕ, ◌≡◌, ◌≢◌, ◌⊎◌, ◌∙◌, ap, sym, Bool, true, false, ◌&&◌, List, Option,
  none, some, arith, leb, ◌==◌, length, any, Bool-cases, inl, inr, refl,
}
use shadow_lan.Wire.{Bytes, get32, at}
use shadow_lan.Net.{Addr}
use shadow_lan.Stream.{
  Stream, signal, is_opened, opened, died, is_connecting, of_sid, of_sock, by_sock, allocated,
  alloc, is_free,
}
use shadow_lan.Stream.Close.{Answer, fail_local, join_timeout, verdict, is_ok, is_fail}
use shadow_lan.Stream.Close.Slots.{by_sock_lem}
use shadow_lan.Stream.Dial.{
  Dial, Heard, lost, heard, row_at, position, dialled, conclude, lose, standing, settle, answer_of,
  orphan_reason, to_dest, refuse, hand_on, vacate, held, orphaned, gone,
}
use shadow_lan.Stream.Dial.Rows.{
  row_at-change_at, row_at-change_at_other, row_at-modify_first, row_at-modify_first_miss, is_at,
  find?-change_at,
}

-- The verdict that opens the stream `sid`
abbrev pub accepts : ℕ → Heard → Bool
accepts sid lost = false
accepts sid (heard type p) = type == 0x0B && (leb 4 (length p) && get32 p == sid)

-- How a thread leaves its row `x` as `y`, and whether it goes on
abbrev pub Fate : Dial → Heard → Stream → Stream → Bool → Type 0
Fate d h x y true =
    (of_sid d.sid x ≡ true) × (x.gsock ≢ 0) × (accepts d.sid h ≡ true) × (y.state ≡ opened)
Fate d h x y false =
    ((of_sid d.sid x ≡ true) × ((x.gsock ≡ 0) ⊎ (accepts d.sid h ≡ false)) × (y.state ≡ died))
    ⊎ ((of_sid d.sid x ≡ false) × (y ≡ x))

-- The three standings
is_orphaned :
    (sid : ℕ) (x : Stream)
    → of_sid sid x ≡ true
    → (x.gsock == 0) ≡ true
    → standing sid (some x) ≡ orphaned x
is_orphaned sid x own no_sock = rw (own, no_sock) refl

is_held :
    (sid : ℕ) (x : Stream)
    → of_sid sid x ≡ true
    → (x.gsock == 0) ≡ false
    → standing sid (some x) ≡ held x
is_held sid x own sock = rw (own, sock) refl

is_gone : (sid : ℕ) (x : Stream) → of_sid sid x ≡ false → standing sid (some x) ≡ gone
is_gone sid x other = rw other refl

abbrev Settled : Dial → Heard → List Stream → Stream → List Stream × Bool → Type 0
Settled d h t x r = (y : Stream) × (row_at d.row r.0 ≡ some y) × Fate d h x y r.1

verdict-opened :
    (a : Answer) (x : Stream)
    → is_ok x a ≡ true
    → verdict a x ≡ signal (record x { state = opened; ever_open = true })
unfolding verdict
verdict-opened a x ok = rw ok refl

verdict_died :
    (a : Answer) (x : Stream)
    → is_ok x a ≡ false
    → (r : ℕ) × (verdict a x ≡ signal (record x { state = died; fail = r }))
unfolding verdict
verdict_died a x bad = elim (Bool-cases (is_fail x a)) [
  | inl fails ↦ (a.reason, rw (bad, fails) refl)
  | inr other ↦ (join_timeout, rw (bad, other) refl)
]

held_fate :
    (d : Dial) (type : ℕ) (p : Bytes) (t : List Stream) (x : Stream)
    → row_at d.row t ≡ some x
    → of_sid d.sid x ≡ true
    → (x.gsock == 0) ≡ false
    → Settled d (heard type p) t x (settle d (answer_of type p) (held x) t)
unfolding verdict
held_fate d type p t x at own sock =
    let a = answer_of type p in
    (
      verdict a x,
      row_at-change_at d.row (verdict a) t ∙ ap (Option.map (verdict a)) at,
      elim (Bool-cases (is_ok x a)) [
        | inl ok ↦
            subst (λ v. Fate d (heard type p) x v (is_opened v.state)) (sym (verdict-opened a x ok))
              (own, ground arith, ground arith, refl)
        | inr bad ↦
            let (r, e) = verdict_died a x bad in
            subst (λ v. Fate d (heard type p) x v (is_opened v.state)) (sym e)
              (inl (own, inr (ground arith), refl))
      ],
    )

hand_on_same :
    (reason : ℕ) (dst : Addr) (i : ℕ) (t : List Stream) (x : Stream)
    → row_at i t ≡ some x
    → to_dest dst x ≡ false
    → row_at i (hand_on reason dst t) ≡ some x
unfolding hand_on
hand_on_same reason dst i t x at not_it =
    ground (arith, row_at-modify_first_miss (to_dest dst) (refuse reason) i t x at not_it)

orphan_fate :
    (d : Dial) (type : ℕ) (p : Bytes) (t : List Stream) (x : Stream)
    → row_at d.row t ≡ some x
    → of_sid d.sid x ≡ true
    → (x.gsock == 0) ≡ true
    → Settled d (heard type p) t x (settle d (answer_of type p) (orphaned x) t)
orphan_fate d type p t x at own no_sock = (
  vacate x,
  row_at-change_at d.row vacate (hand_on (orphan_reason (answer_of type p) x) x.orig t)
      ∙ ap (Option.map vacate)
          (hand_on_same (orphan_reason (answer_of type p) x) x.orig d.row t x at (ground arith)),
  inl (own, inl (ground arith), refl),
)

settle_fate :
    (d : Dial) (type : ℕ) (p : Bytes) (t : List Stream) (x : Stream)
    → row_at d.row t ≡ some x
    → Settled d (heard type p) t x (settle d (answer_of type p) (standing d.sid (some x)) t)
settle_fate d type p t x at = elim (Bool-cases (of_sid d.sid x)) [
  | inl own ↦ elim (Bool-cases (x.gsock == 0)) [
    | inl no_sock ↦
        subst (λ S. Settled d (heard type p) t x (settle d (answer_of type p) S t))
          (sym (is_orphaned d.sid x own no_sock)) (orphan_fate d type p t x at own no_sock)
    | inr sock ↦
        subst (λ S. Settled d (heard type p) t x (settle d (answer_of type p) S t))
          (sym (is_held d.sid x own sock)) (held_fate d type p t x at own sock)
  ]
  | inr other ↦
      subst (λ S. Settled d (heard type p) t x (settle d (answer_of type p) S t))
        (sym (is_gone d.sid x other)) (x, at, inr (other, refl))
]

-- The verdict of the relay decides the thread's row. The thread goes on to the pipe only where a
-- DT_STOK named its stream and the row still was that stream's with a socket, and leaves it open.
-- Otherwise it stops: with the row dead where it was this stream's, which then had lost its socket
-- or was not accepted, and with the row as it was where it was not this stream's.
pub conclude-Fate :
    (d : Dial) (h : Heard) (t : List Stream) (x : Stream)
    → row_at d.row t ≡ some x
    → (y : Stream) × (row_at d.row (conclude d h t).0 ≡ some y) × Fate d h x y (conclude d h t).1
unfolding conclude
conclude-Fate d lost t x at = (
  lose d.sid x,
  row_at-change_at d.row (lose d.sid) t ∙ ap (Option.map (lose d.sid)) at,
  elim (Bool-cases (of_sid d.sid x)) [
    | inl own ↦ inl (own, inr refl, ground arith)
    | inr other ↦ inr (other, ground arith)
  ],
)
conclude-Fate d (heard type p) t x at = rw at (settle_fate d type p t x at)

-- Why a verdict refuses the stream `sid`: the reason that a DT_STFAIL gives, else STF_NO_ROUTE; 0 where
-- it opens the stream, and where there is no verdict.
abbrev pub blame : ℕ → Heard → ℕ
blame sid lost = 0
blame sid (heard type p) =
    if accepts sid (heard type p)
    then 0
    else if type == 0x0C && (leb 5 (length p) && get32 p == sid)
    then at p 4
    else 1

-- Whether the row `j` is the one that is to hear of the verdict, where the thread finds `o` at its
-- own: that is still its stream's, without a socket, and `j` is the first to the same destination.
abbrev pub is_retry : Dial → Heard → List Stream → ℕ → Option Stream → Bool
is_retry d h t j none = false
is_retry d h t j (some st) =
    (of_sid d.sid st && st.gsock == 0)
    && (not (blame d.sid h == 0) && is_at j (position (to_dest st.orig) t))

abbrev pub told : ℕ → Bool → Stream → Stream
told reason retry x =
    if retry && is_connecting x.state then signal (record x { state = died; fail = reason }) else x

why :
    (sid type : ℕ) (p : Bytes) (st : Stream)
    → of_sid sid st ≡ true
    → orphan_reason (answer_of type p) st ≡ blame sid (heard type p)
unfolding orphan_reason
why sid type p st same = ground arith

hand_on-told :
    (r : ℕ) (dst : Addr) (t : List Stream) (j : ℕ) (x : Stream)
    → row_at j t ≡ some x
    → row_at j (hand_on r dst t)
      ≡ some (told r (not (r == 0) && is_at j (position (to_dest dst) t)) x)
unfolding hand_on
hand_on-told r dst t j x here = elim (Bool-cases (r == 0)) [
  | inl e ↦ rw e here
  | inr e ↦ rw e (row_at-modify_first (to_dest dst) (refuse r) j t x here ∙ ap some (ground arith))
]

orphan_told :
    (d : Dial) (type : ℕ) (p : Bytes) (t : List Stream) (j : ℕ) (x st : Stream)
    → j ≢ d.row
    → row_at j t ≡ some x
    → of_sid d.sid st ≡ true
    → (st.gsock == 0) ≡ true
    → row_at j (settle d (answer_of type p) (orphaned st) t).0
      ≡ some (told (blame d.sid (heard type p)) (is_retry d (heard type p) t j (some st)) x)
orphan_told d type p t j x st ne here same no_sock =
    let reason = orphan_reason (answer_of type p) st in
    row_at-change_at_other d.row j vacate (hand_on reason st.orig t) ne
    ∙ hand_on-told reason st.orig t j x here
    ∙ ap (λ (r : ℕ). some (told r (not (r == 0) && is_at j (position (to_dest st.orig) t)) x))
        (why d.sid type p st same)
    ∙ rw (same, no_sock) refl

-- What the thread finds at its row decides each other row.
settle-told :
    (d : Dial) (type : ℕ) (p : Bytes) (t : List Stream) (j : ℕ) (x : Stream) (o : Option Stream)
    → j ≢ d.row
    → row_at j t ≡ some x
    → row_at j (settle d (answer_of type p) (standing d.sid o) t).0
      ≡ some (told (blame d.sid (heard type p)) (is_retry d (heard type p) t j o) x)
settle-told d type p t j x none ne at = at
settle-told d type p t j x (some st) ne at = elim (Bool-cases (of_sid d.sid st)) [
  | inl same ↦ elim (Bool-cases (st.gsock == 0)) [
    | inl no_sock ↦
        ap (λ S. row_at j (settle d (answer_of type p) S t).0) (is_orphaned d.sid st same no_sock)
        ∙ orphan_told d type p t j x st ne at same no_sock
    | inr sock ↦
        ap (λ S. row_at j (settle d (answer_of type p) S t).0) (is_held d.sid st same sock)
        ∙ row_at-change_at_other d.row j (verdict (answer_of type p)) t ne
        ∙ at
        ∙ rw (same, sock) refl
  ]
  | inr other ↦
      ap (λ S. row_at j (settle d (answer_of type p) S t).0) (is_gone d.sid st other)
      ∙ at
      ∙ rw other refl
]

-- The other rows keep what they hold, but for one. Where the thread's row is still its stream's, whose
-- socket is gone, and the verdict refuses the stream with a reason other than 0, the first row with a
-- socket to the same destination ends dead with that reason, and is signalled, if it is still
-- connecting. A connection that ends without a verdict touches no other row.
pub row_at-conclude :
    (d : Dial) (h : Heard) (t : List Stream) (j : ℕ) (x : Stream)
    → j ≢ d.row
    → row_at j t ≡ some x
    → row_at j (conclude d h t).0
      ≡ some (told (blame d.sid h) (is_retry d h t j (row_at d.row t)) x)
unfolding conclude
row_at-conclude d lost t j x ne at =
    row_at-change_at_other d.row j (lose d.sid) t ne ∙ at ∙ untold (row_at d.row t)
  where
    untold : (o : Option Stream) → some x ≡ some (told 0 (is_retry d lost t j o) x)
    untold none = refl
    untold (some st) = ground arith
row_at-conclude d (heard type p) t j x ne at = settle-told d type p t j x (row_at d.row t) ne at

-- A dial that fails ends whatever stream its row holds by then: where dt_on_close has given the row
-- back and dt_stream_alloc gives it to the next connect, that connect's stream is the dead one.
pub dialled-alloc :
    (d : Dial) (t : List Stream) (s sid : ℕ) (dst : Addr) (x : Stream)
    → s ≢ 0
    → any (of_sock s) t ≡ false
    → position is_free t ≡ some d.row
    → row_at d.row t ≡ some x
    → (y : Stream) × (by_sock (dialled d none (alloc t s dst sid).0).0 s ≡ some y)
      × (y.sid ≡ sid)
      × (y.state ≡ died)
      × (y.fail ≡ join_timeout)
unfolding dialled alloc fail_local
dialled-alloc d t s sid dst x named absent freed at = (
  fail_local join_timeout (allocated s dst sid x),
  by_sock_lem _ s named
      ∙ find?-change_at is_free (of_sock s) (allocated s dst sid) (fail_local join_timeout) d.row t
          x absent freed at (ground arith),
  refl,
  refl,
  refl,
)
