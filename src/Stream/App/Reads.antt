-- ===== src/Stream/App/Reads.antt =====
-- What dt_stream_pop hands out, and when it wakes the pump.
use shadow_lan.Base.{
  ℕ, ◌+◌, ◌/◌, ◌≡◌, refl, true, false, ◌&&◌, List, [], ◌∷◌, arith, ltb, if◌then◌else◌, take, drop,
  inl, inr, Bool-cases, not,
}
use shadow_lan.Stream.{Stream, max_in, Chunk}
use shadow_lan.Stream.Chunks.{gather, gather_lem}
use shadow_lan.Stream.App.{Popped, got, nothing, ended, has_bytes, taken, pop_row, has_row}
use shadow_lan.Stream.App.Valid.{IsValid, in_bytes}

-- The contract of dt_stream_pop, with `st` before and `new` after.
abbrev pub Outcome : Stream → ℕ → Popped → Stream → Type 0
Outcome st blen (got b) new =
    (has_bytes st.inq ≡ true)
    × (b ≡ take blen (in_bytes st))
    × (in_bytes new ≡ drop blen (in_bytes st))
    × (new.in_paused ≡ (st.in_paused && not (ltb new.total (max_in / 2))))
    × (new.wakes ≡ (if st.in_paused && ltb new.total (max_in / 2) then st.wakes + 1 else st.wakes))
Outcome st blen nothing new = (new ≡ st) × (st.inq ≡ []) × (has_row st ≡ false)
Outcome st blen ended new = (new ≡ st) × (st.inq ≡ []) × (has_row st ≡ true)

has_bytes_nil : (cs : List Chunk) → has_bytes cs ≡ false → cs ≡ []
has_bytes_nil [] h = refl
has_bytes_nil (c ∷ cs) h = absurd (cc)

pop_taken :
    (st : Stream) (blen : ℕ)
    → has_bytes st.inq ≡ true
    → pop_row st blen ≡ taken st (gather st.inq blen)
unfolding pop_row
pop_taken st blen h = rw h refl

pop_idle :
    (st : Stream) (blen : ℕ)
    → has_bytes st.inq ≡ false
    → pop_row st blen ≡ (if has_row st then (ended, st) else (nothing, st))
unfolding pop_row has_row
pop_idle st blen h = ground arith

pub pop_row-Outcome :
    (st : Stream) (blen : ℕ) → IsValid st → Outcome st blen (pop_row st blen).0 (pop_row st blen).1
pop_row-Outcome st blen v = elim (Bool-cases (has_bytes st.inq)) [
  | inl h ↦ rw (pop_taken st blen h) (
    h,
    (gather_lem st.inq blen v.in_chunks).0,
    ground (arith, (gather_lem st.inq blen v.in_chunks).1),
    ground arith,
    ground arith,
  )
  | inr h ↦ elim (Bool-cases (has_row st)) [
    | inl k ↦ rw (pop_idle st blen h, k) (refl, has_bytes_nil st.inq h, k)
    | inr k ↦ rw (pop_idle st blen h, k) (refl, has_bytes_nil st.inq h, k)
  ]
]
