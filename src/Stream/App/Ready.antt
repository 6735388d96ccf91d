-- ===== src/Stream/App/Ready.antt =====
-- What poll and select are told agrees with what recv and send then do.
use shadow_lan.Base.{
  ℕ, ◌-◌, ◌≤◌, ◌≡◌, ◌↔◌, refl, true, false, List, arith, length, inl, inr, Option-cases,
}
use shadow_lan.Wire.{Bytes}
use shadow_lan.Stream.{Stream, max_out, write_room, by_sock}
use shadow_lan.Stream.App.{nothing, pop_row, pop, has_row, has, queued, send_row, state_row}

-- A stream is reported readable exactly if a read would not wait.
pub has_row-pop : (st : Stream) (blen : ℕ) → (has_row st ≡ false) ↔ ((pop_row st blen).0 ≡ nothing)
unfolding has_row pop_row
has_row-pop st blen = (ground arith, ground arith)

-- A socket is reported readable exactly if a read would not answer that there is nothing.
pub has-pop : (t : List Stream) (s blen : ℕ) → (has t s ≡ false) ↔ ((pop t s blen).0 ≡ nothing)
unfolding has pop
has-pop t s blen = elim (Option-cases (by_sock t s)) [
  | inl e ↦ rw (e, has, pop) ((λ _. refl), (λ _. refl))
  | inr (st, e) ↦ rw (e, has, pop) (has_row-pop st blen)
]

-- A stream that is reported writable, and is neither dead nor shut, takes a write of up to a third
-- of the queue whole.
pub writable-send :
    (st : Stream) (buf : Bytes)
    → (state_row st).writable ≡ true
    → (state_row st).is_dead ≡ false
    → st.wr_shut ≡ false
    → length buf ≤ max_out - write_room
    → (send_row true st buf).0 ≡ queued (length buf)
unfolding state_row send_row
writable-send st buf w d s h = ground arith
