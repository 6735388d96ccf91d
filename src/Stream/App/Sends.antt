-- ===== src/Stream/App/Sends.antt =====
-- What dt_stream_send does for each of its results, on the stream's bytes and on the table.
use shadow_lan.Base.{
  ◌+◌, ◌-◌, ◌≤◌, ◌<◌, ◌≡◌, refl, ap, sym, ◌∙◌, Bool, true, false, ◌||◌, ◌⊎◌, inl, inr, [], ◌∷◌,
  ◌++◌, arith, leb, ◌==◌, length, take, length-take, take_all, Bool-cases,
}
use mathlib.Core.List.{append-nil}
use shadow_lan.Wire.{Bytes}
use shadow_lan.Stream.{Stream, max_out}
use shadow_lan.Stream.Chunks.{chunk}
use shadow_lan.Stream.App.{
  Sent, queued, not_ours, reset, full, shut, enqueue, room, is_gone, send_row,
}
use shadow_lan.Stream.App.Valid.{IsValid, out_bytes, pending-chunk}

-- The contract of dt_stream_send, with `st` before and `new` after.
abbrev pub Outcome : Stream → Bytes → Sent → Stream → Type 0
Outcome st buf (queued n) new =
    (out_bytes new ≡ out_bytes st ++ take n buf)
    × (new.wakes ≡ st.wakes + 1)
    × (((n ≡ length buf) × (st.ototal + length buf ≤ max_out) × (new.wr_full ≡ st.wr_full))
        ⊎ ((max_out < length buf) × (n ≡ max_out - st.ototal) × (0 < n) × (new.wr_full ≡ true)))
Outcome st buf not_ours new = ⊥
Outcome st buf reset new = (new ≡ st) × (is_gone st ≡ true) × (st.wr_shut ≡ false)
Outcome st buf full new =
    (out_bytes new ≡ out_bytes st)
    × (new.wr_full ≡ true)
    × (max_out < st.ototal + length buf)
    × ((length buf ≤ max_out) ⊎ (st.ototal ≡ max_out))
Outcome st buf shut new = (new ≡ st) × (st.wr_shut ≡ true)

enqueued :
    (st : Stream) (b : Bytes)
    → (r : Stream) × (enqueue true st b ≡ (queued (length b), r))
      × (out_bytes r ≡ out_bytes st ++ b)
      × (r.wakes ≡ st.wakes + 1)
      × (r.wr_full ≡ st.wr_full)
unfolding enqueue
enqueued st [] =
    (record st { wakes = st.wakes + 1 }, refl, sym (append-nil (out_bytes st)), refl, refl)
enqueued st (x ∷ b) = (
  record st {
    outq = st.outq ++ (chunk (x ∷ b) ∷ []);
    ototal = st.ototal + length (x ∷ b);
    wakes = st.wakes + 1;
  },
  ground arith,
  pending-chunk st.outq (x ∷ b),
  refl,
  refl,
)

module _ (memory : Bool) (st : Stream) (buf : Bytes) where
  send_shut : st.wr_shut ≡ true → send_row memory st buf ≡ (shut, st)
  unfolding send_row
  send_shut e = ground arith

  module _ (a : st.wr_shut ≡ false) where
    send_gone : is_gone st ≡ true → send_row memory st buf ≡ (reset, st)
    unfolding send_row
    send_gone e = ground arith

    module _ (b : is_gone st ≡ false) where
      send_fits : st.ototal + length buf ≤ max_out → send_row memory st buf ≡ enqueue memory st buf
      unfolding send_row
      send_fits h = ground arith

      send_full :
          max_out < st.ototal + length buf
          → (length buf ≤ max_out) ⊎ (room st ≡ 0)
          → send_row memory st buf ≡ (full, record st { wr_full = true })
      unfolding send_row
      send_full h k = ground arith

      send_part :
          max_out < length buf
          → 0 < room st
          → send_row memory st buf
            ≡ enqueue memory (record st { wr_full = true }) (take (room st) buf)
      unfolding send_row
      send_part h k = ground arith

pub send_row-Outcome :
    (st : Stream) (buf : Bytes)
    → IsValid st
    → Outcome st buf (send_row true st buf).0 (send_row true st buf).1
send_row-Outcome st buf v = elim (Bool-cases st.wr_shut) [
  | inl e ↦ rw (send_shut true st buf e) (refl, e)
  | inr a ↦ elim (Bool-cases (is_gone st)) [
    | inl e ↦ rw (send_gone true st buf a e) (refl, e, a)
    | inr b ↦ elim (Bool-cases (leb (st.ototal + length buf) max_out)) [
      | inl h ↦
          let (r, same, bytes, woken, mark) = enqueued st buf in
          rw (send_fits true st buf a b (ground arith) ∙ same) (
            rw (take_all (length buf) buf (omega arith)) bytes,
            woken,
            inl (refl, ground arith, mark),
          )
      | inr h ↦ elim (Bool-cases (leb (length buf) max_out || room st == 0)) [
        | inl k ↦
            rw (send_full true st buf a b (ground arith) (ground arith))
              (refl, refl, ground arith, ground arith)
        | inr k ↦
            let (r, same, bytes, woken, mark) =
              enqueued (record st { wr_full = true }) (take (room st) buf) in
            let n : length (take (room st) buf) ≡ max_out - st.ototal =
              ground (arith, length-take (room st) buf) in
            rw (send_part true st buf a b (ground arith) (ground arith) ∙ same) (
              bytes ∙ ap (λ k. out_bytes st ++ take k buf) (ground arith),
              woken,
              inr (ground arith, n, ground arith, mark),
            )
      ]
    ]
  ]
]
