-- ===== src/Stream/App/Valid.antt =====
-- The counts of a stream agree with its queues, and its out-queue stays within DT_ST_MAXOUT.
use shadow_lan.Base.{
  ℕ, ◌+◌, ◌≤◌, ◌<◌, ◌≡◌, ap, Bool, List, [], ◌∷◌, ◌++◌, arith, length, take, length-append,
  length-take, length-drop, ◌∙◌,
}
use mathlib.Core.List.{append-nil}
use shadow_lan.Wire.{Bytes}
use shadow_lan.Stream.{Stream, max_out, Chunk}
use shadow_lan.Stream.Chunks.{pending, HasBytes, chunk, gather_lem, pending-append, HasBytes-append}
use shadow_lan.Stream.App.{How, rd, wr, rdwr, room, send_row, pop_row, shutdown_row}

pub record IsValid (st : Stream) : Type 0 where
  pub in_chunks : HasBytes st.inq
  pub out_chunks : HasBytes st.outq
  pub in_count : st.total ≡ length (pending st.inq)
  pub out_count : st.ototal ≡ length (pending st.outq)
  pub out_limit : st.ototal ≤ max_out

abbrev pub out_bytes : Stream → Bytes
out_bytes st = pending st.outq

abbrev pub in_bytes : Stream → Bytes
in_bytes st = pending st.inq

module _ (cs : List Chunk) (b : Bytes) where
  pub pending-chunk : pending (cs ++ (chunk b ∷ [])) ≡ pending cs ++ b
  pending-chunk = pending-append cs (chunk b ∷ []) ∙ ap (λ bs. pending cs ++ bs) (append-nil b)

  pub length-chunk : length (pending (cs ++ (chunk b ∷ []))) ≡ length (pending cs) + length b
  length-chunk = ap length pending-chunk ∙ length-append (pending cs) b

  pub HasBytes-chunk : 0 < length b → HasBytes cs → HasBytes (cs ++ (chunk b ∷ []))
  HasBytes-chunk pos h = HasBytes-append cs (chunk b ∷ []) h (pos, tt)

module _ (memory : Bool) (st : Stream) (buf : Bytes) where
  -- dt_stream_send keeps the counts, and never queues more than DT_ST_MAXOUT bytes.
  pub send_row-IsValid : IsValid st → IsValid (send_row memory st buf).1
  unfolding send_row
  send_row-IsValid v = ground (
    arith,
    length-chunk st.outq buf,
    length-chunk st.outq (take (room st) buf),
    HasBytes-chunk st.outq buf,
    HasBytes-chunk st.outq (take (room st) buf),
    length-take (room st) buf,
  )

-- dt_stream_pop keeps them too.
pub pop_row-IsValid : (st : Stream) (blen : ℕ) → IsValid st → IsValid (pop_row st blen).1
unfolding pop_row
pop_row-IsValid st blen v = ground (
  arith,
  gather_lem st.inq blen,
  length-take blen (pending st.inq),
  length-drop blen (pending st.inq),
  ap length (gather_lem st.inq blen v.in_chunks).0,
  ap length (gather_lem st.inq blen v.in_chunks).1,
)

pub shutdown_row-IsValid : (how : How) (st : Stream) → IsValid st → IsValid (shutdown_row how st)
unfolding shutdown_row
shutdown_row-IsValid rd st v = ground arith
shutdown_row-IsValid wr st v = ground arith
shutdown_row-IsValid rdwr st v = ground arith
