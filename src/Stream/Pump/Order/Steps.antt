-- ===== src/Stream/Pump/Order/Steps.antt =====
-- Each event keeps the stream's bytes in order.
use shadow_lan.Base.{
  if-keeps, leb, not, ◌≤◌, length-append, ℕ, ◌+◌, ◌≡◌, ◌≢◌, refl, ap, sym, ◌∙◌, Bool, true, false,
  ◌||◌, inl, inr, List, [], ◌∷◌, ◌++◌, arith, min, ltb, ◌==◌, if◌then◌else◌, length, take,
  take-append-drop, Bool-cases,
}
use mathlib.Core.List.{append-nil, append_assoc}
use shadow_lan.Wire.{Bytes}
use shadow_lan.Stream.{Stream, Chunk, max_in, max_out}
use mathlib.Core.Path.{subst}
use shadow_lan.Stream.Chunks.{pending, HasBytes, pending-append}
use shadow_lan.Stream.Close.{close_row}
use shadow_lan.Stream.Drains.{Call, Drained, drain, close_drain, exit_drain}
use shadow_lan.Stream.Drains.Whole.{IsDrain, drain-IsDrain, all_sent}
use shadow_lan.Stream.App.{
  How, rd, wr, rdwr, Sent, queued, not_ours, reset, full, shut, Popped, got, nothing, ended,
  send_row, enqueue, is_gone, room, pop_row, shutdown_row, has_bytes,
}
use shadow_lan.Stream.App.Valid.{
  IsValid, in_bytes, out_bytes, send_row-IsValid, pop_row-IsValid, shutdown_row-IsValid,
}
use shadow_lan.Stream.App.Sends
use shadow_lan.Stream.App.Reads
use shadow_lan.Stream.Pump.{
  sent, sent_front, not_sent, received, peer_finished, reset_by_peer, retire,
}
use shadow_lan.Stream.Pump.Moves.{sent_lem, received_fits, received-IsValid, CanSend}
use shadow_lan.Stream.Pump.Order.{
  Event, app_send, app_read, app_shut, net_took, net_gave, net_fin, net_reset, app_close,
  exit_starts, pump_ends, close_drains, exit_drains, put_out, World, accepted_of, bytes_of, front,
  sendable, took, gave, step, InOrder,
}

send_row-inq : (memory : Bool) (st : Stream) (b : Bytes) → (send_row memory st b).1.inq ≡ st.inq
unfolding send_row
send_row-inq memory st b = ground arith

pop_row-outq : (st : Stream) (n : ℕ) → (pop_row st n).1.outq ≡ st.outq
unfolding pop_row
pop_row-outq st n = ground arith

sent_bytes :
    (st new : Stream) (b : Bytes) (r : Sent)
    → Sends.Outcome st b r new
    → out_bytes new ≡ out_bytes st ++ accepted_of r b
sent_bytes st new b (queued n) o = o.0
sent_bytes st new b not_ours o = absurd o
sent_bytes st new b reset o = ap out_bytes o.0 ∙ sym (append-nil (out_bytes st))
sent_bytes st new b full o = o.0 ∙ sym (append-nil (out_bytes st))
sent_bytes st new b shut o = ap out_bytes o.0 ∙ sym (append-nil (out_bytes st))

read_bytes :
    (st new : Stream) (n : ℕ) (r : Popped)
    → Reads.Outcome st n r new
    → in_bytes st ≡ bytes_of r ++ in_bytes new
read_bytes st new n (got b) o = rw (o.1, o.2) (sym (take-append-drop n (in_bytes st)))
read_bytes st new n nothing o = sym (ap in_bytes o.0)
read_bytes st new n ended o = sym (ap in_bytes o.0)

abbrev Refuses : Stream → Bytes → Sent × Stream → Type 0
Refuses st b r = (out_bytes r.1 ≡ out_bytes st) × (accepted_of r.0 b ≡ [])

enqueue-Refuses :
    (st st' : Stream) (b b' : Bytes) → st'.outq ≡ st.outq → Refuses st b (enqueue false st' b')
unfolding enqueue
enqueue-Refuses st st' b b' same =
    if-keeps (Refuses st b) (length b' == 0) _ _ (ap pending same, refl) (ap pending same, refl)

send_row-Refuses : (st : Stream) (b : Bytes) → Refuses st b (send_row false st b)
unfolding send_row
send_row-Refuses st b =
    if-keeps (Refuses st b) st.wr_shut _ _ (refl, refl)
      (if-keeps (Refuses st b) (is_gone st) _ _ (refl, refl)
        (if-keeps (Refuses st b) (ltb max_out (st.ototal + length b)) _ _
          (if-keeps (Refuses st b) (leb (length b) max_out || room st == 0) _ _ (refl, refl)
            (enqueue-Refuses st (record st { wr_full = true }) b (take (room st) b) refl))
          (enqueue-Refuses st st b b refl)))

no_memory :
    (st : Stream) (b : Bytes)
    → out_bytes (send_row false st b).1 ≡ out_bytes st ++ accepted_of (send_row false st b).0 b
no_memory st b =
    let (same, none_taken) = send_row-Refuses st b in
    same ∙ sym (append-nil (out_bytes st)) ∙ ap (λ z. out_bytes st ++ z) (sym none_taken)

send_bytes :
    (m : Bool) (st : Stream) (b : Bytes)
    → IsValid st
    → out_bytes (send_row m st b).1 ≡ out_bytes st ++ accepted_of (send_row m st b).0 b
send_bytes true st b v = sent_bytes st _ b _ (Sends.send_row-Outcome st b v)
send_bytes false st b v = no_memory st b

send_step : (w : World) (m : Bool) (b : Bytes) → InOrder w → InOrder (step (app_send m b) w)
unfolding step
send_step w m b h = record {
  valid = send_row-IsValid m w.row b h.valid;
  out_order = λ c.
      rw (send_bytes m w.row b h.valid, h.out_order c) (append_assoc w.wire (out_bytes w.row) _);
  in_order = λ d. h.in_order d ∙ ap (λ q. w.read ++ pending q) (sym (send_row-inq m w.row b));
}

read_step : (w : World) (n : ℕ) → InOrder w → InOrder (step (app_read n) w)
unfolding step
read_step w n h = record {
  valid = pop_row-IsValid w.row n h.valid;
  out_order = λ c. h.out_order c ∙ ap (λ q. w.wire ++ pending q) (sym (pop_row-outq w.row n));
  in_order = λ d.
      h.in_order d
      ∙ ap (λ bs. w.read ++ bs) (read_bytes w.row _ n _ (Reads.pop_row-Outcome w.row n h.valid))
      ∙ sym (append_assoc w.read _ _);
}

no_bytes : (q : List Chunk) → has_bytes q ≡ false → pending q ≡ []
no_bytes [] e = refl
no_bytes (c ∷ cs) e = absurd (cc)

shut_step : (w : World) (how : How) → InOrder w → InOrder (step (app_shut how) w)
unfolding step shutdown_row
shut_step w rd h = record {
  valid = shutdown_row-IsValid rd w.row h.valid;
  out_order = h.out_order;
  in_order = λ d. ground (arith, h.in_order (ground arith), no_bytes w.row.inq);
}
shut_step w wr h = record {
  valid = shutdown_row-IsValid wr w.row h.valid;
  out_order = h.out_order;
  in_order = λ d. h.in_order (ground arith);
}
shut_step w rdwr h = record {
  valid = shutdown_row-IsValid rdwr w.row h.valid;
  out_order = h.out_order;
  in_order = λ d. ground (arith, h.in_order (ground arith), no_bytes w.row.inq);
}

can_send :
    (k : ℕ) (idle : Bool) (q : List Chunk)
    → (if idle then 0 else min k (front q)) ≢ 0
    → (idle ≡ false) × CanSend (if idle then 0 else min k (front q)) q
can_send k true q h = absurd (h refl)
can_send k false [] h = absurd (h (omega arith))
can_send k false (c ∷ cs) h = (refl, (omega arith, omega arith))

sent_front-inq : (k : ℕ) (q : List Chunk) (st : Stream) → (sent_front k q st).inq ≡ st.inq
sent_front-inq k [] st = refl
sent_front-inq k (c ∷ cs) st = ground arith

sent-inq : (k : ℕ) (st : Stream) → (sent k st).inq ≡ st.inq
unfolding sent
sent-inq k st = ground (arith, sent_front-inq k st.outq st)

module _ (w : World) (k : ℕ) where
  took_none : (k == 0) ≡ true → took k w ≡ record w { row = not_sent w.row }
  unfolding took
  took_none e = ground arith

  took_some :
      (k == 0) ≡ false
      → took k w ≡ record w { row = sent k w.row; wire = w.wire ++ take k (out_bytes w.row) }
  unfolding took
  took_some e = ground arith

  took-InOrder :
      (k ≢ 0 → (w.row.flushing ≡ false) × CanSend k w.row.outq) → InOrder w → InOrder (took k w)
  took-InOrder can h = elim (Bool-cases (k == 0)) [
    | inl e ↦
        rw (took_none e) (record {
          valid = ground (arith, h.valid);
          out_order = h.out_order;
          in_order = h.in_order;
        })
    | inr e ↦
        let (idle, fits) = can (ground arith) in
        let (bytes, good) = sent_lem k w.row idle fits h.valid in
        rw (took_some e) (record {
          valid = good;
          out_order = λ c.
              rw (bytes, h.out_order c)
                (ap (λ bs. w.wire ++ bs) (sym (take-append-drop k (out_bytes w.row)))
                  ∙ sym (append_assoc w.wire _ _));
          in_order = λ d. h.in_order d ∙ ap (λ q. w.read ++ pending q) (sym (sent-inq k w.row));
        })
  ]

took_step : (w : World) (k : ℕ) → InOrder w → InOrder (step (net_took k) w)
unfolding step
took_step w k h = took-InOrder w (sendable k w.row) (can_send k w.row.flushing w.row.outq) h

received-outq : (m : Bool) (b : Bytes) (st : Stream) → (received m b st).outq ≡ st.outq
unfolding received
received-outq m b st = ground arith

module _ (w : World) (m : Bool) (b : Bytes) where
  gave_idle : (w.row.in_paused || (w.row.peer_fin || length b == 0)) ≡ true → gave m b w ≡ w
  unfolding gave
  gave_idle e = rw e refl

  gave_some :
      (w.row.in_paused || (w.row.peer_fin || length b == 0)) ≡ false
      → gave m b w ≡ record w {
        row = received m b w.row;
        arrived = w.arrived ++ b;
        discarded = w.discarded || (not m || ltb max_in (w.row.total + length b));
      }
  unfolding gave
  gave_some e = rw e refl

  kept :
      (m ≡ true) × (w.row.total + length b ≤ max_in)
      → in_bytes (received m b w.row) ≡ in_bytes w.row ++ b
  kept (e, fits) = rw e (received_fits b w.row fits).0

  gave_step : InOrder w → InOrder (step (net_gave m b) w)
  unfolding step
  gave_step h = elim (Bool-cases (w.row.in_paused || (w.row.peer_fin || length b == 0))) [
    | inl e ↦ rw (gave_idle e) h
    | inr e ↦ rw (gave_some e) (record {
      valid = received-IsValid m b w.row (ground arith) h.valid;
      out_order =
          λ c. h.out_order c ∙ ap (λ q. w.wire ++ pending q) (sym (received-outq m b w.row));
      in_order = λ d.
          rw (kept (ground arith), h.in_order (ground arith))
            (append_assoc w.read (in_bytes w.row) b);
    })
  ]

fin_step : (w : World) → InOrder w → InOrder (step net_fin w)
unfolding step peer_finished
fin_step w h = record {
  valid = ground (arith, h.valid);
  out_order = λ c. ground (arith, h.out_order c);
  in_order = λ d. ground (arith, h.in_order d);
}

reset_step : (w : World) → InOrder w → InOrder (step net_reset w)
unfolding step reset_by_peer
reset_step w h = record {
  valid = ground (arith, h.valid);
  out_order = h.out_order;
  in_order = h.in_order;
}

no_chunks : (q : List Chunk) → has_bytes q ≡ false → q ≡ []
no_chunks [] e = refl
no_chunks (c ∷ cs) e = absurd (cc)

close_step : (w : World) → InOrder w → InOrder (step app_close w)
unfolding step close_row
close_step w h = record {
  valid = ground (arith, h.valid);
  out_order = λ c. ground (arith, h.out_order (ground arith), no_bytes w.row.outq);
  in_order = λ d. ground (arith, h.in_order (ground arith), no_bytes w.row.inq);
}

end_step : (w : World) → InOrder w → InOrder (step pump_ends w)
unfolding step retire
end_step w h = record {
  valid = ground (arith, h.valid);
  out_order = λ c. ground (arith, h.out_order (ground arith), no_bytes w.row.outq);
  in_order = λ d. ground (arith, h.in_order (ground arith), no_bytes w.row.inq);
}

HasBytes-suffix : (gone q cs : List Chunk) → gone ++ q ≡ cs → HasBytes cs → HasBytes q
HasBytes-suffix gone q cs e h = split gone (subst HasBytes (sym e) h)
  where
    split : (gs : List Chunk) → HasBytes (gs ++ q) → HasBytes q
    split [] k = k
    split (g ∷ gs) (k, ks) = split gs ks

put_out-InOrder :
    (w : World) (d : Drained) → InOrder w → IsDrain w.row.outq d → InOrder (put_out d w)
unfolding IsDrain
put_out-InOrder w d h drained =
    let (gone, part, q, p, s, n) = drained in
    let sizes : length (pending gone) + length (pending d.outq) ≡ length (pending w.row.outq) =
      sym (length-append (pending gone) (pending d.outq))
      ∙ ap length (sym (pending-append gone d.outq) ∙ ap pending q) in
    record {
      valid = record {
        in_chunks = h.valid.in_chunks;
        out_chunks = HasBytes-suffix gone d.outq w.row.outq q h.valid.out_chunks;
        in_count = h.valid.in_count;
        out_count = n;
        out_limit = omega (arith, n, sizes, h.valid.out_count, h.valid.out_limit);
      };
      out_order = λ c.
          let empty = no_chunks d.outq (ground arith) in
          h.out_order (ground arith)
          ∙ ap (λ z. w.wire ++ z) (sym (all_sent w.row.outq d drained empty).0)
          ∙ sym (append-nil (w.wire ++ d.wire))
          ∙ ap (λ q. (w.wire ++ d.wire) ++ pending q) (sym empty);
      in_order = h.in_order;
    }

flags-InOrder :
    (w : World) (b : Bool) → InOrder w → InOrder (record w { row = record w.row { flushing = b } })
flags-InOrder w b h = record {
  valid = record {
    in_chunks = h.valid.in_chunks;
    out_chunks = h.valid.out_chunks;
    in_count = h.valid.in_count;
    out_count = h.valid.out_count;
    out_limit = h.valid.out_limit;
  };
  out_order = h.out_order;
  in_order = h.in_order;
}

drain_step :
    (w : World) (late : Call → Bool) (ts : List Call)
    → InOrder w
    → InOrder (put_out (drain late ts w.row.outq w.row.ototal) w)
drain_step w late ts h =
    put_out-InOrder w _ h (drain-IsDrain late ts w.row.outq w.row.ototal h.valid.out_count)

pub step-InOrder : (e : Event) (w : World) → InOrder w → InOrder (step e w)
unfolding step close_drain exit_drain
step-InOrder (app_send m b) w h = send_step w m b h
step-InOrder (app_read n) w h = read_step w n h
step-InOrder (app_shut how) w h = shut_step w how h
step-InOrder (net_took k) w h = took_step w k h
step-InOrder (net_gave m b) w h = gave_step w m b h
step-InOrder net_fin w h = fin_step w h
step-InOrder net_reset w h = reset_step w h
step-InOrder app_close w h = close_step w h
step-InOrder exit_starts w h = flags-InOrder w true h
step-InOrder pump_ends w h = end_step w h
step-InOrder (close_drains ts) w h = drain_step w (λ t. false) ts h
step-InOrder (exit_drains t0 ts) w h =
    flags-InOrder _ false (drain_step w (λ t. ltb (t0 + 900) t.back) ts h)
