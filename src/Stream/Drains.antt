-- ===== src/Stream/Drains.antt =====
-- hook/hk_stream.c: the drain of dt_stream_thread after close(), and the sends of dt_flush_streams at
-- exit for a row that it has taken over. A drain is the only one to change its row's out-queue.
mod Tests
pub mod Whole
use shadow_lan.Base.{
  ℕ, ◌+◌, ◌-◌, Bool, true, false, List, [], ◌∷◌, ◌++◌, leb, ltb, if◌then◌else◌, length,
}
use shadow_lan.Wire.{Bytes}
use shadow_lan.Stream.{Chunk, Stream, State, connecting, opened, died}
use shadow_lan.Stream.Chunks.{rest}
use shadow_lan.Legs
use shadow_lan.Legs.{Try, send_all}

-- One call of dt_st_send_all_tmo: when it starts, its passes, and when it has come back.
pub record Call : Type 0 where
  pub start : ℕ
  pub tries : List Try
  pub back : ℕ

-- What a drain leaves: the bytes that went out, and the queue with its count.
pub record Drained : Type 0 where
  pub wire : Bytes
  pub outq : List Chunk
  pub ototal : ℕ

abbrev pub after_wire : Bytes → Drained → Drained
after_wire w d = record d { wire = w ++ d.wire }

abbrev pub after_call : Bool → Legs.State → Bytes → Drained → Drained → Drained → Drained
after_call late Legs.through w more last stop =
    if late then after_wire w last else after_wire w more
after_call late Legs.failed w more last stop = after_wire w stop
after_call late Legs.waiting w more last stop = after_wire w stop

-- The loop of either drain: `late c` tells that it ends after the call `c`. A queue that is longer
-- than the calls has not been drained to its end yet.
unfoldable pub drain : (Call → Bool) → List Call → List Chunk → ℕ → Drained
drain late ts [] total = record { wire = []; outq = []; ototal = total }
drain late [] (c ∷ cs) total = record { wire = []; outq = c ∷ cs; ototal = total }
drain late (t ∷ ts) (c ∷ cs) total =
    let s = send_all 150 t.start [] (rest c) t.tries in
    let left = total - (length c.p - c.off) in
    let more = drain late ts cs left in
    let last : Drained = record { wire = []; outq = cs; ototal = left } in
    let stop : Drained = record { wire = []; outq = c ∷ cs; ototal = total } in
    if leb (length c.p) c.off then stop else after_call (late t) s.state s.wire more last stop

-- The drain after close()
unfoldable pub close_drain : List Call → List Chunk → ℕ → Drained
close_drain ts cs total = drain (λ t. false) ts cs total

-- The drain at exit, which began at `t0`
unfoldable pub exit_drain : ℕ → List Call → List Chunk → ℕ → Drained
exit_drain t0 ts cs total = drain (λ t. ltb (t0 + 900) t.back) ts cs total
