-- ===== src/Waits/Loops.antt =====
-- The loops of dt_tcp_wait and dt_stream_send_wait end.
use shadow_lan.Base.{
  ◌&&◌, ℕ, zero, suc, ◌+◌, ◌<◌, ◌≤◌, ◌≡◌, refl, Bool, true, false, inl, inr, ◌||◌, not, List, [],
  ◌∷◌, Option, none, some, arith, ltb, leb, any, count, length, Bool-cases, Every,
}
use shadow_lan.Stream.App.{Sent, queued, not_ours, reset, full, shut, Popped, nothing, ended}
use shadow_lan.Waits.{Look, is_nothing, tcp_wait, so_far, send_wait}

-- A pass that finds the clock past the timeout
abbrev pub is_late : ℕ → ℕ → Look → Bool
is_late t0 ms l = leb (t0 + ms) l.now

-- Once it has a slot, dt_tcp_wait returns by the first pass that finds its timeout over.
pub tcp_wait-returns :
    (nonblock : Bool) (t0 ms : ℕ) (ls : List Look)
    → any (is_late t0 ms) ls ≡ true
    → (r : Popped) × (tcp_wait (some ms) nonblock t0 true ls ≡ some r)
unfolding tcp_wait
tcp_wait-returns nonblock t0 ms [] h = absurd (cc)
tcp_wait-returns nonblock t0 ms (l ∷ ls) h =
    elim (Bool-cases (not (is_nothing l.popped) || nonblock)) [
      | inl e ↦ (l.popped, rw e refl)
      | inr e ↦ elim (Bool-cases (is_late t0 ms l)) [
        | inl late ↦ (nothing, rw (e, late) refl)
        | inr early ↦ elim (Bool-cases l.alive) [
          | inl lives ↦
              let (r, k) = tcp_wait-returns nonblock t0 ms ls (rw early at h) in
              (r, rw (e, early, lives) k)
          | inr gone ↦ (ended, rw (e, early, gone) refl)
        ]
      ]
    ]

-- A pass that pops nothing and finds no free slot
abbrev pub IsStarved : Look → Type 0
IsStarved l = (is_nothing l.popped ≡ true) × (l.armed ≡ false)

-- While every slot is taken and each read finds nothing, dt_tcp_wait goes on, however late it is.
pub tcp_wait-starved :
    (timeout : Option ℕ) (t0 : ℕ) (ls : List Look)
    → Every IsStarved ls
    → tcp_wait timeout false t0 false ls ≡ none
unfolding tcp_wait
tcp_wait-starved timeout t0 [] h = refl
tcp_wait-starved timeout t0 (l ∷ ls) ((e, k), h) = rw (e, k) (tcp_wait-starved timeout t0 ls h)

abbrev pub is_full : Sent → Bool
is_full full = true
is_full reset = false
is_full shut = false
is_full not_ours = false
is_full (queued n) = false

-- dt_stream_send_wait returns after at most as many passes as it has bytes to queue, one more, and
-- those that found the queue full.
pub send_wait-returns :
    (nonblock : Bool) (len sent : ℕ) (rs : List Sent)
    → sent ≤ len
    → len + count is_full rs < sent + length rs
    → (r : Sent) × (send_wait nonblock len sent rs ≡ some r)
unfolding send_wait
send_wait-returns nonblock len sent [] k h = absurd (omega (arith, h, k))
send_wait-returns nonblock len sent (queued zero ∷ rs) k h = (_, refl)
send_wait-returns nonblock len sent (queued (suc n) ∷ rs) k h =
    elim (Bool-cases (ltb (sent + suc n) len && not nonblock)) [
      | inl e ↦
          let (r, found) =
            send_wait-returns nonblock len (sent + suc n) rs (ground arith) (ground arith) in
          (r, rw e found)
      | inr e ↦ (queued (sent + suc n), rw e refl)
    ]
send_wait-returns nonblock len sent (full ∷ rs) k h = elim (Bool-cases nonblock) [
  | inl e ↦ (so_far sent full, rw e refl)
  | inr e ↦
      let (r, found) = send_wait-returns nonblock len sent rs k (omega (arith, h)) in
      (r, rw e found)
]
send_wait-returns nonblock len sent (not_ours ∷ rs) k h = (_, refl)
send_wait-returns nonblock len sent (reset ∷ rs) k h = (_, refl)
send_wait-returns nonblock len sent (shut ∷ rs) k h = (_, refl)
