-- ===== src/Waits.antt =====
-- hook/hk_sess.c, hook/hk_route.c: the wake channels of blocked application calls, and the calls that
-- wait by them. `bytes` counts what dt_wake_write left in a slot's socket pair. Each part of a call
-- that runs under the lock is an operation of its own.
mod Tests
pub mod Pokes
pub mod Loops
use shadow_lan.Base.{
  ℕ, zero, suc, ◌+◌, Bool, true, false, ◌&&◌, ◌||◌, not, List, [], ◌∷◌, Option, none, some, ltb,
  leb, ◌==◌, if◌then◌else◌, any, modify_all, length, min,
}
use shadow_lan.Stream.App.{Sent, queued, not_ours, reset, full, shut, Popped, got, nothing, ended}

-- A row of g_wt
pub record Slot : Type 0 where
  pub used : Bool
  pub armed : Bool
  pub watches_all : Bool
  pub paired : Bool
  pub socks : List ℕ
  pub bytes : ℕ

-- DT_WAIT_NS, DT_WAIT_BACKSTOP_MS
abbrev pub max_socks : ℕ
max_socks = 8

abbrev pub backstop : ℕ
backstop = 100

abbrev pub slot_at : ℕ → List Slot → Option Slot
slot_at i [] = none
slot_at zero (x ∷ xs) = some x
slot_at (suc i) (x ∷ xs) = slot_at i xs

abbrev pub change_at : ℕ → (Slot → Slot) → List Slot → List Slot
change_at i f [] = []
change_at zero f (x ∷ xs) = f x ∷ xs
change_at (suc i) f (x ∷ xs) = x ∷ change_at i f xs

abbrev pub next_index : Option ℕ → Option ℕ
next_index none = none
next_index (some i) = some (suc i)

-- The scan of dt_wait_arm for a free slot
abbrev pub free_at : List Slot → Option ℕ
free_at [] = none
free_at (x ∷ xs) = if x.used then next_index (free_at xs) else some 0

-- `n < 0 || n > DT_WAIT_NS`, where `none` stands for a negative n
abbrev pub is_any : Option (List ℕ) → Bool
is_any none = true
is_any (some socks) = ltb max_socks (length socks)

abbrev pub named : Option (List ℕ) → List ℕ
named none = []
named (some socks) = if ltb max_socks (length socks) then [] else socks

abbrev pub watch : Option (List ℕ) → Slot → Slot
watch socks x = record x { watches_all = is_any socks; socks = named socks; armed = true }

abbrev pub occupy : Slot → Slot
occupy x = record x { used = true }

abbrev pub vacate : Slot → Slot
vacate x = record x { used = false }

-- A slot gets its socket pair once; `pair` says whether dt_wake_pair succeeds.
abbrev pub pair_up : Slot → Slot
pair_up x = if x.paired then x else record x { paired = true; bytes = 0 }

abbrev pub can_wake : Bool → Option Slot → Bool
can_wake pair none = false
can_wake pair (some x) = x.paired || pair

abbrev pub armed_at : Bool → Option (List ℕ) → List Slot → Option ℕ → List Slot × Option ℕ
armed_at pair socks t none = (t, none)
armed_at pair socks t (some i) =
    if can_wake pair (slot_at i t)
    then (change_at i (λ x. watch socks (pair_up (occupy x))) t, some i)
    else (change_at i (λ x. vacate (occupy x)) t, none)

-- dt_wait_arm: the slot, or `none` for -1
unfoldable pub arm : Bool → Option (List ℕ) → List Slot → List Slot × Option ℕ
arm pair socks t = armed_at pair socks t (free_at t)

abbrev pub watches : ℕ → Slot → Bool
watches s x = x.used && x.armed && (x.watches_all || any (λ k. k == s) x.socks)

abbrev pub poked : Slot → Slot
poked x = record x { armed = false; bytes = x.bytes + 1 }

-- dt_wait_poke_locked
unfoldable pub poke : ℕ → List Slot → List Slot
poke s t = modify_all (watches s) poked t

-- dt_wake_drain of a slot's pair
abbrev pub drain : ℕ → List Slot → List Slot
drain i t = change_at i (λ x. record x { bytes = 0 }) t

-- dt_wait_rearm
unfoldable pub rearm : ℕ → List Slot → List Slot
rearm i t = change_at i (λ x. record x { armed = true }) (drain i t)

-- dt_wait_done up to DUNLOCK
unfoldable pub give_up : ℕ → List Slot → List Slot
give_up i t = change_at i (λ x. record x { armed = false; used = false }) t

-- dt_wait_done; `between` is what other threads do to the table before its drain, which takes no lock
unfoldable pub wait_done : (List Slot → List Slot) → ℕ → List Slot → List Slot
wait_done between i t = drain i (between (give_up i t))

-- How long dt_wait_sleep waits at most: with a slot, and without; a negative time is `none`.
abbrev bounded : Option ℕ → ℕ
bounded none = backstop
bounded (some ms) = if ltb backstop ms then backstop else ms

unfoldable pub sleep_time : Option ℕ → Option ℕ → ℕ
sleep_time none ms = if ltb (bounded ms) 5 then bounded ms else 5
sleep_time (some slot) ms = bounded ms

-- What one pass of dt_tcp_wait meets: dt_stream_pop's answer, whether dt_wait_arm finds a slot, the
-- clock, and whether the socket still has a stream.
pub record Look : Type 0 where
  pub popped : Popped
  pub armed : Bool
  pub now : ℕ
  pub alive : Bool

abbrev pub is_nothing : Popped → Bool
is_nothing nothing = true
is_nothing ended = false
is_nothing (got bytes) = false

-- `timeout_ms >= 0 && now - t0 >= timeout_ms`
abbrev pub is_over : Option ℕ → ℕ → ℕ → Bool
is_over none t0 now = false
is_over (some ms) t0 now = leb (t0 + ms) now

-- dt_tcp_wait over the passes that it makes: `none` if it is still waiting after them. `slot` says
-- whether it has one.
unfoldable pub tcp_wait : Option ℕ → Bool → ℕ → Bool → List Look → Option Popped
tcp_wait timeout nonblock t0 slot [] = none
tcp_wait timeout nonblock t0 slot (l ∷ ls) =
    let armed = tcp_wait timeout nonblock t0 l.armed ls in
    let slept = tcp_wait timeout nonblock t0 true ls in
    if not (is_nothing l.popped) || nonblock
    then some l.popped
    else if not slot
    then armed
    else if is_over timeout t0 l.now
    then some nothing
    else if not l.alive
    then some ended
    else slept

abbrev pub so_far : ℕ → Sent → Sent
so_far zero r = r
so_far (suc n) r = queued (suc n)

-- dt_stream_send_wait over what dt_stream_send answers at each pass, with `sent` bytes of `len`
-- queued before: `none` if it is still waiting after them
unfoldable pub send_wait : Bool → ℕ → ℕ → List Sent → Option Sent
send_wait nonblock len sent [] = none
send_wait nonblock len sent (queued zero ∷ rs) = some (so_far sent (queued 0))
send_wait nonblock len sent (queued (suc n) ∷ rs) =
    let more = send_wait nonblock len (sent + suc n) rs in
    if ltb (sent + suc n) len && not nonblock then more else some (queued (sent + suc n))
send_wait nonblock len sent (full ∷ rs) =
    let again = send_wait nonblock len sent rs in
    if nonblock then some (so_far sent full) else again
send_wait nonblock len sent (not_ours ∷ rs) = some (so_far sent not_ours)
send_wait nonblock len sent (reset ∷ rs) = some (so_far sent reset)
send_wait nonblock len sent (shut ∷ rs) = some (so_far sent shut)
