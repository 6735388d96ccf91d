-- ===== src/Icmp/Waiting.antt =====
-- hook/hk_udp.c: the echo ids that raw sockets wait for. Times are those of dt_now_ms.
use shadow_lan.Base.{
  ℕ, ◌-◌, ◌+◌, ◌≤◌, ◌<◌, ◌≡◌, ◌⊎◌, Bool, true, ◌&&◌, not, List, [], ◌∷◌, arith, ltb, ◌==◌,
  if◌then◌else◌, any, modify_first, any-modify_first_hit, Bool-cases, inl, inr,
}

-- dt_icmp_out
pub record Waiter : Type 0 where
  pub used : Bool
  pub gsock : ℕ
  pub id : ℕ
  pub last : ℕ

abbrev pub waits : ℕ → ℕ → Waiter → Bool
waits s id w = w.used && (w.gsock == s && w.id == id)

abbrev pub is_free : Waiter → Bool
is_free w = not w.used

-- The least time of a row in use that the scan finds below `best`
unfoldable pub oldest : List Waiter → ℕ → ℕ
oldest [] best = best
oldest (w ∷ ws) best = oldest ws (if w.used && ltb w.last best then w.last else best)

abbrev pub is_oldest : ℕ → Waiter → Bool
is_oldest m w = w.used && w.last == m

abbrev write : ℕ → ℕ → ℕ → Waiter → Waiter
write s id now w = record { used = true; gsock = s; id = id; last = now }

-- dt_icmp_note: the row of the id, else a free one, else the first of the oldest before now
unfoldable pub note : ℕ → ℕ → ℕ → List Waiter → List Waiter
note s id now t =
    if any (waits s id) t
    then modify_first (waits s id) (λ w. record w { last = now }) t
    else if any is_free t
    then modify_first is_free (write s id now) t
    else if ltb (oldest t now) now
    then modify_first (is_oldest (oldest t now)) (write s id now) t
    else t

-- dt_icmp_match
unfoldable pub is_awaited : ℕ → ℕ → ℕ → List Waiter → Bool
is_awaited s id now t = any (λ w. waits s id w && ltb (now - w.last) 30000) t

oldest_met :
    (t : List Waiter) (best : ℕ)
    → (oldest t best ≡ best) ⊎ (any (is_oldest (oldest t best)) t ≡ true)
unfolding oldest
oldest_met [] best = inl (ground arith)
oldest_met (w ∷ ws) best = elim (Bool-cases (w.used && ltb w.last best)) [
  | inl e ↦ ground (arith, oldest_met ws w.last)
  | inr e ↦ ground (arith, oldest_met ws best)
]

-- An id that was noted is matched for the next 30 seconds, if its socket waits for it already, or
-- the table has a free row or one that is older than now.
pub is_awaited-note :
    (s id now later : ℕ) (t : List Waiter)
    → now ≤ later
    → later < now + 30000
    → (any (waits s id) t ≡ true) ⊎ ((any is_free t ≡ true) ⊎ (oldest t now < now))
    → is_awaited s id later (note s id now t) ≡ true
unfolding is_awaited note
is_awaited-note s id now later t from until room =
    let asked = λ (w : Waiter). waits s id w && ltb (later - w.last) 30000 in
    ground (
      arith,
      any-modify_first_hit (waits s id) asked (λ w. record w { last = now }) (λ w h. ground (arith))
          t,
      any-modify_first_hit is_free asked (write s id now) (λ w h. ground (arith)) t,
      any-modify_first_hit (is_oldest (oldest t now)) asked (write s id now) (λ w h. ground (arith))
          t,
      oldest_met t now,
    )
