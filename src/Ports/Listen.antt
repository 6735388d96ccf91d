-- ===== src/Ports/Listen.antt =====
-- dt_record_listen and dt_owns_listen as a bounded set of ports, dt_slot_get as one of flows.
use shadow_lan.Base.{
  ℕ, ◌≤◌, ◌<◌, ◌≡◌, refl, ap, Bool, true, false, ◌||◌, List, [], ◌∷◌, arith, ◌==◌, any, count,
  modify_first, Bool-cases, inl, inr, any-count, count-modify_first_le, count-modify_first_drop,
}
use shadow_lan.Net.{Addr}
use shadow_lan.Ports.{is_port, record_listen, owns_listen, Slot, of_flow, is_free, slot_get}

any-modify_first_new :
    {A : Type 0} (p q : A → Bool) (v : A)
    → ((x : A) → p x ≡ true → q x ≡ false)
    → (xs : List A) → any p xs ≡ true
    → any q (modify_first p (λ _. v) xs) ≡ (q v || any q xs)
any-modify_first_new p q v apart [] h = absurd (cc)
any-modify_first_new p q v apart (x ∷ xs) h =
    ground (arith, apart x, any-modify_first_new p q v apart xs)

any_same : (q port : ℕ) (t : List ℕ) → q ≡ port → any (is_port q) t ≡ any (is_port port) t
any_same q port t e = ap (λ k. any (is_port k) t) e

-- A positive port that is recorded is owned, if it was before or the table has room; every other
-- one is owned as before.
pub owns_listen-record_listen :
    (port : ℕ) (t : List ℕ)
    → 0 < port
    → (any (is_port port) t || any (is_port 0) t) ≡ true
    → (q : ℕ) → 0 < q
    → owns_listen q (record_listen port t) ≡ (q == port || owns_listen q t)
unfolding owns_listen record_listen
owns_listen-record_listen port t pos room q named = elim (Bool-cases (any (is_port port) t)) [
  | inl e ↦ elim (Bool-cases (q == port)) [
    | inl same ↦ ground (arith, any_same q port t)
    | inr apart ↦ ground (arith)
  ]
  | inr e ↦
      ground (arith, any-modify_first_new (is_port 0) (is_port q) port (λ p h. ground (arith)) t)
]

-- No port is recorded twice.
pub record_listen-one_each :
    (port : ℕ) (t : List ℕ)
    → ((q : ℕ) → 0 < q → count (is_port q) t ≤ 1)
    → (q : ℕ) → 0 < q
    → count (is_port q) (record_listen port t) ≤ 1
unfolding record_listen
record_listen-one_each port t one q named = elim (Bool-cases (any (is_port port) t)) [
  | inl e ↦ ground (arith, one q)
  | inr e ↦ elim (Bool-cases (q == port)) [
    | inl same ↦ ground (
      arith,
      one q,
      any-count (is_port port) t e,
      count-modify_first_le (is_port 0) (is_port q) (λ p. port) t,
    )
    | inr apart ↦ ground (
      arith,
      one q,
      count-modify_first_drop (is_port 0) (is_port q) (λ p. port) (λ p h. ground arith) t,
    )
  ]
]

module _ (s port : ℕ) (orig : Addr) (t : List Slot) where
  -- A flow has one slot: asking for it again gives the table as it is.
  pub slot_get-slot_get :
      (slot_get s port orig t).1 ≡ true
      → slot_get s port orig (slot_get s port orig t).0 ≡ ((slot_get s port orig t).0, true)
  unfolding slot_get
  slot_get-slot_get h = elim (Bool-cases (any (of_flow s port orig) t)) [
    | inl e ↦ rw (slot_get, e, e) refl
    | inr e ↦
        let placed =
          any-modify_first_new is_free (of_flow s port orig)
            (record { used = true; gsock = s; game_port = port; orig = orig })
            (λ x k. ground (arith)) t (ground (arith)) in
        ground (arith, placed)
  ]
