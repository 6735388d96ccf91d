-- ===== src/Waits/Pokes.antt =====
-- A slot that was armed hears of the sockets that it names, once.
use shadow_lan.Base.{
  ℕ, zero, suc, ◌+◌, ◌≡◌, ◌≢◌, ◌∙◌, ap, refl, Bool, true, false, ◌||◌, not, inl, inr, List, [], ◌∷◌,
  Option, none, some, arith, ◌==◌, if◌then◌else◌, any, Bool-cases,
}
use shadow_lan.Waits.{
  Slot, slot_at, change_at, next_index, free_at, is_any, named, watch, occupy, can_wake, pair_up,
  armed_at, arm, watches, poked, poke, give_up, wait_done,
}

-- The sockets that a call names are the ones that the slot hears of.
abbrev pub is_named : Option (List ℕ) → ℕ → Bool
is_named socks s = is_any socks || any (λ k. k == s) (named socks)

-- The pokes of several signals, in their order
abbrev pub pokes : List ℕ → List Slot → List Slot
pokes [] t = t
pokes (s ∷ ss) t = pokes ss (poke s t)

slot_at-change :
    (i : ℕ) (f : Slot → Slot) (t : List Slot) (x : Slot)
    → slot_at i t ≡ some x
    → slot_at i (change_at i f t) ≡ some (f x)
slot_at-change i f [] x h = absurd (cc)
slot_at-change zero f (y ∷ t) x h = ap some (ap f (cc))
slot_at-change (suc i) f (y ∷ t) x h = slot_at-change i f t x h

slot_at-change_other :
    (i j : ℕ) (f : Slot → Slot) (t : List Slot) → i ≢ j → slot_at j (change_at i f t) ≡ slot_at j t
slot_at-change_other i j f [] apart = refl
slot_at-change_other zero zero f (y ∷ t) apart = absurd (apart refl)
slot_at-change_other zero (suc j) f (y ∷ t) apart = refl
slot_at-change_other (suc i) zero f (y ∷ t) apart = refl
slot_at-change_other (suc i) (suc j) f (y ∷ t) apart =
    slot_at-change_other i j f t (λ e. apart (ap suc e))

slot_at-poke :
    (i s : ℕ) (t : List Slot) (x : Slot)
    → slot_at i t ≡ some x
    → slot_at i (poke s t) ≡ some (if watches s x then poked x else x)
unfolding poke
slot_at-poke i s [] x h = absurd (cc)
slot_at-poke zero s (y ∷ t) x h =
    ap (λ (z : Slot). some (if watches s z then poked z else z)) {x = y} {y = x} (cc)
slot_at-poke (suc i) s (y ∷ t) x h = slot_at-poke i s t x h

-- What the scan finds in the rows
abbrev FreeAt : List Slot → ℕ → Type 0
FreeAt t i = (x : Slot) × (slot_at i t ≡ some x) × (x.used ≡ false)

first_free :
    (i : ℕ) (y : Slot) (t : List Slot) → y.used ≡ false → some 0 ≡ some i → FreeAt (y ∷ t) i
first_free zero y t e k = (y, refl, e)
first_free (suc i) y t e k = absurd (cc)

later_free :
    (i : ℕ) (y : Slot) (t : List Slot) (o : Option ℕ)
    → ((j : ℕ) → o ≡ some j → FreeAt t j)
    → next_index o ≡ some i
    → FreeAt (y ∷ t) i
later_free i y t none ih k = absurd (cc)
later_free zero y t (some j) ih k = absurd (cc)
later_free (suc i) y t (some j) ih k = ih i (ap some (cc))

free_at-used : (t : List Slot) (i : ℕ) → free_at t ≡ some i → FreeAt t i
free_at-used [] i h = absurd (cc)
free_at-used (y ∷ t) i h = elim (Bool-cases y.used) [
  | inr e ↦ first_free i y t e (rw e at h)
  | inl e ↦ later_free i y t (free_at t) (λ j k. free_at-used t j k) (rw e at h)
]

-- A slot that was poked and not armed again hears nothing more.
pokes_deaf :
    (i : ℕ) (ss : List ℕ) (t : List Slot) (x : Slot)
    → slot_at i t ≡ some x
    → x.armed ≡ false
    → slot_at i (pokes ss t) ≡ some x
pokes_deaf i [] t x h deaf = h
pokes_deaf i (s ∷ ss) t x h deaf =
    pokes_deaf i ss (poke s t) x (slot_at-poke i s t x h ∙ ap some (ground arith)) deaf

abbrev hears : Slot → ℕ → Bool
hears x s = x.watches_all || any (λ k. k == s) x.socks

pokes_heard :
    (i : ℕ) (ss : List ℕ) (t : List Slot) (x : Slot)
    → slot_at i t ≡ some x
    → x.used ≡ true
    → x.armed ≡ true
    → slot_at i (pokes ss t) ≡ some (if any (hears x) ss then poked x else x)
pokes_heard i [] t x h used armed = h
pokes_heard i (s ∷ ss) t x h used armed = elim (Bool-cases (hears x s)) [
  | inl e ↦ rw e (
      pokes_deaf i ss (poke s t) (poked x) (slot_at-poke i s t x h ∙ rw (used, armed, e) refl) refl)
  | inr e ↦
      rw e (
        pokes_heard i ss (poke s t) x (slot_at-poke i s t x h ∙ rw (used, armed, e) refl) used
          armed)
]

none-some : (i : ℕ) → none ≡ some i → ⊥
none-some i e = cc

abbrev fit : Option (List ℕ) → Slot → Slot
fit socks x = watch socks (pair_up (occupy x))

fit-used : (socks : Option (List ℕ)) (x : Slot) → (fit socks x).used ≡ true
fit-used socks x = ground arith

fit_row :
    (pair : Bool) (socks : Option (List ℕ)) (t : List Slot) (i : ℕ) (o : Option ℕ)
    → (armed_at pair socks t o).1 ≡ some i
    → (o ≡ some i) × ((armed_at pair socks t o).0 ≡ change_at i (fit socks) t)
fit_row pair socks t i none h = absurd (cc)
fit_row pair socks t i (some k) h = elim (Bool-cases (can_wake pair (slot_at k t))) [
  | inl e ↦
      let same : some k ≡ some i = rw e at h in
      (same, rw e (ap (λ j. change_at j (fit socks) t) (unsome k i same)))
  | inr e ↦ absurd (none-some i (rw e at h))
]
  where
    unsome : (k i : ℕ) → some k ≡ some i → k ≡ i
    unsome k i e = cc

arm_row :
    (pair : Bool) (socks : Option (List ℕ)) (t : List Slot) (i : ℕ)
    → (arm pair socks t).1 ≡ some i
    → (free_at t ≡ some i) × ((arm pair socks t).0 ≡ change_at i (fit socks) t)
unfolding arm
arm_row pair socks t i h = fit_row pair socks t i (free_at t) h

-- The slot that dt_wait_arm gives was free, and no other slot changes. If only signals follow, the
-- first of them for a socket that the call names leaves one byte in the slot's pair and disarms it,
-- no other adds one or takes it away, and without one the slot stays armed.
pub arm-pokes :
    (pair : Bool) (socks : Option (List ℕ)) (t : List Slot) (i : ℕ) (ss : List ℕ)
    → (arm pair socks t).1 ≡ some i
    → (x : Slot) × (slot_at i t ≡ some x)
      × (x.used ≡ false)
      × ((j : ℕ) → i ≢ j → slot_at j (arm pair socks t).0 ≡ slot_at j t)
      × (y : Slot) × (slot_at i (pokes ss (arm pair socks t).0) ≡ some y)
      × (y.bytes ≡ (if x.paired then x.bytes else 0) + (if any (is_named socks) ss then 1 else 0))
      × (y.armed ≡ not (any (is_named socks) ss))
arm-pokes pair socks t i ss h =
    let (free, table) = arm_row pair socks t i h in
    let (x, at, unused) = free_at-used t i free in
    (
      x,
      at,
      unused,
      λ j apart. rw table (slot_at-change_other i j (fit socks) t apart),
      (if any (hears (fit socks x)) ss then poked (fit socks x) else fit socks x),
      rw table (
          pokes_heard i ss _ (fit socks x) (slot_at-change i (fit socks) t x at) (fit-used socks x)
            refl),
      ground arith,
      ground arith,
    )

-- What a second call and a signal do: the call arms, and the signal is for the socket `s`.
abbrev pub arm_and_poke : Bool → Option (List ℕ) → ℕ → List Slot → List Slot
arm_and_poke pair socks s t = poke s (arm pair socks t).0

-- dt_wait_done drains the pair after it has given the slot back. Where in between another call is
-- given the same slot, and a socket that it names is signalled, that call's slot is in the end in
-- use, not armed, and without a byte: it has lost its signal.
pub wait_done-arm_and_poke :
    (pair : Bool) (socks : Option (List ℕ)) (t : List Slot) (i s : ℕ)
    → (arm pair socks (give_up i t)).1 ≡ some i
    → is_named socks s ≡ true
    → (y : Slot) × (slot_at i (wait_done (arm_and_poke pair socks s) i t) ≡ some y)
      × (y.used ≡ true)
      × (y.armed ≡ false)
      × (y.bytes ≡ 0)
unfolding wait_done
wait_done-arm_and_poke pair socks t i s h e =
    let (free, table) = arm_row pair socks (give_up i t) i h in
    let (x, at, _) = free_at-used (give_up i t) i free in
    let armed : slot_at i (arm pair socks (give_up i t)).0 ≡ some (fit socks x) =
      rw table (slot_at-change i (fit socks) (give_up i t) x at) in
    let heard : slot_at i (poke s (arm pair socks (give_up i t)).0) ≡ some (poked (fit socks x)) =
      slot_at-poke i s _ (fit socks x) armed ∙ rw (fit-used socks x, e) refl in
    (
      record (poked (fit socks x)) { bytes = 0 },
      slot_at-change i (λ y. record y { bytes = 0 }) _ (poked (fit socks x)) heard,
      fit-used socks x,
      refl,
      refl,
    )
