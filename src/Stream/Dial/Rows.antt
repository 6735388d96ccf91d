-- ===== src/Stream/Dial/Rows.antt =====
-- hook/hk_stream.c, dt_stream_thread: the row that the thread's pointer names, and the others.
use mathlib.Core.Option
use shadow_lan.Base.{
  ◌==◌, if◌then◌else◌, ℕ, zero, suc, ◌≡◌, ◌≢◌, ap, Bool, true, false, List, [], ◌∷◌, Option, none,
  some, arith, any, find?, modify_first, Bool-cases, inl, inr, refl,
}
use shadow_lan.Stream.{Stream}
use shadow_lan.Stream.Dial.{row_at, change_at, position}

pub row_at-change_at :
    (i : ℕ) (f : Stream → Stream) (t : List Stream)
    → row_at i (change_at i f t) ≡ Option.map f (row_at i t)
row_at-change_at zero f [] = refl
row_at-change_at (suc i) f [] = refl
row_at-change_at zero f (x ∷ t) = refl
row_at-change_at (suc i) f (x ∷ t) = row_at-change_at i f t

pub row_at-change_at_other :
    (i j : ℕ) (f : Stream → Stream) (t : List Stream)
    → j ≢ i
    → row_at j (change_at i f t) ≡ row_at j t
row_at-change_at_other i j f [] ne = refl
row_at-change_at_other zero zero f (x ∷ t) ne = absurd (ne refl)
row_at-change_at_other zero (suc j) f (x ∷ t) ne = refl
row_at-change_at_other (suc i) zero f (x ∷ t) ne = refl
row_at-change_at_other (suc i) (suc j) f (x ∷ t) ne =
    row_at-change_at_other i j f t (λ e. ne (ap suc e))

abbrev pub is_at : ℕ → Option ℕ → Bool
is_at j none = false
is_at j (some i) = i == j

is_at-zero : (o : Option ℕ) → is_at 0 (Option.map suc o) ≡ false
is_at-zero none = refl
is_at-zero (some i) = ground arith

is_at-suc : (j : ℕ) (o : Option ℕ) → is_at (suc j) (Option.map suc o) ≡ is_at j o
is_at-suc j none = refl
is_at-suc j (some i) = ground arith

-- A change of the first match changes the row of that number, and no other.
pub row_at-modify_first :
    (p : Stream → Bool) (f : Stream → Stream) (j : ℕ) (t : List Stream) (x : Stream)
    → row_at j t ≡ some x
    → row_at j (modify_first p f t) ≡ some (if is_at j (position p t) then f x else x)
row_at-modify_first p f j [] x at = absurd (cc)
row_at-modify_first p f zero (y ∷ t) x at = elim (Bool-cases (p y)) [
  | inl hit ↦ rw hit (ground (arith, ap (Option.map f) at))
  | inr miss ↦ rw (miss, is_at-zero (position p t)) (ground arith)
]
row_at-modify_first p f (suc j) (y ∷ t) x at = elim (Bool-cases (p y)) [
  | inl hit ↦ rw hit (ground arith)
  | inr miss ↦ rw (miss, is_at-suc j (position p t)) (row_at-modify_first p f j t x at)
]

pub row_at-modify_first_miss :
    (p : Stream → Bool) (f : Stream → Stream) (j : ℕ) (t : List Stream) (x : Stream)
    → row_at j t ≡ some x
    → p x ≡ false
    → row_at j (modify_first p f t) ≡ some x
row_at-modify_first_miss p f j [] x at no_hit = absurd (cc)
row_at-modify_first_miss p f zero (y ∷ t) x at no_hit = elim (Bool-cases (p y)) [
  | inl hit ↦ absurd (ground arith)
  | inr miss ↦ rw miss (ground arith)
]
row_at-modify_first_miss p f (suc j) (y ∷ t) x at no_hit = elim (Bool-cases (p y)) [
  | inl hit ↦ rw hit (ground arith)
  | inr miss ↦ rw miss (row_at-modify_first_miss p f j t x at no_hit)
]

not_zero : (o : Option ℕ) → Option.map suc o ≢ some 0
not_zero none e = cc
not_zero (some k) e = absurd (ground arith)

shifted : (i : ℕ) (o : Option ℕ) → Option.map suc o ≡ some (suc i) → o ≡ some i
shifted i none e = cc
shifted i (some k) e = ground arith

-- The row that a loop takes first, once changed there by its number, is what a later scan finds.
pub find?-change_at :
    (p q : Stream → Bool) (g f : Stream → Stream) (i : ℕ) (t : List Stream) (x : Stream)
    → any q t ≡ false
    → position p t ≡ some i
    → row_at i t ≡ some x
    → q (f (g x)) ≡ true
    → find? q (change_at i f (modify_first p g t)) ≡ some (f (g x))
find?-change_at p q g f i [] x none_there pos at hit = absurd (cc)
find?-change_at p q g f zero (y ∷ t) x none_there pos at hit = elim (Bool-cases (p y)) [
  | inl e ↦ rw e (ground (arith, ap (Option.map f) at))
  | inr e ↦ absurd (not_zero (position p t) (rw e at pos))
]
find?-change_at p q g f (suc i) (y ∷ t) x none_there pos at hit = elim (Bool-cases (p y)) [
  | inl e ↦ absurd (ground arith)
  | inr e ↦ rw e (
      ground (
        arith,
        find?-change_at p q g f i t x (ground arith) (shifted i (position p t) (rw e at pos)) at
            hit,
      ))
]
