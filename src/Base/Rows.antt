-- ===== src/Base/Rows.antt =====
-- A condition on every row of a table, kept by the scans that change rows.
use mathlib.Core.Path.{◌≡◌}
use mathlib.Core.Bool.{Bool, true}
use mathlib.Core.Logic.{inl, inr}
use mathlib.Core.Option.{some}
use mathlib.Core.List.{List, [], ◌∷◌}
use native.Mathlib.Omega.{arith}
use shadow_lan.Base.Tests.{Bool-cases}
use shadow_lan.Base.Table.{find?, modify_first, modify_all}

module _ {ℓ} {A : Type ℓ} where
  abbrev pub Every : (A → Type 0) → List A → Type 0
  Every P [] = Unit
  Every P (x ∷ xs) = P x × Every P xs

module _ {ℓ} {A : Type ℓ} (P : A → Type 0) (p : A → Bool) (f : A → A) where
  pub Every-modify_first :
      ((x : A) → p x ≡ true → P x → P (f x))
      → (xs : List A) → Every P xs
      → Every P (modify_first p f xs)
  Every-modify_first keep [] h = tt
  Every-modify_first keep (x ∷ xs) h = elim (Bool-cases (p x)) [
    | inl e ↦ rw e (keep x e h.0, h.1)
    | inr e ↦ rw e (h.0, Every-modify_first keep xs h.1)
  ]

  pub Every-modify_all :
      ((x : A) → p x ≡ true → P x → P (f x))
      → (xs : List A) → Every P xs
      → Every P (modify_all p f xs)
  Every-modify_all keep [] h = tt
  Every-modify_all keep (x ∷ xs) h = elim (Bool-cases (p x)) [
    | inl e ↦ rw e (keep x e h.0, Every-modify_all keep xs h.1)
    | inr e ↦ rw e (h.0, Every-modify_all keep xs h.1)
  ]

module _ {ℓ} {A : Type ℓ} (P : A → Type 0) (p : A → Bool) where
  pub Every-find? : (xs : List A) (a : A) → Every P xs → find? p xs ≡ some a → P a
  Every-find? [] a h e = absurd (cc)
  Every-find? (x ∷ xs) a h e = elim (Bool-cases (p x)) [
    | inl hit ↦ ground (arith)
    | inr miss ↦ Every-find? xs a h.1 (ground arith)
  ]
