-- ===== src/Base/Table.antt =====
-- The fixed tables that the hook scans from row 0: first match, change of the first match, change
-- of every match, and how many rows match.
use Prim.Native.Nat.{ℕ, suc, ◌≤◌, ◌<◌}
use mathlib.Core.Path.{◌≡◌, refl}
use mathlib.Core.Bool.{Bool, true, false}
use mathlib.Core.Logic.{inl, inr}
use mathlib.Core.Option
use mathlib.Core.Option.{Option, none, some}
use mathlib.Core.List.{List, [], ◌∷◌}
use native.Mathlib.Omega.{arith}
use shadow_lan.Base.Tests.{if◌then◌else◌, Bool-cases}
use shadow_lan.Base.Lists.{length}

module _ {ℓ} {A : Type ℓ} (p : A → Bool) where
  abbrev pub any : List A → Bool
  any [] = false
  any (x ∷ xs) = if p x then true else any xs

  abbrev pub find? : List A → Option A
  find? [] = none
  find? (x ∷ xs) = if p x then some x else find? xs

  abbrev pub count : List A → ℕ
  count [] = 0
  count (x ∷ xs) = if p x then suc (count xs) else count xs

  -- `for (i...) if (p(t[i])) { f(t[i]); break; }`
  abbrev pub modify_first : (A → A) → List A → List A
  modify_first f [] = []
  modify_first f (x ∷ xs) = if p x then f x ∷ xs else x ∷ modify_first f xs

  -- `for (i...) if (p(t[i])) f(t[i]);`
  abbrev pub modify_all : (A → A) → List A → List A
  modify_all f [] = []
  modify_all f (x ∷ xs) = (if p x then f x else x) ∷ modify_all f xs

module _ {ℓ} {A : Type ℓ} (p : A → Bool) where
  pub find?_sound : (xs : List A) (a : A) → find? p xs ≡ some a → p a ≡ true
  find?_sound [] a h = cc
  find?_sound (x ∷ xs) a h = ground (arith, find?_sound xs a)

  pub find?-none : (xs : List A) → any p xs ≡ false → find? p xs ≡ none
  find?-none [] h = refl
  find?-none (x ∷ xs) h = ground (arith, find?-none xs)

  pub find?-some : (xs : List A) → any p xs ≡ true → (a : A) × (find? p xs ≡ some a) × (p a ≡ true)
  find?-some [] h = absurd (cc)
  find?-some (x ∷ xs) h = elim (Bool-cases (p x)) [
    | inl e ↦ (x, rw e, e)
    | inr e ↦ rw e (find?-some xs (rw e at h))
  ]

  pub any_of_find? : (xs : List A) (a : A) → find? p xs ≡ some a → any p xs ≡ true
  any_of_find? [] a h = cc
  any_of_find? (x ∷ xs) a h = ground (arith, any_of_find? xs a)

  pub any-find? : (xs : List A) → find? p xs ≡ none → any p xs ≡ false
  any-find? [] h = refl
  any-find? (x ∷ xs) h = ground (arith, any-find? xs)

  pub any-count : (xs : List A) → any p xs ≡ false → count p xs ≡ 0
  any-count [] h = refl
  any-count (x ∷ xs) h = ground (arith, any-count xs)

  pub count_pos : (xs : List A) → any p xs ≡ true → 0 < count p xs
  count_pos [] h = absurd (cc)
  count_pos (x ∷ xs) h = ground (arith, count_pos xs)

  pub modify_first_none : (f : A → A) (xs : List A) → any p xs ≡ false → modify_first p f xs ≡ xs
  modify_first_none f [] h = refl
  modify_first_none f (x ∷ xs) h = ground (arith, modify_first_none f xs)

  pub length-modify_first : (f : A → A) (xs : List A) → length (modify_first p f xs) ≡ length xs
  length-modify_first f [] = refl
  length-modify_first f (x ∷ xs) = ground (arith, length-modify_first f xs)

  pub length-modify_all : (f : A → A) (xs : List A) → length (modify_all p f xs) ≡ length xs
  length-modify_all f [] = refl
  length-modify_all f (x ∷ xs) = ground (arith, length-modify_all f xs)

module _ {ℓ} {A : Type ℓ} (p q : A → Bool) (f : A → A) where
  -- The row that a loop changes is the first that a later scan meets.
  pub find?-modify_first_hit :
      ((x : A) → p x ≡ true → q (f x) ≡ true)
      → ((x : A) → q x ≡ true → p x ≡ true)
      → (xs : List A) → find? q (modify_first p f xs) ≡ Option.map f (find? p xs)
  find?-modify_first_hit into from [] = refl
  find?-modify_first_hit into from (x ∷ xs) =
      ground (arith, into x, from x, find?-modify_first_hit into from xs)

  -- A scan that sees no changed row, before or after, is not affected.
  pub find?-modify_first_other :
      ((x : A) → p x ≡ true → (q x ≡ false) × (q (f x) ≡ false))
      → (xs : List A) → find? q (modify_first p f xs) ≡ find? q xs
  find?-modify_first_other apart [] = refl
  find?-modify_first_other apart (x ∷ xs) =
      ground (arith, apart x, find?-modify_first_other apart xs)

  pub find?-modify_all_other :
      ((x : A) → p x ≡ true → (q x ≡ false) × (q (f x) ≡ false))
      → (xs : List A) → find? q (modify_all p f xs) ≡ find? q xs
  find?-modify_all_other apart [] = refl
  find?-modify_all_other apart (x ∷ xs) = ground (arith, apart x, find?-modify_all_other apart xs)

  pub any-modify_all_gone :
      ((x : A) → q x ≡ true → p x ≡ true)
      → ((x : A) → p x ≡ true → q (f x) ≡ false)
      → (xs : List A) → any q (modify_all p f xs) ≡ false
  any-modify_all_gone from gone [] = refl
  any-modify_all_gone from gone (x ∷ xs) =
      ground (arith, from x, gone x, any-modify_all_gone from gone xs)

  pub any-modify_first_hit :
      ((x : A) → p x ≡ true → q (f x) ≡ true)
      → (xs : List A) → any p xs ≡ true
      → any q (modify_first p f xs) ≡ true
  any-modify_first_hit into [] h = cc
  any-modify_first_hit into (x ∷ xs) h = ground (arith, into x, any-modify_first_hit into xs)

  pub any-modify_first_same :
      ((x : A) → p x ≡ true → q (f x) ≡ q x)
      → (xs : List A) → any q (modify_first p f xs) ≡ any q xs
  any-modify_first_same same [] = refl
  any-modify_first_same same (x ∷ xs) = ground (arith, same x, any-modify_first_same same xs)

  pub count-modify_first_same :
      ((x : A) → p x ≡ true → q (f x) ≡ q x)
      → (xs : List A) → count q (modify_first p f xs) ≡ count q xs
  count-modify_first_same same [] = refl
  count-modify_first_same same (x ∷ xs) = ground (arith, same x, count-modify_first_same same xs)

  pub count-modify_first_drop :
      ((x : A) → p x ≡ true → q (f x) ≡ false)
      → (xs : List A) → count q (modify_first p f xs) ≤ count q xs
  count-modify_first_drop gone [] = omega arith
  count-modify_first_drop gone (x ∷ xs) = ground (arith, gone x, count-modify_first_drop gone xs)

  pub count-modify_first_le : (xs : List A) → count q (modify_first p f xs) ≤ suc (count q xs)
  count-modify_first_le [] = omega arith
  count-modify_first_le (x ∷ xs) = ground (arith, count-modify_first_le xs)

  pub count-modify_all_le :
      ((x : A) → p x ≡ true → q (f x) ≡ true → q x ≡ true)
      → (xs : List A) → count q (modify_all p f xs) ≤ count q xs
  count-modify_all_le keep [] = omega arith
  count-modify_all_le keep (x ∷ xs) = ground (arith, keep x, count-modify_all_le keep xs)

  -- A scan keeps the row that it stopped at, if that row is not the changed one.
  pub find?_kept :
      ((x : A) → q (f x) ≡ false)
      → (xs : List A) (y : A) → find? q xs ≡ some y
      → p y ≡ false
      → find? q (modify_first p f xs) ≡ some y
  find?_kept gone [] y h k = cc
  find?_kept gone (x ∷ xs) y h k = ground (arith, gone x, find?_kept gone xs y)

module _ {ℓ} {A : Type ℓ} (p q : A → Bool) (v : A) where
  -- A row that overwrites the first free one is found, where no row was before.
  pub find?_placed :
      q v ≡ true
      → (xs : List A) → any q xs ≡ false
      → any p xs ≡ true
      → find? q (modify_first p (λ _. v) xs) ≡ some v
  find?_placed hit [] h k = cc
  find?_placed hit (x ∷ xs) h k = ground (arith, find?_placed hit xs)

module _ {ℓ} {A : Type ℓ} (p q : A → Bool) (f : A → A) where
  -- The same for a row that keeps some of its fields.
  pub find?_written :
      ((x : A) → p x ≡ true → q (f x) ≡ true)
      → (xs : List A) → any q xs ≡ false
      → any p xs ≡ true
      → (y : A) × (find? q (modify_first p f xs) ≡ some (f y))
  find?_written hit [] h k = absurd (cc)
  find?_written hit (x ∷ xs) h k = elim (Bool-cases (p x)) [
    | inl e ↦ (x, rw e (ground (arith, hit x e)))
    | inr e ↦
        let (y, found) = find?_written hit xs (ground arith) (ground arith) in
        (y, rw e (ground (arith, found)))
  ]

module _ {ℓ} {A : Type ℓ} (p q : A → Bool) where
  pub any-sub :
      ((x : A) → q x ≡ true → p x ≡ true) → (xs : List A) → any p xs ≡ false → any q xs ≡ false
  any-sub only [] h = refl
  any-sub only (x ∷ xs) h = ground (arith, only x, any-sub only xs)

module _ {ℓ} {A : Type ℓ} (p q : A → Bool) (f : A → A) where
  pub find?_written_at :
      (xs : List A) (y : A)
      → any q xs ≡ false
      → find? p xs ≡ some y
      → q (f y) ≡ true
      → find? q (modify_first p f xs) ≡ some (f y)
  find?_written_at [] y h k e = cc
  find?_written_at (x ∷ xs) y h k e = elim (Bool-cases (p x)) [
    | inl hit ↦ rw hit (ground arith)
    | inr miss ↦ rw miss (ground (arith, find?_written_at xs y))
  ]

module _ {ℓ} {A : Type ℓ} (p : A → Bool) (f : A → A) where
  -- Where one row matches, taking it away leaves none.
  pub find?-modify_first_gone :
      ((x : A) → p (f x) ≡ false)
      → (xs : List A) → count p xs ≤ 1
      → find? p (modify_first p f xs) ≡ none
  find?-modify_first_gone gone [] one = refl
  find?-modify_first_gone gone (x ∷ xs) one = elim (Bool-cases (any p xs)) [
    | inl e ↦ ground (arith, gone x, count_pos p xs e, find?-modify_first_gone gone xs)
    | inr e ↦ ground (arith, gone x, find?-none p xs e, find?-modify_first_gone gone xs)
  ]

module _ {ℓ} {A : Type ℓ} (p q : A → Bool) where
  -- A row that one scan meets is the one that another meets, where no other row answers to it.
  pub find?_unique :
      (xs : List A) (a : A)
      → find? p xs ≡ some a
      → q a ≡ true
      → count q xs ≤ 1
      → find? q xs ≡ some a
  find?_unique [] a h k one = absurd (cc)
  find?_unique (x ∷ xs) a h k one = elim (Bool-cases (p x)) [
    | inl e ↦ ground (arith)
    | inr e ↦ elim (Bool-cases (any q xs)) [
      | inl more ↦ ground (arith, count_pos q xs more, find?_unique xs a)
      | inr gone ↦ ground (arith, find?-none q xs gone, find?_unique xs a)
    ]
  ]

module _ {ℓ ℓ'} {A : Type ℓ} {B : Type ℓ'} (p q : A → Bool) (f : A → A) (g : A → B) where
  -- A change of a row that a scan does not look at leaves what is read of the row that it finds.
  pub map-find?-modify_first :
      ((x : A) → p x ≡ true → (q (f x) ≡ q x) × (g (f x) ≡ g x))
      → (xs : List A) → Option.map g (find? q (modify_first p f xs)) ≡ Option.map g (find? q xs)
  map-find?-modify_first same [] = refl
  map-find?-modify_first same (x ∷ xs) = elim (Bool-cases (p x)) [
    | inl e ↦ rw e (ground (arith, same x e))
    | inr e ↦ rw e (ground (arith, map-find?-modify_first same xs))
  ]
