-- ===== src/Ledger/Exclusive.antt =====
-- No key of the registry ever has two rows.
use shadow_lan.Base.{
  ℕ, suc, ◌%◌, ◌≤◌, ◌≡◌, refl, Bool, true, false, inl, inr, zero, replicate, ◌==◌, ==_iff, List, [],
  ◌∷◌, none, arith, any, count, modify_first, any-count, any-find?, count-modify_first_same,
  count-modify_first_drop, count-modify_first_le, count-modify_all_le, Option-cases, Bool-cases,
}
use shadow_lan.Ledger.{
  Entry, Registry, Process, Os, matches, unused, stale, entry, take_over, allocate, claim, release,
  own, attach, zeroed, slp_max, slp_magic,
}
use shadow_lan.Ledger.Owner.{owner, claim_held, claim-stale, claim_free}

unfoldable pub IsExclusive : Registry → Type 0
IsExclusive g = (node vport proto : ℕ) → count (matches node vport proto) g.e ≤ 1

any_same_key :
    (a b c a' b' c' : ℕ) (xs : List Entry)
    → a ≡ a'
    → b ≡ b'
    → c % 256 ≡ c' % 256
    → any (matches a b c) xs ≡ any (matches a' b' c') xs
any_same_key a b c a' b' c' [] e₁ e₂ e₃ = refl
any_same_key a b c a' b' c' (x ∷ xs) e₁ e₂ e₃ =
    ground (arith, any_same_key a b c a' b' c' xs e₁ e₂ e₃)

module _ (os : Os) (p : Process) (vport proto reuse real : ℕ) (g : Registry) where
  module _ (node' vport' proto' : ℕ) (v : count (matches node' vport' proto') g.e ≤ 1) where
    abbrev new : Entry
    new = entry os p vport proto reuse real

    abbrev key : Entry → Bool
    key = matches node' vport' proto'

    no_row : owner g p.node vport proto ≡ none → key new ≡ true → any key g.e ≡ false
    no_row h e = ground (
      arith,
      any_same_key p.node vport proto node' vport' proto' g.e,
      any-find? (matches p.node vport proto) g.e h,
    )

    -- The new row goes in where its key has none.
    place_le :
        (free : Entry → Bool)
        → owner g p.node vport proto ≡ none
        → count key (modify_first free (λ _. new) g.e) ≤ 1
    place_le free h = elim (Bool-cases (key new)) [
      | inl e ↦
          omega
            (arith, count-modify_first_le free key (λ _. new) g.e, any-count key g.e (no_row h e))
      | inr e ↦ omega (arith, v, count-modify_first_drop free key (λ _. new) (λ x _. e) g.e)
    ]

    take_over_le :
        count key (modify_first (matches p.node vport proto) (take_over os p reuse real) g.e) ≤ 1
    take_over_le =
        rw
          (count-modify_first_same (matches p.node vport proto) key (take_over os p reuse real)
            (λ x e. refl) g.e)
          v

    allocate_le : owner g p.node vport proto ≡ none → count key (allocate os new g).1.e ≤ 1
    unfolding allocate
    allocate_le h = elim (Bool-cases (any unused g.e)) [
      | inl e ↦ rw e (place_le unused h)
      | inr e ↦ elim (Bool-cases (any (stale os) g.e)) [
        | inl e' ↦ rw (e, e') (place_le (stale os) h)
        | inr e' ↦ rw (e, e') v
      ]
    ]

    claim_le : count key (claim true os p vport proto reuse real g).1.e ≤ 1
    claim_le = elim (Option-cases (owner g p.node vport proto)) [
      | inl h ↦ rw (claim_free os p vport proto reuse real g h) (allocate_le h)
      | inr (x, h) ↦ elim (Bool-cases (stale os x)) [
        | inl s ↦ rw (claim-stale os p vport proto reuse real g x h s) take_over_le
        | inr s ↦ rw (claim_held os p vport proto reuse real g x h s) v
      ]
    ]

  -- slp_claim keeps every key of the registry down to one row, whatever it answers.
  pub claim-IsExclusive :
      (attached : Bool)
      → IsExclusive g
      → IsExclusive (claim attached os p vport proto reuse real g).1
  unfolding IsExclusive
  claim-IsExclusive true v node' vport' proto' =
      claim_le node' vport' proto' (v node' vport' proto')
  claim-IsExclusive false v node' vport' proto' = unfold claim in v node' vport' proto'

-- So does slp_release.
pub release-IsExclusive :
    (attached : Bool) (p : Process) (vport proto : ℕ) (g : Registry)
    → IsExclusive g
    → IsExclusive (release attached p vport proto g)
unfolding IsExclusive release
release-IsExclusive false p vport proto g v node' vport' proto' = v node' vport' proto'
release-IsExclusive true p vport proto g v node' vport' proto' =
    omega (arith, v node' vport' proto', fewer)
  where
    fewer :
        count (matches node' vport' proto') (release true p vport proto g).e
        ≤ count (matches node' vport' proto') g.e
    fewer =
        count-modify_all_le (own p vport proto) (matches node' vport' proto')
          (λ x. record x { used = false }) (λ x e k. absurd (cc)) g.e

count-zeroed : (node vport proto n : ℕ) → count (matches node vport proto) (replicate n zeroed) ≡ 0
count-zeroed node vport proto zero = refl
count-zeroed node vport proto (suc n) = count-zeroed node vport proto n

-- Attaching keeps a registry that has the magic number as it is, and wipes any other to one where
-- no key has a row; the result is exclusive if the kept one was.
pub attach-IsExclusive :
    (magic : ℕ) (g : Registry) → (magic ≡ slp_magic → IsExclusive g) → IsExclusive (attach magic g)
unfolding attach
attach-IsExclusive magic g v = elim (Bool-cases (magic == slp_magic)) [
  | inl e ↦ rw e (v ((==_iff magic slp_magic).0 e))
  | inr e ↦ rw e (
      unfold IsExclusive in
      λ node vport proto. omega (arith, count-zeroed node vport proto slp_max))
]
