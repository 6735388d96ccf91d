-- ===== src/Ledger/Owner.antt =====
-- Who holds a key after slp_claim: each verdict, the keys of others, and the rows that are left.
use shadow_lan.Base.{
  ℕ, ◌%◌, ◌≡◌, ◌≢◌, ap, ◌∙◌, refl, Bool, true, false, ◌⊎◌, inl, inr, Option, none, some, arith,
  if◌then◌else◌, any, find?, modify_first, find?_sound, find?_kept, find?_placed,
  find?-modify_first_hit, find?-modify_first_other, any-find?, Option-cases, Bool-cases,
}
use mathlib.Core.Option
use shadow_lan.Ledger.{
  Entry, Registry, Process, Os, alive, matches, unused, stale, Verdict, fresh, shared, conflict,
  unavailable, entry, take_over, allocate, both_reuse, claim, bump,
}

-- The row that answers for a key.
abbrev pub owner : Registry → ℕ → ℕ → ℕ → Option Entry
owner g node vport proto = find? (matches node vport proto) g.e

module _ (os : Os) (p : Process) (vport proto reuse real : ℕ) (g : Registry) where
  -- A process that is running sees its own stamp as alive.
  pub alive_self : os.signals p.pid ≡ true → p.pid ≢ 0 → alive os p.pid (os.starttime p.pid) ≡ true
  unfolding alive
  alive_self s n = ground arith

  pub claim_held :
      (x : Entry)
      → owner g p.node vport proto ≡ some x
      → stale os x ≡ false
      → claim true os p vport proto reuse real g
        ≡ (if both_reuse proto x.reuse reuse then shared else conflict, g)
  unfolding claim
  claim_held x h s = rw (h, claim) (ground arith)

  pub claim-stale :
      (x : Entry)
      → owner g p.node vport proto ≡ some x
      → stale os x ≡ true
      → claim true os p vport proto reuse real g ≡ (
        fresh,
        record g { e = modify_first (matches p.node vport proto) (take_over os p reuse real) g.e },
      )
  unfolding claim
  claim-stale x h s = rw (h, claim) (ground arith)

  pub claim_free :
      owner g p.node vport proto ≡ none
      → claim true os p vport proto reuse real g ≡ allocate os (entry os p vport proto reuse real) g
  unfolding claim
  claim_free h = rw (h, claim) refl

module _ (os : Os) (p : Process) (vport proto reuse real : ℕ) (g : Registry) where
  module _ (node' vport' proto' : ℕ) (y : Entry)
      (apart : matches node' vport' proto' (entry os p vport proto reuse real) ≡ false)
      (h : owner g node' vport' proto' ≡ some y) (live : stale os y ≡ false) where
    is_used : unused y ≡ false
    is_used = ground (arith, find?_sound (matches node' vport' proto') g.e y h)

    allocate_other :
        owner (allocate os (entry os p vport proto reuse real) g).1 node' vport' proto' ≡ some y
    unfolding allocate
    allocate_other = elim (Bool-cases (any unused g.e)) [
      | inl e ↦ rw e (find?_kept unused _ _ (λ x. apart) g.e y h is_used)
      | inr e ↦ elim (Bool-cases (any (stale os) g.e)) [
        | inl e' ↦ rw (e, e') (find?_kept (stale os) _ _ (λ x. apart) g.e y h live)
        | inr e' ↦ rw (e, e') h
      ]
    ]

    take_over_other :
        find?
          (matches node' vport' proto')
          (modify_first (matches p.node vport proto) (take_over os p reuse real) g.e)
        ≡ some y
    take_over_other =
        find?-modify_first_other (matches p.node vport proto) (matches node' vport' proto')
          (take_over os p reuse real) (λ x e. ground arith) g.e
        ∙ h

    -- A claim leaves every other key with the live holder that it has.
    pub claim_other :
        owner (claim true os p vport proto reuse real g).1 node' vport' proto' ≡ some y
    claim_other = elim (Option-cases (owner g p.node vport proto)) [
      | inl e ↦ rw (claim_free os p vport proto reuse real g e) allocate_other
      | inr (x, e) ↦ elim (Bool-cases (stale os x)) [
        | inl s ↦ rw (claim-stale os p vport proto reuse real g x e s) take_over_other
        | inr s ↦ rw (claim_held os p vport proto reuse real g x e s) h
      ]
    ]

-- No live holder answers for the key.
abbrev pub IsOpen : Os → Option Entry → Type 0
IsOpen os none = Unit
IsOpen os (some x) = stale os x ≡ true

-- What slp_claim promises for each verdict, from the registry before and after.
abbrev pub Outcome : Bool → Os → Process → ℕ → ℕ → ℕ → ℕ → Registry → Verdict → Registry → Type 0
Outcome attached os p vport proto reuse real g fresh h =
    (attached ≡ true)
    × IsOpen os (owner g p.node vport proto)
    × ((node' vport' proto' : ℕ) (y : Entry)
        → matches node' vport' proto' (entry os p vport proto reuse real) ≡ false
        → owner g node' vport' proto' ≡ some y
        → stale os y ≡ false
        → owner h node' vport' proto' ≡ some y)
    × (y : Entry) × (owner h p.node vport proto ≡ some y)
    × (y.pid ≡ p.pid)
    × (y.start ≡ os.starttime p.pid)
    × (y.real ≡ real)
    × (y.reuse ≡ reuse % 256)
Outcome attached os p vport proto reuse real g shared h =
    (attached ≡ true)
    × (x : Entry) × (owner g p.node vport proto ≡ some x)
    × (stale os x ≡ false)
    × (both_reuse proto x.reuse reuse ≡ true)
    × (h ≡ g)
Outcome attached os p vport proto reuse real g conflict h =
    (attached ≡ true)
    × (x : Entry) × (owner g p.node vport proto ≡ some x)
    × (stale os x ≡ false)
    × (both_reuse proto x.reuse reuse ≡ false)
    × (h ≡ g)
Outcome attached os p vport proto reuse real g unavailable h =
    ((attached ≡ false)
      ⊎ ((owner g p.node vport proto ≡ none)
          × (any unused g.e ≡ false)
          × (any (stale os) g.e ≡ false)))
    × (h ≡ g)

module _ (os : Os) (p : Process) (vport proto reuse real : ℕ) (g : Registry) where
  abbrev Kept : Verdict × Registry → Type 0
  Kept r = Outcome true os p vport proto reuse real g r.0 r.1

  new_matches : matches p.node vport proto (entry os p vport proto reuse real) ≡ true
  new_matches = ground arith

  abbrev new : Entry
  new = entry os p vport proto reuse real

  placed :
      (free : Entry → Bool)
      → owner g p.node vport proto ≡ none
      → any free g.e ≡ true
      → find? (matches p.node vport proto) (modify_first free (λ _. new) g.e) ≡ some new
  placed free h e =
      find?_placed free (matches p.node vport proto) new new_matches g.e (any-find? _ g.e h) e

  fresh_at :
      (free : Entry → Bool)
      → owner g p.node vport proto ≡ none
      → any free g.e ≡ true
      → allocate os new g ≡ (fresh, bump g (modify_first free (λ _. new) g.e))
      → Kept (allocate os new g)
  fresh_at free h e same = rw same (
    refl,
    rw h tt,
    λ a b c y m o l. rw same at (allocate_other os p vport proto reuse real g a b c y m o l),
    new,
    placed free h e,
    refl,
    refl,
    refl,
    refl,
  )

  allocate_outcome : owner g p.node vport proto ≡ none → Kept (allocate os new g)
  allocate_outcome h = elim (Bool-cases (any unused g.e)) [
    | inl e ↦ fresh_at unused h e (unfold allocate in rw e refl)
    | inr e ↦ elim (Bool-cases (any (stale os) g.e)) [
      | inl e' ↦ fresh_at (stale os) h e' (unfold allocate in rw (e, e') refl)
      | inr e' ↦ rw (allocate_none e e') (inr (h, e, e'), refl)
    ]
  ]
    where
      allocate_none :
          any unused g.e ≡ false → any (stale os) g.e ≡ false → allocate os new g ≡ (unavailable, g)
      allocate_none e e' = unfold allocate in rw (e, e') refl

  taken_over_owner :
      (x : Entry)
      → owner g p.node vport proto ≡ some x
      → find?
          (matches p.node vport proto)
          (modify_first (matches p.node vport proto) (take_over os p reuse real) g.e)
        ≡ some (take_over os p reuse real x)
  taken_over_owner x h =
      find?-modify_first_hit (matches p.node vport proto) (matches p.node vport proto)
        (take_over os p reuse real) (λ y e. e) (λ y e. e) g.e
      ∙ ap (Option.map (take_over os p reuse real)) h

  claim_attached : Kept (claim true os p vport proto reuse real g)
  claim_attached = elim (Option-cases (owner g p.node vport proto)) [
    | inl h ↦ rw (claim_free os p vport proto reuse real g h) (allocate_outcome h)
    | inr (x, h) ↦ elim (Bool-cases (stale os x)) [
      | inl s ↦ rw (claim-stale os p vport proto reuse real g x h s) (
        refl,
        rw h s,
        λ a b c y m o l. take_over_other os p vport proto reuse real g a b c y m o l,
        take_over os p reuse real x,
        taken_over_owner x h,
        refl,
        refl,
        refl,
        refl,
      )
      | inr s ↦
          rw (claim_held os p vport proto reuse real g x h s)
            (elim (Bool-cases (both_reuse proto x.reuse reuse)) [
              | inl b ↦ rw b (refl, x, h, s, b, refl)
              | inr b ↦ rw b (refl, x, h, s, b, refl)
            ])
    ]
  ]

-- Every verdict of slp_claim tells the truth about the registry. A fresh claim finds no live holder
-- of its key, the process answers for the key after it, and every other key with a live holder keeps
-- it; a shared or refused claim names a live holder, with or without the agreement to share; an
-- unavailable one has not attached, or finds the key free and every row taken by a live process. All
-- but the first leave the registry as it was.
pub claim-Outcome :
    (attached : Bool) (os : Os) (p : Process) (vport proto reuse real : ℕ) (g : Registry)
    → let r = claim attached os p vport proto reuse real g in
      Outcome attached os p vport proto reuse real g r.0 r.1
claim-Outcome true os p vport proto reuse real g = claim_attached os p vport proto reuse real g
claim-Outcome false os p vport proto reuse real g = unfold claim in (inl refl, refl)
