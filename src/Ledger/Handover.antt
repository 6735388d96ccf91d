-- ===== src/Ledger/Handover.antt =====
-- Two processes of one node at one port: exclusion, release, and what sharing leaves open.
use shadow_lan.Base.{
  Every, ℕ, ◌%◌, ◌≤◌, ◌≡◌, ◌≢◌, refl, Bool, true, false, inl, inr, List, [], ◌∷◌, some, arith,
  if◌then◌else◌, any, find?, count, modify_all, ◌&&◌, not, ◌==◌, find?_sound, find?-none, ap, ◌∙◌,
  Bool-cases, count_pos,
}
use shadow_lan.Ledger.{
  Entry, Registry, Process, Os, matches, unused, stale, Verdict, fresh, shared, conflict, entry,
  allocate, claim, release, own, both_reuse,
}
use shadow_lan.Ledger.Owner.{
  owner, alive_self, claim_held, claim_other, claim_free, claim-Outcome, Outcome,
}
use shadow_lan.Ledger.Exclusive.{IsExclusive}

fresh_row :
    (os : Os) (p : Process) (vport proto reuse real : ℕ) (g h : Registry) (r : Verdict)
    → r ≡ fresh
    → Outcome true os p vport proto reuse real g r h
    → (y : Entry) × (owner h p.node vport proto ≡ some y)
      × (y.pid ≡ p.pid)
      × (y.start ≡ os.starttime p.pid)
      × (y.real ≡ real)
      × (y.reuse ≡ reuse % 256)
fresh_row os p vport proto reuse real g h fresh e (_, _, _, y, o, pid, start, real', reuse') =
    (y, o, pid, start, real', reuse')
fresh_row os p vport proto reuse real g h shared e o = absurd (cc)
fresh_row os p vport proto reuse real g h conflict e o = absurd (cc)
fresh_row os p vport proto reuse real g h Verdict.unavailable e o = absurd (cc)

allocate_fresh :
    (os : Os) (new : Entry) (g : Registry) → any unused g.e ≡ true → (allocate os new g).0 ≡ fresh
unfolding allocate
allocate_fresh os new g h = rw h refl

-- A live holder answers for its key against any process of the node.
held_verdict :
    (os : Os) (p q : Process) (vport proto wanted real : ℕ) (h : Registry) (y : Entry)
    → q.node ≡ p.node
    → os.signals p.pid ≡ true
    → p.pid ≢ 0
    → owner h p.node vport proto ≡ some y
    → y.pid ≡ p.pid
    → y.start ≡ os.starttime p.pid
    → (claim true os q vport proto wanted real h).0
      ≡ (if both_reuse proto y.reuse wanted then shared else conflict)
held_verdict os p q vport proto wanted real h y same runs named o e e' =
    ap (λ r. r.0) (claim_held os q vport proto wanted real h y (rw same o) live)
  where
    live : stale os y ≡ false
    live = rw (e, e', alive_self os p vport proto wanted real h runs named)

-- What the processes do to an attached registry
pub data Op : Type 0 where
  claims : Process → ℕ → ℕ → ℕ → ℕ → Op
  releases : Process → ℕ → ℕ → Op

abbrev pub act : Os → Op → Registry → Registry
act os (claims r v k reuse real) g = (claim true os r v k reuse real g).1
act os (releases r v k) g = release true r v k g

abbrev pub acts : Os → List Op → Registry → Registry
acts os [] g = g
acts os (o ∷ ops) g = acts os ops (act os o g)

-- Any claim, and any release but one of the key by the process itself
abbrev pub spares : Process → ℕ → ℕ → Op → Bool
spares p vport proto (claims r v k reuse real) = true
spares p vport proto (releases r v k) =
    not (r.pid == p.pid && (r.node == p.node && (v == vport && k % 256 == proto % 256)))

find?-modify_all_spared :
    (q own : Entry → Bool) (xs : List Entry) (y : Entry)
    → ((x : Entry) → q x ≡ false → q (record x { used = false }) ≡ false)
    → find? q xs ≡ some y
    → own y ≡ false
    → find? q (modify_all own (λ x. record x { used = false }) xs) ≡ some y
find?-modify_all_spared q own [] y gone h spared = absurd (cc)
find?-modify_all_spared q own (x ∷ xs) y gone h spared = elim (Bool-cases (q x)) [
  | inl e ↦ ground arith
  | inr e ↦ ground (arith, gone x e, find?-modify_all_spared q own xs y gone)
]

module _ (os : Os) (p : Process) (vport proto : ℕ) (y : Entry) (live : stale os y ≡ false)
    (mine : y.pid ≡ p.pid) where
  same_key :
      (r : Process) (v k : ℕ) (g : Registry)
      → (r.node == p.node && (v == vport && k % 256 == proto % 256)) ≡ true
      → owner g r.node v k ≡ owner g p.node vport proto
  same_key r v k g h =
      ap (λ (n : ℕ). find? (λ x. x.used && x.node == n && x.vport == v && x.proto == k % 256) g.e)
        {x = r.node} {y = p.node} (ground arith)
      ∙ ap
          (λ (n : ℕ).
            find? (λ x. x.used && x.node == p.node && x.vport == n && x.proto == k % 256) g.e)
          {x = v} {y = vport} (ground arith)
      ∙ ap
          (λ (n : ℕ).
            find? (λ x. x.used && x.node == p.node && x.vport == vport && x.proto == n) g.e)
          {x = k % 256} {y = proto % 256} (ground arith)

  act_holder :
      (o : Op) (g : Registry)
      → spares p vport proto o ≡ true
      → owner g p.node vport proto ≡ some y
      → owner (act os o g) p.node vport proto ≡ some y
  act_holder (claims r v k reuse real) g h held =
      elim (Bool-cases (matches p.node vport proto (entry os r v k reuse real))) [
        | inr e ↦ claim_other os r v k reuse real g p.node vport proto y e held live
        | inl e ↦
            ap (λ z. owner z.1 p.node vport proto)
              (claim_held os r v k reuse real g y (same_key r v k g (ground arith) ∙ held) live)
            ∙ held
      ]
  act_holder (releases r v k) g h held =
      unfold release in
      find?-modify_all_spared (matches p.node vport proto) (own r v k) g.e y (λ x e. ground arith)
        held (ground (arith, find?_sound (matches p.node vport proto) g.e y held))

  acts_holder :
      (ops : List Op) (g : Registry)
      → Every (λ o. spares p vport proto o ≡ true) ops
      → owner g p.node vport proto ≡ some y
      → owner (acts os ops g) p.node vport proto ≡ some y
  acts_holder [] g h held = held
  acts_holder (o ∷ ops) g (h, hs) held = acts_holder ops (act os o g) hs (act_holder o g h held)

module _ (p : Process) (vport proto : ℕ) where
  abbrev key : Entry → Bool
  key = matches p.node vport proto

  abbrev free : Entry → Entry
  free x = record x { used = false }

  still_none :
      (xs : List Entry)
      → any key xs ≡ false
      → any key (modify_all (own p vport proto) free xs) ≡ false
  still_none [] h = refl
  still_none (x ∷ xs) h = ground (arith, still_none xs)

  freed :
      (xs : List Entry) (x : Entry)
      → count key xs ≤ 1
      → find? key xs ≡ some x
      → x.pid ≡ p.pid
      → (any key (modify_all (own p vport proto) free xs) ≡ false)
        × (any unused (modify_all (own p vport proto) free xs) ≡ true)
  freed [] x c h mine = absurd (cc)
  freed (r ∷ xs) x c h mine = elim (Bool-cases (any key xs)) [
    | inl e ↦ ground (arith, count_pos key xs e, freed xs x)
    | inr e ↦ ground (arith, still_none xs e, find?-none key xs e)
  ]

module _ (os : Os) (p q : Process) (vport proto reuse reuse' real real' : ℕ) (g : Registry)
    (same_node : q.node ≡ p.node) where
  -- After a fresh claim, and whatever claims and releases the processes make then on the attached
  -- registry, as long as its holder runs and does not release the key, a claim by any process of the
  -- node for the key is refused, or shared where both are datagram sockets that ask for reuse.
  pub claim-claim :
      (ops : List Op)
      → os.signals p.pid ≡ true
      → p.pid ≢ 0
      → (claim true os p vport proto reuse real g).0 ≡ fresh
      → Every (λ o. spares p vport proto o ≡ true) ops
      → (claim true os q vport proto reuse' real'
          (acts os ops (claim true os p vport proto reuse real g).1)).0
        ≡ (if both_reuse proto (reuse % 256) reuse' then shared else conflict)
  claim-claim ops runs named e spared =
      let (y, o, of_p, stamp, _, asked) =
        fresh_row os p vport proto reuse real g _ _ e
          (claim-Outcome true os p vport proto reuse real g) in
      let live : stale os y ≡ false =
        rw (of_p, stamp, alive_self os p vport proto reuse real g runs named) refl in
      held_verdict os p q vport proto reuse' real' _ y same_node runs named
        (acts_holder os p vport proto y live of_p ops _ spared o) of_p stamp
      ∙ ap (λ (k : ℕ). if both_reuse proto k reuse' then shared else conflict) asked

  -- After its holder has released a port, any process of the node claims it freshly, if the key
  -- had one row.
  pub claim-release :
      (x : Entry)
      → IsExclusive g
      → owner g p.node vport proto ≡ some x
      → x.pid ≡ p.pid
      → (claim true os q vport proto reuse' real' (release true p vport proto g)).0 ≡ fresh
  unfolding IsExclusive release
  claim-release x v h mine =
      let (gone, space) = freed p vport proto g.e x (v p.node vport proto) h mine in
      ap (λ r. r.0)
        (claim_free os q vport proto reuse' real' (release true p vport proto g)
          (rw same_node (find?-none (key p vport proto) (release true p vport proto g).e gone)))
      ∙ allocate_fresh os (entry os q vport proto reuse' real') _ space

-- A sharer of a port leaves no row: once the first holder has released the port, a third process
-- that asks for it alone gets it, while the sharer still has it.
pub shared_unrecorded :
    (os : Os) (p q r : Process) (vport proto reuse real real' : ℕ) (g : Registry) (x : Entry)
    → q.node ≡ p.node
    → r.node ≡ p.node
    → IsExclusive g
    → owner g p.node vport proto ≡ some x
    → x.pid ≡ p.pid
    → stale os x ≡ false
    → both_reuse proto x.reuse reuse ≡ true
    → let (verdict, h) = claim true os q vport proto reuse real g in
      (verdict ≡ shared)
      × ((claim true os r vport proto 0 real' (release true p vport proto h)).0 ≡ fresh)
shared_unrecorded os p q r vport proto reuse real real' g x sq sr v h mine live agree =
    rw entered (refl, claim-release os p r vport proto 0 0 0 real' g sr x v h mine)
  where
    entered : claim true os q vport proto reuse real g ≡ (shared, g)
    entered =
        claim_held os q vport proto reuse real g x (rw sq h) live
        ∙ ap (λ b. (if b then shared else conflict, g)) agree
