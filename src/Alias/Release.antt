-- ===== src/Alias/Release.antt =====
-- dt_alias_release_all gives the ledger back what the socket presented.
use shadow_lan.Base.{
  ℕ, ◌≡◌, refl, true, false, ◌&&◌, List, [], ◌∷◌, arith, ◌==◌, inl, inr, if◌then◌else◌, any,
  modify_all, any-modify_all_gone, Bool-cases,
}
use shadow_lan.Ledger.{Entry, Registry, Process, release, own}
use shadow_lan.Alias.{Table, presented, release_all}

-- No row of the registry is this process' claim of the key.
abbrev pub IsReleased : Process → ℕ → ℕ → Registry → Type 0
IsReleased p vport proto g = any (own p vport proto) g.e ≡ false

pub release_gone :
    (p : Process) (v proto : ℕ) (g : Registry) → IsReleased p v proto (release true p v proto g)
unfolding release
release_gone p v proto g =
    any-modify_all_gone (own p v proto) (own p v proto) (λ x. record x { used = false }) (λ x e. e)
      (λ x e. refl) g.e

release_stays :
    (p : Process) (v proto v' proto' : ℕ) (g : Registry)
    → IsReleased p v proto g
    → IsReleased p v proto (release true p v' proto' g)
unfolding release
release_stays p v proto v' proto' g h = stays g.e h
  where
    stays :
        (xs : List Entry)
        → any (own p v proto) xs ≡ false
        → any (own p v proto) (modify_all (own p v' proto') (λ x. record x { used = false }) xs)
          ≡ false
    stays [] k = refl
    stays (x ∷ xs) k = ground (arith, stays xs)

release_all_stays :
    (p : Process) (t : Table) (sock v proto : ℕ) (g : Registry)
    → IsReleased p v proto g
    → IsReleased p v proto (release_all true p t sock g)
unfolding release_all
release_all_stays p [] sock v proto g h = h
release_all_stays p (r ∷ t) sock v proto g h =
    release_all_stays p t sock v proto _ (elim (Bool-cases (presented sock r)) [
      | inl e ↦ rw e (release_stays p v proto r.vport r.proto g h)
      | inr e ↦ rw e h
    ])

-- After dt_alias_release_all the process claims none of the ports that the socket presented, under
-- the protocol that its rows name.
pub release_all_lem :
    (p : Process) (t : Table) (sock : ℕ) (g : Registry) (v proto : ℕ)
    → any (λ r. presented sock r && r.vport == v && r.proto == proto) t ≡ true
    → IsReleased p v proto (release_all true p t sock g)
unfolding release_all
release_all_lem p [] sock g v proto h = absurd (cc)
release_all_lem p (r ∷ t) sock g v proto h =
    elim (Bool-cases (presented sock r && r.vport == v && r.proto == proto)) [
      | inl e ↦
          release_all_stays p t sock v proto _ (here (ground arith) (ground arith) (ground arith))
      | inr e ↦ release_all_lem p t sock _ v proto (rw e at h)
    ]
  where
    here :
        presented sock r ≡ true
        → r.vport ≡ v
        → r.proto ≡ proto
        → IsReleased p v proto (if presented sock r then release true p r.vport r.proto g else g)
    here e e₁ e₂ = rw (e, e₁, e₂) (release_gone p v proto g)
