-- ===== src/Alias/Presentation.antt =====
-- What the lookups of hk_alias.c answer after dt_alias_add and dt_alias_drop.
use shadow_lan.Base.{
  ℕ, ◌<◌, ◌≡◌, ◌≢◌, ◌∙◌, ap, refl, Bool, true, false, ◌⊎◌, inl, inr, [], ◌∷◌, Option, none, some,
  arith, any, find?, modify_first, find?-none, modify_first_none, find?_written,
  find?-modify_first_hit, find?-modify_first_other, find?-modify_all_other, any-modify_all_gone,
  find?-some, any-sub, Bool-cases,
}
use mathlib.Core.Option
use shadow_lan.Alias.{
  Row, Table, of_sock, is_free, rewrite, occupy, add, presented, vport, serves, real, uses,
  vport_by_real, clear, drop,
}

any-presented :
    (sock : ℕ) (t : Table) → any (of_sock sock) t ≡ false → any (presented sock) t ≡ false
any-presented sock [] h = refl
any-presented sock (r ∷ t) h = ground (arith, any-presented sock t)

module _ (t : Table) (sock v r proto : ℕ) where
  add_old :
      any (of_sock sock) t ≡ true
      → add t sock v r proto ≡ modify_first (of_sock sock) (rewrite v r proto) t
  unfolding add
  add_old h = rw h refl

  add_new :
      any (of_sock sock) t ≡ false
      → add t sock v r proto ≡ modify_first is_free (occupy sock v r proto) t
  unfolding add
  add_new h = rw h refl

  module _ (q : Row → Bool)
      (old : (y : Row) → of_sock sock y ≡ true → q (rewrite v r proto y) ≡ true)
      (new : (y : Row) → is_free y ≡ true → q (occupy sock v r proto y) ≡ true)
      (space : (any (of_sock sock) t ≡ true) ⊎ (any is_free t ≡ true)) where
    abbrev Written : Type 0
    Written = (y : Row) × (find? q (add t sock v r proto) ≡ some y) × (y.vport ≡ v) × (y.real ≡ r)

    -- A scan that passes no row of the table passes the written one.
    only_written : any q t ≡ false → Written
    only_written alone = elim (Bool-cases (any (of_sock sock) t)) [
      | inl e ↦
          let (y, found) = find?_written (of_sock sock) q (rewrite v r proto) old t alone e in
          (rewrite v r proto y, rw (add_old e) found, refl, refl)
      | inr e ↦
          let (y, found) =
            find?_written is_free q (occupy sock v r proto) new t alone (ground arith) in
          (occupy sock v r proto y, rw (add_new e) found, refl, refl)
    ]

    -- So does a scan that only passes rows of the socket.
    first_written : ((y : Row) → q y ≡ true → of_sock sock y ≡ true) → Written
    first_written only = elim (Bool-cases (any (of_sock sock) t)) [
      | inl e ↦
          let (y, found, _) = find?-some (of_sock sock) t e in
          (
            rewrite v r proto y,
            rw (add_old e) (
                find?-modify_first_hit (of_sock sock) q (rewrite v r proto) old only t
                ∙ ap (Option.map (rewrite v r proto)) found),
            refl,
            refl,
          )
      | inr e ↦ only_written (any-sub (of_sock sock) q only t e)
    ]

  -- A socket that has a row, or finds a free one, presents the positive port that it asked for.
  pub vport-add :
      0 < v
      → (any (of_sock sock) t ≡ true) ⊎ (any is_free t ≡ true)
      → vport (add t sock v r proto) sock ≡ some v
  unfolding vport
  vport-add pos space =
      let (y, found, same, _) =
        first_written (presented sock) (λ y e. ground arith) (λ y e. ground arith) space
          (λ y e. ground arith) in
      rw (found, vport) (ap some same)

  -- Both directions of the new pair are looked up, if no row serves its port or uses its real port.
  pub real-add :
      0 < v
      → 0 < r
      → proto < 256
      → sock ≢ 0
      → (any (of_sock sock) t ≡ true) ⊎ (any is_free t ≡ true)
      → any (serves v proto) t ≡ false
      → any (uses r proto) t ≡ false
      → (real (add t sock v r proto) v proto ≡ r)
        × (vport_by_real (add t sock v r proto) r proto ≡ v)
  unfolding real vport_by_real
  real-add pos pos' byte named space none_serves none_uses =
      let (y, found, _, same) =
        only_written (serves v proto) (λ y e. ground arith) (λ y e. ground arith) space
          none_serves in
      let (y', found', same', _) =
        only_written (uses r proto) (λ y e. ground arith) (λ y e. ground arith) space none_uses in
      (rw (found, real) same, rw (found', vport_by_real) same')

  -- With no row and no room the request is lost, and the caller is not told.
  pub add_full :
      any (of_sock sock) t ≡ false
      → any is_free t ≡ false
      → (add t sock v r proto ≡ t) × (vport (add t sock v r proto) sock ≡ none)
  unfolding vport
  add_full h k =
      rw same (refl, rw (find?-none (presented sock) t (any-presented sock t h), vport) refl)
    where
      same : add t sock v r proto ≡ t
      same = add_new h ∙ modify_first_none is_free (occupy sock v r proto) t k

  -- Another socket's presentation stays as it was.
  pub vport-add_other : (s : ℕ) → s ≢ sock → s ≢ 0 → vport (add t sock v r proto) s ≡ vport t s
  unfolding vport
  vport-add_other s apart named =
      ap (λ (o : Option Row). elim o [ none ↦ none | some y ↦ some y.vport ]) same
    where
      same : find? (presented s) (add t sock v r proto) ≡ find? (presented s) t
      same = elim (Bool-cases (any (of_sock sock) t)) [
        | inl e ↦ rw (add_old e) (
            find?-modify_first_other (of_sock sock) (presented s) (rewrite v r proto)
              (λ y e. ground arith) t)
        | inr e ↦ rw (add_new e) (
            find?-modify_first_other is_free (presented s) (occupy sock v r proto)
              (λ y e. ground arith) t)
      ]

-- After dt_alias_drop the socket has no row, and every other socket presents what it did.
pub vport-drop :
    (t : Table) (sock : ℕ)
    → sock ≢ 0
    → (any (of_sock sock) (drop t sock) ≡ false)
      × ((s : ℕ) → s ≢ sock → s ≢ 0 → vport (drop t sock) s ≡ vport t s)
unfolding vport drop
vport-drop t sock named = (
  any-modify_all_gone (of_sock sock) (of_sock sock) clear (λ y e. e) (λ y e. ground arith) t,
  λ s apart n.
      ap (λ (o : Option Row). elim o [ none ↦ none | some y ↦ some y.vport ])
        (find?-modify_all_other (of_sock sock) (presented s) clear (λ y e. ground arith) t),
)
