-- ===== src/Datagrams/Fanout.antt =====
-- The scan of dt_dispatch_bcast_from reaches each socket's row once, as dt_direct_udp_in does.
use shadow_lan.Base.{
  ◌&&◌, not, ltb, ◌==◌, ℕ, ◌+◌, ◌≤◌, ◌≡◌, refl, sym, ap, ◌∙◌, Bool, true, false, List, [], ◌∷◌,
  ◌++◌, arith, if◌then◌else◌, any, count, modify_first, modify_all, Bool-cases, inl, inr, count_pos,
}
use shadow_lan.Datagrams.{Queue, Dgram, Sockets, of_sock, is_live, dispatch_row, dispatch_rows}
use shadow_lan.Datagrams.Valid.{IsTable, Keeps, of_sock-keeps}

module _ {ℓ} {A : Type ℓ} (p : A → Bool) (f : A → A) where
  modify_first_past :
      (xs ys : List A) → any p xs ≡ false → modify_first p f (xs ++ ys) ≡ xs ++ modify_first p f ys
  modify_first_past [] ys h = refl
  modify_first_past (x ∷ xs) ys h = ground (arith, modify_first_past xs ys)

module _ {ℓ} {A : Type ℓ} (p : A → Bool) where
  count_past : (xs ys : List A) → count p (xs ++ ys) ≡ count p xs + count p ys
  count_past [] ys = omega arith
  count_past (x ∷ xs) ys = ground (arith, count_past xs ys)

snoc_lem :
    {A : Type 0} (xs : List A) (y : A) (ys : List A) → xs ++ (y ∷ ys) ≡ (xs ++ (y ∷ [])) ++ ys
snoc_lem [] y ys = refl
snoc_lem (x ∷ xs) y ys = ap (λ zs. x ∷ zs) (snoc_lem xs y ys)

absent_before :
    (s : ℕ) (r : Queue) (done rs : List Queue)
    → of_sock s r ≡ true
    → count (of_sock s) (done ++ (r ∷ rs)) ≤ 1
    → any (of_sock s) done ≡ false
absent_before s r done rs hit one = elim (Bool-cases (any (of_sock s) done)) [
  | inl e ↦ ground (arith, count_past (of_sock s) done (r ∷ rs), count_pos (of_sock s) done e)
  | inr e ↦ e
]

module _ (k : Sockets) (port : ℕ) (d : Dgram) where
  dispatch_row-Keeps : Keeps (dispatch_row k port d)
  dispatch_row-Keeps = λ e. (ground arith, ground arith)

  abbrev reached : Queue → Queue
  reached r = if is_live r then dispatch_row k port d r else r

  reached-Keeps : Keeps reached
  reached-Keeps = λ e. (ground arith, ground arith)

  -- One row of the scan
  dispatch_at :
      (done rs : List Queue) (r : Queue)
      → ((s : ℕ) → count (of_sock s) (done ++ (r ∷ rs)) ≤ 1)
      → (if is_live r
          then modify_first (of_sock r.gsock) (dispatch_row k port d) (done ++ (r ∷ rs))
          else done ++ (r ∷ rs))
        ≡ (done ++ (reached r ∷ [])) ++ rs
  dispatch_at done rs r one = elim (Bool-cases (is_live r)) [
    | inl e ↦
        let hit : of_sock r.gsock r ≡ true = ground (arith) in
        let absent = absent_before r.gsock r done rs (ground (arith)) (one r.gsock) in
        rw (e, modify_first_past (of_sock r.gsock) (dispatch_row k port d) done (r ∷ rs) absent)
          (rw hit (snoc_lem done (dispatch_row k port d r) rs))
    | inr e ↦ rw e (snoc_lem done r rs)
  ]

  one_each-reached :
      (done rs : List Queue) (r : Queue) (s : ℕ)
      → count (of_sock s) (done ++ (r ∷ rs)) ≤ 1
      → count (of_sock s) ((done ++ (reached r ∷ [])) ++ rs) ≤ 1
  one_each-reached done rs r s one = rw (sym (snoc_lem done (reached r) rs)) (
      ground (
        arith,
        count_past (of_sock s) done (r ∷ rs),
        count_past (of_sock s) done (reached r ∷ rs),
        of_sock-keeps reached reached-Keeps s r,
      ))

  dispatch_rows_past :
      (rs done : List Queue)
      → ((s : ℕ) → count (of_sock s) (done ++ rs) ≤ 1)
      → dispatch_rows k port d rs (done ++ rs)
        ≡ done ++ modify_all is_live (dispatch_row k port d) rs
  unfolding dispatch_rows
  dispatch_rows_past [] done one = refl
  dispatch_rows_past (r ∷ rs) done one = rw (dispatch_at done rs r one) (
      dispatch_rows_past rs (done ++ (reached r ∷ [])) (λ s. one_each-reached done rs r s (one s))
      ∙ sym (snoc_lem done _ _))

  -- The rows that are to get a datagram for the port: in use and not closed, of a socket at the port,
  -- by its virtual port or, where it has none, the kernel's, with room for one more, and memory.
  abbrev pub takes : Queue → Bool
  takes e =
      e.used
      && (not e.closed
          && ((if e.vport == 0 then k.bound_port e.gsock else e.vport) == port
              && (ltb e.nq 64 && k.memory e.gsock)))

  abbrev pub with_last : Queue → Queue
  with_last e = record e { q = e.q ++ (d ∷ []); nq = e.nq + 1; signals = e.signals + 1 }

  takes_lem :
      (t : List Queue) → modify_all is_live (dispatch_row k port d) t ≡ modify_all takes with_last t
  takes_lem [] = refl
  takes_lem (e ∷ t) = ground (arith, takes_lem t)

  -- On a valid table the fan-out of dt_dispatch_bcast_from, which finds each live row's socket anew,
  -- puts the datagram last in the queue of each live row at the port that has room and memory for
  -- it, once, and signals its socket once; every other row stays as it was.
  pub dispatch_rows_lem :
      (t : List Queue) → IsTable t → dispatch_rows k port d t t ≡ modify_all takes with_last t
  dispatch_rows_lem t v = dispatch_rows_past t [] v.one_each ∙ takes_lem t
