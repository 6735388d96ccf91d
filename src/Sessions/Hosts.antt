-- ===== src/Sessions/Hosts.antt =====
-- The table of hosted streams: dt_on_streq's row answers for its stream until dt_hs_close or the
-- sweep takes it.
use shadow_lan.Base.{
  ℕ, ◌≤◌, ◌≡◌, ◌≢◌, refl, Bool, true, false, ◌&&◌, inl, inr, List, [], ◌∷◌, none, some, arith,
  if◌then◌else◌, any, find?, count, modify_first, modify_all, Bool-cases, Option-cases, find?-some,
  find?-none, find?_written_at, find?-modify_first_gone, find?-modify_first_other, count_pos,
}
use shadow_lan.Ports.{owns_listen}
use shadow_lan.Sessions.{
  Host, of_sid, is_free, hs_by_sid, vacate, hs_close, pending, on_streq, is_stuck, sweep_hosts,
}

-- No two rows serve the same stream.
unfoldable pub IsTable : List Host → Type 0
IsTable t = (sid : ℕ) → count (of_sid sid) t ≤ 1

module _ (sid : ℕ) (t : List Host) where
  -- After dt_hs_close no row serves the stream, and every other stream keeps its row.
  pub hs_by_sid-hs_close :
      IsTable t
      → (hs_by_sid sid (hs_close sid t).0 ≡ none)
        × ((other : ℕ) → other ≢ sid → hs_by_sid other (hs_close sid t).0 ≡ hs_by_sid other t)
  unfolding hs_by_sid hs_close IsTable
  hs_by_sid-hs_close valid = elim (Option-cases (find? (of_sid sid) t)) [
    | inl e ↦ rw (e, hs_close) (e, λ other apart. refl)
    | inr (h, e) ↦
        rw (e, hs_close)
          (
            find?-modify_first_gone (of_sid sid) vacate (λ x. refl) t (valid sid),
            λ other apart.
                find?-modify_first_other (of_sid sid) (of_sid other) vacate (λ x k. ground arith) t,
          )
  ]

module _ (listens : List ℕ) (sid gport ovirt now : ℕ) (t : List Host) where
  abbrev opened : List Host
  opened = modify_first is_free (pending sid gport ovirt now) t

  abbrev accepts : Bool
  accepts = owns_listen gport listens && any is_free t

  streq_yes : accepts ≡ true → on_streq true listens sid gport ovirt now t ≡ (opened, true)
  unfolding on_streq
  streq_yes e = ground arith

  streq_no : accepts ≡ false → on_streq true listens sid gport ovirt now t ≡ (t, false)
  unfolding on_streq
  streq_no e = ground arith

  -- A request for a stream that has no row, and on whose port this process listens, gets one if
  -- the table has room: pending, with the opener's address and the port, and the join thread is
  -- started. Any other request leaves the table as it is.
  pub hs_by_sid-on_streq :
      any (of_sid sid) t ≡ false
      → (accepts ≡ true
          → (h : Host) × (hs_by_sid sid (on_streq true listens sid gport ovirt now t).0 ≡ some h)
            × ((on_streq true listens sid gport ovirt now t).1 ≡ true)
            × (h.ovirt ≡ ovirt)
            × (h.gport ≡ gport)
            × (h.live ≡ false)
            × (h.last ≡ now))
        × (accepts ≡ false → on_streq true listens sid gport ovirt now t ≡ (t, false))
  unfolding hs_by_sid
  hs_by_sid-on_streq absent = (
    λ e.
        let (x, free, _) = find?-some is_free t (ground arith) in
        (
          pending sid gport ovirt now x,
          rw (streq_yes e) (
              find?_written_at is_free (of_sid sid) (pending sid gport ovirt now) t x absent free
                (ground arith)),
          rw (streq_yes e) refl,
          refl,
          refl,
          refl,
          refl,
        ),
    streq_no,
  )

module _ (now : ℕ) (t : List Host) where
  abbrev free_row : Host → Host
  free_row h = record h { used = false }

  -- The sweep takes the rows that stood pending for more than 30 seconds and no other: a stream
  -- keeps its row where that row is live or younger.
  pub hs_by_sid-sweep_hosts :
      (sid : ℕ) (h : Host)
      → IsTable t
      → hs_by_sid sid t ≡ some h
      → hs_by_sid sid (sweep_hosts now t) ≡ (if is_stuck now h then none else some h)
  unfolding hs_by_sid sweep_hosts IsTable
  hs_by_sid-sweep_hosts sid h valid e = swept t (valid sid) e
    where
      gone :
          (xs : List Host)
          → any (of_sid sid) xs ≡ false
          → any (of_sid sid) (modify_all (is_stuck now) free_row xs) ≡ false
      gone [] k = refl
      gone (x ∷ xs) k = ground (arith, gone xs)

      swept :
          (xs : List Host)
          → count (of_sid sid) xs ≤ 1
          → find? (of_sid sid) xs ≡ some h
          → find? (of_sid sid) (modify_all (is_stuck now) free_row xs)
            ≡ (if is_stuck now h then none else some h)
      swept [] one k = absurd (cc)
      swept (x ∷ xs) one k = elim (Bool-cases (any (of_sid sid) xs)) [
        | inl more ↦ elim (Bool-cases (of_sid sid x)) [
          | inl hit ↦ absurd (ground (arith, count_pos (of_sid sid) xs more))
          | inr miss ↦ ground (arith, swept xs)
        ]
        | inr no_more ↦ ground (
          arith,
          find?-none (of_sid sid) (modify_all (is_stuck now) free_row xs) (gone xs no_more),
          find?-none (of_sid sid) xs no_more,
        )
      ]
