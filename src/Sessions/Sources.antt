-- ===== src/Sessions/Sources.antt =====
-- hook/hk_udp.c, dt_hosted_unsource on what hook/hk_sess.c, dt_hosted_udp_in has sent: whom the game
-- sees as the sender.
use mathlib.Core.Option
use shadow_lan.Base.{
  any-modify_first_same, find?-none, find?-modify_first_hit, ℕ, suc, ◌≡◌, ◌≢◌, ◌∙◌, ap, refl, true,
  false, ◌||◌, inl, inr, List, [], ◌∷◌, Option, none, some, arith, ◌==◌, ltb, leb, any, find?,
  modify_first, Bool-cases, any-count, count_pos, if-keeps, find?_written_at, find?_sound, length,
}
use shadow_lan.Wire.{Bytes}
use shadow_lan.Net.{Addr, loopback}
use shadow_lan.Alias
use shadow_lan.Datagrams.{inaddr_none}
use shadow_lan.Sessions.{
  Session, of_flow, is_spare, session, kept, placed, place, usess_find, Injected, touched, noted,
  hand_over, after_send, hosted_send, hosted_udp_in, of_lport, shown, unsource,
}
use mathlib.Core.Path.{subst}
use shadow_lan.Sessions.Flows.{Found, find_new, place-Grows, usess_find-Found, sender, real}

module _ (socket : ℕ → Option ℕ) (port : ℕ) (ovirt : Option ℕ) (cli : Addr) (now : ℕ) where
  abbrev IsNew : List Session × Option Session → Type 0
  IsNew r = (u : Session) → r.1 ≡ some u → (u.cli ≡ cli) × (u.lport ≡ 0)

  kept-IsNew : (x : Session) (r : List Session × Option Session) → IsNew r → IsNew (kept x r)
  kept-IsNew x (t, o) k = k

  placed-IsNew :
      (o : Option ℕ) (us : List Session) (r : List Session × Option Session)
      → IsNew r
      → IsNew (placed port ovirt cli now o us r)
  placed-IsNew none us r k = kept-IsNew (session port ovirt cli now none) r k
  placed-IsNew (some fd) us r k = λ u e. (ground arith, ground arith)

  place-IsNew : (i : ℕ) (t : List Session) → IsNew (place socket port ovirt cli now i t)
  unfolding place
  place-IsNew i [] = λ u e. absurd (cc)
  place-IsNew i (x ∷ t) = elim (Bool-cases (is_spare now x)) [
    | inl e ↦ rw e (
        placed-IsNew (socket i) t (place socket port ovirt cli now (suc i) t)
          (place-IsNew (suc i) t))
    | inr e ↦
        rw e (kept-IsNew x (place socket port ovirt cli now (suc i) t) (place-IsNew (suc i) t))
  ]

  place_absent :
      (lp i : ℕ) (t : List Session)
      → lp ≢ 0
      → any (of_lport lp) t ≡ false
      → any (of_lport lp) (place socket port ovirt cli now i t).0 ≡ false
  place_absent lp i t nz absent =
      elim (Bool-cases (any (of_lport lp) (place socket port ovirt cli now i t).0)) [
        | inr e ↦ e
        | inl e ↦ absurd (
            omega (
              arith,
              count_pos (of_lport lp) (place socket port ovirt cli now i t).0 e,
              any-count (of_lport lp) t absent,
              (place-Grows socket port ovirt cli now (of_lport lp) refl i t).1 (λ fd. ground arith),
            ))
      ]

module _ (port : ℕ) (cli : Addr) (now lp : ℕ) (raw : Bytes) where
  abbrev injecting : Addr
  injecting = record { ip = loopback; port = lp }

  abbrev known : List Session → List Session
  known t = modify_first (of_flow port cli) (touched now) t

  unknown_port : (t : List Session) → any (of_lport lp) t ≡ false → unsource injecting t ≡ injecting
  unfolding unsource
  unknown_port t absent = ap (shown injecting) (find?-none (of_lport lp) t absent)

  still_absent :
      (t : List Session) → any (of_lport lp) t ≡ false → any (of_lport lp) (known t) ≡ false
  still_absent t absent =
      any-modify_first_same (of_flow port cli) (of_lport lp) (touched now) (λ x e. refl) t ∙ absent

  shown_sender :
      (t : List Session) (u : Session)
      → lp ≢ 0
      → any (of_lport lp) t ≡ false
      → find? (of_flow port cli) t ≡ some u
      → u.cli ≡ cli
      → u.lport ≡ 0
      → unsource injecting (modify_first (of_flow port cli) (noted true lp) (known t)) ≡ cli
  unfolding unsource
  shown_sender t u nz absent found whose fresh =
      ap (shown injecting) (
        find?_written_at (of_flow port cli) (of_lport lp) (noted true lp) (known t) (touched now u)
          (still_absent t absent)
          (find?-modify_first_hit (of_flow port cli) (of_flow port cli) (touched now) (λ y k. k)
              (λ y k. k) t
            ∙ ap (Option.map (touched now)) found)
          (ground (arith, find?_sound (of_flow port cli) t u found)))
      ∙ whose

  abbrev Handed : List Session × Option Session → Type 0
  Handed r =
      let s = hand_over port cli now raw r in
      (j : Injected)
      → s.1 ≡ some j
      → (unsource injecting s.0 ≡ injecting)
        × (unsource injecting (after_send port cli true lp s).0 ≡ cli)

  hand_over-Handed :
      (r : List Session × Option Session)
      → lp ≢ 0
      → any (of_lport lp) r.0 ≡ false
      → ((u : Session)
          → r.1 ≡ some u
          → (find? (of_flow port cli) r.0 ≡ some u) × (u.cli ≡ cli) × (u.lport ≡ 0))
      → Handed r
  hand_over-Handed (t, none) nz absent k j h = absurd (cc)
  hand_over-Handed (t, some u) nz absent k j h =
      let (found, whose, fresh) = k u refl in
      (
        unknown_port (known t) (still_absent t absent),
        ap (λ o. unsource injecting (after_send port cli true lp (known t, o)).0) h
            ∙ shown_sender t u nz absent found whose fresh,
      )

module _ (inet_addr : Bytes → ℕ) (socket : ℕ → Option ℕ) (ta : Alias.Table) (now lp port : ℕ)
    (ip : Bytes) (cport : ℕ) (raw : Bytes) (t : List Session) where
  abbrev from : Addr
  from = sender inet_addr socket ta now true lp port ip cport raw t

  abbrev game : ℕ
  game = real inet_addr socket ta now true lp port ip cport raw t

  abbrev Shown : List Session × Option Injected → Type 0
  Shown s =
      (j : Injected)
      → s.1 ≡ some j
      → (unsource (record { ip = loopback; port = lp }) s.0 ≡ record { ip = loopback; port = lp })
        × (unsource (record { ip = loopback; port = lp }) (after_send game from true lp s).0 ≡ from)

  new-Shown :
      lp ≢ 0
      → any (of_lport lp) t ≡ false
      → find? (of_flow game from) t ≡ none
      → Shown (hand_over game from now raw (usess_find socket game (some from.ip) from now t))
  new-Shown nz absent unknown = rw (find_new socket game (some from.ip) from now t unknown) (
      hand_over-Handed game from now lp raw (place socket game (some from.ip) from now 0 t) nz
        (place_absent socket game (some from.ip) from now lp 0 t nz absent)
        (λ u e. (
          subst (Found socket game (some from.ip) from now)
              (find_new socket game (some from.ip) from now t unknown)
              (usess_find-Found socket game (some from.ip) from now t) u e,
          (place-IsNew socket game (some from.ip) from now 0 t u e).0,
          (place-IsNew socket game (some from.ip) from now 0 t u e).1,
        )))

  -- Of the first datagram of a flow, sent from a socket whose port no other session has: right after
  -- dt_hosted_udp_in has sent it to the game, dt_hosted_unsource still leaves the game the bridge's
  -- own loopback address as its source; once that call has stored the port, with nothing else done
  -- to the table in between, it shows the member's address and port.
  pub unsource-hosted_udp_in :
      (j : Injected)
      → lp ≢ 0
      → any (of_lport lp) t ≡ false
      → find? (of_flow game from) t ≡ none
      → (hosted_send inet_addr socket ta now port ip cport raw t).1 ≡ some j
      → let injecting : Addr = record { ip = loopback; port = lp } in
        (unsource injecting (hosted_send inet_addr socket ta now port ip cport raw t).0 ≡ injecting)
        × (unsource injecting (hosted_udp_in inet_addr socket ta now true lp port ip cport raw t).0
            ≡ from)
  unfolding hosted_udp_in hosted_send
  unsource-hosted_udp_in j nz absent unknown =
      if-keeps Shown (leb (length ip) 0 || (leb 64 (length ip) || ltb 65000 (length raw))) _ _
        (λ j e. absurd (cc))
        (if-keeps Shown (inet_addr ip == inaddr_none) _ _ (λ j e. absurd (cc))
          (new-Shown nz absent unknown))
        j
