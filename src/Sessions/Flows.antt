-- ===== src/Sessions/Flows.antt =====
-- The sessions of dt_usess_find: one for each flow, kept while it is used, and the port that replies
-- name.
use shadow_lan.Base.{
  ℕ, suc, ◌≤◌, ◌≡◌, ◌∙◌, ap, refl, Bool, true, false, ◌&&◌, ◌||◌, inl, inr, List, [], ◌∷◌, Option,
  none, some, arith, ◌==◌, ltb, leb, any, find?, count, modify_first, Bool-cases, Option-cases,
  any-count, any-sub, find?-none, if-keeps, find?_sound, map-find?-modify_first,
  count-modify_first_same, any-find?, find?-modify_first_hit, length,
}
use mathlib.Core.Option
use shadow_lan.Wire.{Bytes}
use shadow_lan.Net.{Addr, same_addr, loopback}
use shadow_lan.Alias
use shadow_lan.Ledger.{sock_dgram}
use shadow_lan.Datagrams.{inaddr_none}
use shadow_lan.Sessions.{
  Session, of_flow, is_spare, learn, session, kept, placed, place, usess_find, Injected, touched,
  noted, hand_over, after_send, hosted_send, translated, hosted_udp_in, of_cli, reply_port,
}

-- No two sessions serve the same flow.
unfoldable pub IsTable : List Session → Type 0
IsTable t = (port : ℕ) (cli : Addr) → count (of_flow port cli) t ≤ 1

module _ (socket : ℕ → Option ℕ) (port : ℕ) (ovirt : Option ℕ) (cli : Addr) (now : ℕ) where
  module _ (q : Session → Bool) (closed : q (session port ovirt cli now none) ≡ false)
      (fits : (fd : ℕ) → q (session port ovirt cli now (some fd)) ≡ true) where
    abbrev Met : List Session × Option Session → Type 0
    Met r = (u : Session) → r.1 ≡ some u → find? q r.0 ≡ some u

    kept-Met :
        (x : Session) (r : List Session × Option Session) → q x ≡ false → Met r → Met (kept x r)
    kept-Met x (t, o) h k u e = rw h (k u e)

    placed-Met :
        (o : Option ℕ) (us : List Session) (r : List Session × Option Session)
        → Met r
        → Met (placed port ovirt cli now o us r)
    placed-Met none us r k = kept-Met (session port ovirt cli now none) r closed k
    placed-Met (some fd) us r k = λ u e. rw (fits fd) e

    place-Met :
        (i : ℕ) (t : List Session) → any q t ≡ false → Met (place socket port ovirt cli now i t)
    unfolding place
    place-Met i [] h = λ u e. absurd (cc)
    place-Met i (x ∷ t) h = elim (Bool-cases (is_spare now x)) [
      | inl e ↦ rw e (
          placed-Met (socket i) t (place socket port ovirt cli now (suc i) t)
            (place-Met (suc i) t (ground arith)))
      | inr e ↦ rw e (
          kept-Met x (place socket port ovirt cli now (suc i) t) (ground arith)
            (place-Met (suc i) t (ground arith)))
    ]

  abbrev pub Found : List Session × Option Session → Type 0
  Found r = (u : Session) → r.1 ≡ some u → find? (of_flow port cli) r.0 ≡ some u

  pub find_new :
      (t : List Session)
      → find? (of_flow port cli) t ≡ none
      → usess_find socket port ovirt cli now t ≡ place socket port ovirt cli now 0 t
  unfolding usess_find
  find_new t e = rw (e, usess_find) refl

  find_old :
      (t : List Session) (x : Session)
      → find? (of_flow port cli) t ≡ some x
      → usess_find socket port ovirt cli now t
        ≡ (modify_first (of_flow port cli) (learn ovirt) t, some (learn ovirt x))
  unfolding usess_find
  find_old t x e = rw (e, usess_find) refl

  -- A flow's row, once found, is the one that later datagrams of the flow find.
  pub usess_find-Found : (t : List Session) → Found (usess_find socket port ovirt cli now t)
  usess_find-Found t u h = elim (Option-cases (find? (of_flow port cli) t)) [
    | inl e ↦ rw (find_new t e) (
        place-Met (of_flow port cli) refl (λ fd. ground arith) 0 t
          (any-find? (of_flow port cli) t e) u (rw (find_new t e) at h))
    | inr (x, e) ↦
        let same : some (learn ovirt x) ≡ some u = rw (find_old t x e) at h in
        rw (find_old t x e) (
          find?-modify_first_hit (of_flow port cli) (of_flow port cli) (learn ovirt)
            (λ y k. ground arith) (λ y k. k) t
          ∙ ap (Option.map (learn ovirt)) e
          ∙ same)
  ]

  module _ (q : Session → Bool) (none_closed : q (session port ovirt cli now none) ≡ false) where
    abbrev pub Grows : List Session → List Session × Option Session → Type 0
    Grows t r =
        (count q r.0 ≤ suc (count q t))
        × (((fd : ℕ) → q (session port ovirt cli now (some fd)) ≡ false) → count q r.0 ≤ count q t)

    kept-Grows :
        (x : Session) (t : List Session) (r : List Session × Option Session)
        → Grows t r
        → Grows (x ∷ t) (kept x r)
    kept-Grows x t (t', o) (k, l) = (ground (arith, k), λ h. ground (arith, l h))

    placed-Grows :
        (x : Session) (o : Option ℕ) (t : List Session) (r : List Session × Option Session)
        → Grows t r
        → Grows (x ∷ t) (placed port ovirt cli now o t r)
    placed-Grows x none t (t', o) (k, l) =
        (ground (arith, k, none_closed), λ h. ground (arith, l h, none_closed))
    placed-Grows x (some fd) t r k = (ground arith, λ h. ground (arith, h fd))

    pub place-Grows : (i : ℕ) (t : List Session) → Grows t (place socket port ovirt cli now i t)
    unfolding place
    place-Grows i [] = (omega arith, λ h. omega arith)
    place-Grows i (x ∷ t) = elim (Bool-cases (is_spare now x)) [
      | inl e ↦ rw e (
          placed-Grows x (socket i) t (place socket port ovirt cli now (suc i) t)
            (place-Grows (suc i) t))
      | inr e ↦
          rw e (kept-Grows x t (place socket port ovirt cli now (suc i) t) (place-Grows (suc i) t))
    ]

  find_le :
      (t : List Session) (p : ℕ) (c : Addr)
      → count (of_flow p c) t ≤ 1
      → count (of_flow p c) (usess_find socket port ovirt cli now t).0 ≤ 1
  find_le t p c one = elim (Option-cases (find? (of_flow port cli) t)) [
    | inr (x, e) ↦ rw (find_old t x e) (
        rw
          (count-modify_first_same (of_flow port cli) (of_flow p c) (learn ovirt)
            (λ y k. ground arith) t)
          one)
    | inl e ↦
        let (up, flat) = place-Grows (of_flow p c) refl 0 t in
        rw (find_new t e) (elim (Bool-cases (port == p && same_addr cli c)) [
          | inr apart ↦ omega (arith, flat (λ fd. ground arith), one)
          | inl same ↦ omega (
            arith,
            up,
            any-count (of_flow p c) t (
                any-sub (of_flow port cli) (of_flow p c) (λ y k. ground arith) t
                  (any-find? (of_flow port cli) t e)),
          )
        ])
  ]

  -- dt_usess_find keeps one session for each flow.
  pub usess_find-IsTable :
      (t : List Session) → IsTable t → IsTable (usess_find socket port ovirt cli now t).0
  unfolding IsTable
  usess_find-IsTable t valid p c = find_le t p c (valid p c)

-- Until its session goes idle or is swept, a flow keeps its socket: a later datagram finds the
-- session that an earlier one did, with the address of its sender learnt if it had none, and no
-- socket is made for it.
pub usess_find-usess_find :
    (socket socket' : ℕ → Option ℕ) (port : ℕ) (ovirt ovirt' : Option ℕ) (cli : Addr) (now now' : ℕ)
    (t : List Session) (u : Session)
    → (usess_find socket port ovirt cli now t).1 ≡ some u
    → ((usess_find socket' port ovirt' cli now' (usess_find socket port ovirt cli now t).0).1
        ≡ some (learn ovirt' u))
      × ((learn ovirt' u).real ≡ u.real)
usess_find-usess_find socket socket' port ovirt ovirt' cli now now' t u h = (
  ap (λ (r : List Session × Option Session). r.1)
      (find_old socket' port ovirt' cli now' _ u
        (usess_find-Found socket port ovirt cli now t u h)),
  learn_real ovirt' u,
)
  where
    learn_real : (o : Option ℕ) (u : Session) → (learn o u).real ≡ u.real
    learn_real none u = refl
    learn_real (some v) u = ground arith

reply_port-map :
    (dst : Addr) (t : List Session)
    → reply_port dst t ≡ Option.map (λ (u : Session). u.game_port) (find? (of_cli dst) t)
unfolding reply_port
reply_port-map dst t = elim (Option-cases (find? (of_cli dst) t)) [
  | inl e ↦ rw (e, reply_port) refl
  | inr (u, e) ↦ rw (e, reply_port) refl
]

module _ (port : ℕ) (cli : Addr) (now : ℕ) (sent : Bool) (lp : ℕ) (raw : Bytes) where
  same_reply :
      (f : Session → Session)
      → ((x : Session)
          → ((f x).used ≡ x.used) × ((f x).cli ≡ x.cli) × ((f x).game_port ≡ x.game_port))
      → (t : List Session)
      → Option.map
          (λ (x : Session). x.game_port)
          (find? (of_cli cli) (modify_first (of_flow port cli) f t))
        ≡ Option.map (λ (x : Session). x.game_port) (find? (of_cli cli) t)
  same_reply f same t =
      map-find?-modify_first (of_flow port cli) (of_cli cli) f (λ x. x.game_port)
        (λ x e. (ground (arith, same x), ground (arith, same x))) t

  abbrev handed : List Session → Option ℕ → List Session × Option Injected
  handed t o = (
    modify_first (of_flow port cli) (touched now) t,
    elim o [
      | none ↦ none
      | some fd ↦ some (record { from = fd; to = record { ip = loopback; port = port }; raw = raw })
    ],
  )

  hand_over_reply :
      (r : List Session × Option Session)
      → ((u : Session) → r.1 ≡ some u → (find? (of_cli cli) r.0 ≡ some u) × (u.game_port ≡ port))
      → (j : Injected) → (after_send port cli sent lp (hand_over port cli now raw r)).1 ≡ some j
      → (j.to.port ≡ port)
        × (reply_port cli (after_send port cli sent lp (hand_over port cli now raw r)).0
            ≡ some port)
  hand_over_reply (t, none) k j h = absurd (cc)
  hand_over_reply (t, some u) k j h = sent_on u.real h
    where
      sent_on :
          (o : Option ℕ)
          → (after_send port cli sent lp (handed t o)).1 ≡ some j
          → (j.to.port ≡ port)
            × (reply_port cli (after_send port cli sent lp (handed t o)).0 ≡ some port)
      sent_on none e = absurd (cc)
      sent_on (some fd) e = (
        cc,
        reply_port-map cli _
            ∙ same_reply (noted sent lp) (λ x. (refl, refl, refl))
                (modify_first (of_flow port cli) (touched now) t)
            ∙ same_reply (touched now) (λ x. (refl, refl, refl)) t
            ∙ ap (Option.map (λ (x : Session). x.game_port)) (k u refl).0
            ∙ ap some (k u refl).1,
      )

found_port :
    (port : ℕ) (cli : Addr) (t : List Session) (u : Session)
    → find? (of_flow port cli) t ≡ some u
    → u.game_port ≡ port
found_port port cli t u e = ground (arith, find?_sound (of_flow port cli) t u e)

module _ (inet_addr : Bytes → ℕ) (socket : ℕ → Option ℕ) (ta : Alias.Table) (now : ℕ) (sent : Bool)
    (lp port : ℕ) (ip : Bytes) (cport : ℕ) (raw : Bytes) (t : List Session) where
  abbrev pub sender : Addr
  sender = record { ip = inet_addr ip; port = cport }

  abbrev pub real : ℕ
  real = translated port (Alias.real ta port sock_dgram)

  abbrev Replies : List Session × Option Injected → Type 0
  Replies r =
      (j : Injected) → r.1 ≡ some j → (j.to.port ≡ real) × (reply_port sender r.0 ≡ some real)

  new_sender :
      any (of_cli sender) t ≡ false
      → Replies (
          after_send real sender sent lp
            (hand_over real sender now raw (usess_find socket real (some sender.ip) sender now t)))
  new_sender h =
      hand_over_reply real sender now sent lp raw
        (usess_find socket real (some sender.ip) sender now t) (λ u e. (met u e, serves u e))
    where
      unknown : find? (of_flow real sender) t ≡ none
      unknown =
          find?-none (of_flow real sender) t
            (any-sub (of_cli sender) (of_flow real sender) (λ x k. ground arith) t h)

      met :
          (u : Session)
          → (usess_find socket real (some sender.ip) sender now t).1 ≡ some u
          → find? (of_cli sender) (usess_find socket real (some sender.ip) sender now t).0 ≡ some u
      met u e = rw (find_new socket real (some sender.ip) sender now t unknown) (
          place-Met socket real (some sender.ip) sender now (of_cli sender) refl
            (λ fd. ground arith) 0 t h u
            (rw (find_new socket real (some sender.ip) sender now t unknown) at e))

      serves :
          (u : Session)
          → (usess_find socket real (some sender.ip) sender now t).1 ≡ some u
          → u.game_port ≡ real
      serves u e =
          found_port real sender (usess_find socket real (some sender.ip) sender now t).0 u
            (usess_find-Found socket real (some sender.ip) sender now t u e)

  -- When a datagram from a member without a session is handed to the game, it goes to the port
  -- that the kernel gave for the virtual one, and so does what the game sends back: the reply that
  -- dt_on_sendto frames for the member names the kernel's port, not the one that it sent to.
  pub reply_port-hosted_udp_in :
      any (of_cli sender) t ≡ false
      → Replies (hosted_udp_in inet_addr socket ta now sent lp port ip cport raw t)
  unfolding hosted_udp_in hosted_send
  reply_port-hosted_udp_in h =
      if-keeps (λ r. Replies (after_send real sender sent lp r))
        (leb (length ip) 0 || (leb 64 (length ip) || ltb 65000 (length raw))) _ _
        (λ j e. absurd (cc))
        (if-keeps (λ r. Replies (after_send real sender sent lp r)) (inet_addr ip == inaddr_none) _
          _ (λ j e. absurd (cc)) (new_sender h))
