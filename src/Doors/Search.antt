-- ===== src/Doors/Search.antt =====
-- bind to port 0: the search for a port that no process of the node uses.
use shadow_lan.Base.{
  List, ℕ, zero, suc, ◌<◌, ◌≤◌, ◌≡◌, ◌≢◌, ◌∙◌, ap, refl, Bool, true, false, ◌⊎◌, inl, inr, Option,
  none, some, arith, ltb, ◌==◌, ◌||◌, any, Bool-cases,
}
use shadow_lan.Net.{Addr}
use shadow_lan.Ledger.{Registry, Verdict, fresh, shared, conflict, unavailable, claim, taken, used}
use shadow_lan.Alias
use shadow_lan.Alias.Presentation.{vport-add}
use shadow_lan.Accepted.{Accepted, get}
use shadow_lan.Doors.{
  Bound, bound, refused, done, fails, eaddrinuse, World, Call, proto, is_vnode, beneath, mark,
  with_port, Round, found, next_port, given_up, candidate, take_port, try_claimed, try_port,
  continue, try_ports, rounds, pick, after_pick, after_search, bind_any, getsockname,
}
use shadow_lan.Doors.Binding.{getsockname_own, vport-mark}

-- What the search has bound: a dynamic port that the kernel took, that no row of the node in the
-- ledger had, and that the process did not lose to another one's claim; the tables before that round
-- are `v`.
pub record IsFound (c : Call) (a : Addr) (w w' : World) : Type 0 where
  pub port : ℕ
  pub v : World
  pub ta : v.ta ≡ w.ta
  pub low : 49152 ≤ port
  pub high : port < 65535
  pub free : taken c.attached c.process port v.registry ≡ false
  pub won : (claim c.attached c.os c.process port (proto c) 1 0 v.registry).0 ≢ conflict
  pub registry : w'.registry ≡ (claim c.attached c.os c.process port (proto c) 1 0 v.registry).1
  pub real : Option ℕ
  pub kernel : c.kernel (with_port port (beneath c a)) ≡ bound real
  pub presents : w'.ta ≡ mark (is_vnode c a) c.sock (Alias.add w.ta c.sock port port (proto c))

module _ (c : Call) (a : Addr) where
  -- One round from `w`
  module _ (port : ℕ) (w : World) where
    abbrev taken_up : Verdict × Registry
    taken_up = claim c.attached c.os c.process port (proto c) 1 0 w.registry

    abbrev BoundTo : World → Type 0
    BoundTo w' =
        (taken c.attached c.process port w.registry ≡ false)
        × (taken_up.0 ≢ conflict)
        × (w'.registry ≡ taken_up.1)
        × (real : Option ℕ) × (c.kernel (with_port port (beneath c a)) ≡ bound real)
        × (w'.ta ≡ mark (is_vnode c a) c.sock (Alias.add w.ta c.sock port port (proto c)))

    abbrev Rounds : World × Round → Type 0
    Rounds r = (r.1 ≡ found → BoundTo r.0) × (r.1 ≡ next_port → r.0.ta ≡ w.ta)

    module _ (free : taken c.attached c.process port w.registry ≡ false) where
      took :
          (b : Bound)
          → c.kernel (with_port port (beneath c a)) ≡ b
          → taken_up.0 ≢ conflict
          → Rounds (take_port c a port b (record w { registry = taken_up.1 }))
      took (bound got) e won = (λ h. (free, won, refl, got, e, refl), λ h. absurd (cc))
      took (refused n) e won = elim (Bool-cases (n == eaddrinuse)) [
        | inl k ↦ rw k (λ h. absurd (cc), λ h. refl)
        | inr k ↦ rw k (λ h. absurd (cc), λ h. absurd (cc))
      ]

      claimed_round :
          (v : Verdict)
          → taken_up.0 ≡ v
          → Rounds (try_claimed c a port v (record w { registry = taken_up.1 }))
      claimed_round conflict e = (λ h. absurd (cc), λ h. refl)
      claimed_round fresh e = took _ refl (λ h. absurd (cc))
      claimed_round shared e = took _ refl (λ h. absurd (cc))
      claimed_round unavailable e = took _ refl (λ h. absurd (cc))

    try_port-taken :
        taken c.attached c.process port w.registry ≡ true → try_port c a port w ≡ (w, next_port)
    unfolding try_port
    try_port-taken e = rw e refl

    try_port_free :
        taken c.attached c.process port w.registry ≡ false
        → try_port c a port w ≡ try_claimed c a port taken_up.0 (record w { registry = taken_up.1 })
    unfolding try_port
    try_port_free e = rw e refl

    try_port_lem : Rounds (try_port c a port w)
    try_port_lem = elim (Bool-cases (taken c.attached c.process port w.registry)) [
      | inl e ↦ rw (try_port-taken e) (λ h. absurd (cc), λ h. refl)
      | inr e ↦ rw (try_port_free e) (claimed_round e taken_up.0 refl)
    ]

  continue-cases :
      (r : World × Round) (rest : World × Bool)
      → (continue r rest).1 ≡ true
      → ((r.1 ≡ found) × ((continue r rest).0 ≡ r.0))
        ⊎ ((r.1 ≡ next_port) × (continue r rest ≡ rest))
  continue-cases (w, found) rest h = inl (refl, refl)
  continue-cases (w, next_port) rest h = inr (refl, refl)
  continue-cases (w, given_up) rest h = absurd (cc)

  try_ports_lem :
      (i n : ℕ) (w : World) → (try_ports c a i n w).1 ≡ true → IsFound c a w (try_ports c a i n w).0
  unfolding try_ports
  try_ports_lem i zero w h = absurd (cc)
  try_ports_lem i (suc n) w h = elim (continue-cases r rest h) [
    | inl (e, k) ↦
        let (free, won, registry, real, kernel, presents) = (bound_here e) in
        rw k (record {
          port = candidate c.process.pid i;
          v = w;
          ta = refl;
          low = omega arith;
          high = omega arith;
          free = free;
          won = won;
          registry = registry;
          real = real;
          kernel = kernel;
          presents = presents;
        })
    | inr (e, k) ↦
        let later : IsFound c a r.0 rest.0 = try_ports_lem (suc i) n r.0 (rw k at h) in
        rw k (record {
          port = later.port;
          v = later.v;
          ta = later.ta ∙ step.1 e;
          low = later.low;
          high = later.high;
          free = later.free;
          won = later.won;
          registry = later.registry;
          real = later.real;
          kernel = later.kernel;
          presents =
              later.presents
              ∙ ap
                  (λ t.
                    mark (is_vnode c a) c.sock (Alias.add t c.sock later.port later.port (proto c)))
                  (carried e);
        })
  ]
    where
      r : World × Round
      r = try_port c a (candidate c.process.pid i) w

      rest : World × Bool
      rest = try_ports c a (suc i) n r.0

      step : Rounds (candidate c.process.pid i) w r
      step = try_port_lem (candidate c.process.pid i) w

      bound_here : r.1 ≡ found → BoundTo (candidate c.process.pid i) w r.0
      bound_here = step.0

      carried : r.1 ≡ next_port → r.0.ta ≡ w.ta
      carried = step.1

module _ (c : Call) (a : Addr) (w : World) where
  search_lem :
      c.lan_only || ltb 0 (used c.attached w.registry) ≡ true
      → bind_any c a w ≡ after_search c a (try_ports c a 0 rounds w)
  unfolding bind_any
  search_lem e = rw e refl

  search_done : (r : World × Bool) → r.1 ≡ true → after_search c a r ≡ (r.0, done)
  search_done (v, true) h = refl
  search_done (v, false) h = absurd (cc)

  -- Where the node's ledger counts, and the search of bind to port 0 comes upon a port, the socket
  -- has a dynamic port that no process of the node had claimed and that the kernel took, and
  -- getsockname shows it, if the socket has a row of the presentation or finds a free one and was
  -- not accepted.
  pub getsockname-bind_any :
      (acc : List Accepted) (sa : Addr)
      → c.lan_only || ltb 0 (used c.attached w.registry) ≡ true
      → (any (Alias.of_sock c.sock) w.ta ≡ true) ⊎ (any Alias.is_free w.ta ≡ true)
      → get c.sock acc ≡ none
      → (try_ports c a 0 rounds w).1 ≡ true
      → ((bind_any c a w).1 ≡ done)
        × (f : IsFound c a w (bind_any c a w).0) × ((getsockname true c.myvirt
              (bind_any c a w).0.ta
              acc
              c.sock
              sa).port
            ≡ f.port)
  getsockname-bind_any acc sa counts space fresh_sock ok =
      rw
        (
          getsockname_own c.myvirt (bind_any c a w).0.ta acc c.sock sa fresh_sock,
          search_lem counts,
          search_done (try_ports c a 0 rounds w) ok,
        )
        (
          refl,
          f,
          rw
              (
                f.presents,
                vport-mark (is_vnode c a) c.sock (Alias.add w.ta c.sock f.port f.port (proto c)),
                vport-add w.ta c.sock f.port f.port (proto c) (omega (arith, f.low)) space,
              )
              (omega (arith, f.high)),
        )
    where
      f : IsFound c a w (try_ports c a 0 rounds w).0
      f = try_ports_lem c a 0 rounds w ok

  picked_fails : (e : ℕ) (v : World) (b : Bound) → (after_pick c a b v).1 ≡ fails e → b ≡ refused e
  picked_fails e v (refused n) h = ap refused (cc)
  picked_fails e v (bound none) h = absurd (cc)
  picked_fails e v (bound (some port)) h = absurd (cc)

  pick_fails :
      (e : ℕ) (v : World)
      → (pick c a v).1 ≡ fails e
      → c.kernel (with_port 0 (beneath c a)) ≡ refused e
  pick_fails e v h = picked_fails e v (c.kernel (with_port 0 (beneath c a))) (unfold pick in h)

  search_fails :
      (e : ℕ) (r : World × Bool)
      → (after_search c a r).1 ≡ fails e
      → c.kernel (with_port 0 (beneath c a)) ≡ refused e
  search_fails e (v, true) h = absurd (cc)
  search_fails e (v, false) h = pick_fails e v h

  -- bind to port 0 fails only as the kernel does when it is left to pick the port itself.
  pub bind_any-fails :
      (e : ℕ) → (bind_any c a w).1 ≡ fails e → c.kernel (with_port 0 (beneath c a)) ≡ refused e
  unfolding bind_any
  bind_any-fails e h = elim (Bool-cases (c.lan_only || ltb 0 (used c.attached w.registry))) [
    | inl k ↦ search_fails e (try_ports c a 0 rounds w) (rw k at h)
    | inr k ↦ pick_fails e w (rw k at h)
  ]
