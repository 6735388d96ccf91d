-- ===== src/Doors/Binding.antt =====
-- bind to a given port: what the caller's siblings, the ledger and getsockname see of it.
use shadow_lan.Base.{
  List, Every, ℕ, ◌%◌, ◌^◌, ◌<◌, ◌≡◌, ◌≢◌, ◌∙◌, ap, sym, refl, Bool, true, false, ◌⊎◌, inl, inr,
  none, some, arith, ◌==◌, any, find?, Bool-cases, Option-cases, map-find?-modify_first,
  any-modify_first_hit, find?-modify_first_hit, find?-some,
}
use mathlib.Core.Option
use shadow_lan.Net.{Addr}
use shadow_lan.Ledger.{Registry, Verdict, fresh, shared, conflict, unavailable, claim, both_reuse}
use shadow_lan.Ledger.Owner.{claim-Outcome, Outcome}
use shadow_lan.Ledger.Handover.{claim-claim, Op, acts, spares}
use shadow_lan.Alias
use shadow_lan.Alias.Presentation.{vport-add}
use shadow_lan.Alias.Release.{IsReleased, release_gone}
use shadow_lan.Accepted.{Accepted, get}
use shadow_lan.Doors.{
  Bound, bound, refused, Result, done, fails, eaddrinuse, inaddr_any, World, Call, proto, is_vnode,
  beneath, mark, give_back, alias_beneath, bind_alias, after_alias, after_bind, after_claim,
  bind_port, bind, getsockname, shown,
}

-- The claim that bind makes for the address
abbrev pub claimed : Call → Addr → World → Verdict × Registry
claimed c a w = claim c.attached c.os c.process a.port (proto c) c.reuse a.port w.registry

-- What a bind that succeeded has done with the tables
abbrev Succeeded : Call → Addr → World → World × Result → Type 0
Succeeded c a w r =
    r.1 ≡ done
    → (r.0.registry ≡ w.registry)
      × (real : ℕ) × (k : ℕ) × (r.0.ta
          ≡ mark (is_vnode c a) c.sock (Alias.add w.ta c.sock a.port real k))

-- What one that failed has
abbrev Failed : Call → Addr → World → World × Result → Type 0
Failed c a w r =
    r.1 ≢ done
    → (IsReleased c.process a.port (proto c) r.0.registry) × (r.0.ta ≡ w.ta) × (r.0.ud ≡ w.ud)

conflict-cases : (v : Verdict) → (v ≡ conflict) ⊎ (v ≢ conflict)
conflict-cases conflict = inl refl
conflict-cases fresh = inr (λ h. absurd (cc))
conflict-cases shared = inr (λ h. absurd (cc))
conflict-cases unavailable = inr (λ h. absurd (cc))

module _ (c : Call) (a : Addr) (w : World) where
  alias_done :
      (b : Bound)
      → Succeeded c a w (after_alias c (is_vnode c a) a.port (alias_beneath c a.port b w))
  alias_done (refused e) h = absurd (cc)
  alias_done (bound got) h = (refl, _, _, refl)

  bind_done : (b : Bound) → Succeeded c a w (after_bind c (is_vnode c a) a.port b w)
  bind_done (bound got) = λ h. (refl, _, _, refl)
  bind_done (refused e) = elim (Bool-cases (e == eaddrinuse)) [
    | inl k ↦
        rw k (unfold bind_alias in alias_done (c.kernel (record { ip = inaddr_any; port = 0 })))
    | inr k ↦ rw k (λ h. absurd (cc))
  ]

  claim_done : (v : Verdict) → Succeeded c a w (after_claim c a v w)
  claim_done fresh = bind_done (c.kernel (beneath c a))
  claim_done shared = bind_done (c.kernel (beneath c a))
  claim_done unavailable = bind_done (c.kernel (beneath c a))
  claim_done conflict = λ h. absurd (cc)

  module _ (here : c.attached ≡ true) where
    returned : IsReleased c.process a.port (proto c) (give_back c a.port w).registry
    returned = rw here (release_gone c.process a.port (proto c) w.registry)

    alias-Failed :
        (b : Bound)
        → Failed c a w (after_alias c (is_vnode c a) a.port (alias_beneath c a.port b w))
    alias-Failed (refused e) h = (returned, refl, refl)
    alias-Failed (bound got) h = absurd (h refl)

    bind-Failed : (b : Bound) → Failed c a w (after_bind c (is_vnode c a) a.port b w)
    bind-Failed (bound got) = λ h. absurd (h refl)
    bind-Failed (refused e) = elim (Bool-cases (e == eaddrinuse)) [
      | inl k ↦
          rw k (unfold bind_alias in alias-Failed (c.kernel (record { ip = inaddr_any; port = 0 })))
      | inr k ↦ rw k (λ h. (returned, refl, refl))
    ]

    claim-Failed : (v : Verdict) → v ≢ conflict → Failed c a w (after_claim c a v w)
    claim-Failed fresh h = bind-Failed (c.kernel (beneath c a))
    claim-Failed shared h = bind-Failed (c.kernel (beneath c a))
    claim-Failed unavailable h = bind-Failed (c.kernel (beneath c a))
    claim-Failed conflict h = absurd (h refl)

module _ (c : Call) (a : Addr) (w : World) where
  module _ (here : c.attached ≡ true) where
    held_back : (claimed c a w).0 ≡ conflict → (claimed c a w).1 ≡ w.registry
    held_back h =
        same _ _ h
          (rw here (claim-Outcome true c.os c.process a.port (proto c) c.reuse a.port w.registry))
      where
        same :
            (v : Verdict) (g : Registry)
            → v ≡ conflict
            → Outcome true c.os c.process a.port (proto c) c.reuse a.port w.registry v g
            → g ≡ w.registry
        same conflict g e (_, x, _, _, _, k) = k
        same fresh g e o = absurd (cc)
        same shared g e o = absurd (cc)
        same unavailable g e o = absurd (cc)

    conflict_lem : (claimed c a w).0 ≡ conflict → bind_port c a w ≡ (w, fails eaddrinuse)
    unfolding bind_port
    conflict_lem h =
        rw h (ap (λ (g : Registry). (record w { registry = g }, fails eaddrinuse)) (held_back h))

    -- A bind to a port that fails leaves the socket's presentation and the datagram queues as they
    -- were, and either the ledger too, because another claim holds the port, or no claim of the
    -- caller on the port.
    pub bind_port-fails :
        (bind_port c a w).1 ≢ done
        → ((bind_port c a w).0.ta ≡ w.ta)
          × ((bind_port c a w).0.ud ≡ w.ud)
          × ((((claimed c a w).0 ≡ conflict) × (bind_port c a w ≡ (w, fails eaddrinuse)))
              ⊎ (((claimed c a w).0 ≢ conflict)
                  × IsReleased c.process a.port (proto c) (bind_port c a w).0.registry))
    bind_port-fails h = elim (conflict-cases (claimed c a w).0) [
      | inl k ↦ rw (conflict_lem k) (refl, refl, inl (k, refl))
      | inr k ↦
          unfold bind_port in
          (let (gone, ta, ud) =
              claim-Failed c a (record w { registry = (claimed c a w).1 }) here (claimed c a w).0 k
                h in
            (ta, ud, inr (k, gone)))
    ]

  -- What a successful bind to a port has done with the ledger and the presentation.
  bind_port_done :
      (bind_port c a w).1 ≡ done
      → ((bind_port c a w).0.registry ≡ (claimed c a w).1)
        × (real : ℕ) × (k : ℕ) × ((bind_port c a w).0.ta
            ≡ mark (is_vnode c a) c.sock (Alias.add w.ta c.sock a.port real k))
  unfolding bind_port
  bind_port_done h = claim_done c a (record w { registry = (claimed c a w).1 }) (claimed c a w).0 h

  bind_lem : c.direct ≡ true → a.port ≢ 0 → bind c a w ≡ bind_port c a w
  unfolding bind
  bind_lem direct named = ground arith

-- After a process has bound a port by a fresh claim, and whatever claims and releases the processes
-- make then on the registry, all attached, as long as it runs and does not release that claim, a
-- process of its node that binds the port for the same protocol, and not both as datagram sockets
-- with reuse, is answered with EADDRINUSE, and its tables stay as they are.
pub bind-bind :
    (c d : Call) (a b : Addr) (w w' : World) (ops : List Op)
    → c.attached ≡ true
    → d.attached ≡ true
    → c.direct ≡ true
    → d.direct ≡ true
    → d.os ≡ c.os
    → d.process.node ≡ c.process.node
    → c.os.signals c.process.pid ≡ true
    → c.process.pid ≢ 0
    → a.port ≢ 0
    → b.port ≡ a.port
    → proto d ≡ proto c
    → both_reuse (proto c) (c.reuse % 256) d.reuse ≡ false
    → (claimed c a w).0 ≡ fresh
    → (bind c a w).1 ≡ done
    → Every (λ o. spares c.process a.port (proto c) o ≡ true) ops
    → w'.registry ≡ acts c.os ops (bind c a w).0.registry
    → bind d b w' ≡ (w', fails eaddrinuse)
bind-bind c d a b w w' ops at_c at_d on_c on_d os node runs named port same kind apart new ok spared
      held =
    bind_lem d b w' on_d (ground arith) ∙ conflict_lem d b w' at_d refused_claim
  where
    book :
        w'.registry
        ≡ acts c.os ops (claim true c.os c.process a.port (proto c) c.reuse a.port w.registry).1
    book =
        held
        ∙ ap (acts c.os ops) (
            ap (λ (r : World × Result). r.0.registry) (bind_lem c a w on_c port)
            ∙ (bind_port_done c a w (rw (bind_lem c a w on_c port) at ok)).0
            ∙ rw at_c refl)

    refused_claim : (claimed d b w').0 ≡ conflict
    refused_claim =
        rw (at_d, os, same, kind, book)
          (claim-claim c.os c.process d.process a.port (proto c) c.reuse d.reuse a.port a.port
              w.registry node ops runs named (rw at_c at new) spared
            ∙ rw apart refl)

vport_map :
    (t : Alias.Table) (s : ℕ)
    → Alias.vport t s ≡ Option.map (λ r. r.vport) (find? (Alias.presented s) t)
unfolding Alias.vport
vport_map t s = elim (Option-cases (find? (Alias.presented s) t)) [
  | inl e ↦ rw (e, Alias.vport) refl
  | inr (r, e) ↦ rw (e, Alias.vport) refl
]

pub vport-mark : (b : Bool) (s : ℕ) (t : Alias.Table) → Alias.vport (mark b s t) s ≡ Alias.vport t s
vport-mark false s t = refl
vport-mark true s t = vport_map (Alias.mark_bindv t s) s ∙ (kept ∙ sym (vport_map t s))
  where
    kept :
        Option.map (λ (r : Alias.Row). r.vport) (find? (Alias.presented s) (Alias.mark_bindv t s))
        ≡ Option.map (λ (r : Alias.Row). r.vport) (find? (Alias.presented s) t)
    kept =
        unfold Alias.mark_bindv in
        map-find?-modify_first (Alias.of_sock s) (Alias.presented s)
          (λ r. record r { bindv = true }) (λ r. r.vport) (λ x e. (refl, refl)) t

is_bindv-mark :
    (s : ℕ) (t : Alias.Table)
    → any (Alias.of_sock s) t ≡ true
    → Alias.is_bindv (Alias.mark_bindv t s) s ≡ true
unfolding Alias.is_bindv Alias.mark_bindv
is_bindv-mark s t h =
    let (r, e, _) = find?-some (Alias.of_sock s) t h in rw (found r e, Alias.is_bindv) refl
  where
    found :
        (r : Alias.Row)
        → find? (Alias.of_sock s) t ≡ some r
        → find? (Alias.of_sock s) (Alias.mark_bindv t s) ≡ some (record r { bindv = true })
    found r e =
        find?-modify_first_hit (Alias.of_sock s) (Alias.of_sock s) (λ y. record y { bindv = true })
          (λ y k. k) (λ y k. k) t
        ∙ ap (Option.map (λ (y : Alias.Row). record y { bindv = true })) e

any-add :
    (t : Alias.Table) (s v r k : ℕ)
    → (any (Alias.of_sock s) t ≡ true) ⊎ (any Alias.is_free t ≡ true)
    → any (Alias.of_sock s) (Alias.add t s v r k) ≡ true
unfolding Alias.add
any-add t s v r k space = elim (Bool-cases (any (Alias.of_sock s) t)) [
  | inl e ↦ rw e (
      any-modify_first_hit (Alias.of_sock s) (Alias.of_sock s) (Alias.rewrite v r k) (λ y h. h) t e)
  | inr e ↦ rw e (
      any-modify_first_hit Alias.is_free (Alias.of_sock s) (Alias.occupy s v r k)
        (λ y h. ground arith) t (ground arith))
]

pub getsockname_own :
    (myvirt : ℕ) (ta : Alias.Table) (acc : List Accepted) (s : ℕ) (sa : Addr)
    → get s acc ≡ none
    → getsockname true myvirt ta acc s sa ≡ shown myvirt (Alias.is_bindv ta s) (Alias.vport ta s) sa
unfolding getsockname
getsockname_own myvirt ta acc s sa e = rw (e, getsockname) refl

-- After a successful bind to a port, by a socket that has a row of the presentation or finds a free
-- one and that was not accepted, getsockname shows that port, whatever real port the kernel gave;
-- and it shows the vnode's address where the socket was bound to it and the kernel reports the
-- wildcard.
pub getsockname-bind :
    (c : Call) (a sa : Addr) (w : World) (acc : List Accepted)
    → c.direct ≡ true
    → a.port ≢ 0
    → a.port < 2 ^ 16
    → (any (Alias.of_sock c.sock) w.ta ≡ true) ⊎ (any Alias.is_free w.ta ≡ true)
    → get c.sock acc ≡ none
    → (bind c a w).1 ≡ done
    → let view = getsockname true c.myvirt (bind c a w).0.ta acc c.sock sa in
      (view.port ≡ a.port) × (is_vnode c a ≡ true → sa.ip ≡ inaddr_any → view.ip ≡ a.ip)
getsockname-bind c a sa w acc on named small space fresh_sock ok =
    let (_, real, k, ta) = bind_port_done c a w (rw (bind_lem c a w on named) at ok) in
    rw
      (
        getsockname_own c.myvirt (bind c a w).0.ta acc c.sock sa fresh_sock,
        bind_lem c a w on named,
        ta,
        port_shown real k,
      )
      (ground arith, λ vnode any_ip. rw (vnode, vnode_shown real k) (ground arith))
  where
    port_shown :
        (real k : ℕ)
        → Alias.vport (mark (is_vnode c a) c.sock (Alias.add w.ta c.sock a.port real k)) c.sock
          ≡ some a.port
    port_shown real k =
        vport-mark (is_vnode c a) c.sock _
        ∙ vport-add w.ta c.sock a.port real k (ground arith) space

    vnode_shown :
        (real k : ℕ)
        → Alias.is_bindv (Alias.mark_bindv (Alias.add w.ta c.sock a.port real k) c.sock) c.sock
          ≡ true
    vnode_shown real k = is_bindv-mark c.sock _ (any-add w.ta c.sock a.port real k space)
