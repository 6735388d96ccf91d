-- ===== src/Doors/Valid.antt =====
-- bind keeps the tables that it shares with the rest of the hook valid, on every path.
use shadow_lan.Base.{
  List, ℕ, zero, suc, Bool, true, false, inl, inr, none, some, ltb, ◌==◌, ◌||◌, if◌then◌else◌,
  Bool-cases, if-keeps, refl,
}
use shadow_lan.Net.{Addr}
use shadow_lan.Ledger.{Verdict, fresh, shared, conflict, unavailable, claim, taken, used}
use shadow_lan.Ledger.Exclusive.{IsExclusive, claim-IsExclusive, release-IsExclusive}
use shadow_lan.Alias
use shadow_lan.Alias.Rows.{add-IsTable, mark_bindv-IsTable}
use shadow_lan.Datagrams.{Queue, of_sock, ensure}
use shadow_lan.Datagrams.Valid.{ensure-IsTable, modify_first-IsTable}
use shadow_lan.Doors.{
  Bound, bound, refused, Result, eaddrinuse, inaddr_any, World, Call, proto, is_vnode, beneath,
  set_vport, mark, give_back, alias_beneath, bind_alias, after_alias, after_bind, after_claim,
  bind_port, Round, found, next_port, given_up, candidate, take_port, try_claimed, try_port,
  continue, try_ports, rounds, pick, after_pick, after_search, bind_any, bind,
}

-- One claim for each key, one row of the presentation and one queue for each socket, and queues
-- within their bound.
pub record IsWorld (w : World) : Type 0 where
  pub registry : IsExclusive w.registry
  pub ta : shadow_lan.Alias.Rows.IsTable w.ta
  pub ud : shadow_lan.Datagrams.Valid.IsTable w.ud

module _ (c : Call) where
  add_valid :
      (t : Alias.Table) (b : Bool) (v r k : ℕ)
      → shadow_lan.Alias.Rows.IsTable t
      → shadow_lan.Alias.Rows.IsTable (mark b c.sock (Alias.add t c.sock v r k))
  add_valid t false v r k ok = (add-IsTable t c.sock v r k ok).0
  add_valid t true v r k ok = mark_bindv-IsTable _ c.sock (add-IsTable t c.sock v r k ok).0

  mark_valid :
      (t : Alias.Table) (b : Bool)
      → shadow_lan.Alias.Rows.IsTable t
      → shadow_lan.Alias.Rows.IsTable (mark b c.sock t)
  mark_valid t false ok = ok
  mark_valid t true ok = mark_bindv-IsTable t c.sock ok

  ensured :
      (t : List Queue) (b : Bool)
      → shadow_lan.Datagrams.Valid.IsTable t
      → shadow_lan.Datagrams.Valid.IsTable (if b then ensure t c.sock else t)
  ensured t false ok = ok
  ensured t true ok = ensure-IsTable c.sock t ok

  named :
      (t : List Queue) (b : Bool) (v : ℕ)
      → shadow_lan.Datagrams.Valid.IsTable t
      → shadow_lan.Datagrams.Valid.IsTable (if b then set_vport c.sock v t else t)
  unfolding shadow_lan.Datagrams.Valid.IsRow
  named t false v ok = ok
  named t true v ok =
      modify_first-IsTable (of_sock c.sock) (λ e. record e { vport = v }) (λ e. (refl, refl))
        (λ e row. row) (ensure t c.sock) (ensure-IsTable c.sock t ok)

  given_back : (port : ℕ) (w : World) → IsWorld w → IsWorld (give_back c port w)
  given_back port w ok = record {
    registry = release-IsExclusive c.attached c.process port (proto c) w.registry ok.registry;
    ta = ok.ta;
    ud = ok.ud;
  }

  claimed_valid :
      (port reuse real : ℕ) (w : World)
      → IsWorld w
      → IsWorld (record w {
        registry = (claim c.attached c.os c.process port (proto c) reuse real w.registry).1;
      })
  claimed_valid port reuse real w ok = record {
    registry =
        claim-IsExclusive c.os c.process port (proto c) reuse real w.registry c.attached
          ok.registry;
    ta = ok.ta;
    ud = ok.ud;
  }

  module _ (a : Addr) where
    alias_valid :
        (bindv : Bool) (want : ℕ) (b : Bound) (w : World)
        → IsWorld w
        → IsWorld (after_alias c bindv want (alias_beneath c want b w)).0
    alias_valid bindv want (refused e) w ok = given_back want w ok
    alias_valid bindv want (bound got) w ok = record {
      registry = ok.registry;
      ta = add_valid w.ta bindv want _ _ ok.ta;
      ud = ensured _ _ (named w.ud _ want ok.ud);
    }

    bind_valid :
        (want : ℕ) (b : Bound) (w : World)
        → IsWorld w
        → IsWorld (after_bind c (is_vnode c a) want b w).0
    bind_valid want (bound got) w ok = record {
      registry = ok.registry;
      ta = add_valid w.ta (is_vnode c a) want want (proto c) ok.ta;
      ud = ensured w.ud _ ok.ud;
    }
    bind_valid want (refused e) w ok = elim (Bool-cases (e == eaddrinuse)) [
      | inl k ↦ rw k (
          unfold bind_alias in
          alias_valid (is_vnode c a) want (c.kernel (record { ip = inaddr_any; port = 0 })) w ok)
      | inr k ↦ rw k (given_back want w ok)
    ]

    claim_valid : (v : Verdict) (w : World) → IsWorld w → IsWorld (after_claim c a v w).0
    claim_valid conflict w ok = ok
    claim_valid fresh w ok = bind_valid a.port (c.kernel (beneath c a)) w ok
    claim_valid shared w ok = bind_valid a.port (c.kernel (beneath c a)) w ok
    claim_valid unavailable w ok = bind_valid a.port (c.kernel (beneath c a)) w ok

    port_valid : (w : World) → IsWorld w → IsWorld (bind_port c a w).0
    unfolding bind_port
    port_valid w ok = claim_valid _ _ (claimed_valid a.port c.reuse a.port w ok)

    take_valid : (port : ℕ) (b : Bound) (w : World) → IsWorld w → IsWorld (take_port c a port b w).0
    take_valid port (refused e) w ok = given_back port w ok
    take_valid port (bound got) w ok = record {
      registry = ok.registry;
      ta = add_valid w.ta (is_vnode c a) port port (proto c) ok.ta;
      ud = named w.ud _ port ok.ud;
    }

    round_valid :
        (port : ℕ) (v : Verdict) (w : World) → IsWorld w → IsWorld (try_claimed c a port v w).0
    round_valid port conflict w ok = ok
    round_valid port fresh w ok = take_valid port _ w ok
    round_valid port shared w ok = take_valid port _ w ok
    round_valid port unavailable w ok = take_valid port _ w ok

    try_valid : (port : ℕ) (w : World) → IsWorld w → IsWorld (try_port c a port w).0
    unfolding try_port
    try_valid port w ok = elim (Bool-cases (taken c.attached c.process port w.registry)) [
      | inl e ↦ rw e ok
      | inr e ↦ rw e (round_valid port _ _ (claimed_valid port 1 0 w ok))
    ]

    continue_valid :
        (r : World × Round) (rest : World × Bool)
        → IsWorld r.0
        → IsWorld rest.0
        → IsWorld (continue r rest).0
    continue_valid (w, found) rest ok ok' = ok
    continue_valid (w, next_port) rest ok ok' = ok'
    continue_valid (w, given_up) rest ok ok' = ok

    search_valid : (i n : ℕ) (w : World) → IsWorld w → IsWorld (try_ports c a i n w).0
    unfolding try_ports
    search_valid i zero w ok = ok
    search_valid i (suc n) w ok =
        let next : IsWorld (try_port c a (candidate c.process.pid i) w).0 = try_valid _ w ok in
        continue_valid _ _ next (search_valid (suc i) n _ next)

    picked_valid : (b : Bound) (w : World) → IsWorld w → IsWorld (after_pick c a b w).0
    picked_valid (refused e) w ok = ok
    picked_valid (bound none) w ok = ok
    picked_valid (bound (some port)) w ok = record {
      registry = (claimed_valid port c.reuse port w ok).registry;
      ta = add_valid w.ta (is_vnode c a) port port (proto c) ok.ta;
      ud = ensured w.ud _ ok.ud;
    }

    pick_valid : (w : World) → IsWorld w → IsWorld (pick c a w).0
    unfolding pick
    pick_valid w ok = picked_valid _ w ok

    searched_valid : (r : World × Bool) → IsWorld r.0 → IsWorld (after_search c a r).0
    searched_valid (w, true) ok = ok
    searched_valid (w, false) ok = pick_valid w ok

    any_valid : (w : World) → IsWorld w → IsWorld (bind_any c a w).0
    unfolding bind_any
    any_valid w ok = elim (Bool-cases (c.lan_only || ltb 0 (used c.attached w.registry))) [
      | inl e ↦ rw e (searched_valid _ (search_valid 0 rounds w ok))
      | inr e ↦ rw e (pick_valid w ok)
    ]

    -- Whatever the kernel answers, bind keeps the ledger exclusive and the tables valid: one claim
    -- for each key, one row of the presentation and one queue for each socket.
    pub bind-IsWorld : (w : World) → IsWorld w → IsWorld (bind c a w).0
    unfolding bind
    bind-IsWorld w ok =
        if-keeps (λ (r : World × Result). IsWorld r.0) c.direct _ _
          (if-keeps (λ (r : World × Result). IsWorld r.0) (a.port == 0) _ _ (any_valid w ok)
            (port_valid w ok))
          ok
