-- ===== src/Bridge/Order.antt =====
-- Neither direction of the pipe loses, doubles or reorders a byte, and each end is passed on once, after
-- the last byte before it.
use shadow_lan.Base.{
  ◌≡◌, ◌∙◌, ap, sym, refl, Bool, true, false, ◌&&◌, ◌||◌, not, List, [], ◌∷◌, ◌++◌, Option, none,
  some, arith, if-keeps,
}
use shadow_lan.Bridge.{
  Pipe, is_held, Sent, took, would_block, broken, Received, gave, ended, no_data, failed, Next, on,
  pass, out, Pass, to_relay_by, to_game_by, from_game_by, from_relay_by, then_do, guarded, send_out,
  send_in, read_game, read_relay, serve, turn, run, start,
}
use shadow_lan.Bridge.Piped.{IsPiped, moved, all_moved, shut_notice-IsPiped, end_notice-IsPiped}

-- What is settled before a pass: which holds are empty and which ends were met.
record Settled (p q : Pipe) : Type 0 where
  piped : IsPiped q
  in_free : is_held p.in_hold ≡ false → is_held q.in_hold ≡ false
  fd_open : q.fin_fd ≡ p.fin_fd

record Before (p q : Pipe) : Type 0 where
  settled : Settled p q
  out_free : is_held p.out_hold ≡ false → is_held q.out_hold ≡ false
  real_open : q.fin_real ≡ p.fin_real

then-keeps :
    (M L : Pipe → Type 0) (r : Pipe × Next) (f : Pipe → Pipe × Next)
    → ((q : Pipe) → M q → L q)
    → M r.0
    → ((q : Pipe) → M q → L (f q).0)
    → L (then_do r f).0
then-keeps M L (p, on) f weaken m step = step p m
then-keeps M L (p, pass) f weaken m step = weaken p m
then-keeps M L (p, out) f weaken m step = weaken p m

guarded-keeps :
    (L : Pipe → Type 0) (b : Bool) (f : Pipe → Pipe × Next) (p : Pipe)
    → L p
    → (b ≡ true → L (f p).0)
    → L (guarded b f p).0
guarded-keeps L true f p l step = step refl
guarded-keeps L false f p l step = l

module _ (p : Pipe) where
  relayed :
      (s : Sent) (q : Pipe)
      → is_held q.out_hold ≡ true
      → is_held p.out_hold ≡ true
      → Before p q
      → Before p (to_relay_by s q).0
  relayed would_block q held kept b = b
  relayed broken q held kept b = b
  relayed (took k) q held kept b = record {
    settled = record {
      piped = record {
        outward = b.settled.piped.outward ∙ moved q.to_relay q.out_hold k;
        inward = b.settled.piped.inward;
        shut = λ h. absurd (ground (arith, b.settled.piped.shut h));
        eof = b.settled.piped.eof;
        once = b.settled.piped.once;
        once_end = b.settled.piped.once_end;
      };
      in_free = b.settled.in_free;
      fd_open = b.settled.fd_open;
    };
    out_free = λ h. absurd (ground arith);
    real_open = b.real_open;
  }

  played :
      (s : Sent) (q : Pipe)
      → is_held p.in_hold ≡ true
      → Before p q
      → is_held q.in_hold ≡ true
      → Before p (to_game_by s q).0
  played would_block q kept b held = b
  played broken q kept b held = b
  played (took k) q kept b held = record {
    settled = record {
      piped = record {
        outward = b.settled.piped.outward;
        inward = b.settled.piped.inward ∙ moved q.to_game q.in_hold k;
        shut = b.settled.piped.shut;
        eof = λ h. absurd (ground (arith, b.settled.piped.eof h));
        once = b.settled.piped.once;
        once_end = b.settled.piped.once_end;
      };
      in_free = λ h. absurd (ground arith);
      fd_open = b.settled.fd_open;
    };
    out_free = b.out_free;
    real_open = b.real_open;
  }

  from_game_met :
      (s : Received) (q : Pipe)
      → is_held q.out_hold ≡ false
      → q.fin_real ≡ false
      → Settled p q
      → Settled p (from_game_by s q).0
  from_game_met no_data q free going b = b
  from_game_met failed q free going b = b
  from_game_met ended q free going b = record {
    piped = record {
      outward = b.piped.outward;
      inward = b.piped.inward;
      shut = λ h. absurd (ground (arith, b.piped.shut h));
      eof = b.piped.eof;
      once = b.piped.once;
      once_end = b.piped.once_end;
    };
    in_free = b.in_free;
    fd_open = b.fd_open;
  }
  from_game_met (gave bytes) q free going b = record {
    piped = record {
      outward =
          ap (λ z. z ++ bytes)
            (sym (all_moved q.from_game q.to_relay q.out_hold b.piped.outward free));
      inward = b.piped.inward;
      shut = λ h. absurd (ground (arith, b.piped.shut h));
      eof = b.piped.eof;
      once = b.piped.once;
      once_end = b.piped.once_end;
    };
    in_free = b.in_free;
    fd_open = b.fd_open;
  }

  from_relay_met :
      (s : Received) (q : Pipe)
      → is_held q.in_hold ≡ false
      → q.fin_fd ≡ false
      → IsPiped q
      → IsPiped (from_relay_by s q).0
  from_relay_met no_data q free going b = b
  from_relay_met failed q free going b = b
  from_relay_met ended q free going b = record {
    outward = b.outward;
    inward = b.inward;
    shut = b.shut;
    eof = λ h. absurd (ground (arith, b.eof h));
    once = b.once;
    once_end = b.once_end;
  }
  from_relay_met (gave bytes) q free going b = record {
    outward = b.outward;
    inward = ap (λ z. z ++ bytes) (sym (all_moved q.from_relay q.to_game q.in_hold b.inward free));
    shut = b.shut;
    eof = λ h. absurd (ground (arith, b.eof h));
    once = b.once;
    once_end = b.once_end;
  }

  abbrev Same : Pipe → Type 0
  Same q = Before p q × (is_held q.in_hold ≡ is_held p.in_hold)

  relayed-Same : (s : Sent) → is_held p.out_hold ≡ true → IsPiped p → Same (to_relay_by s p).0
  relayed-Same s held v = (relayed s p held held (here v), same s)
    where
      here : IsPiped p → Before p p
      here v = record {
        settled = record { piped = v; in_free = λ h. h; fd_open = refl };
        out_free = λ h. h;
        real_open = refl;
      }

      same : (s : Sent) → is_held (to_relay_by s p).0.in_hold ≡ is_held p.in_hold
      same (took k) = refl
      same would_block = refl
      same broken = refl

  serve-IsPiped : (a : Pass) → IsPiped p → IsPiped (serve a p).0
  unfolding serve
  serve-IsPiped a v =
      then-keeps (Settled p) IsPiped
        (then_do (then_do (send_out a p p) (send_in a p)) (read_game a p)) (read_relay a p)
        (λ q b. b.piped)
        (then-keeps (Before p) (Settled p) (then_do (send_out a p p) (send_in a p)) (read_game a p)
          (λ q b. b.settled)
          (then-keeps Same (Before p) (send_out a p p) (send_in a p) (λ q b. b.0)
            (guarded-keeps Same (is_held p.out_hold && a.fd_writable) (to_relay_by a.fd_send) p
              start_here (λ e. relayed-Same a.fd_send (ground arith) v))
            (λ q b.
              guarded-keeps (Before p) (is_held p.in_hold && a.real_writable)
                (to_game_by a.real_send) q b.0
                (λ e. played a.real_send q (ground arith) b.0 (ground (arith, b.1)))))
          (λ q b.
            guarded-keeps (Settled p)
              (not (is_held p.out_hold) && (not p.fin_real && a.real_readable))
              (from_game_by a.real_recv) q b.settled
              (λ e.
                from_game_met a.real_recv q (b.out_free (ground arith)) (b.real_open ∙ ground arith)
                  b.settled)))
        (λ q b.
          guarded-keeps IsPiped (not (is_held p.in_hold) && (not p.fin_fd && a.fd_readable))
            (from_relay_by a.fd_recv) q b.piped
            (λ e.
              from_relay_met a.fd_recv q (b.in_free (ground arith)) (b.fd_open ∙ ground arith)
                b.piped))
    where
      start_here : Same p
      start_here = (
        record {
          settled = record { piped = v; in_free = λ h. h; fd_open = refl };
          out_free = λ h. h;
          real_open = refl;
        },
        refl,
      )

turn-IsPiped : (dead : Bool) (a : Option Pass) (p : Pipe) → IsPiped p → IsPiped (turn dead a p).0
unfolding turn
turn-IsPiped dead none p v =
    if-keeps (λ (r : Pipe × Next). IsPiped r.0) (dead || (p.fin_fd && p.fin_real)) _ _ v
      (end_notice-IsPiped _ (shut_notice-IsPiped p v))
turn-IsPiped dead (some a) p v =
    if-keeps (λ (r : Pipe × Next). IsPiped r.0) (dead || (p.fin_fd && p.fin_real)) _ _ v
      (serve-IsPiped _ a (end_notice-IsPiped _ (shut_notice-IsPiped p v)))

next-keeps :
    (q rest : Pipe) (n : Next)
    → IsPiped q
    → IsPiped rest
    → IsPiped (elim n [ on ↦ rest | pass ↦ rest | out ↦ q ])
next-keeps q rest on v w = w
next-keeps q rest pass v w = w
next-keeps q rest out v w = v

-- On every run of the pipe, each direction carries the bytes that were read, in their order: those
-- sent followed by those held. The game's end is told to the relay, and the relay's to the game, at
-- most once, and only when every byte before it was sent.
pub run-IsPiped : (turns : List (Bool × Option Pass)) (p : Pipe) → IsPiped p → IsPiped (run turns p)
unfolding run
run-IsPiped [] p v = v
run-IsPiped ((dead, a) ∷ turns) p v =
    next-keeps (turn dead a p).0 (run turns (turn dead a p).0) (turn dead a p).1
      (turn-IsPiped dead a p v) (run-IsPiped turns (turn dead a p).0 (turn-IsPiped dead a p v))

pub start-IsPiped : IsPiped start
start-IsPiped = record {
  outward = refl;
  inward = refl;
  shut = λ h. absurd (cc);
  eof = λ h. absurd (cc);
  once = refl;
  once_end = refl;
}
