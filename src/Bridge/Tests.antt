-- ===== src/Bridge/Tests.antt =====
-- A pipe that carries three bytes out and two in, and meets both ends.
use shadow_lan.Base.{◌≡◌, refl, true, false, Bool, [], ◌∷◌, List, Option, some, none}
use shadow_lan.Bridge.{
  Pass, took, would_block, broken, gave, ended, no_data, shut_notice, end_notice, serve, turn, run,
  drain, start,
}
use shadow_lan.Bridge.Piped.{IsPiped}
use shadow_lan.Bridge.Order.{run-IsPiped, start-IsPiped}

abbrev reading : Pass
reading = record {
  fd_writable = true;
  real_writable = true;
  real_readable = true;
  fd_readable = true;
  fd_send = took 2;
  real_send = took 2;
  real_recv = gave (1 ∷ 2 ∷ 3 ∷ []);
  fd_recv = gave (8 ∷ 9 ∷ []);
}

abbrev ending : Pass
ending = record reading { real_recv = ended; fd_recv = no_data; fd_send = took 1 }

abbrev passes : List (Bool × Option Pass)
passes =
    (false, some reading)
    ∷ (false, none)
    ∷ (false, some reading)
    ∷ (false, some ending)
    ∷ (false, some ending)
    ∷ (false, none)
    ∷ []

-- All three bytes went out before the one notice.
carried : ((run passes start).to_relay ≡ 1 ∷ 2 ∷ 3 ∷ []) × ((run passes start).notices ≡ 1)
unfolding run turn serve shut_notice end_notice
carried = (refl, refl)

run-IsPiped_example : IsPiped (run passes start)
run-IsPiped_example = run-IsPiped passes start start-IsPiped

drains :
    (drain
      ((took 1, would_block) ∷ (took 1, broken) ∷ [])
      (record start { in_hold = 1 ∷ 2 ∷ []; out_hold = 3 ∷ [] })).to_game
    ≡ 1 ∷ 2 ∷ []
unfolding drain
drains = refl
