-- ===== src/Stream/Drains/Tests.antt =====
-- hook/hk_stream.c: a drain of two chunks, the second of which goes out in part.
use shadow_lan.Base.{ℕ, ◌≡◌, refl, false, List, [], ◌∷◌}
use shadow_lan.Stream.{Chunk}
use shadow_lan.Legs
use shadow_lan.Legs.{Try, send_all}
use shadow_lan.Stream.Drains.{Call, drain, close_drain, exit_drain}
use shadow_lan.Stream.Drains.Whole.{IsDrain, drain-IsDrain}

abbrev queued : List Chunk
queued = record { p = 1 ∷ 2 ∷ 3 ∷ []; off = 1 } ∷ record { p = 4 ∷ 5 ∷ []; off = 0 } ∷ []

abbrev takes : ℕ → Try
takes n = record { reply = Legs.moved n; select = Legs.waited; now = 0 }

abbrev breaks : Try
breaks = record { reply = Legs.broken; select = Legs.waited; now = 0 }

abbrev calls : List Call
calls =
    record { start = 0; tries = takes 1 ∷ takes 1 ∷ []; back = 1 }
    ∷ record { start = 1; tries = takes 1 ∷ breaks ∷ []; back = 2 }
    ∷ []

drains : (close_drain calls queued 4).wire ≡ 2 ∷ 3 ∷ 4 ∷ []
unfolding close_drain drain send_all
drains = refl

-- The time is over after the first call.
drains_late :
    (exit_drain 0 (record { start = 0; tries = takes 2 ∷ []; back = 901 } ∷ []) queued 4).ototal ≡ 2
unfolding exit_drain drain send_all
drains_late = refl

drain-IsDrain_example : IsDrain queued (drain (λ t. false) calls queued 4)
drain-IsDrain_example = drain-IsDrain (λ t. false) calls queued 4 refl
