-- ===== src/Proxy/ShutdownTests.antt =====
-- Runs and a witness for the end of an accept loop.
use kafka_proxy.Base.{◌≡◌, refl, true, false, List, [], ◌∷◌, ◌++◌, none}
use kafka_proxy.Metrics.{new as new_metrics}
use kafka_proxy.Proxy.Admission.{admits, client_begins}
use kafka_proxy.Proxy.Accept.{
  Turn, accepted, accept_failed, cancelled, pooled, AcceptLoop, fresh_loop, accept_turn,
  accept_turns,
}
use kafka_proxy.Proxy.Shutdown.{accept_turns-cancelled}

abbrev turns : List Turn
turns = accepted 7 0 100 ∷ accept_failed ∷ []

abbrev later : List Turn
later = accepted 8 0 110 ∷ []

abbrev at : List Turn → AcceptLoop
at ts = accept_turns none 5 (pooled 4) ts (fresh_loop (new_metrics true))

-- The client 7 is still connected.
connected_then : (at (turns ++ (cancelled ∷ later))).system.connected ≡ 1
unfolding accept_turns accept_turn admits client_begins new_metrics
connected_then = refl

accept_turns-cancelled_example :
    ((at (turns ++ (cancelled ∷ later))).running ≡ false)
    × ((at (turns ++ (cancelled ∷ later))).spawned ≡ (at turns).spawned)
    × ((at (turns ++ (cancelled ∷ []))).system ≡ (at turns).system)
accept_turns-cancelled_example =
    accept_turns-cancelled none 5 (pooled 4) turns later (fresh_loop (new_metrics true))
