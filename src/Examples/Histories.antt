-- ===== src/Examples/Histories.antt =====
-- src/octopusd.cpp: two threads receive one file, and a third one sends it.
use octopusd.Prelude.{◌≤◌, refl, List, [], ◌∷◌, ◌++◌}
use mathlib.Core.List.{Perm}
use octopusd.Prelude.Bytes.{codes}
use octopusd.Queue.Check.Exclusive.{active}
use octopusd.Queue.Put.{add_server_info}
use octopusd.Queue.Put.Placement.{queued}
use octopusd.Queue.Run.{Call, run, checks, puts, takes, moves, clears_disabled}
use octopusd.Queue.Run.Exclusive.{run-IsExclusive}
use octopusd.Queue.Run.Ledger.{run-ledger, all_released, all_accepted}
use octopusd.Examples.Data.{idle, noon, later, sends_a, all_well}

abbrev afternoon : List Call
afternoon =
    checks 7 noon
    ∷ checks 9 later
    ∷ puts all_well 7 sends_a add_server_info 10
    ∷ puts all_well 9 sends_a add_server_info 10
    ∷ takes 8 0
    ∷ moves
    ∷ clears_disabled
    ∷ []

run-IsExclusive_example : active (codes "news") (codes "/a.html") (run afternoon idle).recving_q ≤ 1
run-IsExclusive_example = run-IsExclusive afternoon idle refl (codes "news") (codes "/a.html")

run-ledger_example :
    Perm
      (all_released afternoon idle ++ queued (run afternoon idle))
      (all_accepted afternoon idle ++ queued idle)
run-ledger_example = run-ledger afternoon idle
