-- ===== src/Examples/Clients.antt =====
-- src/octopusd.cpp: clients connect and are served.
use octopusd.Prelude.{List, [], ◌∷◌, ◌++◌}
use mathlib.Core.List.{Perm}
use octopusd.Prelude.Bytes.{codes}
use octopusd.Pool.{Limits, Pool, Turn, connects, serves, turns}
use octopusd.Pool.Connections.{accepted, whereabouts, turns-whereabouts}

abbrev limits : Limits
limits = record { login_ip = codes "10.0.0.12|10.0.0.2"; max_nr_of_cnt = 1 }

abbrev empty_pool : Pool
empty_pool = record { connections = []; served = []; closed = [] }

abbrev rush : List Turn
rush =
    connects (codes "10.0.0.2") 5
    ∷ connects (codes "10.0.0.12") 6
    ∷ serves
    ∷ connects (codes "9.9.9.9") 7
    ∷ connects (codes "10.0.0.12") 8
    ∷ []

turns-whereabouts_example :
    Perm (whereabouts (turns limits rush empty_pool)) (accepted rush ++ whereabouts empty_pool)
turns-whereabouts_example = turns-whereabouts limits rush empty_pool

-- The address 10.0.0.1 is not listed.
