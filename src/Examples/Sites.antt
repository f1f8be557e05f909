-- ===== src/Examples/Sites.antt =====
-- sharelib/ServerMng.cpp: the table of sites.
use octopusd.Prelude.{◌≡◌}
use octopusd.Prelude.Bytes.{codes}
use octopusd.Prelude.Int.{pos}
use octopusd.Server.{ServerMsg, add_server}
use octopusd.Server.Sites.{servers_of, after_add, add_server-servers_of}
use octopusd.Examples.Data.{config}

abbrev third : ServerMsg
third = record { site_name = codes "news"; server_ip = codes "10.0.0.3"; port = pos 9000 }

abbrev first : ServerMsg
first = record third { server_ip = codes "10.0.0.1" }

add_server-servers_of_example :
    servers_of (codes "news") (add_server third config) ≡ after_add third (codes "news") config
add_server-servers_of_example = add_server-servers_of third (codes "news") config
