-- ===== src/Docker/Tests.antt =====
-- Concrete ports.
use game_server_manager.Base.{
  ◌≡◌, refl, ap, inl, inr, some, [], ◌∷◌, String, Has, lookup, insert, string_key,
}
use game_server_manager.Base.Int.{pos, int_key, add_int}
use game_server_manager.Base.Decimal.{itoa}
use game_server_manager.Protocol.{PortMapping}
use game_server_manager.Docker.{nat_port, host_binding, publish, publish_mappings, ports_of}
use game_server_manager.Docker.Protocols.{Uses, docker_port, all_interfaces}
use game_server_manager.Docker.Ports.{Asks, ports_of-Asks, ports_of-bound}

abbrev game_port : PortMapping
game_port = record {
  label = "game";
  container_port = pos 27015;
  protocol = "both";
  host_port_offset = pos 1;
}

bound_udp :
    lookup "27015/udp" (ports_of (pos 27015) (game_port ∷ [])).bindings
    ≡ some (host_binding (pos 27016))
unfolding ports_of publish_mappings publish nat_port lookup insert itoa add_int
bound_udp = refl

ports_of-Asks_example :
    (m : PortMapping) × Has m (game_port ∷ [])
    × Asks (pos 27015) m "27015/udp" (host_binding (pos 27016))
ports_of-Asks_example =
    ports_of-Asks (pos 27015) (game_port ∷ []) "27015/udp" (host_binding (pos 27016)) bound_udp

only_one :
    (other : PortMapping) (q : String)
    → Has other (game_port ∷ [])
    → Uses other.protocol q
    → docker_port (pos 27015) "udp" ≡ docker_port other.container_port q
    → other.host_port_offset ≡ pos 1
only_one other q (inl same) uses e = ap (λ (m : PortMapping). m.host_port_offset) same
only_one other q (inr none_there) uses e = absurd none_there

ports_of-bound_example :
    lookup (docker_port (pos 27015) "udp") (ports_of (pos 27015) (game_port ∷ [])).bindings
    ≡ some (all_interfaces (add_int (pos 27015) (pos 1)))
ports_of-bound_example =
    ports_of-bound (pos 27015) (game_port ∷ []) game_port "udp" (inl refl) (inl (refl, inr refl))
      only_one
