-- ===== src/Docker/Ports.antt =====
-- The port bindings of StartContainer (agent/docker.go) against the mappings of the payload.
use game_server_manager.Base.{
  ◌≡◌, refl, ◌∙◌, Option-cases, ap, subst, ◌≢◌, ◌⊎◌, inl, inr, none, some, List, [], ◌∷◌, String,
  Has, Has-insert, arith, insert, lookup, lookup-insert, lookup-Has, string_key, eq_iff,
}
use game_server_manager.Base.Int.{ℤ, add_int}
use game_server_manager.Protocol.{PortMapping}
use game_server_manager.Docker.{
  PortBinding, PortSets, nat_port, host_binding, protocols_of, publish, publish_mappings, no_ports,
  ports_of,
}
use game_server_manager.Docker.Protocols.{
  Uses, docker_port, all_interfaces, spelled, protocols_of-Uses, Uses-listed,
}

-- A mapping asks for a container's port to lead to a port of the host.
pub record Asks (port : ℤ) (pm : PortMapping) (key : String) (bs : List PortBinding) : Type 0 where
  pub proto : String
  pub uses : Uses pm.protocol proto
  pub same_key : key ≡ docker_port pm.container_port proto
  pub same_bindings : bs ≡ all_interfaces (add_int port pm.host_port_offset)

publish-Has :
    (container host : ℤ) (protos : List String) (sets : PortSets) (key : String)
    (bs : List PortBinding)
    → Has (key, bs) (publish container host protos sets).bindings
    → ((proto : String) × Has proto protos
        × (key ≡ nat_port container proto)
        × (bs ≡ host_binding host))
      ⊎ Has (key, bs) sets.bindings
unfolding publish
publish-Has container host [] sets key bs h = inr h
publish-Has container host (proto ∷ protos) sets key bs h =
    elim (publish-Has container host protos _ key bs h) [
      | inl (p, listed, same, bindings) ↦ inl (p, inr listed, same, bindings)
      | inr there ↦
          elim (Has-insert (nat_port container proto) (host_binding host) sets.bindings (key, bs)
            there) [
              | inl new ↦ inl (proto, inl refl, ap (λ e. e.0) new, ap (λ e. e.1) new)
              | inr old ↦ inr old
            ]
    ]

publish_mappings-Has :
    (port : ℤ) (pms : List PortMapping) (sets : PortSets) (key : String) (bs : List PortBinding)
    → Has (key, bs) (publish_mappings port pms sets).bindings
    → ((pm : PortMapping) × Has pm pms × Asks port pm key bs) ⊎ Has (key, bs) sets.bindings
unfolding publish_mappings
publish_mappings-Has port [] sets key bs h = inr h
publish_mappings-Has port (pm ∷ pms) sets key bs h =
    elim (publish_mappings-Has port pms _ key bs h) [
      | inl (m, listed, asks) ↦ inl (m, inr listed, asks)
      | inr there ↦
          elim (publish-Has pm.container_port (add_int port pm.host_port_offset)
            (protocols_of pm.protocol) sets key bs there) [
              | inl (proto, listed, same, bindings) ↦ inl (
                pm,
                inl refl,
                record {
                  proto = proto;
                  uses = protocols_of-Uses pm.protocol proto listed;
                  same_key = same ∙ spelled pm.container_port proto;
                  same_bindings = bindings;
                },
              )
              | inr old ↦ inr old
            ]
    ]

-- What a container's ports may be bound to.
abbrev pub IsAsked : (port : ℤ) → List PortMapping → (key : String) → List PortBinding → Type 0
IsAsked port [] key bs =
    ((key ≡ docker_port port "udp") ⊎ (key ≡ docker_port port "tcp")) × (bs ≡ all_interfaces port)
IsAsked port (pm ∷ pms) key bs = (m : PortMapping) × Has m (pm ∷ pms) × Asks port m key bs

-- Nothing is bound that is not asked for: each binding of a container is that of one of the server's
-- mappings, for one of its protocols, to the server's port plus the mapping's offset; without any
-- mapping, the server's own port by udp or tcp, to the same port.
pub ports_of-Asks :
    (port : ℤ) (pms : List PortMapping) (key : String) (bs : List PortBinding)
    → lookup key (ports_of port pms).bindings ≡ some bs
    → IsAsked port pms key bs
unfolding ports_of
ports_of-Asks port [] key bs h =
    elim (publish-Has port port ("udp" ∷ "tcp" ∷ []) no_ports key bs (lookup-Has key _ bs h)) [
      | inl (p, listed, same, bindings) ↦ (own p listed same, bindings)
      | inr none_there ↦ absurd none_there
    ]
  where
    own :
        (p : String)
        → Has p ("udp" ∷ "tcp" ∷ [])
        → key ≡ nat_port port p
        → (key ≡ docker_port port "udp") ⊎ (key ≡ docker_port port "tcp")
    own p (inl e) same = inl (same ∙ spelled port p ∙ ap (docker_port port) e)
    own p (inr (inl e)) same = inr (same ∙ spelled port p ∙ ap (docker_port port) e)
    own p (inr (inr none_there)) same = absurd none_there
ports_of-Asks port (pm ∷ pms) key bs h =
    elim (publish_mappings-Has port (pm ∷ pms) no_ports key bs (lookup-Has key _ bs h)) [
      | inl found ↦ found
      | inr none_there ↦ absurd none_there
    ]

-- A port that leads somewhere still does after more is published, and a published one does.
module _ (wanted : String) where
  publish-kept :
      (container host : ℤ) (protos : List String) (sets : PortSets)
      → lookup wanted sets.bindings ≢ none
      → lookup wanted (publish container host protos sets).bindings ≢ none
  unfolding publish
  publish-kept container host [] sets h = h
  publish-kept container host (proto ∷ protos) sets h =
      publish-kept container host protos _
        (insert-kept (nat_port container proto) (host_binding host) sets.bindings h)
    where
      insert-kept :
          (new : String) (v : List PortBinding) (m : List (String × List PortBinding))
          → lookup wanted m ≢ none
          → lookup wanted (insert new v m) ≢ none
      insert-kept new v m k = ground (arith, lookup-insert new wanted v m)

  publish_mappings-kept :
      (port : ℤ) (pms : List PortMapping) (sets : PortSets)
      → lookup wanted sets.bindings ≢ none
      → lookup wanted (publish_mappings port pms sets).bindings ≢ none
  unfolding publish_mappings
  publish_mappings-kept port [] sets h = h
  publish_mappings-kept port (pm ∷ pms) sets h = publish_mappings-kept port pms _ (
      publish-kept pm.container_port (add_int port pm.host_port_offset) (protocols_of pm.protocol)
        sets h)

insert-bound :
    (wanted new : String) (v : List PortBinding) (m : List (String × List PortBinding))
    → wanted ≡ new
    → lookup wanted (insert new v m) ≢ none
insert-bound wanted new v m same = ground (arith, lookup-insert new wanted v m, eq_iff new wanted)

publish-bound :
    (container host : ℤ) (protos : List String) (sets : PortSets) (proto : String)
    → Has proto protos
    → lookup (nat_port container proto) (publish container host protos sets).bindings ≢ none
unfolding publish
publish-bound container host [] sets proto h = absurd h
publish-bound container host (p ∷ protos) sets proto (inr h) =
    publish-bound container host protos _ proto h
publish-bound container host (p ∷ protos) sets proto (inl same) =
    publish-kept (nat_port container proto) container host protos _ (
      insert-bound (nat_port container proto) (nat_port container p) (host_binding host)
        sets.bindings (ap (nat_port container) same))

publish_mappings-bound :
    (port : ℤ) (pms : List PortMapping) (sets : PortSets) (m : PortMapping) (proto : String)
    → Has m pms
    → Has proto (protocols_of m.protocol)
    → lookup (nat_port m.container_port proto) (publish_mappings port pms sets).bindings ≢ none
unfolding publish_mappings
publish_mappings-bound port [] sets m proto h k = absurd h
publish_mappings-bound port (pm ∷ pms) sets m proto (inr h) k =
    publish_mappings-bound port pms _ m proto h k
publish_mappings-bound port (pm ∷ pms) sets m proto (inl same) k =
    publish_mappings-kept (nat_port m.container_port proto) port pms _ (
      subst
        (λ (x : PortMapping).
          lookup (nat_port m.container_port proto)
            (publish x.container_port (add_int port x.host_port_offset) (protocols_of x.protocol)
              sets).bindings
          ≢ none)
        same
        (publish-bound m.container_port (add_int port m.host_port_offset) (protocols_of m.protocol)
          sets proto k))

-- Every port that a mapping asks for is bound, for each of the mapping's protocols, to the server's
-- port plus the mapping's offset, if the mappings that ask for the same port and protocol of the
-- container agree on the offset.
pub ports_of-bound :
    (port : ℤ) (pms : List PortMapping) (m : PortMapping) (proto : String)
    → Has m pms
    → Uses m.protocol proto
    → ((other : PortMapping) (q : String)
        → Has other pms
        → Uses other.protocol q
        → docker_port m.container_port proto ≡ docker_port other.container_port q
        → other.host_port_offset ≡ m.host_port_offset)
    → lookup (docker_port m.container_port proto) (ports_of port pms).bindings
      ≡ some (all_interfaces (add_int port m.host_port_offset))
ports_of-bound port [] m proto h uses agree = absurd h
ports_of-bound port (pm ∷ pms) m proto h uses agree =
    elim (Option-cases (lookup key (ports_of port (pm ∷ pms)).bindings)) [
      | inl unbound ↦ absurd (bound unbound)
      | inr (bs, e) ↦
          let (other, listed, asks) = ports_of-Asks port (pm ∷ pms) key bs e in
          e
          ∙ ap some asks.same_bindings
          ∙ ap (λ n. some (all_interfaces (add_int port n)))
              (agree other asks.proto listed asks.uses asks.same_key)
    ]
  where
    key : String
    key = docker_port m.container_port proto

    bound : lookup key (ports_of port (pm ∷ pms)).bindings ≢ none
    bound =
        unfold ports_of in
        subst (λ k. lookup k (publish_mappings port (pm ∷ pms) no_ports).bindings ≢ none)
          (spelled m.container_port proto)
          (publish_mappings-bound port (pm ∷ pms) no_ports m proto h
            (Uses-listed m.protocol proto uses))
