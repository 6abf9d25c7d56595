-- ===== src/Docker.antt =====
-- agent/docker.go: the containers of an agent's host. The Docker client is a parameter, an interface
-- over the state of the daemon; an error is its text.
pub mod Protocols
pub mod Ports
pub mod Streams
mod Tests
use Prim.Native.String
use game_server_manager.Base.{
  Bool, true, false, Option, none, some, List, [], ◌∷◌, String, if◌then◌else◌, str_eq, map, insert,
  string_key,
}
use game_server_manager.Base.Int.{ℤ, add_int}
use game_server_manager.Base.Decimal.{itoa}
use game_server_manager.Rcon.{Bytes}
use game_server_manager.Protocol.{StartServerPayload, PortMapping}

-- Go's struct{}
pub data Struct : Type 0 where
  struct : Struct

pub record PortBinding : Type 0 where
  pub host_ip : String
  pub host_port : String

-- What ContainerCreate is given, besides the name.
pub record ContainerConfig : Type 0 where
  pub image : String
  pub env : List String
  pub exposed_ports : List (String × Struct)
  pub port_bindings : List (String × List PortBinding)
  pub binds : List String
  pub restart_policy : String
  pub network : String

pub data Result {ℓ} (A : Type ℓ) : Type ℓ where
  ok : A → Result A
  err : (error : String) → Result A

-- The calls of the Docker client that the agent makes.
pub record Client (S : Type 0) : Type 0 where
  pub volume_create : (name : String) → S → S × Option String
  pub volume_remove : (name : String) (force : Bool) → S → S × Option String
  pub image_pull : (image : String) → S → S × Option String
  pub container_list : (all : Bool) (name : String) → S → Result (List String)
  pub container_stop : (id : String) → S → S × Option String
  pub container_remove : (id : String) (force : Bool) → S → S × Option String
  pub container_create : ContainerConfig → (name : String) → S → S × Result String
  pub container_start : (id : String) → S → S × Option String
  -- the bytes of the last 50 lines of a container's log and of those that follow, until the stream
  -- ends or is cancelled, with the error of the last read
  pub container_logs : (id : String) → S → Result (Bytes × Option String)

-- The network that NewDockerManager chooses, given AGENT_NETWORK.
abbrev pub network_of : (agent_network : String) → String
network_of agent_network = if str_eq agent_network "" then "bridge" else agent_network

abbrev pub protocols_of : String → List String
protocols_of protocol =
    if str_eq protocol "both"
    then "tcp" ∷ "udp" ∷ []
    else if str_eq protocol "tcp"
    then "tcp" ∷ []
    else "udp" ∷ []

-- nat.Port(fmt.Sprintf("%d/%s", port, proto))
unfoldable pub nat_port : ℤ → String → String
nat_port port proto = String.◌++◌ (itoa port) (String.◌++◌ "/" proto)

abbrev pub host_binding : ℤ → List PortBinding
host_binding port = record { host_ip = "0.0.0.0"; host_port = itoa port } ∷ []

pub record PortSets : Type 0 where
  pub exposed : List (String × Struct)
  pub bindings : List (String × List PortBinding)

unfoldable pub publish : (container host : ℤ) → List String → PortSets → PortSets
publish container host [] sets = sets
publish container host (proto ∷ protos) sets = publish container host protos (record {
  exposed = insert (nat_port container proto) struct sets.exposed;
  bindings = insert (nat_port container proto) (host_binding host) sets.bindings;
})

-- The loop over p.PortMappings.
unfoldable pub publish_mappings : ℤ → List PortMapping → PortSets → PortSets
publish_mappings port [] sets = sets
publish_mappings port (pm ∷ pms) sets =
    publish_mappings port pms
      (publish pm.container_port (add_int port pm.host_port_offset) (protocols_of pm.protocol) sets)

abbrev pub no_ports : PortSets
no_ports = record { exposed = []; bindings = [] }

-- The ports of a container; without mappings the server's port, by both protocols.
unfoldable pub ports_of : ℤ → List PortMapping → PortSets
ports_of port [] = publish port port ("udp" ∷ "tcp" ∷ []) no_ports
ports_of port (pm ∷ pms) = publish_mappings port (pm ∷ pms) no_ports

abbrev pub container_config : (network : String) → StartServerPayload → ContainerConfig
container_config network p =
    let sets = ports_of p.port p.port_mappings in
    let data_path = if str_eq p.data_path "" then "/data" else p.data_path in
    record {
      image = p.image;
      env = map (λ e. String.◌++◌ e.0 (String.◌++◌ "=" e.1)) p.env;
      exposed_ports = sets.exposed;
      port_bindings = sets.bindings;
      binds = String.◌++◌ p.container_name (String.◌++◌ "-data" (String.◌++◌ ":" data_path)) ∷ [];
      restart_policy = "unless-stopped";
      network = network;
    }

-- The daemon is a section parameter of all that calls it.
module _ {S : Type 0} (client : Client S) where
  abbrev remove_found : (force : Bool) → Result (List String) → S → S
  remove_found force (ok (id ∷ _)) s =
      (client.container_remove id force (client.container_stop id s).0).0
  remove_found force (ok []) s = s
  remove_found force (err _) s = s

  -- removeContainerByName
  unfoldable pub remove_container_by_name : String → S → S
  remove_container_by_name name s = remove_found false (client.container_list true name s) s

  abbrev started : String → S × Option String → S × Result String
  started id (s, none) = (s, ok id)
  started id (s, some e) = (s, err (String.◌++◌ "container start failed: " e))

  abbrev start_created : S × Result String → S × Result String
  start_created (s, err e) = (s, err (String.◌++◌ "container create failed: " e))
  start_created (s, ok id) = started id (client.container_start id s)

  abbrev create_pulled : String → StartServerPayload → S × Option String → S × Result String
  create_pulled network p (s, some e) = (s, err (String.◌++◌ "image pull failed: " e))
  create_pulled network p (s, none) = start_created (
      client.container_create (container_config network p) p.container_name
        (remove_container_by_name p.container_name s))

  -- StartContainer: a volume that cannot be created is only logged.
  unfoldable pub start_container : String → StartServerPayload → S → S × Result String
  start_container network p s =
      create_pulled network p (
        client.image_pull p.image (client.volume_create (String.◌++◌ p.container_name "-data") s).0)

  abbrev stop_listed : String → Result (List String) → S → S × Option String
  stop_listed name (err e) s = (s, some e)
  stop_listed name (ok []) s = (s, some (String.◌++◌ "container not found: " name))
  stop_listed name (ok (id ∷ _)) s = client.container_stop id s

  -- StopContainer
  unfoldable pub stop_container : String → S → S × Option String
  stop_container name s = stop_listed name (client.container_list false name s) s

  -- DeleteContainer, which never gives an error
  unfoldable pub delete_container : (name volume : String) → S → S
  delete_container name volume s =
      let removed = remove_found true (client.container_list true name s) s in
      if str_eq volume "" then removed else (client.volume_remove volume true removed).0
