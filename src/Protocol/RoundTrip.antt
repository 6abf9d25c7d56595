-- ===== src/Protocol/RoundTrip.antt =====
-- Messages that one program writes and the other reads (master/protocol.go, agent/protocol.go).
use game_server_manager.Base.{
  ◌≡◌, refl, ◌⊎◌, ap, sym, ◌∙◌, inl, inr, false, true, none, some, List, [], ◌∷◌, String, str_eq,
  eq_iff, Bool-cases, All,
}
use game_server_manager.Base.Int.{ℤ, pos, Fits}
use game_server_manager.Protocol.{
  PortMapping, ContainerMetrics, Message, start_server, stop_server, delete_server, rcon_command,
  stream_logs_start, stream_logs_stop, register, heartbeat, server_status, log_line, rcon_response,
  approved, metrics, request_metrics, message,
}
use game_server_manager.Protocol.Json.{
  Coding, Json, get, through, through_fields, through_items, env_fields, env_of,
}
use game_server_manager.Protocol.Wire.{
  mapping_items, mappings_of, write_approved, read_approved, write_start_server, read_start_server,
  write_stop_server, read_stop_server, write_delete_server, read_delete_server, write_rcon_command,
  read_rcon_command, write_stream_logs, read_stream_logs,
}
use game_server_manager.Protocol.Reports.{
  container_items, containers_of, write_register, read_register, write_heartbeat, read_heartbeat,
  write_server_status, read_server_status, write_rcon_response, read_rcon_response, write_log_line,
  read_log_line, write_metrics, read_metrics, write_host_info, read_host_info,
}
use game_server_manager.Protocol.Envelope.{
  message_type, write_payload, envelope, marshals, write_message, receiver,
}

-- An integer that a float64 holds exactly.
abbrev pub Exact : ℤ → Type 0
Exact n = Fits 53 n

abbrev pub ExactMapping : PortMapping → Type 0
ExactMapping p = Exact p.container_port × Exact p.host_port_offset

abbrev pub ExactContainer : ContainerMetrics → Type 0
ExactContainer p = Exact (pos p.mem_used_mb) × Exact (pos p.mem_limit_mb)

-- The integers of a message are exact, and its raw bytes are what a JSON text holds.
abbrev pub Portable : Coding → Message → Type 0
Portable c (start_server p) =
    Exact p.server_id × Exact p.port × Exact p.max_players × All ExactMapping p.port_mappings
Portable c (stop_server p) = Exact p.server_id
Portable c (delete_server p) = Exact p.server_id
Portable c (rcon_command p) = Exact p.server_id × Exact p.rcon_port
Portable c (stream_logs_start p) = Exact p.server_id
Portable c (stream_logs_stop p) = Exact p.server_id
Portable c (register p) =
    Exact p.host_info.cpu_cores × Exact p.host_info.memory_gb × Exact p.host_info.disk_gb
Portable c (server_status p) = Exact p.server_id
Portable c (log_line p) = Exact p.server_id × (c.read (c.written p.line) ≡ p.line)
Portable c (rcon_response p) = Exact p.server_id × (c.read (c.written p.response) ≡ p.response)
Portable c (metrics p) =
    Exact (pos p.mem_used_mb)
    × Exact (pos p.mem_total_mb)
    × Exact (pos p.disk_used_gb)
    × Exact (pos p.disk_total_gb)
    × All ExactContainer p.containers
Portable c (heartbeat p) = Unit
Portable c (approved p) = Unit
Portable c request_metrics = Unit

empty_or : (s : String) → (s ≡ "") ⊎ (str_eq s "" ≡ false)
empty_or s = elim (Bool-cases (str_eq s "")) [ inl e ↦ inl ((eq_iff s "").0 e) | inr e ↦ inr e ]

module _ (c : Coding) (exact : (n : ℤ) → Exact n → c.round n ≡ n) where
  env-read :
      (env : List (String × String)) → env_of (through_fields c.round (env_fields env)) ≡ some env
  unfolding through env_fields env_of
  env-read [] = refl
  env-read ((k, v) ∷ env) = rw (env-read env) refl

  mappings-read :
      (ps : List PortMapping)
      → All ExactMapping ps
      → mappings_of (through_items c.round (mapping_items ps)) ≡ some ps
  unfolding through mapping_items mappings_of get
  mappings-read [] h = refl
  mappings-read (p ∷ ps) h =
      rw (exact p.container_port h.0.0, exact p.host_port_offset h.0.1, mappings-read ps h.1) refl

  containers-read :
      (ps : List ContainerMetrics)
      → All ExactContainer ps
      → containers_of (through_items c.round (container_items ps)) ≡ some ps
  unfolding through container_items containers_of get
  containers-read [] h = refl
  containers-read (p ∷ ps) h =
      rw (exact (pos p.mem_used_mb) h.0.0, exact (pos p.mem_limit_mb) h.0.1, containers-read ps h.1)
        refl

  receiver-envelope : (m : Message) → Portable c m → receiver c m (envelope c m) ≡ message m
  unfolding receiver write_payload message_type through get write_register read_register
      write_heartbeat read_heartbeat write_approved read_approved write_start_server
      read_start_server write_stop_server read_stop_server write_delete_server read_delete_server
      write_server_status read_server_status write_rcon_command read_rcon_command
      write_rcon_response read_rcon_response write_stream_logs read_stream_logs write_log_line
      read_log_line write_metrics read_metrics write_host_info read_host_info
  receiver-envelope (start_server p) h =
      rw
        (
          exact p.server_id h.0,
          exact p.port h.1,
          exact p.max_players h.2,
          mappings-read p.port_mappings h.3,
          env-read p.env,
        )
        refl
  receiver-envelope (stop_server p) h = rw (exact p.server_id h) refl
  receiver-envelope (delete_server p) h = rw (exact p.server_id h) refl
  receiver-envelope (rcon_command p) h = elim (empty_or p.message_id) [
    | inl e ↦ rw (e, exact p.server_id h.0, exact p.rcon_port h.1) refl
    | inr e ↦ rw (e, exact p.server_id h.0, exact p.rcon_port h.1) refl
  ]
  receiver-envelope (stream_logs_start p) h = rw (exact p.server_id h) refl
  receiver-envelope (stream_logs_stop p) h = rw (exact p.server_id h) refl
  receiver-envelope (register p) h =
      rw
        (
          exact p.host_info.cpu_cores h.0,
          exact p.host_info.memory_gb h.1,
          exact p.host_info.disk_gb h.2,
        )
        refl
  receiver-envelope (heartbeat p) h = refl
  receiver-envelope (approved p) h = refl
  receiver-envelope (server_status p) h = elim (empty_or p.container_id) [
    | inl e ↦ elim (empty_or p.error) [
      | inl f ↦ rw (exact p.server_id h, e, f) refl
      | inr f ↦ rw (exact p.server_id h, e, f) refl
    ]
    | inr e ↦ elim (empty_or p.error) [
      | inl f ↦ rw (exact p.server_id h, e, f) refl
      | inr f ↦ rw (exact p.server_id h, e, f) refl
    ]
  ]
  receiver-envelope (log_line p) h = rw (exact p.server_id h.0, h.1) refl
  receiver-envelope (rcon_response p) h = elim (empty_or (c.written p.response)) [
    | inl e ↦ elim (empty_or p.error) [
      | inl f ↦ rw (exact p.server_id h.0, e, f, sym (ap c.read e) ∙ h.1) refl
      | inr f ↦ rw (exact p.server_id h.0, e, f, sym (ap c.read e) ∙ h.1) refl
    ]
    | inr e ↦ elim (empty_or p.error) [
      | inl f ↦ rw (exact p.server_id h.0, e, f, h.1) refl
      | inr f ↦ rw (exact p.server_id h.0, e, f, h.1) refl
    ]
  ]
  receiver-envelope (metrics p) h =
      rw
        (
          exact (pos p.mem_used_mb) h.0,
          exact (pos p.mem_total_mb) h.1,
          exact (pos p.disk_used_gb) h.2,
          exact (pos p.disk_total_gb) h.3,
          containers-read p.containers h.4,
        )
        refl
  receiver-envelope request_metrics h = refl

  -- What json.Marshal makes of a message in the program that sends it, the structs of the program that
  -- it is for read back unchanged, for each type of message: if its integers are ones that a float64
  -- holds, and the bytes of a log line or an RCON response ones that a JSON text holds; except that a
  -- message with a percentage that is not finite is not written at all.
  pub receiver-write_message :
      (m : Message)
      → Portable c m
      → ((marshals c m ≡ true)
          × ((v : Json) × (write_message c m ≡ some v) × (receiver c m v ≡ message m)))
        ⊎ ((marshals c m ≡ false) × (write_message c m ≡ none))
  unfolding write_message
  receiver-write_message m h = elim (Bool-cases (marshals c m)) [
    | inl e ↦ inl (e, (envelope c m, rw e refl, receiver-envelope m h))
    | inr e ↦ inr (e, rw e refl)
  ]
