-- ===== src/Agents/Tests.antt =====
-- Concrete registrations, approvals and disconnects.
use game_server_manager.Base.{◌≡◌, refl, true, false, some, [], ◌∷◌, lookup}
use game_server_manager.Base.Int.{pos}
use game_server_manager.Protocol.{RegisterPayload}
use game_server_manager.Db.Agents.{hex_encode, validate_agent_token}
use game_server_manager.Agents.{reads, handle_agent_ws, approve_agent_handler, delete_agent_handler}
use game_server_manager.Agents.Auth.{
  IsAdmitted, registers, handle_agent_ws-reads_iff, handle_agent_ws_token_unchecked,
}
use game_server_manager.Agents.Approval.{IsApproved, approve_agent_handler-IsApproved}
use game_server_manager.Samples.{
  no_faults, lan_agent, new_agent, new_pending, sample_db, sample_world, offline_world,
  lan_register,
}

hex_encode_bytes : hex_encode (0 ∷ 171 ∷ 255 ∷ []) ≡ "00abff"
unfolding hex_encode
hex_encode_bytes = refl

validate_agent_token_example : validate_agent_token false "lan" "secret" sample_db ≡ true
unfolding validate_agent_token
validate_agent_token_example = refl

delete_refused : (delete_agent_handler no_faults (pos 1) sample_world).1.status ≡ 500
unfolding delete_agent_handler
delete_refused = refl

handle_agent_ws-reads_iff_example :
    IsAdmitted no_faults (registers lan_register) offline_world.db (pos 1)
handle_agent_ws-reads_iff_example =
    (handle_agent_ws-reads_iff no_faults 20 (registers lan_register) offline_world (pos 1)).0
      (unfold handle_agent_ws in refl)

abbrev intruder : RegisterPayload
intruder = record lan_register { token = "guess" }

handle_agent_ws_token_unchecked_example :
    (handle_agent_ws no_faults 30
      (registers intruder)
      (handle_agent_ws no_faults 20 (registers lan_register) offline_world).0).1
    ≡ reads (pos 1)
handle_agent_ws_token_unchecked_example =
    handle_agent_ws_token_unchecked no_faults no_faults 20 30 lan_register intruder offline_world
      lan_agent refl refl refl refl refl refl refl

approve_agent_handler-IsApproved_example :
    ((approve_agent_handler no_faults (some (1 ∷ 2 ∷ [])) (pos 2) sample_world).1.status ≡ 200)
    × IsApproved sample_world
        (approve_agent_handler no_faults (some (1 ∷ 2 ∷ [])) (pos 2) sample_world).0
        new_agent
        new_pending
        (hex_encode (1 ∷ 2 ∷ []))
unfolding lookup
approve_agent_handler-IsApproved_example =
    approve_agent_handler-IsApproved no_faults (1 ∷ 2 ∷ []) sample_world new_agent new_pending refl
      refl refl refl refl refl
