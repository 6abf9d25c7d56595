-- ===== src/Connections/Browser.antt =====
-- The websocket of a browser (master/websocket.go handleUIWS).
use game_server_manager.Base.{ℕ, Bool, List, [], ◌∷◌, if◌then◌else◌}
use game_server_manager.Protocol.{Frame}
use game_server_manager.Hub.{
  Hub, Effect, done, ◌>>=◌, on_register_ui, on_unregister_ui, on_ui_message,
}

-- The loop: each message that is read goes to the hub, until a read fails.
unfoldable pub ui_reads : List Frame → Hub → Effect Hub
ui_reads [] h = done h
ui_reads (f ∷ fs) h = on_ui_message f h >>= ui_reads fs

-- handleUIWS; `upgraded` says whether the upgrade succeeds, `frames` are the messages that can be
-- read. The deferred unregistration comes after the loop.
unfoldable pub handle_ui_ws : (upgraded : Bool) (conn : ℕ) (frames : List Frame) → Hub → Effect Hub
handle_ui_ws upgraded conn frames h =
    if upgraded
    then (do read ← ui_reads frames (on_register_ui conn h); done (on_unregister_ui conn read))
    else done h
