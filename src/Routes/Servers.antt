-- ===== src/Routes/Servers.antt =====
-- Requests about one server, from ServeMux to the switch of handleServerByID (master/main.go,
-- master/api_servers.go).
use Prim.Native.String
use text.Mathlib.TextLemmas.{append-nil}
use game_server_manager.Base.{◌≡◌, refl, ap, ◌∙◌, false, none, String, List, [], ◌∷◌, str_eq}
use game_server_manager.Base.Int.{ℤ, Fits}
use game_server_manager.Base.Decimal.{itoa}
use game_server_manager.Base.Text.{
  after_prefix, trim_prefix, differs, split_slash, NoSlash, after_prefix-append,
  after_prefix-differs, not_equal-append, split_slash-append, split_slash-NoSlash,
}
use game_server_manager.Base.Atoi.{atoi, atoi-itoa, itoa-NoSlash, itoa-not_empty}
use game_server_manager.Hub.{done}
use game_server_manager.Api.{write_error}
use game_server_manager.Agents.{World}
use game_server_manager.Routes.{
  Request, Outside, second_part, server_action, server_by_parts, handle_server_by_id, serve,
}

abbrev action_part : String → String
action_part String.[] = ""
action_part (String.◌∷◌ c s) = String.◌++◌ "/" (String.◌∷◌ c s)

-- The path of a server, with an action behind it or with none.
abbrev pub server_path : ℤ → String → String
server_path id action = String.◌++◌ "/api/servers/" (String.◌++◌ (itoa id) (action_part action))

abbrev invalid_path : String → String
invalid_path number = String.◌++◌ "/api/servers/" number

module _ (o : Outside) (r : Request) (w : World) where
  serve-below :
      (rest : String)
      → r.path ≡ String.◌++◌ "/api/servers/" rest
      → serve o r w ≡ server_by_parts o r w (split_slash rest)
  unfolding serve handle_server_by_id trim_prefix after_prefix differs
  serve-below rest h =
      rw
        (
          h,
          not_equal-append "/api/servers/" rest "/api/health" refl,
          not_equal-append "/api/servers/" rest "/api/agents/pending" refl,
          not_equal-append "/api/servers/" rest "/api/agents" refl,
          not_equal-append "/api/servers/" rest "/api/game-definitions" refl,
          after_prefix-differs "/api/agents/" "/api/servers/" rest refl,
          after_prefix-append "/api/servers/" rest,
        )
        refl

  by_number :
      (id : ℤ) (parts : List String)
      → Fits 63 id
      → server_by_parts o r w (itoa id ∷ parts) ≡ server_action o r w (second_part parts) id
  by_number id parts h = rw (itoa-not_empty id h, atoi-itoa id h) refl

  -- A request to the path of a server whose number is an int, with an action that has no slash or
  -- with none, is given to the switch of the server's handler with that number and that action.
  pub serve-server_path :
      (id : ℤ) (action : String)
      → Fits 63 id
      → NoSlash action
      → r.path ≡ server_path id action
      → serve o r w ≡ server_action o r w action id
  serve-server_path id String.[] fits slash h =
      serve-below (itoa id) (h ∙ ap (String.◌++◌ "/api/servers/") (append-nil (itoa id)))
      ∙ ap (server_by_parts o r w) (split_slash-NoSlash (itoa id) (itoa-NoSlash id))
      ∙ by_number id [] fits
  serve-server_path id (String.◌∷◌ c s) fits slash h =
      serve-below (String.◌++◌ (itoa id) (String.◌++◌ "/" (String.◌∷◌ c s))) h
      ∙ ap (server_by_parts o r w) (
          split_slash-append (itoa id) (String.◌∷◌ c s) (itoa-NoSlash id)
          ∙ ap (◌∷◌ (itoa id)) (split_slash-NoSlash (String.◌∷◌ c s) slash))
      ∙ by_number id (String.◌∷◌ c s ∷ []) fits

  -- A request whose path has, in a server's place, a text that strconv.Atoi refuses is answered with
  -- status 400, whatever its method, and changes nothing.
  serve-not_a_number :
      (number : String)
      → NoSlash number
      → str_eq number "" ≡ false
      → atoi number ≡ none
      → r.path ≡ invalid_path number
      → serve o r w ≡ done (w, write_error 400 "invalid server id")
  serve-not_a_number number slash some_text refused h =
      serve-below number h
      ∙ ap (server_by_parts o r w) (split_slash-NoSlash number slash)
      ∙ rw (some_text, refused) refl
