-- ===== src/Lib.antt =====
-- The game server manager: a master (master/) with a REST API, a PostgreSQL database and a websocket
-- hub, and an agent (agent/) on each host, which runs game servers in Docker containers and talks to
-- them by RCON. An agent registers at the master over a websocket, is approved once by an
-- administrator, and then takes commands. A request to start, stop or delete a server becomes a
-- message in the agent's Send channel; statuses and metrics come back over the same connection.
--
-- The parts, the code and the files:
--   Base         shared helpers: tests on native numbers and text (Base/Tests), lists (Base/Lists), Go
--                maps as association lists (Base/Dict), integers with 64-bit addition (Base/Int),
--                bits (Base/Bits), strconv.Itoa (Base/Decimal) and Atoi (Base/Atoi), prefixes and
--                splitting of text (Base/Text), ORDER BY (Base/Sort)
--   Rcon         agent/rcon.go: packets and bytes in Rcon, readFull in Rcon/Stream, packets there and
--                back in Rcon/Codec, replies of any bytes in Rcon/Robust, sendRconCommand in
--                Rcon/Session
--   Protocol     master/protocol.go and agent/protocol.go: one record for each payload;
--                Protocol/Json, Protocol/Wire and Protocol/Reports what encoding/json makes of
--                them, Protocol/Envelope the messages with their types, Protocol/RoundTrip messages
--                there and back
--   Hub          master/main.go: Hub.Run case by case and the methods of Hub; Hub/Lifecycle is the
--                hub with its running readers as a step function over events, Hub/Metrics the metrics
--                history, Hub/Delivery what reaches an agent, Hub/Blocking full channels
--   Db           master/db.go: the tables as lists of rows; Db/Agents the agent statements, Db/Rows
--                finding rows after a statement, Db/Schema the tables of the servers with their
--                foreign keys
--   Migrations   master/db.go runMigrations: what each statement does, with the statements in
--                Migrations/Statements; Migrations/Execution runs without an error,
--                Migrations/Tables, Migrations/Columns, Migrations/Legacy and Migrations/Moved the
--                four kinds of statements, Migrations/Stages and Migrations/Applied all of them,
--                Migrations/Again a second run, Migrations/Linked the rows that refer to each
--                other; Migrations/Connect initDB
--   Api          what the handlers answer (master/api_helpers.go and the response structs)
--   Agents       master/websocket.go and master/api_agents.go: handleAgentWS, waitForApproval,
--                agentReader, ApprovePendingAgent, approval and deletion; Agents/Listings the two
--                listings, Agents/Auth who is let in, Agents/Approval what approval does
--   Connections  the loops of master/websocket.go: Connections/Writer agentWriter, with the order of
--                its messages in Connections/Order; Connections/Browser handleUIWS, with what it
--                relays in Connections/Relayed; Connections/Sessions a whole session of an agent,
--                with what reading and the end leave in Connections/Reading and Connections/Closed
--   ContainerName, StartPayload, Servers, Commands
--                master/api_servers.go: the container's name, buildServerStartPayload, createServer
--                and updateServer with their config loops, then startServer, stopServer,
--                deleteServer and sendRcon; Servers/Listings and Servers/Listed listServers,
--                getServer and getServerLogs; Servers/Links the rows that refer to each other, and
--                Servers/Linked, Commands/Linked and Agents/Linked those rows under the handlers
--   Games        master/gamedefs.go: the registered games and seedGames; Games/Cs2
--                master/games_cs2.go; Games/Mappings, Games/Modes and Games/Seeding what
--                seeding leaves;
--                Games/Definitions and Games/Grouping master/api_games.go
--   Routes       the ServeMux of master/main.go, the dispatch of master/api_servers.go,
--                master/api_agents.go and master/api_games.go, and handleHealth; Routes/Servers the
--                requests about a server, Routes/Linked all requests
--   Master       master/main.go main and the master as a sequence of events; Master/Seeded,
--                Master/Websockets and Master/Runs the rows that refer to each other from the start
--                on
--   Docker       agent/docker.go: starting, stopping and deleting containers over the Docker
--                client as an interface; Docker/Protocols and Docker/Ports the port bindings,
--                Docker/Streams the registry of log streams
--   AgentProcess agent/agent.go: handleMessage, the command handlers and sendMessage;
--                AgentProcess/Sending sendMessage, AgentProcess/Replies what the handlers answer;
--                AgentProcess/Metrics agent/metrics.go, with its sizes in
--                AgentProcess/MetricsBounds; AgentProcess/Lifecycle agent/main.go, the
--                registration and the loops beside the reader, with the token of a new start in
--                AgentProcess/Reconnect; AgentProcess/Steps the goroutines as steps, and
--                AgentProcess/Unstopped what keeps an agent unstopped under them;
--                AgentProcess/LogStreams a log stream from start to end, AgentProcess/Scanner its
--                lines, AgentProcess/MainLoop the loop of connections,
--                AgentProcess/Writing the agent's reader and writer
--   Samples      the data of the examples
--
-- How code becomes definitions. A World is the hub with its connections and the database; a handler
-- takes a World to a World and a Response. A handler that sends on a channel gives an Effect: it goes
-- on, blocks for ever on a full channel, or panics. Faults says which statements of a handler the
-- database fails, so that every theorem about all faults covers every way in which it can fail. A
-- JSON message is a Frame: decoded, or one of the ways in which decoding fails, which for an agent's
-- and the master's messages is read_frame in Protocol/Envelope. Rand, the clock, the TCP dialler, the
-- Docker client, Unicode's lower case and the database's collation are parameters. A loop over a Go
-- map runs in the order of the map's list.
--
-- Bounds. An int32 is its pattern below 2 ^ 32 and an int a signed 64-bit number; a Send channel holds
-- 256 frames and the metrics history 30 reports, as in the code. readFull is recursion on the chunks
-- that the network delivers, and every other loop on its list or text. Only strconv.Itoa in
-- Base/Decimal runs on fuel, one more than the number, of which any more gives the same digits.
--
-- A session in Connections is run with nothing else going on; Hub/Lifecycle, AgentProcess/Steps and
-- Master interleave. The tables of Migrations are columns with the text of their declarations, and a
-- table that is there already is taken to have the constraints that its CREATE declares.
--
-- Not modelled: the interleaving of the agent's handlers within their Docker calls, the deadlines
-- of the websockets, where a missed one is a failing read or write, the processes' signals but
-- for Stop, and the browser client. The loop of waitForApproval goes on after the approval and
-- competes with agentReader for the messages of the connection; in the model all of them reach
-- agentReader. The floating-point operations of agent/metrics.go are a parameter. A run of Master
-- goes on after a request whose handler panics or blocks for ever, and ends when anything else
-- does. sendMessage and the ticks test that the agent is not stopped and send in one step, where
-- a Stop may come between in the program; that a metrics message with a percentage that is not
-- finite is not sent is stated for the writing of the message only. The waits for the hub's mutex
-- of the handlers that only read are left out, and VARCHAR counts trailing spaces. The order in
-- which StartContainer calls Docker is in the definitions only.
pub mod Base
pub mod Rcon
pub mod Protocol
pub mod Hub
pub mod Migrations
pub mod Db
pub mod Api
pub mod Agents
pub mod Connections
pub mod ContainerName
pub mod StartPayload
pub mod Servers
pub mod Commands
pub mod Games
pub mod Routes
pub mod Master
pub mod Docker
pub mod AgentProcess
mod Samples
