-- ===== src/Lib.antt =====
-- The web front end of rcon-ui (web/src): a client of the rcon-ui daemon that lists game servers,
-- shows their console, their settings and their commands, and a catalog of games. The component App
-- holds the selection, the discovery report, the history and the tab; the hook useEvents feeds the
-- console; the panels are given parts of that state and call back. The daemon is reached by
-- `request` of web/src/api.ts. Of the daemon (internal), its client for game servers that speak Valve's
-- RCON, and the hub of events with the streams to the browsers: a command that the browser sends is an
-- exchange with the game server, what comes of it is published on the hub, the stream of a tab writes
-- it, and the hook of that tab receives it (Hub/Console is about the whole of that last way). The
-- session of a profile dials, serves commands and dials again when one fails; after each connection
-- the daemon asks the server what it can do, and the panels are built from that report. Profiles, macros
-- and the history of commands are kept in the store, with the passwords sealed; a profile that is saved in
-- the dialog is what its session dials next (Api/Saved is about that way).
--
-- Files and what they model (paths from the repository's root):
--   Base, Text           lists and options over native numbers; JavaScript strings as lists of UTF-16
--                        code units with ===, startsWith, includes, trim, split, join and replaceAll;
--                        objects and Maps as association lists; Sets as lists without duplicates
--   Catalog              web/src/catalog: types.ts, index.ts, and one module per game with its data
--   Enrich               web/src/enrich: metaFor
--   Events               web/src/useEvents.ts: the reducer (`reducer`, `run`); Order and Window hold its laws
--   Subscription         web/src/useEvents.ts: the effect and its listeners (`subscribe`, `deliver`)
--   Api                  web/src/api.ts: token, withToken; Api/Request: request; Api/Endpoints: the calls
--                        of `api`; Api/Routes, Api/Auth and Api/Handlers: Handler,
--                        withAuth, handleExecute, handleGetDiscovery and handleDiscover of
--                        internal/api/api.go, whose replies Api/Served and App/Served follow to the page
--   Discovery            web/src/api.ts: DiscoveryReport and its parts
--   Grouping             the grouping and sorting that SettingsPanel, TemplatesPanel and Sidebar share
--   Settings             web/src/components/SettingsPanel.tsx: buildCommand, rows, sections, matches,
--                        dirtyKeys, setValue, discard, the staging bar, apply; Settings/View:
--                        Control, OptionRow and what the panel shows (`panel_view`)
--   Commands             web/src/components/CommandsPanel.tsx: pins, filter, rows, the row's button;
--                        View: what the panel shows
--   Console              web/src/components/Console.tsx: sources, visible, toggle, Line, onScroll; View: the bar,
--                        the lines and the events
--   CommandInput         web/src/components/CommandInput.tsx: prefill, submit, onKeyDown; View:
--                        the macros and the field
--   CommandPalette       web/src/components/CommandPalette.tsx: matches, active, Enter; View: the rows, the clicks and
--                        Escape
--   Sidebar              web/src/components/Sidebar.tsx: groups, fingerprintLabel, the tiles (`rail`)
--   ServerDialog         web/src/components/ServerDialog.tsx: the form and save; View and Edits:
--                        the fields and what the dialog shows; ServerDialog/Daemon:
--                        serverRequest and handleUpdateServer of internal/api/api.go, and UpdateServer
--                        of internal/store/store.go, on the row of one profile
--   Templates            web/src/components/TemplatesPanel.tsx: the game shown and its sections; View:
--                        the list of games and what the panel shows of one
--   App                  web/src/App.tsx: the state and its handlers; App/Async: the requests that a
--                        selection or a re-scan starts and the order of their replies;
--                        App/Palette: the list of commands that the palette offers;
--                        App/Refetch: what the newest event has fetched again;
--                        App/Page: what stands beside the rail (`main_page`), with StatusBadge,
--                        TabButton and DiscoveryStrip; App/Rail: the rail's
--                        buttons and the shortcut
--   Rcon                 internal/rcon/source: Packet and Utf8 are packet.go (encode, decodePacket,
--                        decodeBody), Client is client.go (Execute, authenticate, nextRequestID, fail)
--   Hub                  internal/event/event.go: Publish, Subscribe, History; and handleEvents and
--                        writeSSE of internal/api/api.go, where `Run` is any order of their steps
--   Session              internal/session/session.go: a session and its operations; Session/Steps: the
--                        supervisor, Execute and the manager as a relation of steps in any order;
--                        Session/Manager: Connect, Disconnect, Status and Close on the manager's map;
--                        Session/Commands: what Execute publishes and records;
--                        Session/Reports: Discover and runDiscovery
--   Probe                internal/discovery: Filter, Zomboid and Minecraft are filter.go, zomboid.go and
--                        minecraft.go, Discover is discovery.go and report.go; Pattern and White
--                        are the pieces of the regular expressions and strings.TrimSpace
--   Config               internal/config/config.go: Load and IsLoopback
--   Secret               internal/secret/secret.go: Seal, Open, NewFromKey and LoadOrCreateKey, with the
--                        start of cmd/rcon-ui/serve.go that calls the last two
--   Store                internal/store/store.go: the tables and the operations on servers; Records: history,
--                        macros and the lists; Runs: any series of writes; Plain: the accounts that the
--                        sealed rows stand for; Hidden: what is seen without passwords; Migrations: migrate;
--                        Api/Profiles: the handlers of internal/api/api.go that create, read, change and
--                        delete a profile; Api/Unseen: any series of requests for them
--   Tests                concrete inputs: tests, and an instance of each result
--
-- How the code is read. A component's state is a record and a handler a function on it; what an
-- awaited call answers is an argument, and a handler with an await in it is the run of updates
-- before and the run after, or, in Settings.apply, a function on a world that the calls act on, with
-- the user's edits meanwhile as a function. An effect that React runs after a render is composed in
-- where its dependencies make it run. An index of the source that may be -1 is kept plus one. All
-- functions are total: loops are structural recursion on the list or the text. The two loops of
-- client.go that read packets until the right one comes recurse on fuel, one more than the bytes in
-- the stream, of which each packet takes some; the digits of a number n have n + 1 as fuel.
--
-- The daemon's reader is the bytes that the peer has sent and how the stream then ends; a deadline or
-- a write that fails is an argument. An operation under a mutex is one step, and the hub's readers and
-- writers are steps of a relation in any order, as are a session's supervisor, its commands and the
-- manager. Each critical section of a session is one step with the status event that follows it; a
-- connection and a channel are numbers, and the channels that were closed are kept in a list. A Go string is the list of its bytes in Rcon,
-- and of its code points in Probe, where the connection is a function that takes a command and the
-- state of the world.
--
-- Parameters: toLowerCase and toUpperCase, localeCompare, encodeURIComponent, JSON.parse of a frame,
-- json.Marshal, the calls to the daemon, the floating point steps of options with fractions, and
-- whose report a report is; of the
-- daemon, ParseFloat, the time, the connection that discovery asks, the cipher of crypto/cipher, SHA-256 and
-- base64; the clock and what crypto/rand gives are arguments. A localeCompare is asked to be an order where a theorem says that a list
-- is sorted by it.
--
-- Not modelled: styles, focus and scrolling, and the markup but for the texts and controls that
-- stand in it; reloads of the server list and new events as steps of App/Async; of the daemon, dialling
-- and TLS and the WebSocket dialect, which are calls of the network; the opening of the database file and
-- the text of its migrations; failures of the disk; the HTTP handlers that only pass on what the store
-- or the manager answers, and the reading of a request's body; and the entry points and build files, which
-- wire the parts up.
--
-- Sequence numbers, counters and lengths are natural numbers: the daemon's counters stay far below the
-- 2 ^ 53 up to which JavaScript's numbers are exact. MAX_EVENTS is the source's 5000.
pub mod Base
pub mod Text
pub mod Catalog
pub mod Enrich
pub mod Events
pub mod Api
pub mod Grouping
pub mod Discovery
pub mod Settings
pub mod Commands
pub mod Console
pub mod CommandInput
pub mod CommandPalette
pub mod Subscription
pub mod Sidebar
pub mod ServerDialog
pub mod Rcon
pub mod Hub
pub mod Session
pub mod Probe
pub mod Config
pub mod Secret
pub mod Store
pub mod App
pub mod Templates
pub mod Tests
