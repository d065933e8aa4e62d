-- ===== src/Lib.antt =====
-- m365plus: the core of the gateway that serves the APIs of OpenAI and Anthropic from Microsoft
-- 365 Copilot, as definitions by clauses and theorems on them.
--
-- The program. A request enters at pkg/servers, which takes the account of the request's key,
-- continues or opens a conversation, sends the prompt over a WebSocket of pkg/client, and reads
-- the answer as SignalR frames. pkg/toolcalling turns the text of the answer into tool calls.
-- pkg/webadmin keeps the state that outlives a request: keys, sessions, conversations, the health
-- of accounts and of proxies; its stores write themselves to disk in the background.
-- pkg/accounts keeps the accounts and renews their tokens.
--
-- The files.
--   Base: names of the libraries passed on; tests into Bool, lists, Go maps as association lists,
--     and the functions of package strings that the code calls, on bytes.
--   Outbound: pkg/webadmin/outbound, the proxies: pick, mark, NewPool, Remove (Outbound),
--     RoundTrip (Retry), Check and CheckAll (Health).
--   Client: pkg/client/connpool.go (WebSocketPool), signalr_frames.go (Frames) and citations.go
--     (Citations).
--   ToolCalling: thinkingfilter.go (Thinking), ledger.go (Ledger), envelope.go (Envelope),
--     schema.go (Schema, and Contracts for what tools and `tool_choice` ask), simulated.go
--     (Candidates for the texts that may be JSON, Simulated for the parses) and streamextract.go
--     (StreamExtract), all of pkg/toolcalling; Json is what `json.Unmarshal` gives them.
--   Servers: pkg/servers/api.go: the session cache (ContextCache), the loop of coding tools
--     (ToolLoop) and the tool messages of a request (Messages).
--   Accounts: pkg/accounts/cache.go (Store), with EnsureValid and refreshInflight (Store/Refresh).
--   WebAdmin: account_health.go (AccountHealth), persist.go (Persist), keys.go (Keys), sessions.go
--     (Sessions), conversation_manager.go (Conversations), session_resolver.go (Resolver),
--     admin_security.go (Logins), usage.go (UsageLog), auto_cleanup.go (AutoCleanup) and, of
--     admin.go, the choice of an account (AccountRotation), all of pkg/webadmin.
--   Tests: the theorems at concrete inputs.
-- A function of the code has its own name in lower case with underscores.
--
-- How the code is read. A mutex makes an operation one step, a function of the state to the answer
-- and the next state; where the code lets the lock go, as the flush of persist.go does, the steps
-- are the constructors of a relation, or the halves are functions of their own, as for
-- `sessionTurnFor`. A time is a number, and `now.Sub(t) > d` is `t + d < now`.
-- The order in which Go ranges over a map is that of the association list. `sort.Slice` is an
-- insertion sort. A text whose bytes matter is a list of numbers, any other a String.
--
-- Parameters. The network, the disk, JSON, SHA-256, regular expressions and uuids are arguments:
-- `trip` and `probe` of the proxies, `decode` of the frames, `canon`, `signal` and `lower` of
-- the ledger, `hash` of the keys, `fingerprint` of the sessions, `Sources` of the tokens,
-- `saved` of a write. `encode`, `decode`, `unquote` and `mint` of the tool calls are JSON and
-- uuids; `FileSystem` is the disk under the session cache, `Backend` what the tool loop asks of
-- the Copilot client, of the tools and of the prompts, and `Cloud` the list of conversations
-- that the cleanup works on. `similarity` of the sessions stands for a float64 of the code,
-- scaled to a whole number.
--
-- Fuel. `first_round` of Outbound runs as often as the pool has proxies, `retry` once more,
-- which are the bounds of the Go loops. `strip` of Base/Text is given the length of its text.
-- `itoa` has 19 digits, those of a 64-bit int. `fence_bodies` is given the length of its text,
-- of which each round takes some. `search` and `decode_from` of the extractor are given the
-- length of the buffer and the 17 lengths that the code tries. `rounds` of the cleanup has the
-- 100 of the code. `run_tool_loop` is given its limit, and at least one round, which is proved
-- to be enough. All other loops are structural.
--
-- Not modelled: the HTTP handlers, the settings, the dashboards and the command line, which are
-- input and output; the texts of the prompts; the detection of tools in prose and in the bodies
-- of grammar tools; `EvidenceNote`, which renders JSON; the sticky dialer of `WebSocketDialer`;
-- the sharing of one refresh among concurrent callers.
pub mod Base
pub mod Outbound
pub mod Client
pub mod ToolCalling
pub mod WebAdmin
pub mod Accounts
pub mod Servers
pub mod Tests
