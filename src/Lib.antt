-- ===== src/Lib.antt =====
-- A verification library for dzzzr-cli: the mock of the game engine that the client is tested
-- against; the agent's side of the client: the tools a model may call, the approval of its calls,
-- what of a conversation it is sent and the files it may use; the plans of levels that are written to
-- the engine and the documents that are drawn from a PDF for them; and the results of a game,
-- reconstructed from its log, with the store of such logs.
--
-- Base: helpers on Booleans, lists, integers and texts. A text is its characters' numbers, or its
-- bytes where the code counts bytes (Loop).
--
-- Mock: cmd/dzzzr-mock, the state of one team and its actions.
--   State, Demo      state.go: levelDef, levelProgress, gameState, issueLevel, addLog; newGameState
--   Code             state.go: normalizeCode and matchCode
--   Line, Clock      state.go: mainLine, nextMainOrder; tick, advance, expired, hints, timerSeconds
--   Entry            player.go: entcod and the codes of each kind
--   Actions          player.go: doAction and the captain's actions, the login's place in it
--   Step, Run        the relation of a state to the state after a post, and histories of posts
--   Limits, Clues, Rights   what an action may do at most
-- Times are nanoseconds from Go's zero time, as natural numbers; the minutes of bonuses and penalties are
-- integers, and orders, other minutes and counts are not negative. A Go map is a function or an association list. A handler runs under the server's lock as
-- one step, and each post ticks first, as handleGoPost does. The wordings of the log are constructors,
-- and a nil pointer that a handler would read is an outcome of its own, nil_deref. Upper-casing
-- (unicode.ToUpper) is the parameter `upper`, and what is asked of it is the record Upper.
--
-- Tools: agenttools, and the approval in agentmcp.
--   Policy           policy.go: ParsePolicy, the gate's authorize
--   Arguments        tool.go: the accessors of a call's arguments
--   Cache            cache.go: the read cache with its time to live
--   Execute          tool.go: Execute with the renewal of a session; catalog.go: Tools
--   Confirmation     agentmcp/confirm.go and server.go: answerFromRequest, toolHandler
-- What a tool runs, the JSON encoder, the clock, a confirmer and the fingerprint of the arguments are
-- parameters, and so are floating-point numbers. `World` is everything outside the program that a
-- call may change.
--
-- Loop: agentloop.
--   History          context.go: boundToolHistory, sourceBytes, compactSourceResults, sourcePaths
--   Retry            retry.go: retryable
--   Chat             agent.go: the observer's Chat with its attempts, chatWithProgress
--   Turns            tools.go: newRegistry, execute, runToolLoop
-- The messages are agentprotocol's, with the fields that the code reads. What the JSON decoder, the
-- provider, a tool and the context say are parameters.
--
-- GameSource: gamesource/plan.go with the parameters of dzzzr/admin_levels.go.
--   Level            LevelParams, and validateParams' walk over its values
--   Codes, Plan      validateParams; Plan.Validate
--   Apply            Plan.Apply: the membership checks, then the writes in order
-- The engine and the context are functions over a world; Order defines the writes a world has seen.
-- Windows-1251, upper-casing and floating-point numbers are parameters.
--
-- Files: agentfiles, the files a model may read and save.
--   Args             args.go: stringOr, requireString, intOr; clamp of tools.go
--   Root             root.go: resolveRoot, resolve, within
--   Read             tools.go: readFile
--   Search           tools.go: searchFiles
--   Assemble         assemble.go: the manifest, its parts and their order; validateJSON of save.go
-- The functions of path/filepath, the file system and the JSON decoder are parameters.
--
-- GameStats: gamestats, the results of a game from the events of its log.
--   Log              parse.go and read.go: action, ParseTime, the order and the choice of the events
--   Records          types.go and parse.go: the records of a game and the maps of the replay
--   Replay           parse.go: Parse up to the end of its replay
--   Finish           parse.go: what Parse works out of each level after the replay
--   Eval             compute.go: evalLevel, over an abstract number
--   Standings        compute.go: evalThrough; Compute's totals, order, places and gaps
-- The case of letters, strings.Fields, time.Parse and floating-point numbers are parameters. A team's
-- levels are looked up by a function, and the levels of the log are an association list. The numbers
-- that a game keeps for its reports only (NRows, NEvents, PlannedTeams, StartAt, Elapsed) are left out.
--
-- PdfSource: pdfsource, a document that is drawn from a PDF by a mapping.
--   Run              code that may fail and changes the variables of Extract
--   Pages            index.go: Index, textLines; mapping.go: selectRange and the ignored ranges
--   Read             pdf.go: Read, the range of pages of one call
--   Json, Select     mapping.go: a selector with its media, pattern and format
--   Resolve          mapping.go: resolve, the rest of it
--   Missing          mapping.go: the lines that are left out
--   Extract          mapping.go: Extract, with its rounds of ten pages
-- What the PDF libraries find on a page, the JSON codec, the hash, url.Parse, regexp, lower case and
-- html.EscapeString are parameters. A JSON value keeps its members in their order; Go's maps do not.
--
-- StatStore: statstore, the logs of games with the versions of their settings.
--   Logs             store.go: Log
--   Memory           memory.go: Memory, its Create, Load and Update
--   Disk             store.go: Store, its Create, Load and Update over files
-- Build, the JSON codec, the random identifiers and the functions of os are parameters; RoundTrips and
-- DirectoryLaws say what is asked of the codec and of the directory. Versions are natural numbers.
--
-- The loops are structural recursion over lists, the attempts (3) and the turns, so no fuel is
-- needed but in `itoa`, whose fuel is the number itself, and for the rounds of a PDF: 52 rounds of
-- ten pages are enough for the 512 pages that are allowed. Not modelled: HTTP, HTML pages and parsers,
-- the mock's administration pages, the terminal and web interfaces, the limits that the statistics
-- infer, the content of PDF pages, scenarios, listing and saving of files, and the mobile
-- and browser builds, which are input, output and glue or lie outside the parts named above.
pub mod Base
pub mod Mock
pub mod Tools
pub mod Loop
pub mod GameSource
pub mod Files
pub mod GameStats
pub mod PdfSource
pub mod StatStore
