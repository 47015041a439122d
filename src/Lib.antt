-- ===== src/Lib.antt =====
-- validator-health-check: a daemon that checks the validators of cosmos chains and tells their
-- watchers of problems through telegram bots.
--
-- Workers (work/health_check_worker) take the chains that are due from the chain registry, ask the
-- chains' endpoints, and hand messages for the watchers to the push service
-- (services/telegram_push_message_svc). The push service keeps a queue for each receiver, and a loop
-- that empties one queue a round, drops what the receiver has silenced, and sends the rest as one
-- telegram message. Users send commands to their bot, which the call center
-- (services/telegram_call_center_svc) answers: they pause chains and validators and silence messages.
-- Registries (registry) hold the users, the chains, the pauses and the addresses that the other parts
-- share; the configuration files (config) fill them and are reloaded while the program runs.
--
-- The parts and the code that they model:
--   Prelude      texts, clocks, maps and sorting, as the code uses those of Go
--   Utils        utils/http.go (Http), utils/address.go and utils/validate.go (Address),
--                utils/slice.go and utils/set.go (Slices), utils/retry.go (Retry)
--   Config       the records of config/ and their validation (Users, Chains, App), and the loading of
--                the files of users and chains (Load)
--   Registry     registry/user_registry (Users), registry/chain_registry/pauser.go (Pauser),
--                registry/chain_registry (Chains), registry/validator_address_registry (Addresses),
--                registry/rpc_client_registry (Clients), registry/telegram_bot_registry (Bots)
--   Push         services/telegram_push_message_svc: Queue (receiver_based_queue.go), Silencer
--                (silencer.go), Spam (prevent_spamming.go), Pusher (telegram_pusher.go), Message
--                (types/queue_message.go)
--   CallCenter   services/telegram_call_center_svc: Desk (employee.go: who is answered and by which
--                command), Context (employee.go: the message to root users), RateLimiter
--                (types/rate_limiter.go), Pause (command_pause.go), Silent (command_silent.go),
--                Search (command_search.go), Listing (command_chains.go, command_validators.go),
--                Status (command_status.go), Answers (command_me.go, command_help.go,
--                command_last.go)
--   Worker       work/health_check_worker: Gov (cache_gov.go), Cache (cache_hc.go), and worker.go in
--                the order of a round: Check (the round itself), Messages and State (what is told and
--                the state of a round), Endpoints (getMostHealthyRpc), Pages (the queries and their
--                pages), Mapping (the mapping of addresses), Ranking, Validator (one validator, with
--                Signing, Slashing and Direct for its signing, the number of missed blocks behind
--                which it is slashed, and its own endpoints), Proposals, Explain
--                (explainDuration). Outside names what other libraries give; Steps are the rules by
--                which the checks are put together
--   Start        cmd/start.go: one round of the hot reload of the configuration
--
-- A function of the code has the definition of its name in lower case with underscores, less the
-- suffixes WL, RL and RWL, which say how it locks. Package variables and objects behind pointers are
-- records that an operation takes and gives back. Where a loop or a branch of a function is a
-- definition of its own, a comment says which.
--
-- Numbers are natural numbers, and int64 values signed integers over them; no operation that is
-- modelled comes near the end of int64 but the difference of two instants, which saturates as
-- time.Since does. An instant is the nanoseconds since the zero value of time.Time, a duration a
-- signed number of nanoseconds. A string is the list of its bytes. A map is an association list, and
-- the order of its entries stands for Go's unspecified order of iteration; a statement holds for
-- every order. An operation holds its lock from start to end, and reads the clock once. Where workers
-- share a read lock or a lock is taken twice (GetFirstChainConfigForHealthCheckRL between its test and
-- its mark, GetRpcClientByEndpointWL between its two looks), what others do in between is a function
-- `others`, and a statement holds for every such function that it does not restrict. A panic is an
-- outcome of its own (Run). sort.Slice is a parameter with the laws that its documentation gives;
-- insertion sort shows that they can hold.
--
-- The worker asks nodes and the clock in an order that matters, so each question carries the number of
-- those before it: what a node, the clock or a library answers is a function of that number and of
-- the question (World), and a statement holds for every such function. A float64 is its bit pattern
-- and the arithmetic on it belongs to the World, as do the printing of numbers and the codecs of
-- addresses. The goroutines of getMostHealthyRpc run one after the other, and their results stand in
-- any order. One health-check is modelled alone: no other worker acts in between.
--
-- The loops recurse on a list, but for two. Retry runs on fuel: the number of attempts up to one after
-- which it gives up is enough, and the World says what that number is. The loops that fetch pages run
-- on fuel as well: one page more than the node has is enough, and running out is a panic.
--
-- The decimals of the sdk belong to the World too, and their operations may panic. The loader of the
-- configuration is given what os.Stat, the walk of the directory and viper give for each file.
--
-- Not modelled: reading the file of general settings, printing the configuration, logging,
-- goroutines, signals and sleeps, the telegram and rpc libraries (sending, and the making of bots and
-- clients, are parameters), the messages of startup and shutdown, the commands init, check and
-- version, which read and write files and print, and the start of the employees of the call center.
pub mod Prelude
pub mod Utils
pub mod Config
pub mod Registry
pub mod Push
pub mod CallCenter
pub mod Worker
pub mod Start
