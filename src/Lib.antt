-- ===== src/Lib.antt =====
-- zli is the command-line client of BastionZero. A command is parsed, a handler asks the
-- backend over HTTP, and a connection to a target is carried by a daemon process that the
-- client starts and keeps a record of. This library models the parts of the client that decide
-- something: which daemons are stored and shown as running, which entries of a kube config are
-- stale, whose target user a connection takes, and what a policy looks like after an edit.
-- Paths are from the root of the repository.
--
-- The files and the code they are about:
--
-- Prelude, Dict and Effect hold what the components share. Prelude passes on the library's
-- names and has the Boolean tests and the list functions of the program. Dict is a plain object
-- or a Map: an association list in the order of insertion, with distinct keys, in which writing
-- an existing key keeps its place. Effect is a handler as a value: the events that it causes in
-- order, and whether it returns, leaves by cleanExit (src/handlers/clean-exit.handler.ts) or
-- throws. Settled is how a promise ends. Effect.State passes a store on beside this.
--
-- Daemon models src/services/daemon-management/daemon-management.service.ts and the types of
-- src/services/config/config.service.types.ts. Config has the daemon configurations; Store has
-- getDaemonConfigs, addDaemon and deleteDaemon, on the stored dictionary as explicit state;
-- Service has getDaemonStatus, getAllDaemonStatuses, disconnectAllDaemons and the searches for
-- running daemons. Lookup, Purge, Statuses, Running, Reach and Disconnecting hold the proofs.
-- Whether a process runs and how it is shut down is the parameter ProcessManager, as in the
-- source, where it is an interface.
--
-- Process models src/services/process-manager/process-manager.service.ts, over the answers of
-- the system to signals and of a daemon's control server, and fills the interface
-- ProcessManager. The timers of waitForProcess are the checks that come before the timeout: one
-- at once and one every 500 ms.
--
-- Disconnect models handleDisconnect of src/handlers/disconnect/disconnect.handler.ts, which
-- logs the results of disconnectAllDaemons, and logKillDaemonResult of
-- src/utils/daemon-utils.ts. Commands has disconnectHandler of the same file and
-- src/handlers/logout/logout.handler.ts, which call it for the daemons of each type.
--
-- Login models src/services/oauth/oauth.service.ts and src/handlers/login/login.handler.ts,
-- over the stored login of src/services/config/config.service.ts. Config has the stored values,
-- loginSetup and logout; Tokens has getTokenSet with its lock, and getIdTokenAndExitOnError;
-- Listener the requests to the callback listener and how the promise of login is settled;
-- Handler the login of a user with its second factor, and ServiceAccount that of a service
-- account. openid-client, the lock, the clock, the signing library and the user's answers are
-- parameters. A request to the listener is handled to its end before the next one.
--
-- Kube models src/services/kube-management/kube-management.service.ts: Config has
-- generateKubeConfig, Merge mergeKubeConfig, Filter filterKubeConfig and
-- getPortFromClusterServer, and Matching findMatchingKubeContext. Entries, Stale, Filtered and
-- Outcome lead from the maps and the loop of the filter to a description by tests on lists. It
-- reads the stored daemons and the statuses that the daemon service answers with, and uses its
-- search for running daemons. The URL parser and the printing of a number are the parameter
-- Runtime. A kube config is a record of the fields that the client reads.
--
-- Policy models the handlers of src/handlers/policy/policy-user, policy-subject, policy-group,
-- policy-targetuser and policy-targetgroup, over getPolicyFromName and editPolicy of
-- src/services/policy/policy.services.ts and the Edit requests of
-- src/http-services/policy/policy.http-services.ts. The backend is the parameter Backend: its
-- answer to each request, which may be a failure. Service/Requests has what the events of a
-- handler have in common. Identifiers models src/utils/policy-utils.ts: the resources and
-- targets that the names of a command stand for, and Create the handlers of
-- src/handlers/policy/policy-create, over Identifiers and the lists of Lists. cleanExit flushes
-- the logs before the process ends, and these handlers do not wait for the two checks on the
-- identifiers, so a failed check leaves an exit pending: Settings says before which step of the
-- handler it ends the process, if before any. The error that a check logs is an event, and the
-- handler goes on.
--
-- Connect models what every connection goes through. TargetString and Patterns are
-- parseTargetString and isGuid of src/utils/utils.ts, over lists of UTF-16 code units, with
-- each regular expression as a function of the text. TargetUser has
-- connectCheckAllowedTargetUsers and getEnvironmentFromName. Starting is dbConnectHandler and
-- tcpAppConnectHandler of src/handlers/connect/, from the choice of the ports to the storing of
-- a daemon whose server has started, and Handler is src/handlers/connect/connect.handler.ts,
-- which opens the connection, passes it to the handler of its target type and closes it again
-- on a failure. The requests, the spawning of the daemon and the handlers of the other target
-- types are parameters of them. ExitCodes is src/utils/daemon-exit-codes.ts with the listener
-- of waitForDaemonProcessExit and handleExitCode of src/utils/daemon-utils.ts.
--
-- Shell models the parts of src/utils/shell-utils.ts that do more than pass text on: the
-- batching of keystrokes, with the timer as a step of the relation in Reach, the loop that
-- sends a buffer in chunks, and getCliSpace.
--
-- Quickstart models src/services/quickstart/quickstart.service.ts and
-- src/handlers/quickstart/quickstart-handler.ts, with the types of quickstart.service.types.ts.
-- Hosts has parseSSHHosts, over the blocks that the parser of the SSH configuration gives; Keys
-- the checks of the keys and the prompts for a passphrase; Grouping, Flattened and Provision
-- the environments and policies that are made for the user names; Register the run of
-- autodiscovery on each host; and Handler the order in which the command does all this. Each
-- answer of a library or of the user is a parameter: the configuration's parser, the prompts,
-- the reading of private keys, the SSH connection and the HTTP requests.
--
-- Lists models src/services/list-targets, which resolves the targets a user may reach from the
-- policies (Targets), src/services/list-connections (Connections) and closing connections, in
-- src/services/close-connections and src/handlers/close-connection (Closing).
--
-- Display models texts that src/utils/utils.ts shows and reads again: the lines of a long cell
-- of a table, and the names of target types, verbs and roles. The conversion to lower case is a
-- parameter, with what it gives on the displayed names as its hypothesis.
--
-- Modules named Tests hold small inputs on which the theorems are applied.
--
-- How the models are built: every loop of the source is a structural recursion, on the list
-- that it goes over or, for the polling of a process, on the number of checks before the
-- timeout, but for two loops that move an index through a buffer or a text: Shell.buffer_chunks
-- and Display.lines_from take the number of rounds they may make, and give none when it does
-- not suffice. One round for each element suffices, as is proved where they are. Every function
-- is total. Numbers are process ids, ports and exit codes, which are only compared, and lengths
-- and milliseconds, which stay small. A key of an object that every object inherits, such as
-- constructor, is taken for an absent one. The answers of the operating system and of the
-- backend are those of one moment during one call.
--
-- What is not modelled: the parsing of the command line and the command builders, the terminal
-- beside the batching of its input, the HTTP services beside the requests named above, the
-- printing of lists and tables, the handlers that connect to shells, clusters and web targets,
-- logging, tracking, the client for the identity provider, the files of the configuration and
-- of kube configs, the spawning of daemons and the SSH tunnel, which are input and output or
-- glue around libraries. The types of the submodule webshell-common-ts are not in the
-- repository: a record here has the fields that the client reads.
pub mod Prelude
pub mod Dict
pub mod Effect
pub mod Daemon
pub mod Disconnect
pub mod Policy
pub mod Kube
pub mod Connect
pub mod Process
pub mod Shell
pub mod Quickstart
pub mod Lists
pub mod Display
pub mod Login
