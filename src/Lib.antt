-- ===== src/Lib.antt =====
-- A model of fabricsdk, the Go client for Hyperledger Fabric, with proofs about it.
--
-- The package turns the calls of the Fabric Gateway client into a smaller interface. Its parts:
--   - Ccerr (ccerr/ccerr.go): the codes that chaincode puts in front of its error messages, and
--     `Parse`, which finds them again. GoStrings has the functions of package strings that the
--     sources use.
--   - Kinds, GoError, Errors (errors.go): the kinds of errors, the `*Error` value with its text, and
--     the predicates (`KindOf`, `IsRetryable`, …). Go's errors are trees (`GoError`), which
--     `errors.As` walks.
--   - Keywords and Classify (errors.go): `legacyKind`, and `classify` with all that it calls:
--     `chaincodeError`, `kindFromCode`, `commitFailure`, `gatewayDetails`.
--   - Config (config.go): `withDefaults`, `validate`, `grpcTarget`, `serverNameFor`. Observe
--     (observe.go) has the choice of the hooks and `CallInfo`, and Hooks the calls that they get.
--   - Identities (identity.go): `NewIdentity`, `IdentityFromPEM`, `LoadIdentity`, `readPEMPath`.
--     Client (client.go): `New`, `NewWithConnection`, `build`, `transportCredentials`, `Close`, and
--     in Client.Calls the methods that use the client's default handle. Client.Threads and
--     Identities.Threads have `FabricClient.Close` and `Identity.Close` from several goroutines, step
--     by step. Hsm (identity_hsm.go): `IdentityFromHSM`, with the session of the token that it opens.
--   - Options (client.go): call options, `proposalOptions`, `withDefaultTimeout`.
--   - World and Contract (client.go, contract.go): the handle, `connect`, `gateway`, `target`,
--     `observe` and `EvaluateWith`. Submit (contract.go): `SubmitAsync`, `PendingTx.Wait`, `Release`
--     and `SubmitWith`. Submit.Threads has `Wait` and `Release` of one pending transaction from
--     several goroutines, step by step. Ledger (contract.go): `qscc`, `TxStatus`, `Height`.
--   - Events (events.go): event options, the reconnect delay, `reconnectable`. Listen (events.go):
--     `ListenChaincodeEvents` and `ListenBlocks`, with `blockSession`, and in Listen.Rounds the two
--     with the gateways that they open and the lines that they log; Listen.Sleep has `sleepCtx`.
--     Streams (events.go): the opening of a stream in `ChaincodeEvents` and `blockSession`. Forward
--     (events.go): what the goroutine of `ChaincodeEvents`, the reader of `EventStream`, the caller
--     and the gateway do to a stream. Checkpoints (events.go): `Checkpointer` and
--     `NewMemoryCheckpointer`, `NewFileCheckpointer`.
--   - Examples (examples/basic/main.go, examples/events/main.go): the two programs, in Examples.Basic
--     and Examples.Listener.
--   - Libs, Result and Base: what is taken from gRPC and the protobuf packages, the pair of a value
--     and an error, and the helpers that all parts share. Goroutines has what the parts with several
--     of them share. Tests has runs at concrete inputs.
--
-- How they interact: a call makes a gateway (or takes the client's), asks the gateway library, passes
-- a failure to `classify`, gives the gateway back and tells the observer. So a call is a function
-- from a `World` to a result and a world. A world has the state of the library and of the network
-- behind it, which is abstract (`GatewayApi` is a parameter of every call), the `closed` flag, and
-- the trace of what others can see: gateways, connections and sessions opened and closed, observed
-- calls, log lines. The world is that of one client: `build` makes one that is not closed. The
-- deferred calls of the sources stand where they run.
--
-- What runs at the same time is a relation on states, one step of one party at a time: Forward.Move
-- has the steps of the forwarding goroutine and Forward.Act those of the caller and the gateway, and
-- Submit.Threads.Step a step of any of the goroutines that share a pending transaction, as
-- Client.Threads.Step and Identities.Threads.Step of those that share a client or an identity. A
-- statement for all states that are reached is one for every interleaving. The reader of a stream and
-- a turn of a listener meet in Forward.Turns, and the position of a checkpointer in
-- Checkpoints.Resume and Checkpoints.Blocks, with what a subscription brings there.
--
-- How values are modelled: a string is the list of its code points; white space is that of Go's
-- unicode package, and lower case its lower case where that is ASCII. A duration is an int64 in
-- nanoseconds, whose doubling wraps around; statements about the reconnect delay bound the longest
-- delay by about 146 years, up to which the product by two is an int64. Block numbers and codes are
-- natural numbers. A context is its deadline and whether it has ended. The endless loop of a listener
-- runs on a list of turns, each of which says what the environment does in one round: so a statement
-- for all lists is one for the loop at every point of its run. A round of Listen.Rounds says the same
-- of a listener in a world. What its stream brings depends on the options that the subscription was
-- opened with, which `GatewayApi` tells. The goroutine of an event stream gives the gateway back after it
-- has closed the channel, and nothing waits for that: it joins the goroutines that still hold a gateway,
-- and each round says which of these release before it opens a stream and which after its stream has
-- ended; some may do so after the listener has returned. No definition runs on fuel.
--
-- What is not modelled: the tests. Of a file checkpointer only the opening is modelled, and files are
-- as they are at one time. In Submit the mutex of a pending transaction makes `Wait` one step, which
-- Submit.Threads takes apart without its results. In the world a client and an identity belong to one
-- goroutine, and their closing by several is in Client.Threads and Identities.Threads, without the
-- errors; there a step of one goroutine sees all steps before it. What a hook of the caller does is a
-- parameter. In the listener example the signal that ends the context is part of a turn. The Gateway
-- library, gRPC, TLS, protobuf, files, PKCS#11 and cryptography are not part of the repository, and
-- are parameters; of them nothing is assumed but what a theorem says, of the library's
-- checkpointer in memory the laws of Checkpoints.InMemoryLaws, and of the options of a subscription those
-- of Streams.Asked.OptionsLaws.
pub mod Base
pub mod GoStrings
pub mod Ccerr
pub mod Kinds
pub mod GoError
pub mod Errors
pub mod Libs
pub mod Keywords
pub mod Classify
pub mod Observe
pub mod Config
pub mod Result
pub mod Goroutines
pub mod Hooks
pub mod Options
pub mod World
pub mod Contract
pub mod Identities
pub mod Client
pub mod Hsm
pub mod Submit
pub mod Ledger
pub mod Events
pub mod Examples
pub mod Streams
pub mod Forward
pub mod Checkpoints
pub mod Listen
pub mod Tests
