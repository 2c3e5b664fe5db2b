-- ===== src/Lib.antt =====
-- Verification library of obd-go-bindings, the Go packages of a Lightning node with Omni assets.
--
-- The parts that are modelled, and how they meet in the program:
--
--   Prelude       shared names; Boolean tests, lists measured by native numbers, Go's maps as
--                 association lists (Maps), int64 arithmetic with wrap-around (Int), and the pair of
--                 a value and an error (Results)
--   CircuitMap    htlcswitch/circuit_map.go and circuit.go: the switch's table of payment circuits.
--                 CircuitMap/Commit is CommitCircuits, Open is OpenCircuits, Close is FailCircuit,
--                 CloseCircuit and DeleteCircuits, Trim is TrimOpenCircuits, Keys is
--                 lnwire/short_channel_id.go and channeldb's CircuitKey. Circuits are shared by
--                 pointer, so they live on a heap and the maps hold references. Consistency has the
--                 invariant; Commit's children, Opening and Closing have the theorems.
--                 Whether a circuit can be encoded and whether a transaction commits is decided by
--                 an environment (Env). The lock is held through each operation on memory, so an
--                 operation is one step.
--   TxWeight      input/size.go: the weight estimator, as far as coin selection uses it
--   CoinSelect    lnwallet/chanfunding/coin_select.go: the selection loops and the fee estimate, over
--                 a record (Chain) of what comes from btcd and the fee rate: script classes, the
--                 fee of a weight, the size of a varint. An Address has its text and its script.
--   Wire          lnwire/writer.go and lnwire/lnwire.go: big-endian integers
--   Omni          lnwallet/omnicore/op/opreturn.go: the payload of a send-to-many and of a simple
--                 send, its OP_RETURN script, and the output put in front of a transaction; with
--                 FindScriptOutputIndex of input/script_utils.go. It writes and reads through Wire.
--                 Omni/Payload, Script, Simple and Receivers have the theorems.
--   Features      lnwire/features.go and feature/required.go: feature vectors. Features/Sets has the
--                 set operations, Features/Queries the questions asked of a vector. Features/Deps is
--                 feature/deps.go, the check that a vector has what its features depend on; its
--                 theorems are in Deps/Sound and Deps/Verdicts.
--   Channel       lnwallet/channel.go: the commitment state machine of a channel. Descriptors are
--                 shared by pointer, so they live on a heap. Channel/Log is updateLog with
--                 compactLogs, View is fetchHTLCView and evaluateHTLCView, State the commitments,
--                 chains and LightningChannel (with the fees of commitment.go and chainfee), Sanity
--                 is computeView and validateCommitmentSanity, Htlc has AddHTLC to ReceiveFailHTLC,
--                 Fees the available balance and the fee updates, Protocol has SignNextCommitment
--                 and ReceiveNewCommitment, Revoke RevokeCurrentCommitment and ReceiveRevocation.
--                 View/Credits, Passes, Balance and Once, Once, Exchange and WellFormed have the
--                 theorems; WellFormed/Reach has the operations as a step relation. What builds,
--                 signs and verifies transactions, derives keys or writes to the database is a
--                 record (Outside) that says how it went; SHA-256 is a function.
--   CoopClose     lnwallet/chancloser/chancloser.go: the state machine of the cooperative close, with
--                 what it calls of lnwallet/channel.go. CoopClose/Fees has the offers, Transactions
--                 the balances (CoopCloseBalance of commitment.go) and the closing transactions,
--                 which use Omni, Signing the proposals and completions of the channel, Closer the
--                 parts of a closer, Process is ProcessCloseMsg and ProcessAsset OB_ProcessCloseMsg.
--                 Negotiation lets two closers exchange their messages. Compromise, Terms, Mirror,
--                 Bargain, Agreement, Handshake, Moves, Runs, AssetTransactions, OneSided,
--                 Refusals and Panics have the theorems. Sorting, sanity check, engine, signer,
--                 signature parser, thaw height, database and network are a record (Services) given
--                 to each call anew.
--   FwdPkg        channeldb/forwarding_package.go: the bit vector PkgFilter, and in FwdPkg/Package the
--                 forwarding package in the bucket of its height. FwdPkg/Bits, Filter and Lifecycle
--                 have the theorems.
--   Examples      runs on small inputs
--
-- Machine integers are native numbers with their wrap-around written out; bytes are numbers. A Go
-- map ranges in the order of its entries; the statements do not depend on that order. Errors are
-- values, and where Go changes state before it returns an error, the model returns that state too.
-- The buckets of the circuit map are keyed by the circuit keys, not by their bytes. advanceTail of a
-- chain with one commitment leaves none, which Go notices at the next look at the tail: the model
-- panics at once.
--
-- Bounds and fuel. The loop of CoinSelect has fuel one more than the number of coins: each retry
-- selects more coins than the round before. The loop of TrimOpenCircuits has fuel one more than the
-- number of open circuits: each round closes one. The recursion of validateDeps has fuel 3, the
-- length of the longest chain of the default dependencies. The exchange of two closers has fuel for
-- as many messages as are handled, which the theorem on it bounds. All other loops are structural.
--
-- Not modelled: the restart of the circuit map from disk, the byte form of circuits and of
-- feature vectors, goroutines, logging, the database behind channeldb, the wallet backends and
-- the generated RPC code; of channeldb/forwarding_package.go the buckets above a height and the
-- byte form of log updates; of lnwallet/channel.go the transactions and signatures,
-- reestablishment (ProcessChanSyncMsg), the restart of the logs from disk, and the force close.
pub mod Prelude
pub mod CircuitMap
pub mod TxWeight
pub mod CoinSelect
pub mod Wire
pub mod Omni
pub mod Features
pub mod Channel
pub mod CoopClose
pub mod FwdPkg
pub mod Examples
