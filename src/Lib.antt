-- ===== src/Lib.antt =====
-- The tfchain bridge: a daemon (tfchain_bridge/) and a pallet (pallet-tft-bridge/) that move TFT
-- between Stellar and TFChain. Each validator runs a daemon. Deposits on the bridge account on Stellar
-- are minted on TFChain or refunded; withdrawals that TFChain announces are signed, paid on Stellar and
-- reported as executed. The pallet counts the votes for mints, gathers the signatures for withdrawals
-- and refunds, and keeps what is executed.
--
-- Parts, and the files that model them
--
-- Bridge/State.antt, Bridge/Start.antt: tfchain_bridge/pkg/bridge/bridge.go. `new_bridge` is
--   `NewBridge` and `start` is `Start`: it reads the cursor and serves what its `select` receives,
--   `Received`: events of a block, deposits, or the end of the context. `each` is one of the six loops
--   over events, with the errors that it passes over. Bridge/Start/Allowed.antt states the protocol of
--   the daemon as a predicate on the trace.
-- Bridge/Mint.antt, Bridge/Memo.antt: tfchain_bridge/pkg/bridge/mint.go.
-- Bridge/Refund.antt: tfchain_bridge/pkg/bridge/refund.go.
-- Bridge/Withdraw.antt: tfchain_bridge/pkg/bridge/withdraw.go. One function for each handler; what
--   stands behind a test in a handler has a name of its own.
-- Stellar/Wallet.antt, Stellar/Network.antt: the wallet of tfchain_bridge/pkg/stellar/stellar.go, with
--   the sequence number, an int64 that wraps around. Stellar/Asset.antt, Stellar/Wallet/Generation.antt
--   and Stellar/Wallet/Trustline.antt write out the asset, a payment and a trustline on their own.
-- Stellar/Deposits.antt, Stellar/Stream.antt: `processTransaction` and the goroutine
--   `StreamBridgeStellarTransactions` of the same file.
-- Substrate/Client.antt: the calls of tfchain_bridge/pkg/substrate/client.go that are retried; the five
--   loops there are one function, `retry`, over the attempt and the question.
-- Substrate/Events.antt, Substrate/Subscription.antt: the conversion of events and the goroutine of
--   tfchain_bridge/pkg/substrate/events.go.
-- Persistency.antt: tfchain_bridge/pkg/persistency.go. Config.antt: tfchain_bridge/pkg/config.go.
-- Main.antt: the end of the process in tfchain_bridge/main.go.
-- Tools/Keygen.antt: tfchain_bridge/tools/keygen/main.go. Tools/EventParser.antt:
--   tfchain_bridge/tools/eventParser/main.go.
-- Pallet/: pallet-tft-bridge/src/lib.rs, the other end of the bridge in the runtime of TFChain. Types
--   has the storage, the events and the errors; Validators, Mint, Burn and Refund have the functions of
--   the pallet under their names; Calls has the calls with their checks of the origin, and `dispatch`
--   runs one; Blocks has the genesis, the end of a block and the steps of the chain. BurnEffects,
--   RefundEffects and MintEffects say what a call may do to each part of the storage. Client is the
--   interface between the client library of the daemon and the pallet.
-- Go/: what the code uses of Go's standard library (strings, strconv, encoding/hex, encoding/base64,
--   big.Rat), written out. Errors.antt: errors as values, with `errors.Is` and `errors.Wrap`.
-- Exec.antt: methods that change state and may fail, crash or run out of fuel. World.antt: the state
--   that the handlers share, and the trace of the calls that matter to the money, newest first, in which a question stands with its
--   answer, or as `unanswered`; its
--   children have the rules by which the proofs go through an action part by part.
-- Tests.antt: a small chain, Stellar network and machine, and a small runtime, on which the theorems
--   are applied. Tests/OnPallet.antt runs the daemon on the pallet.
--
-- How it is modelled
--
-- The client of TFChain, the Stellar SDK with Horizon, the file system, the JSON codec, floats, timers
-- and contexts are the parameters of Env.antt: each call is a function of the state that lies outside,
-- so an answer may depend on everything asked before. The key generator has its own parameters,
-- `KeyTools`. A call that gives an error gives no other value: beside an error the libraries return
-- Go's zero value. A context that is done says `context.Canceled`; the background context never ends.
--
-- The handlers run one after the other, as in the code. The two goroutines run beside them: each is an
-- action of its own, and a parameter `others` stands for what the rest of the daemon does while a
-- message waits in the channel, which has no buffer. The order in which the main loop receives is the
-- order of a list. The goroutine of the stream sets the `err` of `Start` only on its way to
-- `log.Fatal`, so `start` takes that `err` for the nil that `GetHeight` left, and leaves the race between them out.
-- For the statements, a head and a page are noted where they are received, a page with the cursor that
-- Horizon was given.
--
-- A call of the pallet is a function of the storage that gives the storage after it or an error. FRAME
-- runs a call as a transaction, so an error carries no storage and the chain goes on with the one from
-- before. The currency, the handler `Burn`, the origins and the retry interval are the parameter
-- `Runtime`. A balance is a u64, an account is a number, a block number is one that does not wrap around
-- (a u32 lasts for centuries), and the counters that are u32 and u64 wrap around. A storage map is a list
-- of entries in the order of its iteration, which FRAME leaves open. `binary_search` is what Rust
-- documents for a sorted vector. A step of the chain is a call of anyone, the end of a block, or a
-- change of the balances by other pallets.
--
-- Loops over lists are structural. The retry loops, the stream and the subscription take fuel, one unit
-- for a round, and say `unfinished` if it is used up. A retry loop whose every wait ends the context or
-- uses up one of the rounds that are left needs fuel for one round more than those. The stream and the
-- subscription run until the context ends, so their fuel is the length of the observation.
--
-- A map of Go is a list of pairs in the order of its `range`, which Go leaves open. Amounts are int64
-- and uint64 with their wrap-around where the code converts.
--
-- Not modelled: the flags, the logger and the signal handler of tfchain_bridge/main.go, the weights and
-- the test runtime of pallet-tft-bridge, and the chart and container files, which hold no logic of the
-- bridge.
pub mod Prelude
pub mod Go
pub mod Errors
pub mod Exec
pub mod Env
pub mod World
pub mod Config
pub mod Persistency
pub mod Substrate
pub mod Stellar
pub mod Bridge
pub mod Pallet
pub mod Tools
pub mod Main
pub mod Tests
