-- ===== src/Lib.antt =====
-- The core of fortis, a wallet for Bitcoin (BTC) and its BLAKE2b fork (XBT), and of the service that
-- pairs its users for atomic swaps between the two chains.
--
-- The parts, and how they interact. Two wallets (crates/wallet-core) swap through the edge
-- (crates/fortis-edge). The edge keeps a book of offers in a store, and its matcher pairs an offer to
-- sell XBT (the initiator, who funds first) with an offer to buy it (the participant). A pairing is a
-- match, whose terms each wallet checks against the limit of its own user before it accepts. The
-- watchtower calls the matcher's `tick`, which cancels a match whose deadlines pass, gives offers back
-- and records strikes. Beside them stands the Lightning service provider (crates/fortis-lsp), which
-- keeps small custodial accounts in a ledger, holds payments for phones that are off, and moves
-- accounts that grow too large into channels of their owners.
--
-- Which file models what.
--   Common/*                the shared part: words, tests, lists, results
--   Chain.antt              crates/wallet-core/src/chain.rs, all of it
--   Error.antt              crates/wallet-core/src/error.rs, the errors that the modelled code returns
--   Terms.antt              crates/wallet-core/src/swap_terms.rs, all of it, and `SwapTimelocks`,
--                           `swap_timelocks` and `SwapRole` of swap.rs
--   Terms/*                 its theorems
--   Edge/Records.antt       the records of crates/fortis-edge/src/swap/store.rs
--   Edge/Table.antt         RocksDB, as an interface with laws, and an instance
--   Edge/Store.antt         `Store` of crates/fortis-edge/src/swap/store.rs: offers, tags, matches,
--                           strikes
--   Edge/Store/*            its theorems
--   Edge/Matcher.antt, Edge/Matcher/Pairing.antt, Edge/Matcher/Closing.antt,
--   Edge/Matcher/Rematch.antt
--                           crates/fortis-edge/src/swap/matcher.rs: `settle`, `pair`, `match_locked`,
--                           `match_offer`, `take_private`, `take_public`; `release`, `cancel`,
--                           `tick_match`, `tick`, `on_decline`; `rematch`
--   Edge/Matcher/*          the theorems about them
--   Edge/Messages.antt, Edge/Messages/Releases.antt, Edge/Messages/Chained.antt,
--   Edge/Messages/Reinstating.antt, Edge/Messages/Posts.antt
--                           crates/fortis-edge/src/swap/mod.rs: the steps of `post_message` under the
--                           lock; the release; `leg_paid_on_chain`, `record_leg_funding`;
--                           `reinstate_if_funded_in_time`; `post_message` and its `funded`
--   Edge/Messages/*         the theorems about them
--   Edge/Watchtower.antt, Edge/Watchtower/Jobs.antt, Edge/Watchtower/Matches.antt,
--   Edge/Watchtower/Retention.antt, Edge/Watchtower/Passes.antt,
--   Edge/Watchtower/Handing.antt
--                           crates/fortis-edge/src/swap/watchtower.rs: `pick_variant` and the finishing
--                           of a presigned redeem; `run_job`; `start_participant_clock` and
--                           `close_if_spent`; `Store::purge` of store.rs; `run_once`;
--                           `watch` of mod.rs
--   Edge/Watchtower/*       the theorems about them
--   Htlc.antt               crates/wallet-core/src/htlc.rs: contracts, their scripts as lists of
--                           opcodes, spends, witnesses and the fee of a spend
--   Htlc/*                  the theorems about them
--   Swap.antt               crates/wallet-core/src/swap.rs: `SwapParams`, `SwapMachine`, its events,
--                           `params_from_terms`, `spend_fees`
--   Swap/*                  the theorems about them
--   Wallet.antt, Wallet/Plan.antt, Wallet/View.antt, Wallet/Planners.antt
--                           crates/wallet-core/src/wallet.rs: coins, fees and sizes; the selection
--                           loop and a round of `plan_payment`; a round of
--                           `plan_payment_fee_inclusive`; the planners of `WalletView`
--   Wallet/*                the theorems about them
--   Lsp/Records.antt        the rows of the ledger's tables of crates/fortis-lsp/src/account.rs
--   Lsp/Ledger.antt, Lsp/Ledger/Revenue.antt, Lsp/Ledger/Runs.antt
--                           the operations of `Ledger` there on balances, holds, entries and revenue,
--                           and any sequence of them
--   Lsp/Ledger/*            the theorems about them
--   Lsp/Held/Table.antt, Lsp/Held.antt
--                           crates/fortis-lsp/src/held.rs and the table `held` of account.rs
--   Lsp/Held/*              its events and the theorems about them
--   Lsp/Directory.antt      the other tables of account.rs: invoices, push tokens, offers, nonces
--   Lsp/Auth.antt           crates/fortis-lsp/src/account_auth.rs: `verify`
--   Lsp/Accounts.antt, Lsp/Accounts/Sends.antt
--                           the routes and hooks of crates/fortis-lsp/src/account_api.rs
--   Lsp/Accounts/*          the theorems about them
--   Lsp/Conversion.antt     crates/fortis-lsp/src/conversion.rs, and `withdrawal` and `fee_cap_msat` of
--                           account_api.rs
--   Tests/*                 runs at concrete inputs and the theorems at such inputs
--
-- How state and operations correspond. A method that changes the store is a function from the store to
-- the store and a `Result`; what it wrote before an error stays written, as in the source. The
-- matcher's operations hold one lock from start to end, so each is one step. Machine words are native
-- numbers: where the source adds or subtracts a `u32` or `u64` the wrap of an optimised build is
-- written out. Identifiers, tokens, hashes, keys and share codes are numbers, since the code compares
-- them and never takes them apart. Messages of errors are constructors, not texts.
--
-- What stands for code that is not here. RocksDB with its JSON records is `Table`, a record of
-- operations with the laws that a write is read back and a scan lists what is stored; its reads and
-- writes do not fail. Random ids and the clock are arguments.
-- Hashes of keys and scripts, dust limits and sizes of transactions are `Crate`, a record of functions.
-- A funding transaction is given decoded, as its id and outputs.
-- Scripts are `Scripts`: a type with the length of a script, whether it is an OP_RETURN, and its dust
-- limit. The derivation of an address' script is the argument `address_at`, which may fail. A plan's
-- transaction is its inputs and outputs, since the source fixes its other fields, and `psbt_base64`,
-- which the planners leave empty, is left out. A `&mut self` of a planner is a `WalletView` that it
-- takes and, on success, gives back; the source does not change it before an error. A panic of
-- `Amount + Amount` is the error `panicked`.
-- The SQLite tables of the LSP are lists of rows. A transaction is one step: on an error the ledger
-- stays as it was. The CHECK on a balance, the primary keys and the unique indexes are in the model;
-- failures of the database, and sums above 2^63 msat, are not. An amount is stored as the smaller of
-- itself and 2^63 - 1, and a signed amount is read through what it adds and what it takes away. The
-- answers of the Lightning node to held payments are functions of all that was sent to it before, and
-- what is sent is a log; its answers to a route are `NodeAnswers`. Hold ids, which are texts, are
-- numbered by `HoldIds`. A request comes parsed, and its signature checked.
-- The messages of a match are a list for each match. What a text reads as is `Decoder`, what the chain
-- shows while one request is handled is `ChainReader`, and `point` is the point of a recorded key. A
-- handler reads the match and the chain before it takes the matching lock: what other requests do up
-- to each time that it takes the lock is `others`, a function of the state, and all that it reads
-- before is of one state.
-- The watchtower reads the chain through a `Reader` for each turn of a pass, since it may change
-- between two turns, and what others do between its reads and its writes is again a function. What it
-- broadcasts is a log. Transactions are read and hashed by `Codec`, which also stands for
-- `sighash_all` of crates/wallet-core/src/sighash.rs and the check of a signature.
--
-- A panic in a watch job, which has a variant, ends its turn as an error; in the source it would end
-- the pass.
--
-- Bounds. All loops run over lists, so there is no fuel.
--
-- Not modelled: the waiting for messages, the routes of offers, takes and recovery, the
-- watchtower's reader over the upstreams, the signing of spends and of releases, keys and
-- sealing, PSBT, the address index, the Lightning node, the push
-- notices of the LSP, the node client, and the bindings; and log
-- lines.
pub mod Common
pub mod Chain
pub mod Error
pub mod Terms
pub mod Htlc
pub mod Swap
pub mod Wallet
pub mod Edge
pub mod Lsp
pub mod Tests
