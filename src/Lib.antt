-- ===== src/Lib.antt =====
-- Verification of dlc-stack: the services around discreet log contracts (DLC) on Bitcoin.
--
-- Storage: `storage/common` holds contracts and events in two SQL tables; `storage/api` serves them
-- over HTTP, with a list of nonces and a signature check in front.
--   Storage.Sql        the four statements on a table, its UNIQUE constraint and its sequence
--   Storage.Models     storage/common/src/models.rs
--   Storage.Contracts, Storage.Events   the queries of storage/common/src/lib.rs
--   Api.Http, Api.Json requests, answers, the server's state; JSON and the derived decoders
--   Api.Contracts, Api.Events   the handlers of storage/api/src/contracts.rs and events.rs
--   Api.Router         `request_nonce`, the routing table and the `wrap_fn` of storage/api/src/main.rs
--   Api.Auth           storage/api/src/verify_sigs.rs
--   Api.Interleaved    requests that overlap: the check begins, others run, the check finishes
--   Api.Consistent, Api.Interleaved.Replayed, Api.Auth.Replay, Soundness, Reads, Refusals   proofs
-- Manager: `dlc-link-manager/src/lib.rs` creates contracts and moves them through their states.
--   Manager.Types, Manager.Peers   contracts and messages; storage, chain, clock, oracles, wallet
--   Manager.Monad      an action on the trace of the calls made, and rules for what it calls
--   Manager.Messages   `send_offer`, `accept_contract_offer`, `on_dlc_message`
--   Manager.Checks     `periodic_check` with its three rounds
--   Manager.Messages.Allowed, Manager.Checks.Justified   the transitions, with what must come before
--   the other children: proofs
-- Clients: `clients/src`, the manager's storage over the storage API.
--   Clients.Ids, Clients.Codec   clients/src/utils.rs
--   Clients.Api        the methods of `StorageApiClient` in clients/src/lib.rs
--   Clients.Events     the methods on events
--   Clients.Http, Clients.Http.Events   the requests of the methods, answered by the server of `Api`
--   Clients.Provider   clients/src/async_storage_provider.rs
--   Clients.Refines    when one way of answering a provider's calls refines another
--   Clients.Http.Refined, Clients.Http.Events.Refined, Clients.Provider.Remote   HTTP refines the
--                      server's own queries, and what follows for a stored contract
-- Attestor: `attestor/src`, the oracle, which keeps its events in the storage API.
--   Attestor.Digits    the binary digits of an outcome
--   Attestor.Attest    `attest` and `build_attestation` of lib.rs, oracle/handler.rs
--   Attestor.Events    `create_event`, `get_event`, `get_events` and the answers of main.rs
--   Attestor.Hex, Attestor.Client   attestor-client/src/lib.rs, the manager's side
--   Attestor.Stored, Attestor.Events.Shown, Fetched   proofs
-- Wallet: `wallet/src`, the router wallet: main.rs over the manager, utils.rs and macros.rs.
--   Wallet.Payout      the payout curve of utils.rs
--   Wallet.World       a trace of all the calls: the manager's, and the requests that go out
--   Wallet.Attestors   `get_attestors`, `get_chain_from_attestors`
--   Wallet.Notices     `periodic_check`, which tells the blockchain interface
--   Wallet.Offers      `create_new_offer`, `accept_offer`
--   Wallet.Info        `get_wallet_info`
--   Wallet.Server      `process_request`
--   Wallet.Retry, Wallet.Startup   the macro `retry!`, and the attestor clients made with it
--   Wallet.Attestors.Agreed, Notices.Sent, Notices.Told, Offers.Terms, Info.Buckets,
--   Server.Answers, Server.Accepted   proofs
-- Browser: `wasm-wallet/src/lib.rs`, the wallet in a browser, over the same manager.
--   Browser            `accept_offer`, `reject_offer`, `countersign_and_broadcast`, the contracts shown
--   Browser.Ids        the ids in the texts it is given
--   Browser.Coins      `get_wallet_balance`, and the coins of js-interface-wallet/src/lib.rs
--   Browser.Shown, Browser.Coins.Spendable   proofs
-- Esplora: the blockchain, which a server of Esplora knows.
--   Esplora            esplora-async-blockchain-provider-router-wallet/src/lib.rs
--   Esplora.Cache      the cache of esplora-async-blockchain-provider-js-wallet/src/lib.rs
--   Esplora.Depth, Esplora.Cache.Refreshed   proofs
-- Conventions. A record field or function has the name that it has in the source. A fallible call is
-- a `Result` or an `Option`; a handler gives an `Outcome`, which keeps the state also when it
-- panics. What the code takes from a library is an argument: secp256k1, sha256 and the text form of
-- JSON are `Api.Auth.Crypto`, and a failure of the database engine is the `Conn` of the statement.
-- Strings are compared, and built where an id, an address or a message is put together. A number
-- written in a text and a price of the oracle's library are arguments, as are base64 and the
-- serialization of the messages. Ids of the serial column are unbounded numbers.
-- Every loop over a list is a recursion on it. The digits of a number take fuel, the number itself,
-- which is enough since each step halves it; `retry!` takes fuel, since a limit of 0 has no end, and
-- its limit is enough, or one attempt more than the failures. An answer of the manager's or of the
-- wallet's surroundings may depend on the whole trace before the call.
--
-- Not modelled: metrics, CORS, environment variables, keys and the loops that start the servers,
-- logging, TLS and HTTP framing, the signers of dlc-wallet and js-interface-wallet, the TypeScript
-- services and the key tools. Requests overlap in `Api.Interleaved`
-- only at the points around the list of nonces; elsewhere one request runs after the other.
pub mod Base
pub mod Storage
pub mod Api
pub mod Manager
pub mod Clients
pub mod Attestor
pub mod Wallet
pub mod Browser
pub mod Esplora
