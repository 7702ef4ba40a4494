-- ===== src/Lib.antt =====
-- The core of a wallet for the cryptocurrency Nano with camo accounts, which hide the recipient of a
-- payment. The core library stands under client/core/src, the commands over it under client/src, and
-- a terminal program under cliwallet/src.
--
-- The parts and the files that model them:
-- - Base: lists, options, results, Boolean tests, and the wrapping and checked operations on `u128` and
--   `u64`. A `Result` has three cases: a value, an error, and a panic, which is a failed `assert!`,
--   `expect` or index. Sums and differences wrap, as in a build without overflow checks.
-- - Nano: the crate nanopyrs as a record of types and functions, over which the development is
--   parametrised. What the wallet relies on in it is the record `KeyLaws` of Wallet/Validity.
-- - Error, Config: client/core/src/error.rs and the record of config.rs.
-- - Frontiers: client/core/src/frontiers.rs, the database of the last block of each account. Info and
--   Db have the records and the writes, Query the reads and the writes in place. Search, Invariant,
--   Insert, Remove and Work are proofs. A database is valid if no account has two entries and the
--   stored balance is the sum of the entries' balances and fits a `u128`.
-- - Wallet: client/core/src/wallet.rs, the accounts that the wallet tracks and their keys. Db, Derived
--   and Seed have the databases of accounts and what the seed gives, Keys the search for a key. Store,
--   Validity, Grow and the files whose names end in Laws are proofs. A wallet is valid if every tracked account is one of the seed's own.
-- - Rpc: client/core/src/rpc. Types has the records, World the effects, Work the jobs that find proof of
--   work (work.rs), Publish the publication of blocks (client.rs), Manager the choice, the retries and the
--   bans of nodes (manager.rs, wrapped.rs). UsableLaws, RetryLaws and BanLaws are proofs.
--   Reads and Download have what nodes answer and the download of frontiers (client.rs).
-- - Client: client/core/src/client. State has `CoreClient` and its reads (mod.rs), Blocks the blocks
--   that the client signs (send.rs, receive.rs), Camo and Send the payments (send.rs), Receive the receipt
--   of blocks (receive.rs), Removal and WorkResults the removal of accounts and the results of work jobs
--   (mod.rs), History the search for camo payments and the downloads (camo.rs, mod.rs, receive.rs).
--   RemovalCounts, Untracking and the files whose names end in Laws are statements and proofs.
-- - App: client/src and cliwallet/src. State has `Client` (lib.rs), Session the steps that commands are
--   made of, Commands the commands (interface.rs), Storage the encryption of a wallet (storage.rs),
--   Wallets the wallets of the user and their files (cliwallet/src/storage.rs), Start the start of the
--   program and Loop its loop (cliwallet/src/init.rs, main.rs), Error both error types.
--   BalanceLines, Sound, Entries, Keeps and the files whose names end in Laws are statements and proofs.
-- - Amount: the type `Amount` of client/src/types.rs, its text in Text. The other files are proofs.
-- - Tests: a small instance of Nano, runs, and the properties on concrete data.
--
-- A client holds a seed, a configuration, a wallet and a frontier database. A payment reads the sender's
-- frontier, makes a block after it, has the wallet sign it with the key that it finds, gets work for it
-- and publishes it; the new frontiers come back and are stored with `set_new_frontiers`.
--
-- A method that changes its object returns the new one beside its result. The asynchronous code is a
-- step `Action` on a `World`: the running work jobs, and the blocks handed to a node, in order. What a
-- node or a work job answers and which representative is drawn at random is given by an `Env`. A
-- command is a step on a `Session`, the client with the world, and what it finds outside is an
-- `Outside`; the updates of the work cache before and after it have their own in `Moments`. What
-- `WalletFrontend::authenticate` answers is an argument of the command `seed`. A map from hashes is a
-- list of its entries. A cipher, the files and what the user enters are the records `Cipher`, `Files`
-- and `Entry`; what the development relies on in them is `CipherLaws` and `FilesLaws`, and in
-- nanopyrs' payments `PaymentLaws`. A `[u8; 32]` is the number that its bytes spell.
--
-- Bounds: `u128` is the range below `u128_mod`. A `u128` has 39 decimal digits at most, which is the
-- fuel of `show_u128`, the text that the standard library gives a number. The retries of a command run
-- on the configuration's own limit.
--
-- In the payments a node's answer is one step, with the retries of the node manager inside it; Manager
-- models these by themselves, with the shuffle, the clock and the answers of the nodes as parameters.
--
-- Not modelled: what the commands print, but for the lines of `balance`; the parser of command lines;
-- the table of default nodes and representatives; the prompts of the terminal, the log, and the timer
-- between two saves; the erasure of secrets from memory, serialisation, and the insides of nanopyrs
-- and of the node's protocol.
pub mod Base
pub mod Nano
pub mod Error
pub mod Rpc
pub mod Config
pub mod Frontiers
pub mod Wallet
pub mod App
pub mod Client
pub mod Amount
pub mod Tests
