-- ===== src/Lib.antt =====
-- Psyche trains a model over the Internet: clients that need not trust one another join a run, train
-- on shares of its data, and watch each other. The run's state is a `Coordinator`, which a server or
-- an on-chain program keeps and which every participant can compute for itself. This library models
-- the coordinator, what it is built on, the centralized server and the on-chain program around it,
-- and the programs beside those: the authorizer, the treasurer and the mining pool.
--
-- Parts and files:
--   * Base: lists and tests over the native numbers, and `Method`, the monad of a Rust method on
--     `&mut self`: it returns a result with the new state, fails with an error and the state as it
--     was left, or panics. Machine words are numbers below a power of two: an addition or a product
--     that leaves its word panics (`checked`), since the on-chain programs are built with overflow
--     checks, as are all debug builds (a release build of the centralized server would wrap), and a
--     cast is written out (`% u16_mod`). Base/Keeps has the rules for what a method keeps of its
--     state, whether it returns or fails; Base/Keys maps with keys, and Base/Int the signed
--     timestamps.
--   * Core: shared/core/src. FixedVec is the array with its length, and its laws refine it to a
--     list, FixedVec/Runs over any sequence of operations; Bloom the filter; SwapOrNot the shuffle
--     of an index (`compute_shuffled_index`); Shuffle the generator of lcg.rs and
--     `deterministic_shuffle`, in which a swap out of range is a panic; Strings fixed_string.rs, over
--     Utf8, which is `String::from_utf8_lossy` of the standard library; Merkle merkle_tree.rs, with
--     Merkle/Levels on how a tree is laid out, Merkle/Paths on its proofs, and Merkle/Owned on their
--     owned copies; Hashing sha256.rs.
--   * Coordinator: shared/coordinator/src. Model is model.rs; Types the state of coordinator.rs;
--     Config its checks and batch sizes; Rounds the ring of four rounds and the reads; Lifecycle the
--     changes of state, the clients that leave, pause and resume; Tick `tick` and its five helpers;
--     Messages what clients send; Quorum the quorum and the consensus; Committees
--     committee_selection.rs; DataSelection data_selection.rs. Invariant says what holds between two
--     calls (`IsValid`) and when the counters have room (`Fits`). Tick/Edges is the diagram of the
--     run states as a relation. Members says whom the operations may bring in: no one but the
--     clients that are pending when an epoch begins.
--   * Server: architectures/centralized/server/src/app.rs, the server that owns a coordinator: its
--     handlers for messages, disconnections, ticks and the operator's pause, and the loop over them
--     (`run`). Server/Insiders and Server/History say whom it lets in, Server/Restores and
--     Server/Warmups when the warmup time of the first warmup is taken back, Server/Broadcasts what
--     it sends.
--   * Solana: architectures/decentralized/solana-coordinator/programs/solana-coordinator/src.
--     ClientsState is client.rs and clients_state.rs; Instance the state of instance_state.rs, its
--     errors and the rewards; Methods its methods, of which each calls the coordinator and then
--     ticks it. Chain is the accounts of lib.rs and their constraints, and Program its instructions
--     with the processors of logic; Program/Effects and Program/Access say who may change what, and
--     Program/Owners which account belongs to which instance. Authorizer is the program of
--     solana-authorizer, which says who may join: Grants is where a valid grant comes from, Closing
--     when it may be closed. Treasurer is the program of solana-treasurer, and Treasurer/Books the
--     balance of its accounts.
--   * Mining: architectures/decentralized/solana-mining-pool/programs/solana-mining-pool/src. A pool
--     has one token account for each mint, so that its collateral and its redeemable account are one
--     if its authority opens the claims for the collateral mint. Books is the balance of a pool's
--     accounts, Claims that what is left can be claimed, and Fairness what each lender can claim at
--     most.
--
-- How they interact: in a centralized run a message reaches `on_client_message`, which calls the
-- coordinator's method; the server ticks the coordinator on a timer, with the clients that are
-- pending, and sends it to all. In a run on the chain a message is an instruction, which looks up
-- the accounts and calls an `Instance` method; that looks the sender up, calls the coordinator's
-- method (`in_coordinator`), and ticks. A client joins such a run with an authorization of the
-- authorizer. A tick that ends an epoch pays the clients, who claim what they earned from the
-- treasurer. The coordinator draws committees from the round's seed and checks a witness against
-- them.
--
-- Parameters, for code that is not of the repository: SHA-256 and the keyed hash of the bloom filter
-- (Core/Hashing), of which nothing is assumed but, for one theorem, that a digest has 32 bytes
-- (`Digests`), so that the theorems on the tree of hashes name the collision that would be their
-- exception; the token program's transfer (Solana/Treasurer, `Token`), which the mining pool
-- uses too, assumed to move the amount that it is asked to when it does not refuse (`Moves`), and,
-- for one theorem on the mining pool, not to refuse what the accounts have (`Pays`); the operations
-- on doubles (Coordinator/Config, `Float64`), of which theorems assume only that a cast to `u16`
-- yields one; the equality and the bytes of a node's identity; the derivation of addresses
-- (Solana/Authorizer, `Derivation`, and Solana/Chain, `Platform`, which also has the sizes of
-- accounts). The quorum's product with 2/3 is written as the floor that it is at every 16-bit
-- number.
--
-- Modelled by what they stand for: a `FixedVec` in the coordinator is the list of its items and its
-- capacity is checked where something is pushed; a `SmallBoolean` is a Boolean; a hash set of
-- pending clients is a list that is searched by equality, and a tick of the server is given the
-- places of its clients in the order in which the set lists them; the times and the random numbers
-- that a handler draws are its arguments; a `BTreeMap` of batches is the list of its entries in the
-- order of their keys. Loops are recursion on their lists or on the number of their turns; the loops
-- over the levels of a tree of hashes have fuel, one turn more than there are leaves, which is shown
-- to be enough.
--
-- Not modelled: the learning-rate schedule and its cold-start bounds, printing, serialization, the
-- sizing of a bloom filter; the decoding of an account of the on-chain coordinator from its bytes;
-- the addresses of the treasurer and its `run_update`; the start of the centralized server
-- (`App::new`, which reads files, downloads and opens sockets) and its terminal; the client, the
-- network, the data providers and the tensor code, which are mostly input, output and floating
-- point.
pub mod Base
pub mod Coordinator
pub mod Core
pub mod Mining
pub mod Server
pub mod Solana
