-- ===== src/Lib.antt =====
-- LapseCoin: the consensus core of a proof-of-time cryptocurrency node.
--
-- A node keeps a chain of blocks, the ledger that the chain implies, and a pool of pending
-- transactions. A transaction that arrives is validated against the ledger with the sender's
-- pending transactions applied, and pooled. A builder runs a verifiable delay function over the
-- chain's tip and its own address, and puts transactions into a block. A block that arrives is
-- validated against the chain and the ledger, applied, and its builder is paid the fees and the
-- reward. Between two chains the one with more proven work wins, then the lower VDF output.
--
-- Which file is about which code:
--   Params       src/params.py, the constants, in lower case
--   Wire         the dicts of transactions (src/tx.py `create`) and of blocks (src/block.py `create`)
--   Env          what the code calls and does not implement
--   Crypto       src/crypto.py: addresses, hashes and signatures
--   State        src/state.py: `State` with `credit`, `debit`, `apply_tx` and the emission
--   Tx           src/tx.py: hash, sizes and `validate`, a check per `_check_` function
--   Vdf          src/vdf.py `verify`, here `vdf_verify`
--   Block        src/block.py: hash, fees, `get_vdf_iterations` and `validate`
--   ChainState   src/chainstate.py: replay, `validate_and_apply`, `apply_block`, `is_better_than`
--   Mempool      src/mempool.py: `add` with eviction, `remove`, `prune_stale`, `probe_state_for`
--   PeerPool     src/peerpool.py: the peers with their strikes, cooldowns and subnets
--   Storage      src/storage.py: the tables, as lists of rows, and all that is written and read
--   Gossip       src/gossip.py: the stem and the flood of transactions
--   Node         src/node.py: `_evaluate_remote_chain`, `_validate_tail` and `_pick_winner`; the
--                node's state and its handlers in Machine, `_load_cs` in Startup
--   Syncer       src/syncer.py `_find_fork_point` and `_fetch_chain`, over what the network answers;
--                `check_and_sync` in Round
--   Udp          src/peer_udp.py: packets, reassembly, sending in chunks, the rate limit, the served
--                chain (with main.py's `_chain_provider`) and the handlers of what arrives
--   UpdateCheck  src/update_check.py: the comparison of versions
--   Rewarder     src/uptime_rewarder.py: the budget and the payout cycle
--   Prelude      Boolean tests, integers, texts, lists and results; Dict: a dict with `str` keys;
--                Table: a dict, or a database table, with keys of any type
--   Tests        runs of the program in a small environment
-- A function keeps its name; a leading underscore is dropped, `_check_nonce` is `check_nonce`, and
-- a loop or a `try` of a longer function is a helper beside it. A child module holds the proofs
-- about its parent.
--
-- How the code is read:
--   - A call returns a value, the error text of a `(False, error)` pair, or an exception: `ok`,
--     `reject` and `raise` of `Result`. An error text is a constructor of `Reason`. A method that
--     raises leaves its state half written; every caller drops that state, and so does the model.
--   - A dict that came from a peer may lack a field or hold a value of another type in it: a field
--     is `absent`, `other` or `given`. The fields `height`, `previous_hash` and `hash` of a block
--     are always there and of their types; keys that the code does not name are `extra`. A builder
--     that is neither a string nor missing reads as one that is not paid, since `validate` refuses
--     it above height 0. A `vdf_output` that is neither a text nor missing reads as one that counts
--     as false, like None; one that counts as true, which only a block of height 0 can have, would be
--     the key itself, and comparing it with a text raises a TypeError. The transactions of a block are
--     what iterating over them yields, so that an empty dict or text has none.
--   - Integers are unbounded, as in Python. A text is the list of its code points.
--   - A timestamp is an integer number of units of 2^-22 seconds, or a NaN, which no order holds of;
--     a float near the present is such a number. The clock is an argument: `now`, or a
--     `clock` with a time for each block that is validated.
--   - `int(n * 1.02)` is `n * 102 / 100`, rounded down, as it is for the counts below 2^46.
--   - Third-party code is the record `Env` of functions without laws: SHA-256, hex, orjson's bytes
--     of a transaction, of a block's body and of a block, liboqs's verification, chiavdf's
--     discriminant and verification, `statistics.median`, the word list, and the order of two
--     fee rates, which the code compares as floats. orjson is taken as total.
--   - `sorted` is a stable insertion sort.
--   - The pool holds transactions that were validated, so their fees and nonces are integers.
--   - The peer pool's lock makes its methods run one after the other; Python's `ipaddress` is the
--     record `IpLib` of functions. What the pool shows of a peer for a key that is not set is what
--     `Info` holds for it.
--   - A transaction of the database that raises leaves it as it was. Numbers in a row are not cut to
--     64 bits. What an `insert_many` of no rows does is a parameter, as json is.
--   - A handler of the node returns its state with the outcome, so that what an exception leaves is
--     there. What is sent is a log; what chance chooses is an argument.
--   - Tokens of the rate limit are counted in 2^-22 parts, so that their refill is exact.
--   - The handlers of the transport return what they send and call as a list. Decoding a payload is a
--     parameter.
--   - A request to a peer is the n-th request of the node, and the network is what it answers to it.
--   - Recursion is structural, but for a few loops on a count. A retransmission
--     has four rounds, as in the code. The search of the fork point has
--     the length of the local chain as its fuel, which is enough since every round makes the interval
--     smaller; the fetch has the length of the peer's chain, of which every round brings one block or
--     more.
--
-- A block of height 0 skips some checks of `validate` on every chain, not only on the empty one. A
-- chain that grew by accepted blocks (`Reached` in ChainState/Replay) is one whose later blocks have
-- another height.
--
-- Not modelled: signing, key files and key generation in src/crypto.py; `evaluate` in src/vdf.py; the
-- node's cycle around the VDF and its queue in src/node.py; sockets, threads and the requests that
-- wait for an answer in src/peer_udp.py; the state file and the thread of src/uptime_rewarder.py;
-- the fetch of src/update_check.py; the discovery of peers (src/discovery.py, src/discovery_dht.py),
-- the web API and the windows (src/api.py, src/gui.py), and the rest of main.py, which are input and
-- output.
pub mod Prelude
pub mod Dict
pub mod Table
pub mod Params
pub mod Wire
pub mod Env
pub mod Crypto
pub mod State
pub mod Tx
pub mod UpdateCheck
pub mod Vdf
pub mod Block
pub mod ChainState
pub mod Mempool
pub mod PeerPool
pub mod Storage
pub mod Gossip
pub mod Node
pub mod Syncer
pub mod Udp
pub mod Rewarder
mod Tests
