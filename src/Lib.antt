-- ===== src/Lib.antt =====
-- Kemi is a peer-to-peer network whose nodes trade computing work for credits. This library models
-- the parts of the Python package kemi/ that decide who owns what, who is paid, whom to trust and
-- which result is right.
--
-- How the parts interact. A node (kemi/node.py) keeps a replica of the ledger
-- (kemi/gossip_ledger.py) and a private reputation store (kemi/reputation.py). A consumer
-- (kemi/consumer.py) signs a transfer for each chunk of a job and sends it with the work; the
-- provider's node checks the payment, asks the witnesses of the sender, does the work, and adds the
-- transfer to its replica. Replicas pull and push each other's envelopes, and a prune folds old
-- transfers into a baseline. kemi/ratelimit.py guards a node's sockets; kemi/sharded.py splits a
-- model's layers over providers.
--
-- Which file models what:
--   Json         the values of Python's json module. A float is a whole number of billionths
--   Crypto       kemi/crypto.py (digest, sign_envelope, open_envelope) and kemi/identity.py
--                (verify_node_id); Crypto/Hex is bytes.fromhex, hex and to_bytes, Crypto/Octets byte
--                strings with the low byte first; Crypto/Ed25519 is the pure-Python Ed25519
--   E2e          kemi/e2e.py, its pure-Python path: E2e/Curve is X25519 and derive_box_key, E2e/Salsa
--                the Salsa20 stream, E2e/Poly the tag, E2e/Box the secret box, seal and open_sealed
--   Ledger       GossipLedger: the tables as lists (Ledger), next_seq, reserve_seq, make_tx, add_tx.
--                add_tx is judge (all that happens before the table txs is read) and store.
--                Ledger/Queries has the queries, Ledger/Checkpoint snapshot, adopt_snapshot and
--                prune, Ledger/Replication txs_after
--   Node         PeerNode: Node/Payment has _validate_payment and _on_task_execute, Node/Witness
--                _on_tx_witness, Node/Committee _witness_check, Node/Pushed _on_ledger_push,
--                Node/Cache the result cache of _execute_chunk, Node/Pull _pull_from, sync_ledger and
--                the answer to ledger.pull, Node/Relay _RelaySession and _serve_relay_session,
--                Node/Streaming _stream_task;
--                Ledger/Gossip has the inner loop of _pull_from (receive)
--   Reputation   ReputationStore
--   RateLimit    TokenBucket and IPGuard
--   Scheduler    _ChunkState and _Scheduler of kemi/consumer.py
--   Sharded      plan_shards
--   Consumer     Consumer of kemi/consumer.py: Consumer/Direct has execute_on, Consumer/Stream
--                stream_generate, Consumer/Job run_job with its workers, Consumer/Providers
--                list_providers and run_pipeline, Consumer/Hiring and Consumer/Replies what they share
--   Dht          kemi/dht.py: Dht/Contacts the contacts and their ranking by distance, Dht/Routing the
--                k-buckets, Dht/Lookup the iterative lookup, Dht/Storage the stored records
--                (_handle_store, _expire and find_value), Dht/Exchange get and put
--   Discovery    kemi/discovery.py: make_provider_record, and find_providers on the envelopes of dht.get
--   Protocol     kemi/protocol.py: send_message, read_message and the loop of stream_request, on bytes
--   Tasks        kemi/tasks.py: run_task, hash.sha256, data.aggregate, ai.generate and ai.embed
--   Economy      simulate of kemi/economy.py, over the pairs that are drawn
--   Result       a call that may raise; an exception leaves through the whole handler
--   Fixtures     a toy instance of the primitives and the transfers that the tests use
-- The files below a part hold its proofs, by what they prove.
--
-- Representation. Amounts and balances are whole numbers of millionths of a credit, which _round
-- makes them, and sums of them are exact; amounts and times of a payload are whole numbers of
-- billionths. A digest is a 256-bit number, whose order is the order of its hex text. A SQLite table
-- is the list of its rows by rowid; a dictionary is a list of pairs in insertion order; integers
-- stay within 64 bits where sqlite3 binds them, and what it refuses is an exception. Reputation
-- marks are exact fractions over one scale, which decay multiplies. Time in the guards is counted
-- in ticks.
--
-- Parameters. SHA-256, the canonical JSON encoding and Ed25519 are a record (Crypto.Primitives),
-- with the laws that a digest is below 2^256 and that a signature verifies under its key; SHA-512 is
-- another (Ed25519.Sha512). The fingerprint of a result list, Python's str of what is no text, its
-- int, float and json.loads, and in _on_task_execute the waits for witnesses and work, are functions
-- of any kind; so are json.dumps and json.loads on the wire. So is the network: what it answers to the
-- request of an id in a lookup or a get, to the message of a chunk, and the frames that a stream
-- yields.
--
-- Loops are structural recursion over the rows, envelopes, calls, frames or bits. bit_length runs on
-- fuel, 256 steps for a number below 2^256 and d steps for a distance d; pow_mod and add_multiples
-- take the number of binary digits of the exponent, 255 and 256; pulls takes the number of rounds. A
-- lookup runs on fuel, one more than the number of ids that can be named; split_items on the number
-- of items, as each chunk takes one at least; responses on the number of messages, none of which is
-- shorter than four bytes.
--
-- Not modelled: non-finite floats, sockets, timers and random choices of peers, malformed prices of
-- provider records, the training of the ranking, the relays' side of relayed requests, the other
-- tasks (they split text by Unicode, or call random, numpy, gzip, PBKDF2 or ffmpeg, or compute with
-- floating point), and the programs around them (web pages, command line, gateways, voice).
pub mod Consumer
pub mod Crypto
pub mod Dht
pub mod Discovery
pub mod E2e
pub mod Economy
pub mod Fixtures
pub mod Json
pub mod Ledger
pub mod Node
pub mod Prelude
pub mod Protocol
pub mod RateLimit
pub mod Reputation
pub mod Result
pub mod Scheduler
pub mod Sharded
pub mod Tasks
