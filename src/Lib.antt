-- ===== src/Lib.antt =====
-- HopWatch collects what gateways of a Meshtastic radio network hear, shows it live, and can
-- transmit messages of its own. This library models the parts that decide: how the byte stream of
-- a station node is cut into frames, how a reception is classified, which channel key opens a
-- packet, what is stored of it, which deliveries are duplicates, how the outbox is drained by the
-- transmit worker, who may do what, how deliveries are batched into the database, how the station
-- node is shared between processes and which nodes it forgets, which lines the live map may draw,
-- when alerts open and close, and how live events reach the subscribers.
--
-- Which file models what:
--
-- * Meshtastic/Frame models src/node/frame.ts: frame, and parseFrames with its loop on fuel, the
--   length of the buffer, which is enough since every round consumes a byte
--   (Meshtastic/Frame/Ends).
-- * Meshtastic/Classify models src/meshtastic/classify.ts and, in facts_of, the presence rules of
--   buildPacketFields in src/meshtastic/decode.ts.
-- * Meshtastic/Crypto models src/meshtastic/crypto.ts, and Meshtastic/Decrypt tryDecrypt and
--   attachPayload of src/meshtastic/decode.ts with the port table of src/meshtastic/portnum.ts.
--   The cipher of node:crypto and the protobuf decoder of a Data message are parameters; a round
--   trip assumes of the cipher that it is symmetric, as counter mode is.
-- * Ingest/Batch models src/ingest/batch.ts: the queue between deliveries and flushes, and what a
--   flush stores, with the number of items as fuel for the chunks.
-- * Ingest/Pipeline models src/ingest/pipeline.ts: Envelope the normalized shapes of
--   src/meshtastic/types.ts, Arrival the head of applyEnvelope, Packets and Receptions its
--   statements on these two tables, Nodes, Identity, Links, Decoded and Traced (with
--   recordTraceroute of src/db/topology.ts) what it writes to the others, Steps its steps and
--   Apply the whole and the chunk of a batch. The wall clock is read once for a delivery. A table
--   is the list of its rows; a failing statement is a transaction that does not commit. What the
--   driver reports for an upsert that changes nothing is a parameter.
-- * Ingest/Connector models src/ingest/nodeConnector.ts: the connector as a state machine on its
--   sockets and its timers, the watchdog included.
-- * Ingest/Dedup models src/ingest/dedup.ts: DedupCache over the list of its entries in insertion
--   order.
-- * Tx/State models src/lib/txstate.ts, Tx/Outbox the statements of src/db/tx.ts on the list of
--   outbox rows, and Tx/Worker the tick runTxOutbox of src/worker/tx.ts: Worker/Shapes is the
--   data of its loop, Worker/Row its body, Worker itself the gates, the reconciliation of
--   confirmations and the loop.
-- * Auth/Rbac models src/auth/rbac.ts and src/auth/guard.ts, Auth/Ratelimit
--   src/auth/ratelimit.ts.
-- * Node/Lease models src/db/nodelease.ts, Node/Prune src/lib/nodedb.ts, and Alerts the function
--   reconcile of src/worker/alerts.ts.
-- * Live/Hub models src/lib/livehub.ts with the tail query of src/db/queries.ts, and Live/Map
--   src/lib/livemap.ts.
-- * Stats models src/lib/uptime.ts (summarizeDeviceUptime), src/lib/topology.ts (pathEdges) and,
--   of src/lib/time.ts, the deduplication window, and src/lib/presence.ts.
-- * Prelude holds the shared tests on numbers, lists and integers.
--
-- Numbers are natural numbers; a difference that may be negative in the source is written with
-- integers or with a difference that stops at 0 where both sides of the test agree. Times are
-- milliseconds and every clock reading is an argument. What the code reads from elsewhere is a
-- parameter: the encoder of packets, which may fail; the database's answers on roles and tokens;
-- the clock; and, between two rows of a tick, the writes of other processes to the outbox, about
-- which the theorems assume only that they keep ids distinct and do not put a settled row back
-- into the queue.
--
-- Not modelled: SQL beyond those statements, MQTT and sockets, protobuf, what is read out of a
-- packet's payload, the web pages and routes, the worker's other jobs, logging, the events that a
-- state change emits, and the lengths to which the lease cuts its holder and reason. Texts are
-- compared exactly, whatever collation the database compares them by.
pub mod Prelude
pub mod Meshtastic
pub mod Ingest
pub mod Tx
pub mod Auth
pub mod Live
pub mod Node
pub mod Stats
pub mod Alerts
