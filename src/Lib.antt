-- ===== src/Lib.antt =====
-- The core of the oneM2M / DDS interworking proxy (src/ipe), modelled and verified.
--
-- The proxy joins a ROS 2 graph over DDS and mirrors it in a oneM2M CSE. Observed messages go
-- through the outbound queue to the CSE, and to a spool while the CSE is away. Notifications from
-- the CSE are routed, admitted once in the state store, queued and then dispatched to ROS. Calls of
-- services and actions are transactions of the store. Each endpoint's quality of service is
-- reconciled with what its peers offer or request.
--
-- Files and what they model:
--   Prelude    shared names and helpers: tests, lists, dictionaries in insertion order (`dict` and
--              `OrderedDict`), sets, results that may be exceptions, `str.upper`
--   Vocab      src/ipe/core/vocab.py, the vocabularies as data types; `unlisted` is any other string
--   Core       src/ipe/core/common.py: nested dictionaries, their paths and their merge
--   Queues     src/ipe/runtime/queues.py: Inbound, Provisioning and Outbound, with the keys of
--              operations in Outbound/Ops
--   State      src/ipe/runtime/state.py: Admission (table `processed`), Transactions, Spool and
--              KeyValue (table `kv`); Managers is src/ipe/core/transaction.py, a client of the transactions
--   Dispatch   src/ipe/runtime: Routes (dispatcher.py), Lifecycle (lifecycle.py) and Discovery
--              (discovery.py)
--   Qos        src/ipe/qos: Profile (models.py), Shared (_shared.py), Policies (one file for each
--              policy module), Engine (engine.py), Mappings (history.py, lifespan.py and
--              `topic_mapping`), Requests (requests.py), Registry (registry.py)
--   Onem2m     src/ipe/onem2m: CatchUp (catchup.py), which reads the containers again and hands over
--              what was missed, and Client (client.py, and of resource_ops.py what makes of an
--              answer a success), which says what may be done about a failure
--   Outbound   src/ipe/runtime/outbound.py: the events and what they put, Delivery (sending with
--              retries, the replay of the spool, a worker's round) and Codec (what the spool
--              stores); it works on the queue of Queues and on the spool of State
--   Inbound    src/ipe/runtime/inbound.py: admission, which also serves the sweeper; Service (the
--              requests of services and the cancelling of goals) and Dispatch (the drain of the
--              queue). It works on the queue of Queues, the routes of Dispatch, the tables of State
--              and the events of Outbound
--   Examples   the theorems applied to small concrete inputs
--
-- State and operations: a class is a record of its fields, a table is the list of its rows in the
-- order of their keys' arrival, and a method is a function from the state to the new state and the
-- answer. A method that raises returns `err`. A lock or a database transaction makes a method one
-- step, so that threads interleave as sequences of calls (Queues/Outbound/Serial, and the lists of
-- events or calls in the State and Dispatch modules). A wait on a condition is the list of the
-- wake-ups that the caller sees, and polling is the list of what the polls see.
--
-- Numbers: times are natural numbers of milliseconds, where the source has floating-point seconds;
-- a duration that may be negative by mistake is an integer that the code then rejects. Durations of
-- DDS are nanoseconds, with the sentinel 2^63 - 1 for infinity. Letters and digits are ASCII.
--
-- Fuel: the spool's outer trimming loop has as many rounds as there are rows. A round drops a row at
-- least, and the theorem on it compares the result with a rule without fuel. The loop of
-- `persist_pending` has a round for each waiting operation, which its theorem shows to be enough.
--
-- What is not in the repository: rclpy's endpoint profiles are the record `Endpoint` of what the
-- code reads from them, Python's `str` of an integer is an argument of the definitions that use it,
-- and JSON values that the code does not look into are given by their text or are of any type. The
-- admission function of the sweeper is any function that leaves the recovery markers alone. What
-- the environment does at each attempt to send (the answer, the time, the stop flag) is an argument,
-- and so are `json.dumps`, `json.loads` and `float`. So is what the adapter answers to a call, and the
-- identifier that a value of a payload is read as.
--
-- Not modelled: the SQL connections and dialects, threads and clocks
-- themselves, the message texts of errors and logs, the HTTP and MQTT clients, the adapter to ROS 2,
-- the planning and provisioning of resources, the payload pipeline and its filters, and commands. Of
-- the inbound processor: goals, decisions and changes of QoS, whose handlers are arguments of the
-- dispatch.
pub mod Core
pub mod Dispatch
pub mod Examples
pub mod Inbound
pub mod Onem2m
pub mod Outbound
pub mod Prelude
pub mod Qos
pub mod Queues
pub mod State
pub mod Vocab
