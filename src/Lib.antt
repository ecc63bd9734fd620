-- ===== src/Lib.antt =====
-- BerylDB, a key-value server: the containers behind its keys, their stored text, its timers, and the
-- queries that look keys up and change them.
--
-- A value of BerylDB is stored as text. A list, vector, map or multimap is read from its text by
-- `Create`, changed by one of its methods, and written again by `as_string`. Every key and value is
-- written in binary digits, each element with ':' behind it, and a pair with '/' between its parts;
-- `Create` cuts the text with a node stream. A command is a query object: `Prepare` looks its key up
-- under each type of the registry, compares the type, and calls `Run`, which loads the container,
-- changes it and writes it to the place of the key, or deletes the key where nothing is left. Beside
-- the store, the expire manager and the future manager hold the keys that are to be deleted or set at
-- a time; the main loop flushes them, which pushes queries for the store.
--
-- Codec, Convert (include/converter.h): `to_bin`, `to_string`, `is_number`, and numbers to text and
--   back. A byte is a number below 256 and a string the list of its bytes. The loop of `to_string` runs
--   on the length of the text as fuel, the one of `conv_numeric` on the number.
-- Nodes (include/nodes.h, src/nodes.cpp): `engine::node_stream`; npos is `none`. A loop over a stream
--   runs on the length of the text and two as fuel, since each round moves the position on.
-- Match (src/daemon.cpp): `MatchInternal`, `Daemon::Match`, with the case map of src/nodes.cpp. The fuel of
--   the second loop is at least the number of its positions in the mask, the text and the text to go back to.
-- Validators (src/daemon.cpp): which logins, keys, agents and databases have a valid name.
-- Stl: what the standard library promises of the sequences and of the ordered maps in use.
-- Handler: what the handlers share: the messages, the loops, and the stored text.
-- ListHandler, VectorHandler, MapHandler, MultiMapHandler (src/brldb/list_handler.cpp and so on, with
--   the methods of include/brldb that are written in the class): one function per method, on a record of
--   the elements and the last message. `double` is a parameter with the laws of its order.
-- Expires (src/brldb/expires.cpp) and Futures (src/brldb/futures.cpp): one function per method of the
--   managers, on a record of the multimap, the mutex and the queries pushed so far. The clock and the
--   database of a name are arguments, and a database is compared as a pointer is, by a number.
-- Rocks: RocksDB, a parameter: a record of get, put, delete, an iterator and a batch, with the laws that a
--   put, delete or batch which succeeds is read back and changes no other key. Each of the three may fail; the
--   status of a delete is not looked at. Rocks.Memory is a store that has the laws, and others that fail.
-- Query (src/brldb/query.cpp, include/brldb/query.h): the fields of a query, the methods of `QueryBase` on
--   a world of databases and managers, `Prepare` with one function for each case of its switch, the
--   classes of queries with the types that their constructors set, and the loop that makes pages. `Run`
--   is a parameter of `Prepare`; what is loaded once is the field `mapped`.
-- Lists, Vectors, Maps, Multis, Keys (src/brldb/lists.cpp and so on): `Run` of each query as a function from the
--   query and the world to both; Keys.Scan has the loops over an iterator. Lists.Spec says what each
--   command that writes or deletes makes of the list of its key.
-- Routed (src/brldb/*_hints.cpp, src/brldb/diff.cpp, src/brldb/etc.cpp): the queries on a key of any type,
--   those on timers and futures in Routed.Timers, and the comparison of two values in Routed.Diff.
-- Flusher (src/brldb/dbflush.cpp, `Push` of src/brldb/database.cpp): the queues between the users and the threads.
--   What the main loop does at once is a step, and so is a thread that takes a query, or runs it and gives the
--   result back; `Prepare` is a parameter there. The steps are taken in any order.
-- Durations (src/daemon.cpp), Base64 (src/strings.cpp): durations and texts, both ways.
-- Operations (src/brldb/operation.cpp): the queries that flush a select, and count or name keys.
-- Machine: unsigned counters of 32 bits, and the faults of operations that C++ leaves undefined, which
--   a function returns in place of a result. A deadlock of a mutex is such a fault.
-- Prelude: the names that the modules share.
--
-- Not modelled: `Process`, which replies on a socket; geo, and the few of the modelled files that their headers
-- name; the end of the threads, and what other threads do inside a step (a method runs alone between the lock and
-- the unlock of its mutex, an iterator is not interrupted); negative times, the commands' arguments, the network
-- and the configuration.
pub mod Prelude
pub mod Base64
pub mod Codec
pub mod Nodes
pub mod Machine
pub mod Stl
pub mod Match
pub mod Handler
pub mod ListHandler
pub mod VectorHandler
pub mod MapHandler
pub mod MultiMapHandler
pub mod Durations
pub mod Flusher
pub mod Expires
pub mod Futures
pub mod Validators
pub mod Rocks
pub mod Routed
pub mod Convert
pub mod Query
pub mod Lists
pub mod Vectors
pub mod Maps
pub mod Multis
pub mod Operations
pub mod Keys
