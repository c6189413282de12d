-- ===== src/Lib.antt =====
-- DOTS is a publish and subscribe middleware: guests publish values of described types through a host, and
-- keep mirrors of the cached types. This library models the parts of the Rust implementation that carry its
-- own logic, and proves what makes them correct.
--
-- The parts, and how they interact. A type is described by a descriptor whose properties have tags 1 to 31;
-- a property set is a 32-bit word with a bit for each tag. A value stores its properties under their tags,
-- with the set of the tags that are stored. An update overlays the properties of its mask on the value that
-- is stored already. A filter is built by a program as a predicate over tags, travels as a vector of nodes
-- in pre-order, is compiled against the descriptor of its type, and is evaluated on values. Values travel in
-- frames of a size prefix, a header and a payload, and are applied to a container, which keeps the current
-- value of each key, and tells subscribers what became of it. The host keeps the groups of the subscribed
-- guests and a pool of the cached values, fans every publish out to the writers of the guests, whose queues a
-- task drains into the sockets, and replays the pool to a guest that joins. The types themselves are written in
-- `.dots` files, which a parser reads at build time.
--
-- Files:
-- - Prelude and its children: shared names, Boolean tests, lists over native numbers, bit operations, integers.
-- - PropertySet, PropertySet/*: crates/dots-rs-core/src/property_set.rs. `union`, `intersection`, `difference`
--   and `symmetric_difference` are the operators `|`, `&`, `-` and `^`; a set is its word.
-- - Dynamic/Flags: `StructFlags` of crates/dots-rs-core/src/descriptor.rs.
-- - Dynamic/Kind, Dynamic/Value: the descriptors and the values of crates/dots-rs-core/src/dynamic.rs. A
--   nested struct or vector is a list type of its own; a float is its bit pattern.
-- - Dynamic/Copy, Dynamic/Copy/*: `copy_from`, `copy_take`, `assign_from`, `assign_take` and `copy_impl` of the
--   same file. The closure that `copy_impl` takes is a function on the state of the source, which is passed
--   through the loop.
-- - Filter/Wire, Filter/Build: crates/dots-rs-model/src/filter.rs, wire types and builder.
-- - Filter/Floats, Filter/Narrow, Filter/Compile, Filter/Eval: crates/dots-rs-transport/src/filter.rs. The
--   cursor of both recursions is the list of the nodes that are still to come, and they take fuel; the number
--   of nodes is enough, since each call passes a node.
-- - Filter/Tree, Filter/Tree/*: the trees that the node vectors stand for, which are the specification of the
--   compiler, the evaluator and the builder.
-- - Framing, Framing/*: crates/dots-rs-model/src/framing.rs (`patch_size_prefix`, `encode_frame_with_header`,
--   `parse_size_prefix`, `RawTransmission::decode` as `decode_raw`) and `RawTransmissionCodec::decode` of
--   crates/dots-rs-transport/src/codec.rs as `decode_next`, which returns what is left in the buffer.
-- - Container, Container/*: `DynContainer` of crates/dots-rs-transport/src/container.rs, with the payloads of
--   crates/dots-rs-model/src/framing.rs and the header of crates/dots-rs-model/src/connection.rs. The map from
--   key bytes to entries (Container/Map) is a list in the order of the keys; an operation runs under the lock
--   from start to end, and is a function on the state. Logging has no counterpart, and the debug assertions are
--   taken as in a release build.
-- - Host/Writer, Host/Drainer and their children: `GuestWriter`, `drain_vectored` and `writer_loop` of
--   crates/dots-rs-transport/src/host.rs, with the `stats` feature. The drainer is a machine that producers
--   feed in any order; the socket answers as a list says; each list is finite and needs no fuel.
-- - Host/Types, Host/Groups, Host/Publish, Host/Replay, Host/Removal, Host/Descriptors, Host/Messages: the
--   state `HostInner` and the operations of `HostTransceiver`, with the handlers of the messages, in the same
--   file. A function is taken as if it ran alone; a `SharedWriter` is an address in the
--   state, so that the groups and the guests share one queue. Hash maps are lists without a key twice
--   (Prelude/Assoc), in an order that the code leaves open. `handle_filtered_join` is
--   `filtered_snapshot` and `filtered_insert`, its two critical sections. The search of
--   `sort_descriptors_by_dependency` takes fuel; the number of the descriptors is enough, since each
--   level visits a name for the first time.
-- - Host/Session: `run_guest`, a read at a time. Host/Run: the broker as a machine whose
--   steps are the operations and their critical sections, in any order.
-- - Host/Registered, Host/Pooled, Host/FanOut, Host/View, Host/Departed: proofs on groups, pool and fan-out.
-- - Parser, Parser/*: crates/dots-rs-build/src/parser.rs and ast.rs with the tokens of lexer.rs. The state of a
--   method is the list of the tokens that are left. The loops and the types in types take fuel, one more than
--   the tokens that are left, which is enough since every round takes a token. Parser/Written is the grammar as
--   a printer with a style.
--
-- Numbers are the native ones; a machine word has its wrap-around written out, also where a debug build
-- panics. Lengths in memory are taken to fit in `usize`.
--
-- Parameters: floating-point operations (`Floats`); typed values in raw memory, their CBOR codec and pointer
-- identity (`Values`), of which `ValuesLaws` says what the containers rely on; and the CBOR codec of a header (`HeaderCodec`), of which
-- the theorems on frames ask that it reads back what it writes; the typed values, codecs and registry builders
-- that the host calls (`Env`); the lower-case form of a text; `Arc::ptr_eq`.
--
-- Not modelled: sockets and listening, the guest's side of the connection, the registry, the layout of typed values in memory, CBOR,
-- the text forms, the lexer and the code generator of crates/dots-rs-build, and everything that only does input and output.
pub mod Prelude
pub mod PropertySet
pub mod Dynamic
pub mod Filter
pub mod Framing
pub mod Container
pub mod Host
pub mod Parser
