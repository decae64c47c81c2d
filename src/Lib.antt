-- ===== src/Lib.antt =====
-- ORBit2, a CORBA 2.4 object request broker in C: its wire protocol (GIOP) and its object adapters.
--
-- The parts and how they meet. A connection (src/orb/GIOP/giop-connection.c) brings bytes, and
-- `giop_connection_handle_input` of src/orb/GIOP/giop-recv-buffer.c makes messages of them: it reads a
-- header, checks it, reads the body, decodes it by type and version, collects fragments, and hands
-- the message on, a reply to the caller that waits for it, a request to an object adapter. A send
-- buffer (src/orb/GIOP/giop-send-buffer.c) gathers a message from pieces that it copies or points to.
-- The vector of a finished message goes to a connection of linc (linc2/src/linc-connection.c), which
-- writes what the socket takes and queues the rest. The arguments of a call are marshalled and
-- demarshalled by their type codes (src/orb/orb-core/corba-any.c). A POA (src/orb/poa/poa.c) calls the
-- object or holds the request, as its manager (src/orb/poa/poa-manager.c) says. Where an object is can
-- be written as text (src/orb/orb-core/corba-loc.c), and a name server (src/services/name) keeps
-- references under names.
--
-- The files, with the code they model:
--   Base            names and lemmas that the others share; Base/Texts has texts and their comparison
--   Giop/Wire       include/orbit/util/orbit-util.h (ALIGN_VALUE), byte orders, words as bytes
--                   Masking has the macro bit by bit
--   Giop/MsgType, Giop/Message
--                   include/orbit/GIOP/giop-types.h, giop-recv-buffer.h: the structs
--   Giop/Reader     the steps of the decoders: align, compare with `end`, load, advance
--   Giop/Demarshal  giop-recv-buffer.c: giop_recv_buffer_demarshal_* and their table (Messages), the
--                   service contexts of src/orb/orb-core/corba-any.c (Context), bounds (Safety)
--   Giop/Fragments  alloc_buffer, concat_frags, giop_connection_get_frag,
--                   giop_recv_buffer_handle_fragmented; joining (Join), whole messages (Reassembly)
--   Giop/Queue      giop_queued_messages, handle_reply, giop_recv_list_zap; who gets what (Delivery)
--   Giop/Input      giop_recv_msg_reading_body, giop_connection_handle_input; reads (Reads)
--   Giop/SendBuffer giop-send-buffer.c: Memory (areas, append, align), Requests (the messages), and
--                   the proofs on the vector of areas (Vector, Payload, Append, Sent,
--                   Capacity)
--   Giop/RoundTrip  the sender against the receiver
--   Poa/Adapter     poa.c: held requests, use counts, ORBit_POA_deactivate; Poa/Deactivation
--   Poa/Manager     poa-manager.c; its states (Laws) and held requests (Requests)
--   Orb/Text, Orb/Url, Orb/CorbaLoc
--                   src/orb/orb-core/corba-loc.c: strings, keys as text, locations; Printed has their
--                   round trip
--   Orb/Words       words of any size as bytes; corba-any.c: giop_byteswap
--   Orb/TypeCode    include/orbit/orb-core/corba-typecode.h, and of src/orb/orb-core/corba-any.c and
--                   corba-typecode.c what type codes say of sizes, alignment and unions
--   Orb/TypeCodes   src/orb/orb-core/corba-typecode.c: type codes as objects, their equality and
--                   equivalence (Shapes, Equality), and what can be asked of them (Asking)
--   Orb/Context     src/orb/orb-core/corba-context.c: properties of contexts; what is found (Search)
--   Orb/Value       corba-any.c: ORBit_marshal_value (Marshal) and ORBit_demarshal_value (Demarshal)
--                   against an encoding over lists of bytes; Appends and Encoding have the proofs for the first,
--                   Reading, Decoding and Bounds for the second, RoundTrip for both
--   Orb/Exceptions  src/orb/orb-core/orbit-small.c and corba-env.c: exceptions in replies; what the caller
--                   reads (Returned), and from end to end (RoundTrip)
--   Linc/Connection linc2/src/linc-connection.c: writing, the write queue, the changes of state, events;
--                   the loop that writes (Writes), what reaches the socket (Stream, Drain), and where
--                   that goes wrong (Faults)
--   Poa/Objects     poa.c: the active object map and the calls that activate, deactivate and look up
--                   objects; Tables and Soundness have the map and the lists of servants, Activation,
--                   References and Calls what the calls leave of them, Faults activation from
--                   call to call and where it goes wrong
--   Name            src/services/name: names as texts (Text, with name-support.c), the contexts of
--                   a server (Server, with orbit-name-server.c), how a call finds its context
--                   (Paths, Walking, Resolving), what it changes (Updates), listings and the
--                   client's loop over them (Listing, with name-client.c), and Faults
--   Giop/Tests, Linc/Tests, Name/Tests, Orb/Tests, Poa/Tests
--                   concrete runs
--
-- How the state is kept. A pointer into a body is its offset, and the body is the list of its bytes
-- with the 12 spare bytes in front that the code allocates. A decoder is a function from an offset to
-- an `Outcome`: `done`, `broken` (the code's `return TRUE`) or `fault`, a load or a copy outside the
-- memory, or an assertion that fails. A send buffer's entries point into places (header, chunk, memory
-- of the caller, a value passed by its address). Lists are the code's lists in their order.
--
-- Widths. Lengths on the wire have 32 bits; `message_size` wraps at 2 ^ 32 where the code adds to it,
-- and the length of a fragment wraps at 2 ^ 64 as a `gulong` does. A byte is a number; where a
-- statement needs it below 256, it says so. A value of a word type is its bit pattern, and sizes and
-- alignments are those of a 64-bit build. Loops run over lists, but for the
-- client's loop over a listing, which has fuel: one round for each binding and two more are enough.
--
-- Parameters. Whether an allocation succeeds (`has_memory`), the byte order of the machine, what a
-- read from a socket brings (`Read`), what the bytes of a gap are (`gap`), and what a reply status
-- reads as in a message that has none (`status_at`); for linc, what `writev` takes in turn (`Io`),
-- what the handlers of the main loop make of the connection (`iteration`, `handle_input`,
-- `wait_connected`) and IOV_MAX; for exceptions, the generated id of UNKNOWN;
-- for POAs, the random part of a new object id (`genuid`); for names, whether an object outside of the
-- server has gone and what it answers (`gone`, `ask`); for locations, GLib's
-- g_strsplit at commas (`strsplit`) and its printing of a decimal (`decimal`).
--
-- Not modelled: threads and signals, locks but that of a POA, freeing but that
-- of the buffer of a held request, linc's protocols and main
-- loop, SSL, the calls of user code and of servants, policies, servant managers and the default
-- servant of POAs, object references, any, principals and wide strings as values, the layout of
-- values in memory, type codes on the wire, DynAny, destroying naming contexts and the servants of
-- iterators, the IDL compiler.
pub mod Base
pub mod Giop
pub mod Linc
pub mod Name
pub mod Orb
pub mod Poa
