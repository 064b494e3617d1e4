-- ===== src/Lib.antt =====
-- cmux: the multiplexer of 3GPP TS 07.10, basic option, a library in C with a client and a server.
--
-- The program's parts, and the files that model them. Paths are from the root of the repository.
--
-- Base and its children: machine words, lists and memory. A block of memory is a list of octets, and a
-- read or a write outside it is `none`, so that an operation that returns a value is shown to stay
-- inside. A number of w bits is written out as a remainder by 2 ^ w. Base.Gives has rules for what code
-- that may fault gives; Frame.Bytes uses them for octets.
--
-- Crc: lib/cmux/crc.c, `crc_table` and `cmux_crc`. Crc.Reference has the bitwise definition.
--
-- Frame: lib/cmux/cmux_frame_type.h, cmux_frame_type.c and cmux_frame_info.h, the control types and the
-- record that the parser fills. Frame.Builder is lib/cmux/cmux_frame_builder.c (`cmux_frame_builder`,
-- and `builder_frame_length` for `cmux_frame_builder_get_frame_length`), Frame.Parser is
-- lib/cmux/cmux_frame_parser.c (`parse_frame`, `get_frame_length`, `check_valid_frame`). The index that
-- the C code moves along is passed from one part of a function to the next.
--
-- Services: lib/cmux/services, one file for each service with parameters. Service:
-- lib/cmux/cmux_service_codec.c. Request: lib/cmux/cmux_service_request_codec.c, which calls the former
-- two.
--
-- Buffer: lib/cmux/cmux_buffer.c. Octets go into a ring buffer, which is searched for a valid frame; that
-- frame is taken out, parsed, and handed to `on_control_message`. The ring buffer is the library lwrb
-- in lib/lwrb, of which the code only uses the interface: it is the record `RingBuffer`, and its
-- documented behaviour the record `IsRingBuffer`, both in Buffer.Ring; `Straight`, where it is used, adds
-- that a ring which does not go round the end of its memory stays so when octets are taken out.
-- Buffer.Scan has the search, and Buffer.Ingest.Drain calls `cmux_buffer_ingest` again and again;
-- `Wrapping`, in Buffer.Ingest.Wrapped, has what a write does to a ring that goes round that end.
--
-- Endpoint: what lib/cmux/cmux_client.c and lib/cmux/cmux_server.c have word for word in common, the
-- state (`struct _cmux_client_instance`) and `send_frame`. Client and Server: the rest of these files.
-- Each operation takes the state and gives the state behind it with the list of the callbacks that it
-- calls, in their order; `ingest` goes through Buffer to `cmux_client_on_control_message` or
-- `cmux_server_on_control_message`. Client.Steps and Server.Steps have the operations as a machine.
--
-- Callbacks that use the endpoint that called them: Endpoint.Callbacks has a user, who says for a call
-- what becomes of the endpoint and what is called meanwhile. Client.Callbacks and Server.Callbacks have
-- the handlers once more, each calling the user where the C code calls back, before it goes on with the
-- endpoint that the user leaves; where it has copied the options or the last frame of the terminal
-- before the call, the copy is what it goes on with. Link.Callbacks has users who ask for operations.
--
-- Lifetime: the blocks of memory. Lifetime.Blocks is a heap, of which only is known which blocks have
-- been given out; Lifetime has what init, the operations and free allocate and free in it, and
-- Lifetime.Balance and Lifetime.Life how these even out. What the blocks hold is in the other files.
--
-- Dump: lib/cmux/cmux_frame_dump.c. A line of octets is the text that `sprintf` leaves in `hd_buffer`, a
-- text that is too long for it being a fault; the other messages are data with their arguments.
-- `isprint` is that of the C locale, on the octet as an unsigned number. The size of a pointer and the
-- address of the block are parameters, and so is what the array holds that is not initialised.
--
-- Link: a client and a server at the two ends of one link. Link.Frames says which frames belong on it and
-- what it is for an operation to return, Link.Acts what a user may ask of an end, Link.Handles that the
-- handlers return, Link.Races what comes of an answer that is late, Link.Short what comes of a message
-- that is too short, Link.Maximum and Link.Guards what comes of the guards on the DLCI, and
-- Link.Multiplex how the terminals share the link, with and without the rings. Link.System has both ends, with
-- a wire each way that hands on whole frames in their order, as a step relation.
--
-- Loops: the search of the ring (`scan`) counts down the octets that are left, from
-- `linear_read_length`, so it makes as many rounds as the loop in C; `crc_loop` goes along the list;
-- `baud_rate_key_from` along the table; `columns` and `characters` count down the rounds of their loops.
-- `dump_loop` has the number of octets as its fuel, and a round takes one of them at least.
--
-- `malloc` is a parameter, a function from the size to the block with what it holds; that a block has
-- the size that was asked for is a hypothesis where it is used. That `malloc` fails is not modelled,
-- as the code does not look at it.
--
-- Not modelled: the logging macros, which only print, and the calls of them in the other files, so that
-- `process_ingress_frame` is modelled without its two calls of Dump, which read memory that the rest of
-- the code does not read: every result on it leaves them aside, but for Dump.Ingress, which has the same
-- function with them; lib/lwrb, a library by others;
-- lib/runner, which starts a program; an endpoint that is freed by one of its callbacks; operations that
-- the callback which writes to the interface asks for.
pub mod Base
pub mod Crc
pub mod Frame
pub mod Services
pub mod Service
pub mod Request
pub mod Buffer
pub mod Dump
pub mod Endpoint
pub mod Client
pub mod Server
pub mod Lifetime
pub mod Link
pub mod Tests
