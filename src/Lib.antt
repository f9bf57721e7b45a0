-- ===== src/Lib.antt =====
-- A model of the mopa library, which reads and writes the tables of digital television, and of the
-- two classes that take sections out of a transport stream and put them into one.
--
-- The parts, and the files that model them:
-- Base: the shared names. Base/Effects has the result of a call: it returns, throws, or leaves
--   the memory it was given (`fault`: an access outside a buffer, a null pointer, `back()` of an
--   empty vector). An exception is the `throw` statement it comes from; the state at that point
--   is left out. Base/Word has the wrap-around of the unsigned words.
-- Bits: laws of and, or, exclusive or and shifts, and of fields of a number.
-- Crc: `dvb_crc32` of src/crc.cpp.
-- Io: inc/io.h and src/io.cpp. A context is a record that the operations thread. Io/BinaryIn is
--   `ibCtx` and `ibx`, Io/BinaryOut `obCtx` and `obx`, Io/TextIn `icCtx` and `icx`, Io/TextOut
--   `ocCtx` and `ocx`, Io/Info `iox_info`, and Io/Facade `iox`, `ix` and `ox`, which choose among
--   them. Io/Stream says what the bits at a position are: a buffer is one number, its first byte
--   the most significant. Io/Patches says what a write changes. Io/Words, Io/Stores, Io/Fetching,
--   Io/Memory, Io/Replacing, Io/Reading, Io/Writing, Io/RoundTrip and Io/Blocks relate the operations
--   to the two; Io/Coding puts parts that are written and read behind each other and into blocks;
--   Io/Scanning is about `icCtx::expect`, Io/Throwing about when a read throws, Io/Decimal and Io/Limits about numbers in the
--   textual form, Io/Constants about `iox::uint_req`. Io/Exceptions is the message of an `Exception`, and Io/Lines the line and the
--   column in it. Io/Nesting is about sequences of calls of `ibx`. Io/Ownership is the heap of contexts
--   that constructors, copies, assignments and destructors of `iox` work on.
-- Common: src/commontypes.cpp and inc/commontypes.h. Quoted strings (Common/Text, Common/Quoting),
--   strings in the four modes (Common/Strings) and in the binary form
--   (Common/Characters), checksums of sections (Common/Checksum), vectors
--   (Common/Vector) and the items of one in a block (Common/Items).
-- Si: inc/descriptors.h and src/descriptors.cpp (Si/Descriptors), dvb/NIT.h (Si/Nit). Si/Coding has
--   a module for what each structure writes and reads in the binary form. Si/Ownership is the
--   heap of descriptors that the copies, the assignment and the destructor of `descriptor_vector`
--   work on. The `io`
--   function of a structure takes its fields as they are and returns them as they become; fields
--   that the source leaves uninitialised start from 0.
-- Psi: `psi_extractor` of src/merger.cpp (Psi/Extractor) and `sec2ts` of src/sec2ts.cpp
--   (Psi/Packetizer; Psi/Packetizer/Object is the object with its callbacks and its debug level, and
--   Psi/Packetizer/Calls is about sequences of calls on it). Their child modules are about copies into
--   a packet (Copying), the bounds and the end of a call (Safety), the rounds of a loop (Rounds),
--   sections that span packets (Resuming) or follow each other (Whole), and the pointer field of a
--   full packet (Overread). Psi/Transport puts the two classes at the ends of one stream, without an
--   adaptation callback. What the source hands to a callback is part of the result of the call.
-- Examples: runs on concrete inputs.
--
-- `memcpy` of the bytes that `psi_extractor` keeps to the front of the same buffer is a parameter, the
-- record Memcpy of Psi/Extractor: it leaves as many bytes as it copies, and these are the same when
-- the two regions do not overlap, as the C standard says. Psi/Transport/Lengths has what a stream
-- needs beyond that: that a copy of bytes to where they are leaves them, which the manual of GCC
-- expects of every `memcpy`, and sections of 184 bytes or more, since a shorter one can make the
-- regions overlap in part. All other copies are between two buffers, or are moves.
--
-- Numbers are natural numbers; a word keeps its wrap-around written out. Text is the list of its
-- characters. Loops that the source leaves by a break are structural on the rest of the text, or
-- have fuel: `more_sections` has one round more than there are bytes, which suffices because every
-- section takes three bytes at least, and `vector_io` one round more than the block has bits (or
-- the text characters), for items that take a bit or a character at least. The loop of `sec2ts`
-- around a callback that leaves no room for ever never ends in the source; its fuel is an argument.
-- When a number of the callback's state falls with each field that leaves no room, `most + 1` rounds
-- for each byte and `most` more suffice, where `most` bounds the number;
-- without a callback one round more than the section has bytes suffices.
--
-- Where C++ leaves the result open: reading no bits by `nocheck_uint32` is a fault; the shift of
-- `read_number` by 64 bits or more and the product of `ibx::block_begin` from 2^28 bytes on are
-- computed as if the words were wide enough, or wrap around.
--
-- Not modelled: what `vasprintf` and `asprintf` print (parameters of Io/Exceptions), debug
-- output, the base class `descriptor` (every class overrides its `io`), the textual form of whole
-- tables, and the tests.
pub mod Base
pub mod Bits
pub mod Crc
pub mod Io
pub mod Common
pub mod Si
pub mod Psi
pub mod Examples
