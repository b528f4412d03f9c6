-- ===== src/Lib.antt =====
-- nanopb as the breakpoint application builds it: the C code of this repository, which encodes and
-- decodes protocol buffer messages (breakpoint/Pods/nanopb), and the services of the application, which
-- is Swift and hands its data to Firebase, whose frameworks link nanopb.
--
-- The parts, from the bottom up, and the files that model them:
--   Base, Outcome, Errors  numbers, lists, bits and bytes; the results of a C function (`ok` and
--                          `fail` are its return values true and false, `fault` is an access that C
--                          leaves undefined, `stuck` means that the rounds given to a loop ran out);
--                          the error messages, where a stream keeps its first one.
--   Descriptor             pb_field_t and its type byte (pb.h).
--   Input                  pb_istream_t, pb_read, pb_readbyte (pb_decode.c, pb_decode.h). `state` is
--                          the list of bytes from the stream's pointer to the end of the buffer, or
--                          what a user's callback makes of it; `bytes_left` is a size_t.
--   Wire                   the section "Helper functions" of pb_decode.c: pb_decode_varint,
--                          pb_decode_tag, pb_skip_field, substreams; and pb_decode_svarint,
--                          pb_decode_fixed32, pb_decode_fixed64.
--   Output                 pb_ostream_t, pb_write, pb_encode_varint, pb_encode_tag and the other
--                          encoders of numbers (pb_encode.c, pb_encode.h). A buffer is the list of
--                          the bytes written and the room behind them.
--   Memory                 the bytes of message structures, by address; little-endian, pointers of
--                          eight bytes.
--   FieldIter              pb_field_iter_t (pb_common.c), and find_extension_field (pb_decode.c).
--   Decoder                pb_dec_* in Values, fields in Fields, Callbacks and Defaults, the check of
--                          required fields in Required, pb_decode and its loop in Messages.
--   Encoder                pb_enc_* in Values, fields in Fields, pb_encode in Messages.
--   Services               AuthService and DataService of the application (breakpoint/Services), over
--                          the functions of Firebase that they call.
--   RoundTrip              the encoders of numbers against the decoders; pb_enc_* against pb_dec_* in
--                          Values and Fixed, pb_encode against pb_decode in Messages.
--   Format                 the bytes of a message, said without streams, for messages of static fields
--                          with numbers, strings, bytes of a fixed length and messages in them (Plain);
--                          the lemmas on pb_encode in Emits, on pb_decode in Cleared and Reads.
-- A C function keeps its name. A function that changes a stream is a step from a stream to an
-- outcome; the decoder's steps act on a stream and memory (DecState), the encoder's likewise
-- (EncState). The modules Reading, Safety, Progress, Raw, Varint, Numbers, Substreams, Truncated,
-- Encoding, Writing, Fits, Sizing, Layout, Members, Search, Confined, Bounds, Clamps, Words, Marks,
-- Trail, Count and Registration, and those below Decoder.Steady, Decoder.Kept, Encoder.Sized, RoundTrip and Format, hold
-- the theorems, and the modules named Runs and Samples the tests. Decoder.Decodable and
-- Decoder.Kept.Layout say which descriptors and structures the decoder can be run on, Format.Plain and
-- Format.Agrees for which the wire format is stated and when two structures hold the same message.
--
-- The build defines PB_FIELD_32BIT and not PB_ENABLE_MALLOC (breakpoint/Pods/Target Support
-- Files/nanopb/nanopb.xcconfig), so that pb_size_t has 32 bits and a pointer field is refused with "no
-- malloc support"; what is compiled with PB_ENABLE_MALLOC only is left out. size_t has 64 bits. Signed
-- numbers are bit patterns. The `Env` of the decoder and of the encoder stands for what is not in these
-- files: descriptor arrays and extension types by address, which are generated, and the functions of
-- the user.
--
-- Loops run on a number of rounds. A varint of 64 bits has eleven, for the eleventh finds `bitpos` past
-- the width; one of 32 bits has five behind its first byte; skipping a varint has one more than the
-- bytes left, which each round takes one of; a search has one more than the descriptors; the loop of
-- pb_decode_noinit has one more than the bytes left, for each tag takes one; so have the loop of a packed
-- array and that of a callback on its substream. The nesting of messages, with the length of a list of
-- extensions, is a parameter of pb_decode and pb_encode, since generated descriptors may be recursive.
--
-- Not modelled: the other Pods (leveldb in C++, GTMSessionFetcher and GoogleToolboxForMac in
-- Objective-C, the headers of Firebase), the macros that initialise descriptors, and the Swift views and
-- controllers, which lay out the screens; the functions of Firebase are parameters of Services.
pub mod Base
pub mod Outcome
pub mod Errors
pub mod Input
pub mod Wire
pub mod Output
pub mod Memory
pub mod Descriptor
pub mod FieldIter
pub mod Decoder
pub mod Encoder
pub mod RoundTrip
pub mod Format
pub mod Services
