-- ===== src/Lib.antt =====
-- Tendrils: compact strings and byte strings that share buffers by counting references. The library
-- models the crate `tendril` with its C interface.
--
-- A tendril has a tag or pointer and 8 more bytes. It is inline (up to 8 bytes), owned (a pointer
-- to a buffer of its own, with length and capacity) or shared (an odd pointer to a buffer that
-- others may hold, with length and offset). A buffer begins with a header that has the count of
-- references and, once the buffer is shared, its capacity. Operations read the tag first, move to
-- the shared form when they hand out a slice, and copy when they must write to a shared buffer.
--
-- Parts, with paths from the repository's root:
--
--     Common      lists over the native numbers, `u32` and `usize` arithmetic, results
--     Mem         the allocator and raw pointers; Mem.Util is src/util.rs
--     Buf32       src/buf32.rs; Buf32.Growth the sizes it computes
--     Refcount    `NonAtomic` and `Atomic` of src/tendril.rs
--     Fmt         src/fmt.rs: Fmt.Utf8 the standard library's UTF-8, with its theory in
--                 Fmt.Utf8.First and Fmt.Utf8.Text; Fmt.Unicode `UTF8` and `WTF8`; Fmt.Sound
--                 what tendrils rely on of a format, Fmt.Boundaries that for `UTF8`,
--                 Fmt.Subset `SubsetOf`
--     Tendril     src/tendril.rs: representations and private functions; Tendril.Edit the
--                 unchecked operations, Tendril.Checked those that check, Tendril.Chars on
--                 characters, Tendril.Extend the traits, Tendril.Send `SendTendril`, Tendril.Views
--                 the mutable slice, Tendril.Reading `read_to_tendril`, Tendril.Compare the
--                 comparisons and `Hash`, Tendril.Convert the conversions and `decode`
--     World       the memory with all live tendrils, and what each operation does to it
--     Utf8Decode  src/utf8_decode.rs
--     Stream      src/stream.rs: `Utf8LossyDecoder`; Stream.Sinks the methods of any sink;
--                 Stream.LossyDecoder, with Stream.Encoding and Stream.EncodingRs for the
--                 decoders of the two crates
--     Client      a program of calls on many tendrils, and what it may think that they do
--     Threads     interleavings of clones and drops of one atomic buffer
--     Capi        capi/src/lib.rs and the inline functions of capi/include/tendril.h
--     Tests       a memory with two tendrils in one buffer, runs, and uses of the theorems
--
-- A function of the source is a function of the same name on an explicit memory, with the receiver
-- as an argument and, if the source writes to it, as a result; `drop` is `drop_tendril` and is
-- written out where a value goes out of scope or is assigned over. A call returns, panics, or
-- faults: undefined behaviour (a read outside a slice, a freed block, a block freed with another
-- size than it has) is a fault, so that a theorem that a call returns says that it is memory safe.
-- Arithmetic wraps at 32 or 64 bits as in a release build, and checked arithmetic panics as the
-- source says. The pointer size is 64 bits, a header has 12 bytes, and uninitialized memory reads
-- as an arbitrary fixed byte.
--
-- `World m ts xss` says that in the memory `m` the live tendrils `ts` stand for the byte strings
-- `xss`, that the count in each header is the number of live tendrils that point to it, and that no
-- block is left without one. Each theorem on an operation starts from such a memory with arbitrary
-- other tendrils, which may share the buffer, and ends in one where only the operation's tendrils
-- have changed. Sizes that grow are bounded by 2^31, the largest power of two that `grow` can ask
-- for; operations that share need the number of tendrils to be below 2^64.
--
-- Loops: the doubling of `checked_next_power_of_two` has 32 rounds, one for each power of two in a
-- `u32`; the decoding loops have one round more than the input has bytes, as each round but the
-- last takes a byte; `char_indices` has as many rounds as bytes. Out of fuel is a fault in the
-- decoding loops, and no result in the loops that read, which the theorems exclude: for a reader or
-- a decoder of another crate they ask that it comes to its end within so many calls, whatever its
-- replies are, and these many rounds are enough.
--
-- Parameters: `futf::classify`, `utf8::decode`, `utf8::Incomplete` with `try_complete`, and
-- `utf8::REPLACEMENT_CHARACTER` are of other crates, as are the decoders of `encoding` and
-- `encoding_rs`; a reader is any function from a state and the size of a buffer to a reply.
-- Callbacks and inner sinks are the lists of what they are called with, and own the tendrils they
-- get.
--
-- Not modelled: `from_file`, which opens a file; memory ordering of the atomic counters, which
-- change one at a time in the model; two fields of `Tendril` that only carry types; `format!`;
-- benchmarks, the fuzzer, build scripts and the C printing functions.
pub mod Common
pub mod Mem
pub mod Buf32
pub mod Refcount
pub mod Fmt
pub mod Tendril
pub mod World
pub mod Utf8Decode
pub mod Stream
pub mod Capi
pub mod Client
pub mod Threads
pub mod Tests
