-- ===== src/Lib.antt =====
-- go-zfs talks to the ZFS kernel module through ioctls whose arguments and results are nvlists,
-- lists of named and typed values. This is a model of its package nvlist, which turns Go values into
-- the bytes of an nvlist and back, and of its package ioctl, which makes the calls.
--
-- The parts and their files:
-- - nvlist/consts.go and nvlist/types.go: Consts has the type codes, the maps from the kinds of
--   package reflect to them (nvtypeFromKind, nvtypeFromArrayKind) and the header of a pair (nvpair).
-- - Go values: Value has what reflect.Value shows of them. A map is the sequence of its entries in
--   the order in which MapKeys yields them, which Go leaves open, so a theorem on all maps is one on
--   all orders. A value is a finite tree. An integer is its bit pattern. A string is its bytes.
-- - encoding/binary: Wire has the integers as bytes, in either order.
-- - nvlist/encoder.go: Encoder has nvlistWriter as a record and its methods as functions on it.
--   Encoder/Collect and Encoder/Pairs have writeNvPairs, in a function for each of its parts (the names
--   and values that it collects, one pair, the switch on the kind, the loop), and Marshal. The method
--   Write has two modes, and endNvPair goes back over the header of a pair in the second. An error, a
--   panic and the exhaustion of the fuel are outcomes (Outcome); an error keeps the writer, since
--   writeNvPairs drops some errors and goes on.
-- - nvlist/decode.go: Decoder/Slices has the accesses to the input, with a panic out of range,
--   Decoder/Reader and Decoder/PairReader have nvlistReader and nvPairReader with their methods, and
--   Decoder/Pairs has readPairs and Unmarshal of a map[string]interface{}. Decoder/Cells has the other
--   targets as package reflect shows them (structs, typed maps, pointers, interfaces) and what setting
--   a value in them does, and Decoder/Targets has readPairs and Unmarshal of these. The pair reader's pointer to the list's reader is a copy
--   of it, since it uses the bytes, the byte order and the encoding only, which stay the same while a
--   pair is read.
-- - The wire format, as nvlist/doc.md and nvlist/types.h describe it: Format has abstract nvlists,
--   their bytes in native encoding, and the nvlist that a Go value stands for. Decoder/Fill has what
--   setting the pairs of an nvlist in turn makes of a target, nested nvlists included.
-- - nvlist/fuzz.go: Decoder/Fuzz has Fuzz.
-- - ioctl/ioctl.go: Ioctl has NvlistIoctl with the kernel as a parameter, a function of the ioctl's
--   number, the command, the destination buffer and the kernel's own state. A pointer and a size in the
--   command are the content of the buffer, or its size for the destination. A run also lists the
--   commands that the kernel was given, which the code does not keep. Its nvlists go through Encoder
--   and Decoder, and the name through Ioctl/Buffers, which has stringToDelimitedBuf and
--   delimitedBufToString of ioctl/wrappers.go.
-- - ioctl/types.go: Ioctl/Types has the command with all its fields and Ioctl/Numbers the numbers of
--   the ioctls, whose first one ioctl/types_most.go and ioctl/types_freebsd.go give.
-- - ioctl/wrappers.go: Ioctl/Wrappers has what its functions return, which is the values, the error and
--   the commands that the kernel was given. Ioctl/Wrappers/Requests has the structs that they pass,
--   Ioctl/Wrappers/Pools and Ioctl/Wrappers/Datasets have the functions, over the kernel, the platform
--   and, where they make a map, the order in which MapKeys yields its keys. Ioctl/Receive has Receive and
--   ReceiveStream over the write end of a pipe, a record of its operation and of what package io
--   documents of it; the channel is the sequence of what was put into it. Ioctl/Send has Send and
--   sendStream over the read end in the same way. Ioctl/Handle has Init and zfsHandle over the calls of
--   the operating system, and Ioctl/Props the structs of properties that a caller may marshal, with the
--   constants of ioctl/types.go for them.
-- - ioctl/trace/main.go: Trace has the tracer, whose every round is a stop of the traced process. The
--   process is a state with the calls of package syscall for it, and the packages struc and
--   encoding/json are parameters. It reads the nvlists with Decoder.
-- - ioctl/testhelper/main.go: Testhelper has the init process of the machine for the tests, as the
--   sequence of what it does, over the calls of the system.
-- - Ioctl/Sends, Ioctl/Names and Ioctl/Endings have what holds of every command that NvlistIoctl gives to the kernel,
--   and of every way in which it ends; the children of Ioctl/Wrappers, Ioctl/Receive and Ioctl/Send
--   use them.
-- - Encoder/Safety and Decoder/Safety are about how Marshal and Unmarshal end, Decoder/ByValue about a
--   struct that Unmarshal is given by value, and the children of Ioctl/Wrappers about the functions that
--   they are named for.
-- - RoundTrip puts the encoder and the decoder together, with RoundTrip/Maps for maps and
--   RoundTrip/Structs for structs. Every Tests has runs of its part.
--
-- Fuel: writeNvPairs calls itself for nested values, with a level of fuel for each level of the value
-- (depth) and one for the first call. readPairs has a unit for each round of its loop and each nested
-- call; Unmarshal starts it with the length of the input and one more, because each round takes four
-- bytes at least. NvlistIoctl has five rounds, since the fifth buffer is over the limit. The tracer has
-- a unit for each stop of the process; two for each system call and one more are enough.
--
-- Not modelled: values that reach themselves through a map or a pointer, on which writeNvPairs calls
-- itself without end; types with a name of their own, which stand for the type below it; what is left in
-- the target after an error; slices with pointers as elements and unexported struct fields; the
-- sharing of memory between the input and a []byte that is read from it; when the kernel runs
-- while a stream is written or read, since the call of Receive stands at its end and that of Send at
-- its beginning; the layout of the command in memory, which package struc reads in the tracer; the
-- start of the traced process; the colours of messages and the closing of files in the test helper.
pub mod Base
pub mod Wire
pub mod Result
pub mod Consts
pub mod Value
pub mod Encoder
pub mod Decoder
pub mod Format
pub mod RoundTrip
pub mod Ioctl
pub mod Trace
pub mod Testhelper
mod Tests
