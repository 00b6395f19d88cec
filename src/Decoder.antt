-- ===== src/Decoder.antt =====
-- nvlist/decode.go: the accesses to the input, the two readers, the loop over pairs, and what holds of
-- them.
pub mod Slices
pub mod Reader
pub mod PairReader
pub mod Pairs
pub mod Cells
pub mod Targets
pub mod Safety
pub mod Reads
pub mod InPair
pub mod Readable
pub mod Payloads
pub mod Primitives
pub mod Header
pub mod Types
pub mod Values
pub mod Frames
pub mod Implements
pub mod Fill
pub mod ByValue
pub mod Fuzz
