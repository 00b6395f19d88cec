-- ===== src/Decoder/Safety.antt =====
-- nvlist/decode.go: on no input an index leaves its bytes, and the loop over pairs comes to an end.
pub mod Accesses
pub mod Values
pub mod Loop
pub mod Total
pub mod Targets
