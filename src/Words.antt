-- ===== src/Words.antt =====
-- What the program uses of Go's copy, encoding/binary and math/bits.
mod Laws
mod Bits
unfoldable pub use Laws.*
pub use Bits.*
