-- ===== src/Go.antt =====
-- What the program uses of Go's strconv and strings.
pub mod Strconv
pub mod Strings
pub mod Order
