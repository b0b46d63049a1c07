-- ===== src/Go.antt =====
-- What the Go code under extension-go/ calls of Go's standard library. A Go string is the list of
-- its runes, a `Text`; in the basic plane these are the code units of the same JavaScript string.
pub mod Strings
pub mod Strconv
