-- ===== src/Golang.antt =====
-- What the modelled packages use of the Go language and its standard library: byte slices with a
-- capacity, errors and panics, text functions, wrapping counters, floating-point numbers.
pub mod Result
pub mod Int
pub mod Slice
pub mod Counter
pub mod Dict
pub mod Text
pub mod Split
pub mod Float
pub mod Hash
