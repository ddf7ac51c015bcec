-- ===== src/Net.antt =====
-- The parts of Go's `net` package that the program calls: hardware addresses and IP addresses as
-- texts. It is library code, written out here because the program's maps are keyed by its results.
pub mod Mac
pub mod Canon
pub mod Ip
pub mod Cidr
mod Tests
