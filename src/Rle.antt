-- ===== src/Rle.antt =====
-- src/sniffer/rle_sniffer.hpp and rle_sniffer.cpp: `RleSniffer`. `Drain` is the drain interrupt, from the FIFO of the
-- PIOC to the RAM ring, `Squelch` the filter of `service`, from the RAM ring to the USB, and `Service` the whole of `service`,
-- with `begin` and `stop`.
pub mod Drain
pub mod Squelch
pub mod Service
