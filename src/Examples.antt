-- ===== src/Examples.antt =====
-- The theorems at concrete inputs, with small runs of the code.
mod Framing
mod Rings
mod Mdio
mod Capture
mod Usb
mod Services
mod Firmware
