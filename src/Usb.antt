-- ===== src/Usb.antt =====
-- src/usb: the USB CDC device.
pub mod Descriptors
pub mod Device
pub mod Requests
pub mod Control
pub mod Bulk
