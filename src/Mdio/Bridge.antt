-- ===== src/Mdio/Bridge.antt =====
-- src/mdio/mdio_bridge.hpp and mdio_bridge.cpp: `Mdio::UsbBridge`, the ASCII command layer over the master.
pub mod Command
pub mod Numbers
pub mod Grammar
pub mod RoundTrip
pub mod Line
pub mod Session
pub mod Replies
pub mod BulkSteps
pub mod Bulk
