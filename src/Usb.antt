-- ===== src/Usb.antt =====
-- kernel/usb: the parts of the driver for xHCI controllers, and what they share.
pub mod Codes
pub mod Trb
pub mod Contexts
pub mod Pool
pub mod ArrayMap
pub mod Transfer
pub mod Descriptors
pub mod Init
pub mod Hid
pub mod Ring
pub mod EventRing
pub mod Ports
pub mod Xhci
pub mod Registers
mod Tests
