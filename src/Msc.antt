-- ===== src/Msc.antt =====
-- bootloader/drivers/usb/usb_msc.c: the SD card as a USB mass-storage device. `State` holds the
-- static state, `Transfer` the steps of a transfer, `Scsi` the commands, and `Class` the callbacks.
pub mod State
pub mod Transfer
pub mod Scsi
pub mod Class
pub mod Blocks
pub mod Chunk
pub mod Stored
pub mod Packet
pub mod Write
pub mod RoundTrip
pub mod Errors
pub mod Read
pub mod Protocol
pub mod Guard
pub mod Inside
pub mod Progress
pub mod Descriptors
pub mod Start
pub mod Tagged
