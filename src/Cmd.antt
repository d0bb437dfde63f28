-- ===== src/Cmd.antt =====
-- bootloader/src/cmd.c: the command line, from the bytes that the console receives to the calls of
-- the command handlers.
pub mod Shell
pub mod History
pub mod Args
pub mod Dispatch
pub mod Keys
pub mod Line
pub mod Lookup
pub mod Editor
pub mod Execute
pub mod Disk
pub mod Handlers
pub mod Sdw
pub mod Watched
pub mod Restore
pub mod Reported
