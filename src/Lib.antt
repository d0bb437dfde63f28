-- ===== src/Lib.antt =====
-- A verification library for the first-stage bootloader under bootloader/. The bootloader offers
-- a command line on a serial console, exports its SD card as a USB mass-storage device, loads
-- images from the card into memory, and stays at EL3 to answer the kernel's power-state calls.
--
-- Parts, and the files that model them:
-- * Cstring (bootloader/utils/string.c) is over lists: bytes are numbers, an array is a list, and
--   a string is a list that holds a NUL. A function that walks a pointer gives the rest of the
--   list or an index. The loops are recursion on the list. `Cstring/Copy`, `Cstring/Compare`,
--   `Cstring/Number` and `Cstring/RoundTrip` hold what is proved of them.
-- * Console (bootloader/src/console.c) is the receive ring that the loop of `main` fills and
--   `cmd_poll` empties. The static variables are the record `Console`; `Console/Ring` relates the
--   ring to a queue.
-- * Cmd (bootloader/src/cmd.c) keeps the static variables as the record `Shell`; `Cmd/Shell`,
--   `Cmd/History`, `Cmd/Args`, `Cmd/Dispatch` and `Cmd/Keys` hold the functions. `Cmd/Editor` is
--   an abstract line editor with past lines, and its children relate every function to it.
--   `Cmd/Line` is about the line buffer, `Cmd/Lookup` and `Cmd/Execute` about the command table,
--   `Cmd/Args/Number` about arguments. The call of a handler and every `my_printf` is an event of
--   a log (`Log`). `Cmd/Disk` and `Cmd/Handlers` hold the handlers, and `Cmd/Sdw`,
--   `Cmd/Watched`, `Cmd/Restore` and `Cmd/Reported` are about the test that writes the card's
--   last block: the calls that it makes of the card, what it leaves there and what it reports.
-- * Msc (bootloader/drivers/usb/usb_msc.c) keeps the static variables as the record `Msc`, the
--   calls of the USB core are recorded in order, and the card is reached through `Card`, a
--   parameter for bootloader/drivers/sd.h. `Msc/Transfer`, `Msc/Scsi` and `Msc/Class` hold the
--   functions, `Msc/Descriptors` the descriptors, and `Msc/Start` the start over the USB core as
--   a parameter. `Msc/Chunk` and `Msc/Read` follow a read from command to status, `Msc/Stored`,
--   `Msc/Packet` and `Msc/Write` a write, `Msc/RoundTrip` joins the two, and `Msc/Errors` is
--   about a refused command. `Msc/Protocol` is about what the endpoints were asked for,
--   `Msc/Guard` and `Msc/Inside` about where the card is accessed, `Msc/Progress` about the end
--   of a transfer, and `Msc/Tagged` about the start.
-- * Psci (bootloader/drivers/psci.c) with `Psci/Pen`, the holding pen of core 1 in
--   bootloader/drivers/startup.S: the steps of core 1 and the calls of core 0 come in any order.
--   A CPU_OFF of core 0, which would park it in the same pen, is no step of the model.
--   `Psci/Launch` is about the release of core 1.
-- * Io (bootloader/drivers/io.h) is the access to registers. The hardware behind them is the
--   parameter `Mmio`: reading and writing give a value and a new state. A driver is an action on
--   a machine, written as a do block. `Io/Wait` is about bounded polling, `Io/Bits` about masks,
--   `Io/Registers` and `Io/Holds` about registers that keep what is written, and `Io/Closed`
--   about what no register access changes.
-- * Gpio, Uart, Timer, Gic, I2c, Pmic, Rcc and Rif (the files of those names under
--   bootloader/drivers) hold every function of theirs; `Rcc` is split into the channels
--   (`Rcc/Flexgen`), the two PLLs and the clocks that the start switches on. `I2c/Device` is the
--   contract of a chip that answers on the bus. `Gpio/Pins`, `Uart/Send`, `Timer/Delay`,
--   `I2c/Transfer`, `I2c/Registers`, `Pmic/Rails`, `Pmic/Powered`, `Pmic/Voltages`, `Rcc/Faults`,
--   `Rif/Phases` and `Rif/Open` hold what is proved.
-- * Ddr (bootloader/drivers/ddr/src/ddr_init.c) is the bring-up of the memory, with the DDR
--   driver as a parameter. `Ddr/Tested` is about when it succeeds, and `Ddr/Retry` makes a board
--   of it for `Boot`.
-- * Sdmmc (bootloader/drivers/sdmmc/sd_glue.c) is the supply, the clock and the pins of the card,
--   with the MMC driver as a parameter; `Sdmmc/Supply` is about its wait.
-- * Boot (bootloader/src/boot.c) is over a board as a parameter: the memory, the card and the DDR
--   driver. `Boot/Launch` holds `cmd_jump` and `cmd_boot` with what it does before it leaves for
--   the kernel, `Boot/Region` the blocks that are loaded, `Boot/Handoff` that the hand-over
--   leaves the memory alone, and `Boot/Started` joins these.
-- * Main (bootloader/src/main.c) is the start of the bootloader and one turn of its loop, which
--   feeds the bytes of the UART to the console and calls `cmd_poll`; `Main/Turn` joins the three.
-- * Hello (baremetal/hello/src/main.c) is a program of its own that greets on the serial port;
--   `Uart/Send` and `Hello/Greets` are about what reaches the line.
-- * Prelude holds the names, tests and list lemmas that all share, and Tests concrete inputs.
--
-- Bounds. Fixed-width arithmetic is written out modulo its width. The loop of `cmd_poll` has 64
-- rounds as fuel: the ring of 64 places never holds more than 63 bytes, and no byte arrives
-- within a call in the model. `load_region` has as many rounds as blocks, and each round loads
-- one at least. The polling loops of the drivers have the bounds of the source as fuel. The loops
-- of `udelay`, `uart_putc`, `vddio1_enable`, `cmd_usb`, the inner loop of `main` and the waits of
-- the greeting program have no count in the source: their fuel is an argument. `udelay` needs as
-- many rounds as the delay has ticks, the loop of `main` one more than bytes wait, and a byte on
-- the serial port one more than the transmitter shows no room.
--
-- Not modelled: printf.c, the DDR, MMC and USB core drivers and the image tool, which are carried
-- from other projects; the tables of register values that `ddr_init` passes to the DDR driver;
-- the demonstrations in floating point under tools/; assembly other than the pen; empty delay
-- loops and cache maintenance. The log of the machine and those of the console and the command
-- line are separate, so their order among each other is not modelled. What a failed read leaves
-- in a buffer is not modelled, since no code reads it.
pub mod Prelude
pub mod Cstring
pub mod Log
pub mod Io
pub mod Gpio
pub mod Uart
pub mod Timer
pub mod Gic
pub mod I2c
pub mod Pmic
pub mod Rcc
pub mod Ddr
pub mod Rif
pub mod Sdmmc
pub mod Console
pub mod Cmd
pub mod Card
pub mod Msc
pub mod Psci
pub mod Boot
pub mod Main
pub mod Hello
pub mod Tests
