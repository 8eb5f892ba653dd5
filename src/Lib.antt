-- ===== src/Lib.antt =====
-- stm8flash: a programmer for STM8 microcontrollers, which reads, writes and verifies their memory
-- over several kinds of adapters, from and to files of three formats.
--
-- The parts of the program and where they are modelled:
--
-- * ihex.c, Intel hex files. `Ihex` has checksum and ihex_write, `Ihex.Reader` has ihex_read.
--   main.c reads the device into a buffer and calls ihex_write, or calls ihex_read to fill the
--   buffer that it writes to the device or compares with it.
-- * srec.c, Motorola S-record files. `Srec` has srec_csum and srec_write, `Srec.Reader` has
--   is_data_type and srec_read.
-- * stm8.c and stm8.h, the devices. `Device` has the types and the two sets of registers,
--   `Device.Table` the table, without the entry that ends it.
-- * main.c. `Device.Part` has get_part, the search of the table for a name. `Main` has the choice of
--   the memory and of the range, the sizes of the buffers, the format of a file by its name
--   (is_ext), the option bytes for unlocking and serialno_to_hex. `Main.Action` has what main does
--   with the programmer: READ, VERIFY, WRITE, UNLOCK and RESET; `Main.Serves` and
--   `Main.Copy` are what holds of them with a programmer that serves them, and `StlinkV2.Serves`
--   shows that an ST-LINK V2 does.
-- * byte_utils.h and byte_utils.c, the bytes of a number. `ByteUtils` has the macros, format_int and
--   load_int.
-- * stlink.c, the first of the adapters. `Stlink` has the packing of numbers, of the SCSI command
--   block and of its status, `Stlink.Swim` the commands over libusb and the writing of a byte,
--   `Stlink.Session` open, reset and the session, `Stlink.Range` the reading and writing of ranges.
-- * stlinkv2.c, the second. `StlinkV2` has stlink2_cmd_internal, which lays a command out in
--   messages, and the interface of an adapter; `StlinkV2.Usb` the messages over libusb and the wait
--   behind a SWIM command, `StlinkV2.Swim` the reading of memory, open, reset and close,
--   `StlinkV2.Write` stlink2_swim_write_range. `StlinkV2.Link` says what an adapter does that
--   reaches a chip, `StlinkV2.Board` is one with a chip.
-- * libespstlink.c and espstlink.c, the third. `LibEspStlink` has the commands over a serial line and
--   error_check, `EspStlink` the programmer's functions, `EspStlink.Write` its
--   espstlink_swim_write_range. `LibEspStlink.Dongle` is a device that answers.
-- * pgm.h, error.h and try.h. `Programmer` has what the programmers share: a run, which returns or
--   leaves the program; `Programmer.Chip` is the documented behaviour of an STM8's flash, as laws of
--   a parameter; `Programmer.Block` and `Programmer.Padding` are what stlinkv2.c and espstlink.c
--   compute alike, `Programmer.Memory` the bytes of a memory, `Programmer.Ends` what holds behind a
--   run.
-- * The functions of the C library that these call are in `Stdio`: printf and sscanf of hexadecimal
--   numbers, fgets, strlen. `Stdio.Output` is fprintf on a disk that may refuse a text.
--
-- A file is the list of its character codes, a buffer the list of its bytes, an unsigned int a
-- number below 2 ^ 32 whose wrap is written out. A function that fails gives its error as a value:
-- the message and its numbers, a return of -1, or an access outside an array (`fault`). Loops over
-- the lines of a file run on as much fuel as the file has characters, and loops over a range of
-- addresses on as much as it has addresses; when they run out they give `stuck` or `endless`. A
-- static array keeps what stood in it, and the functions take its contents as an argument.
--
-- Not modelled: the functions of stlink.c that nothing calls; the opening and closing of the lines;
-- the parsing of the command line, the messages and the opening of files in main.c; delays; the
-- freeing of the buffer behind an error, after which nothing reads it.
pub mod Common
pub mod Stdio
pub mod Ihex
pub mod Device
pub mod ByteUtils
pub mod Srec
pub mod Main
pub mod Stlink
pub mod StlinkV2
pub mod Programmer
pub mod LibEspStlink
pub mod EspStlink
