-- ===== src/Lib.antt =====
-- A library that reads the recordings of a virtual machine: synchronisation points, the events that
-- they make up, and the streams under them.
--
-- The program has a stream class (include/streamable_file.h, src/streamable_file.cpp), the data
-- types of the points and events (include/sync_point.h, src/sync_point.cpp, include/sync_event.h,
-- src/sync_event.cpp), the reader of sync files (include/sync_file.h, src/sync_file.cpp), and files
-- of hardware accesses (include/hardware_access.h, include/hardware_file.h, src/hardware_file.cpp)
-- with an output stream (include/streamable_outfile.h, src/streamable_outfile.cpp) and a tool that
-- sorts them (bin/reorder_hardware). Devices are read from files of their own (include/device.h,
-- include/io_file.h, src/io_file.cpp). The reader of sync files loads a main file of records and a
-- data file of memory blocks through two streams, steps from point to point, seeks, and combines
-- points into events.
--
-- The files:
-- - Base: library names, Boolean tests, lists, and integers as little-endian bytes.
-- - Stream/Ifstream: std::ifstream as a value: the bytes of the file, the offset, the three state
--   bits. The file system is a parameter, a function from names to contents.
-- - Stream: `streamable_file`. The functions have the names of the methods; a read takes the stream
--   and returns a value and the stream. Stream/Cursor and Stream/Fields say what reads do in the
--   three states of an open stream, Stream/Flags is about `eof()`.
-- - Outcome: how a call ends: a value, an exception, a failed assertion, a division by zero or an
--   array that does not fit on the stack (`crash`), or a loop that used up its rounds (`stuck`).
-- - SyncPoint: `sync_point_v2`, `sync_point_v3` and the functions on them; SyncPoint/Types: the
--   kinds and their names; SyncPoint/Equality: the comparisons.
-- - SyncEvent: `sync_event`, its context, `check_sanity` (SyncEvent/Sanity) and the comparison of
--   contexts (SyncEvent/Values).
-- - SyncFile/State: the members of `sync_file` and the calls on them; SyncFile/Load: `load`;
--   SyncFile/Entry and SyncFile/Blocks: the formats of the two files as `next` reads them;
--   SyncFile/Points: `next`, and in SyncFile/Points/Whole the end of a file of whole records;
--   SyncFile/Seek: `seek` and `seek_from_end`; SyncFile/Fetch: `fetch_new_event`; SyncFile/Events:
--   `current_event` and `advance_to`. In SyncFile/Fetch/Ends stands how such a call ends (`Ends`),
--   and in SyncFile/Fetch/Stops and SyncFile/Fetch/Returns that it does on whole records. The
--   proofs about each stand in the modules below it.
-- - Outfile: `streamable_outfile` over std::ofstream; Outfile/Written: what it writes, and that
--   Stream reads it back.
-- - Hardware/Access: `hardware_access`; Hardware/File: `hardware_file`; Hardware/Layout: its
--   records as bytes; Hardware/Loading: `load`; Hardware/Replay: the reading loop of the tools,
--   `advance_to` and `sync_with`; Hardware/Ends: the end of the file; Hardware/Cursor: a cursor
--   over a list of accesses, the specification of `hardware_file`, and Hardware/Cursor/Refines.
-- - Stream/Strings: `operator>>` for strings.
-- - Ostream: std::ostream as a value: the text so far and the format that the manipulators set.
--   Ostream/Reader: a reader of labelled hexadecimal values, which knows nothing of the printers;
--   Ostream/Rows: what it makes of printed rows.
-- - SyncPoint/Print, SyncEvent/Print, Hardware/Print: the printers (`operator<<`) of points and
--   blocks, of events and of accesses; what is read of them in SyncPoint/Print/Reading and
--   SyncEvent/Print/Reading.
-- - Device: the records of include/device.h; Device/File: `io_file`; Device/Devices: its map;
--   Device/Layout: devices as bytes, and what is read of them; Device/Layout/Loading: the load of a
--   whole file.
-- - Reorder: bin/reorder_hardware; Reorder/Order: its multimap; Reorder/Output: the file that it
--   writes.
-- - Dump: the tools under bin that print sync files, with what they print as values; Dump/Points:
--   what dump_sync_points prints; Dump/Endless: when these loops do not end; Dump/Print: the text
--   that these tools write, and Dump/Print/Reading; Dump/Hardware: which accesses dump_hardware
--   shows; Dump/Accesses: its text; Dump/Devices: dump_io.
-- - Tests: runs, and the theorems at concrete inputs.
--
-- Registers and all other fields are natural numbers, as wide as the field that they are read from;
-- sums, differences and products of uint64_t and uint32_t are taken modulo 2 ^ 64 and 2 ^ 32 where
-- the code computes them. `sync_point_type` is a number, since it is cast from a byte that need not
-- name an enumerator. Members and locals that the program does not initialise are parameters
-- (`Unset`, and `Stack` for the local 32-bit point of `next`).
--
-- The loops of `next`, `fetch_new_event`, `current_event` and `advance_to` need not end, so these
-- take a number of rounds: more rounds than the file has bytes are enough for `next` on a stream
-- that has not failed, and for `fetch_new_event` in a file of whole records. The loop over the
-- blocks of a point always ends and takes its rounds from the size of the data file.
--
-- Numbers are printed with the lower-case digits and the right adjustment that a stream starts
-- with; a stream's errors and its locale are left out. `std::stoul`, which reads an argument of
-- dump_hardware, is a parameter.
--
-- Undefined behaviour is not tracked otherwise, and no theorem says that the code has none: a local
-- point of the old formats and the members that a constructor leaves unset start with values that
-- are parameters, whatever reading them means, and the negation of the least int64_t in
-- `streamable_file::seek_from_end` wraps around. `reserve` in the reader of strings is taken to
-- succeed where the array behind it fits on the stack. The files that a tool reads do not change
-- while it writes: reorder_hardware is modelled for two names of different files.
--
-- Not modelled: the usage messages of the tools; input errors in the middle of a file, and files
-- that change while they are open.
pub mod Base
pub mod Stream
pub mod Outcome
pub mod SyncPoint
pub mod SyncEvent
pub mod SyncFile
pub mod Outfile
pub mod Ostream
pub mod Hardware
pub mod Reorder
pub mod Device
pub mod Dump
mod Tests
