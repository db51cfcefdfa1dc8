-- ===== src/Lib.antt =====
-- A model of the flash-translation firmware: the simulated flash chip with its error-correcting
-- codes and checksums, the translation layer above it, the RAID layer, the DIF
-- tuples, queues and commands of the host interface, and the message queues between the modules.
--
-- The parts, each file being named for what it models:
--   Common      shared tests, lists, 32-bit words and xor; RetCode is ret_code_t of
--               include/common/common.h
--   Ipc         ipc/msg_queue.c, all its functions; Ipc.History runs sequences of calls
--   Ecc         modules/nand/nand.c, the codes: Ecc.Hamming (the (7,4) code and the page code that
--               reads and writes use), Ecc.Bch ((15,7)), Ecc.Ldpc ((12,6))
--   Crc         utils/utils.c, modules/nand/nand.c and modules/host_if/host_if.c, the checksums, with
--               the tables of the source in Crc.Tables
--   Dif         modules/host_if/host_if.c, the DIF tuples, over Crc
--   Nand        modules/nand/nand.c, pages, blocks, bad blocks and the layout of the mapped file
--   Ftl         modules/ftl/ftl.c: Ftl.State (the state, addresses, allocation, log), Ftl.Select (the
--               victim of garbage collection), Ftl.Recycle (the collection), Ftl.Trim,
--               Ftl.Start, Ftl.Snapshot and Ftl.Replay (start-up, snapshots, the log's replay), Ftl.Erase,
--               Ftl.Read, Ftl.Write, Ftl.Replace (bad blocks), Ftl.Wear and Ftl.StaticWear,
--               Ftl.Hybrid (the hybrid map), and Ftl.Mapping (what the tables and the chip say
--               together)
--   Host        modules/host_if/host_if.c: Host.Io (reads, writes, trims), Host.Admin and Host.Feature,
--               Host.Completion (the completion ring), Host.Process (submission and the loop), Host.Perf,
--               Host.Init, Host.Power; it calls the translation layer through the interface FtlOps,
--               which Host.Layer fills with Ftl
--   Raid        modules/raid/raid.c: Raid (capacity, the address map, reads and writes of both levels),
--               Raid.Control (start, end, members), and Raid.Shown, by which an array is one array of
--               pages
--
-- State is passed on: an operation takes the record of its module and gives the record after it. Arrays
-- of the source are functions of the index. A null pointer is `none`, and whether `malloc` succeeds, what
-- `rand()` gives and whether a write to the log succeeds are arguments or streams in the state. Numbers
-- wrap where the source's do (`% 2 ^ 32`); `double` is the interface Floats, of which nothing is assumed.
-- Mutexes and log lines are left out: each call is one step. The buffer on the stack of the collection
-- is an argument, as its first content is not set.
--
-- Loops run over a count that is the source's bound: 256 pages of a block, 120 user blocks, the length of
-- a request. The polling loop of msg_queue_recv_blocking has fuel of its own timeout. The loop of
-- ftl_write that collects until blocks are free has no bound in the source: it runs on fuel, and with
-- more than five free blocks one round is enough.
--
-- `Ftl.Mapping.Serves` is the contract between the layer and the chip: each mapped logical page is held by
-- the physical page of the table, and the two tables are inverse to each other. `Nand.Pages.Holds` is what
-- the chip promises of one page. `Ftl.Mapping.Written.IsSound` adds that the counts of valid pages are
-- right and that the write pointer has no valid page before it.
--
-- Not modelled: start-up and recovery of the chip, read disturb, the contents of the identify data and of
-- the health log (a copy of them gives what the record Pages says), DMA, threads, the manager and the
-- protocol front ends. The memory of the host is a function of the address.
pub mod Common
pub mod Ipc
pub mod Ecc
pub mod Crc
pub mod Dif
pub mod Nand
pub mod Ftl
pub mod Host
pub mod Raid
