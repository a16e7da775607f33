-- ===== src/Lib.antt =====
-- A verification library for the TradeKernel operating system kernel.
--
-- The parts of the kernel and the files that model them (paths from the repository's root):
--   Base       numbers of 32 bits, lists, searches and bitmaps that the other files share.
--   Mm.Heap    kernel/mm/memory.c: the best-fit heap. `Blocks` has the structures, `Alloc` is
--              _kmalloc_debug and _kcalloc_debug, `Free` is _kfree_debug, _krealloc_debug and the
--              statistics. The linked list is a list of headers with their addresses.
--   Mm.Pool    kernel/mm/memory.c: create_memory_pool, pool_alloc, pool_free, destroy_memory_pool; a
--              client of the heap.
--   Mm.Paging  kernel/mm/paging.c: directories, page tables by the address of the entry, page frames.
--   Ipc.Ring   kernel/proc/ipc.c: ringbuf_init, ringbuf_push, ringbuf_pop, ringbuf_count; Ipc.Fifo is
--              the bounded FIFO that the ring stands for.
--   Ipc.Queues kernel/proc/ipc.c: msgget, msgsnd, msgrcv, msgctl; `send` and `receive` are the parts of
--              msgsnd and msgrcv behind the search of the table. `Trading` is their client: send_market_data,
--              send_order, send_priority_message and the calls that receive.
--   Ipc.Semaphores, Ipc.SharedPool
--              kernel/proc/ipc.c: semget, semop, semctl, and the shared pool, a client of the heap.
--   Proc       kernel/proc/process.c and scheduler.c: the states of processes, the queues that are
--              linked through the processes, and the scheduler. `Lifecycle` is process_create with the
--              parent and sibling links, and kernel/proc/syscalls.c on top of it and of the scheduler.
--   Fs         kernel/fs/fs.c and disk.c. `Disk` is the driver; `State` has the structures and `Layout`
--              their bytes on the disk; `Inodes` is the input and output of blocks and inodes,
--              `Directories` the entries of a directory, `Paths` is resolve_path, `Files` the creation,
--              the deletion and the opening of files, `Format` fs_format and fs_init, `Bitmaps` and
--              `Descriptors` the allocation of blocks, inodes and descriptors.
--   Net        kernel/net: `Checksum` is net_checksum, `Ip` is ip.c with the packets that eth.c carries,
--              `Tcp` is tcp.c, the connections and their states, and `Socket` is socket.c, its client.
--   Drivers    kernel/drivers/vga.c, the text console; mouse.c, the packets of three bytes; and
--              kernel/gfx/framebuffer.c.
--   Ui         `Shell` is the line editor and parse_args of kernel/shell.c, `Gui` the windows, the
--              widgets and the launcher of kernel/gui.c.
--   Tests      the theorems at concrete states.
--
-- How the code is translated: each file's static variables are a record, each function takes it and
-- returns it with its result. A pointer is its address, and NULL is 0. uint32_t arithmetic is taken
-- modulo 2 ^ 32 where it is written (`add32`, `sub32`, `mul32`). A return of -1 is `none`, `false` or
-- `failure`, as the file says, or the word `minus_one32` where the code returns it as uint32_t.
-- kfree and krealloc are modelled for NULL and for pointers behind a header of the list: what the code finds
-- before any other pointer is not in the model. An int that may be negative is the ℤ of Base.Int.
-- Devices are parameters: what the drive answers and the addresses that kmalloc returns to the other
-- parts are arguments. Loops over a fixed table are structural recursion on its size. The rounding in
-- ringbuf_init has 32 rounds, enough for sizes up to 2 ^ 31; the polls of the drive have DISK_TIMEOUT
-- rounds as in the code; resolve_path has a round for each character of the path, enough since each
-- round goes past at least one; net_checksum folds its sum twice, enough for a sum of 32 bits.
--
-- Not modelled: the print functions, drawing, the registers of the drive, the mouse and the network card,
-- interrupts, the memory orders of two cores at one ring buffer, and context_switch, which is assembly.
-- What memory contains is modelled for the disk, the packets and the framebuffer, not for heap blocks.
-- process_destroy and sys_wait, destroy_page_directory, websocket.c and the commands of the shell are left
-- out, as are Old-Version, an earlier copy of the same kernel, and LC3_baseline, another machine.
pub mod Base
pub mod Mm
pub mod Ipc
pub mod Drivers
pub mod Fs
pub mod Net
pub mod Proc
pub mod Ui
pub mod Tests
