-- ===== src/Lib.antt =====
-- A model of Mini-Operating-System, a small MIPS32 kernel in C.
--
-- Which file models which part:
--   Prelude         Boolean tests, arrays, signed integers, the bits of a word and masks
--   Utils           utils/utils.c: the memory copies (`Utils.Memory`) and the string functions
--                   (`Utils.Strings`, with `Utils.Text` for terminated strings)
--   Pid             kernel/pc/pid.c: process ids from a bitmap of one page (1024 words of 32 bits);
--                   `used` is the set of pids that it stands for
--   ListHead        include/zjunix/list.h over a store of links; `IsRing` says which list a head
--                   stands for
--   Trap            kernel/syscall/syscall.c, arch/mips32/intr.c and arch/mips32/exc.c: the tables of
--                   handlers (`Trap.Table`) and the dispatch to them (`Trap.Dispatch`)
--   Pc              kernel/pc/pc.c: `Pc.State` has the globals as the record `Sched`, `Pc.Context`
--                   the registers and the CPU, `Pc.Schedule` is `pc_schedule`, `Pc.Kill` the two
--                   kills, `Pc.Create` `pc_create` and `pc_peek`, `Pc.Fork` `do_fork`, `Pc.Init`
--                   `init_pc`
--   Bootmm          kernel/mm/bootmm.c: the table of segments (`Bootmm.Table`), the map of pages
--                   (`Bootmm.Pages`), allocation and release (`Bootmm.Alloc`); `Covers` says which
--                   addresses the table holds
--   Lock            kernel/lock/lock.c with the interrupt enable bit
--   Buddy           kernel/mm/buddy.c: `give_pages` is `__free_pages`, `get_pages` `__alloc_pages`;
--                   `Buddy.Rings` and `Buddy.Alloc` say what the free lists hold;
--                   `Buddy.Init` is `init_pages` and `init_buddy`
--   FsCache         kernel/fs/fscache/fscache.c: `Views` says which block the cache stands for at a
--                   sector where blocks begin; one definition serves the buffers of 4096 and of 512 bytes
--   Slab            kernel/mm/slab.c over `Buddy` and the store of links: the caches and their pages,
--                   `Slab.Alloc` (`kmalloc`) and `Slab.Free` (`kfree`); `Slab.Format` says what a page
--                   of objects is, `Slab.Choice` which cache a size gets
--   Fat             kernel/fs/fat: `Fat.Bytes` is utils.c without the table, `Fat.Table` the access to
--                   the table of clusters, `Fat.Path` and `Fat.Find` the names and the search of
--                   fat.c, `Fat.Reading` and `Fat.Write` its `fs_read` and `fs_write` (`Fat.Reading` has
--                   `content`, the bytes of a file along its chain), `Fat.Create` the new entries,
--                   `Fat.Names` the texts for an entry, `Fat.Init` the start, `Fat.Dir` dir.c and
--                   `Fat.Usr` usr.c
--   Tree            kernel/fs/tree/tree.c: `Tree.Match` is about `matching`, `Tree.Search` about the
--                   rows that `find_node` goes through
--   Vga             kernel/driver/vga.c: the cursor and the screen, `Vga.Numbers` the numbers and
--                   `Vga.Printf` the formats; `Vga.Picture` has the grid of cells that the memory of
--                   the screen stands for, and what a character does to it
--   Ps2             kernel/driver/ps2.c; `Ps2.Queue` says which keys wait in the ring, `Ps2.Take`
--                   what `kernel_getkey` takes from it
--   Myvi            usr/myvi.c: `Myvi.Flush` puts the page on the screen of `Vga`, `Myvi.Modes` are the
--                   modes of the editor
--   Time            kernel/time/time.c
--
-- The parts interact as in the code: the process table hands out and frees pids through `Pid`, fills
-- the tables of `Trap`, and its fork copies the stack with `kernel_memcpy`; the buddy system starts
-- on what `Bootmm` has left, keeps its free lists in the store of `ListHead` and takes its `Lock`.
-- The cache reads and writes a `Device`, an interface with `read_block` and `write_block`; its laws
-- (`IsDevice`) are those of a disk. The file system keeps its table, its directories and its files in
-- such caches, with one device for each number of sectors that a block has. Its operations are of the
-- monad `Act`: a state, and an `Outcome`, which is a result, the error of the code (1 or 0xFFFFFFFF), or
-- no fuel. The slab caches take their pages from the buddy system.
--
-- Unsigned integers are natural numbers with the wrap-around written out; an `int` that can be
-- negative is a `ℤ`, but for `curr_proc`, the numbers of `Myvi` and the characters, colours and cursor
-- of `Vga`, which stand as their bit patterns (-1 is 2^32 - 1). Pointers do not wrap round.
-- A loop that the code leaves only by `while (1)` is a value of its own (`none` of `pc_schedule`,
-- `spins`, `none` of `get_time`, `do_exceptions` and `init_buddy`), and so is one that
-- never ends (`spins` of the scan in `find_pages`, `none` of `split_mminfo`). Loops with a known
-- number of rounds count them. `pc_kill` takes fuel for the depth of its recursion; in the mode that
-- gives children to "init" it does not recur, and any fuel but 0 serves. `find_pages` gives its outer
-- loop one round more than there are pages: each round moves the index up. The string functions take
-- fuel as an argument, one round for each character and one for the terminator.
-- The searches of a directory or a path of `Fat` take fuel, one round for each sector and one for each
-- part of the path; the loops of `fs_read` and `fs_write` over clusters count their rounds. `slab_alloc`
-- takes fuel for the partial pages it tries. `junk` is what a local structure holds at first.
-- `find_node` takes one fuel for its rows, their nodes and the characters of a name. `kernel_vprintf`,
-- `ps2_handler` and `kernel_getchar` take fuel for their rounds, and the last one an argument for what
-- happens while it sleeps. The address that `kmalloc` returns to `do_fork` is an argument, and so is the
-- node of a tree that it returns.
--
-- Not modelled: the assembly stubs (fork, exit, start.s), semaphores (they call functions that the
-- repository does not have), the driver of the card, the shell and its commands, the files and the loop
-- of the editor (what `save_file` does is an argument), `fs_cat`, the logging and debug.c of the file
-- system, and the output of the other parts. A name in a process is its characters up to the
-- terminator; its overflow of the 32 bytes is not modelled.
pub mod Prelude
pub mod Utils
pub mod Pid
pub mod ListHead
pub mod Trap
pub mod Pc
pub mod Bootmm
pub mod Lock
pub mod Buddy
pub mod Time
pub mod FsCache
pub mod Fat
pub mod Slab
pub mod Vga
pub mod Ps2
pub mod Tree
pub mod Myvi
