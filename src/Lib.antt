-- ===== src/Lib.antt =====
-- CybOS: models of the kernel's core and what they satisfy. Paths are below source/kernel.
--
-- Parts, and the files that model them:
--   Sched    schedule.c, schedule.h, timer.c, task.S: the tasks are a doubly linked list in memory. State
--            holds `task_t`, the globals and the CPU registers that matter (`Kernel`); TaskList has
--            `sched_add_task`, `sched_remove_task` and `get_next_runnable_task`; Switch `switch_task` with
--            `do_context_switch`; Signal, Tick and WaitQueue the signals, the timer and the wait queues;
--            Pid and Process the allocation of pids, `sys_fork`, `sys_exit` and the smaller calls.
--   Vfs      vfs.c, vfs.h: Registry has the table of file systems, Lookup the way from a path to a node,
--            Mount `sys_mount`, Dispatch the calls that hand over to a file system. There the file systems
--            are a parameter (`Drivers`): what their `finddir` and `mount` return.
--   Mem      paging.c, kmem.c, heap.c: Bitmap has the frames, Kmem the two allocators, Paging the page tables,
--            Directories whole page directories.
--   Gdt      gdt.c: the descriptors of segments and of interrupts.
--   Queue    queue.c: a doubly linked queue.
--   Device   device.c: the list of devices, and the node that a registration creates.
--   Devfs    vfs/devfs.c: the file system behind DEVICE:, a table of nodes.
--   Fat12    vfs/fat12.c: Info has the boot sector and `fat12_mount`, Fat the table of clusters, Filename the two
--            forms of a name, Directory and Read the rest.
--   Ext2     vfs/ext2.c: Info has the superblock, `ext2_read_inode` and `ext2_mount`, Directory the lookups.
--   Cybfs    vfs/cybfs.c: the files in memory; Layout has those that come with the kernel.
--   Console  console.c, conio.c: State has `console_t` and what the consoles share, Print the buffer and the
--            cursor of one console, List the list of consoles, Screen the video card, Output `con_printf`.
--   Keyboard keyboard.c, keys.h: Buffer has the keys that wait, Interrupt the handler and the console
--            switch, Line `con_gets` of conio.c.
--   Klib     klib.c: strings, bit fields, and `do_printf` in Printf.
--   Port     io.c, pic.c: the accesses to ports in their order, and the hardware (`Hardware`), a parameter that
--            answers from the accesses so far.
--   Dma      dma.c: the channels of the DMA controllers; Address what the controller gets.
--   Pci      pci.c: the scan of the buses and the search for a device; Find and Scan the search against a reference.
--   Ide      drivers/ide/ide.c, ata.c, atapi.c, partitions.c: Register has the registers of a channel and
--            `ide_polling`, Ata the reads and writes of sectors, Block `ide_block_read`, Partition the MBR and the
--            reads of a partition, Init the search for drives. Disk is what is asked of the hardware of a drive: busy for a
--            while, then with the sector that it was asked for; Aligned and Inside read from it.
--   Floppy   drivers/floppy/floppy.c: Command has the bytes of a command and the waits, Drive the motor, the seek and
--            the reads, Init the search for drives. The interrupt of the controller and what the DMA
--            transfer leaves in the buffer are a parameter (`Controller`).
--   Elf      ff/elf.c, exec.c: Format has the headers, Loader the two ways to load a file and `sys_execve`,
--            on the physical memory, through the page tables; Accepted which files are taken.
--   Machine  service.c, idt.c, `kprintf` of kernel.c: State puts the states of the parts side by side, Service is
--            `service_interrupt`, Irq the interrupts and exceptions, Vectors the table of interrupts.
--   Boot     kernel.c: the boot parameters, the mount of the root and the name of the first program.
--   Mutex    mutex.c, mutexasm.S: Exclusion has the calls of any number of processes as a step relation.
--   Word     the digits of machine words, which the others share; Prelude the names from the libraries,
--            the lists and the Boolean tests; Prelude/Run the outcomes of code that reads and writes a state.
--   Tests    small inputs, and the theorems at them.
--
-- The scheduler serves the timer (`timer_interrupt` asks for a reschedule), the process calls and the wait
-- queues; they share the `Kernel` record. Lookup uses the mount table that Mount fills, and both use the
-- strings of Klib. The page tables take frames from the bitmap and their memory from the allocators. The drivers reach
-- the hardware through Port alone, the floppy driver also through Dma and the IDE driver through Pci. The service calls
-- and the interrupts go to the scheduler, the console, the keyboard and the loader, each with its own part of the state.
--
-- A piece of code is a function from the state to an outcome: a value with the new state, an access through
-- NULL or past an array (`fault`), a call of `kpanic` or `kdeadlock` (`panic`), or a loop without fuel left.
-- Addresses are numbers and NULL is 0. Integers are bit patterns: 32-bit sums wrap where the code computes them.
-- Loops along a linked list take fuel, and a list of n tasks needs n or n + 1 rounds; the loop along a path needs more
-- fuel than the path has bytes; the search for a pid one round for each pid it tries; the growth of the heap one
-- round more than the steps of 64 KB. The search for a PCI device takes one round more than the list has entries. A wait
-- for the hardware runs out of fuel if the hardware never answers; for a drive of Ide/Disk as many rounds are enough as
-- it may be busy. Loops over an array recurse on its list, and those that count, as over the sectors of a read, on the
-- count; neither needs fuel.
--
-- Not modelled: the order of the initialisations and inline assembly; the divisor of pit.c, which is a float, and the
-- task segment; console_init; sys_umount, which only panics; the operations of file systems and drivers that do nothing
-- or only print; the report of a page fault; the boot loader, the user programs and the tools of the build, which
-- are not part of the kernel. `sys_fork` takes the addresses of the memory it allocates and of the cloned page directory
-- as arguments, and a driver has the devices that it registers in a list of its own. Output by kprintf is left out, but
-- for `kprintf` itself.
pub mod Prelude
pub mod Word
pub mod Klib
pub mod Sched
pub mod Vfs
pub mod Mem
pub mod Pci
pub mod Gdt
pub mod Port
pub mod Queue
pub mod Device
pub mod Dma
pub mod Floppy
pub mod Fat12
pub mod Cybfs
pub mod Ext2
pub mod Elf
pub mod Devfs
pub mod Console
pub mod Keyboard
pub mod Ide
pub mod Mutex
pub mod Machine
pub mod Boot
pub mod Tests
