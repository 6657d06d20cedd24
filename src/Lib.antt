-- ===== src/Lib.antt =====
-- The core of the Synx kernel: physical pages and small objects, the scheduler, the keyboard driver, the
-- objects of the file system, the system calls on file descriptors and the user memory that they read
-- and write, the loading of programs, modules and the initial file system, kernel symbols, the string
-- functions, and the tables for the processor and the interrupts.
--
-- Parts, and how they interact
--   Pmm       mem/kmemory.cpp: the page bitmap, which lies in physical memory; allocPage, freePage,
--             allocPages, freePages and init. The other parts of the kernel take their pages here.
--   Slab      mem/slab.cpp: the slabs with their free lists, and the large objects; alloc, free and init.
--             Its pages come from an interface (record Pages), which stands for Pmm.
--   Sched     proc/sched.cpp: the list of tasks, create_task, schedule and the start of the processors.
--             The memory of a task comes from an interface (record Allocator), which stands for Slab.
--             Processors holds the accesses of `schedule` to shared memory, Interleaving what they keep,
--             and Alone relates them to the call as one step.
--   Keyboard  src/ps2_keyboard.cpp: the interrupt handler gives each raw byte to decode_and_push, which
--             puts events into a ring; the system calls take them out by poll.
--   Vfs       fs/vfs.cpp and include/fs/vfs.h: inodes, dentries and open files with their reference
--             counts; iget, iput, dget, dput and close.
--   Fd        proc/syscall_fs.cpp, proc/syscall_process.cpp and the tables of proc/syscall.cpp: the
--             descriptor table open_files and fd_flags; sys_close, find_free_fd, duplicate_fd, sys_lseek,
--             sys_fcntl, the loop of sys_exit and the close-on-exec loop of sys_execve. They call Vfs.
--   Usermem   proc/syscall_user.cpp: the walk of the page tables, copy_user in both directions, and the
--             paths and argument vectors of a program. resolve_user_path reads the dentries of Vfs and
--             the descriptors of Fd.
--   Io        proc/syscall_io.cpp: sys_read, sys_write and sys_vector_io, which move bytes between user
--             memory and the keyboard, the console and the open files. These devices are the record
--             Devices.
--   Elf       the ELF structures of proc/dynlink.cpp and proc/elf_exec.cpp, read from bytes. Both use it.
--   Dynlink   proc/dynlink.cpp: load_elf64, which places an image in a buffer, reads its dynamic section
--             and relocates it. Load holds the passes, Relocate the relocations.
--   Exec      proc/elf_exec.cpp: the checks of load_image before it maps a program.
--   Initramfs fs/initramfs.cpp: the cpio archive. Load holds ensure_parent_dir and initramfs_load; the
--             operations of fs/vfs.cpp and fs/ramfs.cpp that they call are the record Files.
--   Kallsyms  kallsyms/kallsyms.cpp: the search for the symbol of an address.
--   Klibc     src/klibc_string.cpp: memory and string functions.
--   Madt      src/madt.cpp: the search for the table of interrupt controllers, and its entries.
--   Ioapic    src/ioapic.cpp: the routing of interrupt lines, which reads what Madt found.
--   Gdt       src/gdt.cpp: the descriptors and the task state segment of a processor.
--   Prelude   shared names: tests on numbers, lists, options, machine words, counts.
--
-- State
--   The globals of a file are a record (Pmm, Keyboard, Table, Ioapics); each function takes it and gives
--   the new one. Memory and files are functions from addresses to bytes. Inodes and dentries stand at
--   addresses, with 0 for the null pointer; the open files stand in an arena, whose index is the address.
--   A command on them gives `ok` with a value and the new state, or `fault` where the code would read
--   through a pointer to nothing. slab::free is the removal of the object. The error codes are positive
--   numbers under `err`; the code returns them negated. A step of Dynlink is `done`, `halt` with an
--   error, or `fault` for an access outside the file or the buffer. What a device register holds is a
--   parameter, a function of the writes before. The headers of slabs are records and the lists of slabs
--   are lists; the links of free objects are cells of memory.
--   A processor is a number. A call of the scheduler is one step, except in Sched.Processors, where
--   `schedule` goes an access to shared memory at a time and the processors in any order: the code takes
--   no lock.
--
-- Names
--   Functions keep the source's names in lower case with underscores: allocPages is alloc_pages,
--   freePage is free_page. What a loop does stands in a function of its own: alloc_pages_loop,
--   release_entry, close_all, close_on_exec, find_free_loop, load_loop. take_page, give_page and
--   clear_slot are statements that several functions share.
--
-- Bounds and fuel
--   Loops with a counter are structural recursion on the rounds that are left. release_entry has
--   length / 4096 + 1 rounds, one for each page of the entry. The loop of dput over the siblings of a
--   dentry has the parameter `rounds`; the theorems hold for every value, since a dentry of the tree keeps
--   the reference of the tree and the loop is not entered. The string functions have the length of the
--   string, and one more, as rounds; kallsyms_lookup the number of symbols, and one more; initramfs_load
--   the size of the archive, and one more; parse_table the size of the table, and one more. A copy of
--   user memory has as many rounds as bytes, the walk of free over a free list as many as the list has
--   objects, and one more, schedule as many as there are tasks, and sys_write one more than bytes. The
--   wait of sys_read for keys has no bound, and takes its fuel as a parameter.
--   Integers of 64 bits wrap by add64, sub64 and mul64 (mod 2 ^ 64), reference counts mod 2 ^ 32.
--
-- Not modelled
--   The port accesses of the keyboard's start-up, messages on the console, mem/paging.cpp, the mapping of
--   programs and their stack in proc/elf_exec.cpp, the registers in proc/switch_context.S, path walking,
--   mounting, reading and writing in fs/vfs.cpp, fs/ramfs.cpp, the local interrupt controller, the
--   interrupt gates, the dispatch of system calls, and sys_clock_gettime.
pub mod Prelude
pub mod Pmm
pub mod Keyboard
pub mod Vfs
pub mod Elf
pub mod Dynlink
pub mod Exec
pub mod Gdt
pub mod Madt
pub mod Ioapic
pub mod Initramfs
pub mod Fd
pub mod Kallsyms
pub mod Usermem
pub mod Io
pub mod Sched
pub mod Slab
pub mod Klibc
