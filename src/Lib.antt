-- ===== src/Lib.antt =====
-- A model of the R5O5 kernel, a small operating system in C for one RISC-V core, with the theorems
-- that make its parts correct.
--
-- The parts and how they interact. kernel/memoryAllocator.c hands out physical pages, and
-- kernel/paging.c builds three-level page tables from them. kernel/buffer.c caches disk blocks in
-- 30 buffers, kernel/disk.c moves one block between a buffer and the virtio device, and the
-- transfers in kernel/buffer.c and the log in kernel/debug.c copy bytes through buffers, between
-- the disk and physical or virtual addresses. kernel/elfReader.c lists the sections of a program on
-- the disk, and kernel/createProcess.c maps pages for them, copies them there and makes the process
-- ready. kernel/process.c chooses the process to run, on the timer interrupts that
-- kernel/interruptHandler.c takes; the interrupts of the uart and the disk go to kernel/console.c,
-- which edits the input line and sends characters, and to kernel/disk.c. kernel/print.c prints
-- through the console. mkfs/r5o5_mkfs.c puts programs on the disk before the kernel runs.
--
-- Where each part is:
--   Base       shared names, lists and arrays, bits of words, and what a run of code comes to. A
--              command takes a state to an outcome: it returns, it calls error(m) and stops with m,
--              it leaves an array (`fault`), or it loops for ever (`hung`).
--   PageAlloc  kernel/memoryAllocator.c: pageAllocInit, allocatePage, allocatePages, freePage and
--              freePages, over `pages`, `currFreePageNode` and `numFreePages`
--   Paging     kernel/paging.c: the bit fields of addresses and entries, setFlags, setPageNum,
--              allocatePageDirectory, isVirtualPageAllocated, mapVirtualPage, allocateVirtualPage,
--              virtualToPhysical and deallocatePageTable, over the allocator and physical memory
--   Buffers    kernel/buffer.c: binit, bget and brelse, over `bcache`; a pointer to a buffer is its
--              index, and 30 stands for `bcache.head`
--   Disk       kernel/disk.c: alloc_desc, free_desc, free_chain, alloc3_desc, diskRW and diskIntr,
--              over `disk` and the core's registers, which diskRW changes before and after it
--              waits; the device is a parameter
--   BlockIo    kernel/buffer.c: bread, bwrite, readBytes, writeBytes, readBytesVirtual and
--              writeBytesVirtual; kernel/debug.c: logDataInit and logData; the abstract view is one
--              array with the bytes of all blocks
--   Cpu        kernel/functions.h: the machine-mode registers and the interrupt switches
--   Process    kernel/process.c: procesDescriptorInit, selectProcessToRun, runProcess, dispatcher;
--              kernel/interruptHandler.c: userInterruptHandler, over `pd` and `currentProcess`
--   Console    kernel/console.c: consputc and consoleintr, over `cons`
--   Interrupts kernel/interruptHandler.c: kernelInterruptInit, devintr and kernelInterruptHandler;
--              kernel/uart.c: uartgetc and uartintr; kernel/plic.c: plic_claim and plic_complete
--   Print      kernel/print.c: printint, printptr and printf
--   Elf        kernel/elfReader.c: elfReader and allocateELFReader; kernel/algo.c: max and ceilDiv
--   Loader     kernel/createProcess.c: programLoader and createProcess
--   Boot       kernel/main.c: main up to its last loop; kernel/disk.c: diskInit; kernel/uart.c:
--              uartinit; kernel/plic.c: plicinit and plicinithart
--   Mkfs       mkfs/r5o5_mkfs.c: buildDisk, storeProgram and the loop of main
-- In each, the file of that name holds the definitions, the folder of that name their lemmas and
-- theorems, by subject, and Tests there runs them on concrete states.
--
-- Numbers and loops. Integers are natural numbers, with the wrap-around of uint, uint16 and uint64
-- written out. An array is a function of the index, and the bound is tested where the code indexes
-- it. A for loop recurses on its rounds. The two loops of `bget` get 31 rounds, one for each buffer
-- and one for the head; `free_chain` and `diskIntr` get 9, as there are 8 descriptors; control-u
-- gets 129, as the buffer has 128 characters. `printint` gets 16 digits, the size of its buffer. The
-- loop over the list of sections gets 30 rounds, one for each node of the array. `uartintr` gets a
-- number of rounds, which has to be more than the characters that are waiting. The counter of the
-- loop over a section's addresses is an int, and there is no value after 2^31 - 1.
--
-- Parameters. The linker places START_PAGE, the two trap vectors and the local variables elf and ph;
-- the virtio device is a function on the driver's state and the bytes of the disk, and the theorems
-- that need it to work say what they suppose of it for a request as the device documents it, as do those about the registers of the uart and
-- the PLIC. For the host program, whether a seek or a write of the image succeeds is a parameter.
--
-- Not modelled: the assembly (kernel/entry.S, kernel/kernelvec.S, kernel/uservec.S), so a process is
-- followed to the entry of `userret` and from the interrupt handler on; the memset of
-- kernel/string.c, in whose place the fields that lie in its memory are cleared; logs/getLogInfo.c,
-- which copies one block between two files of the host; and accessors of registers in
-- kernel/functions.h that no modelled code uses.
pub mod Base
pub mod BlockIo
pub mod Boot
pub mod Buffers
pub mod Console
pub mod Cpu
pub mod Disk
pub mod Elf
pub mod Interrupts
pub mod Loader
pub mod Mkfs
pub mod PageAlloc
pub mod Paging
pub mod Print
pub mod Process
