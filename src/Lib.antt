-- ===== src/Lib.antt =====
-- A model of the NOVA-like microkernel of nova-mckernel-lab.
--
-- The kernel keeps execution contexts (`Ec`), protection domains (`Pd`) with capability tables, one
-- scheduler with a ring of contexts for each priority, a memory pool, and two-level page tables. User
-- code enters it by a system call: `Ec::handle_syscall` reads a frame, runs the handler that the table
-- names, and returns to the current context or switches to the one that the scheduler chose.
--
-- Machine holds the 32-bit words and the outcome of a routine: it returns, panics, or does what C++
-- leaves undefined (`fault`). Refines relates the outcome of a routine to that of an abstract one, and
-- Safe puts together what routines promise whose parts do nothing undefined.
-- Base and its children hold the helpers on lists, numbers and Booleans.
--
--   Ec          kern/include/ec.h, kern/include/regs.h: contexts and their registers, by address
--   Scheduler   kern/src/scheduler.cc: rings as arrays with head, tail and count. Scheduler/Ring and
--               Entries say which list a ring holds, Spec says what each operation does to lists,
--               Search, Compact, Pick, Refine and Operations relate the two, Valid is the invariant,
--               Population counts contexts, Runs, Choice, Overflow and Current follow from these;
--               Faults is about dangling pointers and indices out of range
--   Kalloc      kern/src/kalloc.cc: objects from the top of the pool, pages from the bottom
--   Pd          kern/src/pd.cc: capability tables, children, and the chain of parents
--   Ptab        kern/src/ptab.cc: page directory and page tables in the kernel's memory
--   Processor   kern/include/cpu.h and x86.h: control registers, translation buffer and cache.
--               Processor/Translation is about mappings under a translation buffer that holds older ones
--   Entry       kern/src/entry.S and the returns of kern/src/ec.cc: how the registers of a context are
--               saved in its `regs` and loaded from there (`Ec::ret_user_iret` is `leave_iret`,
--               `Ec::ret_user_sysexit` is `leave_sysexit`)
--   Atomic      kern/include/atomic.h: each operation as one step on a variable
--   Kernel      the state that the system calls share, with the constructors of kern/src/ec.cc
--   Syscall     kern/src/syscall.cc without the messages; Ipc has the messages. Syscall/Orderly and
--               Creation are about `create_ec`, Delegation about `delegate_cap`.
--               Ipc/Links and Waiting are about the list of senders, Fast, Slow and Total about how sends
--               and receives end, Blocking about the context that blocks
--   Dispatch    `Ec::handle_syscall` and the table of handlers; Dispatch/Invariant and Dispatch/Calls
--               hold the invariant of the whole kernel
--   Boot        `bootstrap`, the mappings of `init` (kern/src/init.cc), and `Ec::root_invoke`
--   Startup     kern/src/start.S: the first page directory and the registers that turn paging on. Paging
--               is about its entries, Mapped about what they map, Unmap about what `bootstrap` leaves
--   Init        `init` (kern/src/init.cc) as a whole; Msr is kern/include/msr.h
--   System      the kernel from the start on, with user code between the system calls
--   Safety      which pointers of the kernel lead somewhere, handler by handler: Memory, Scheduling,
--               Messages and Domains are about the parts, Calls about `Ec::handle_syscall`, Start about
--               the start, and Life about a kernel from the start on
--   Exception   `Ec::handle_exc`, and the interrupt table of kern/src/gsi.cc
--   Descriptor  kern/include/descriptor.h, gdt.h, idt.h, and the builders of kern/src/gdt.cc, idt.cc
--               and tss.cc
--   Console     kern/src/console.cc: numbers, strings and formats as lists of bytes
--   Bytes       kern/src/string.cc: `memmove` and `strcmp`
--   Bits        kern/include/bits.h: `div64`, the bit scans and `max_order`
--   Serial      kern/src/console_serial.cc, and `printf` of kern/src/stdio.cc: what goes to the port
--   Lapic       kern/include/apic.h, lapic.h and kern/src/lapic.cc: register accesses
--   Spinlock    kern/include/spinlock.h: the ticket lock, one instruction at a time
--   User        user/include and user/src/mempool.cc: frames, system calls by name, and the pool of
--               stacks, with programs as trees of calls; User/Tasks is user/src/user.cc
--   Examples    concrete data, and the theorems at it
--
-- A function of the model has the name of the C++ function (`schedule`, `yield`, `set_cap`,
-- `insert_mapping`), a handler `SyscallX::handle` is `handle_x`. A pointer is an address and `null` is
-- 0. Contexts and domains are two maps from addresses, so the same context seen through the scheduler,
-- a capability and `Ec::current` is one entry. `unsigned` arithmetic is modulo 2^32 where it can wrap.
-- Loops are structural recursion on the number of rounds left; the climb to the root domain takes
-- fuel, and a depth of the tree below the fuel is enough.
--
-- A handler that switches to another context does not return in the code; here it returns the
-- function that the context goes on with. Entry models that function on the words of `regs`, and what
-- the processor itself pushes, pops and flushes is as documented: the frame of an exception, `iret`,
-- `sysexit`, `bsr`, `bsf`, `invlpg` and `clflush`, with lines of 32 bytes.
-- Words of memory are apart from contexts, domains and the kernel's text: a mapping of an address
-- from `LINK_ADDR` on, where the directory has large pages and `insert_mapping` takes them for
-- tables, would write into these, and what is said of system calls and of the start asks for
-- addresses below. What the pointers of a print lead to is a parameter, which user code may change
-- at any point. Not modelled are the caller's frame as user memory, which is read once; what the
-- kernel's own messages say, of which the values are kept; the segments that kern/src/start.S loads,
-- which `init` replaces; and `cpuid`. What a device answers is a parameter, and what is written to
-- it is kept in order. The addresses that the linker fixes, CR3, and what a fresh object's memory
-- held are parameters, as is what the boot loader left. The wait for the serial port takes fuel, and
-- a device that becomes ready within it is enough; a program of the user side is run on the list of
-- the kernel's answers. The flush of a region of n bytes takes n rounds, and each loop of start.S at
-- most 1024, one for each entry of the directory.
-- `print_number` takes 64 rounds, one for each binary digit of the number at most.
pub mod Base
pub mod Machine
pub mod Refines
pub mod Safe
pub mod Ec
pub mod Scheduler
pub mod Kalloc
pub mod Pd
pub mod Ptab
pub mod Spinlock
pub mod Bytes
pub mod Bits
pub mod Exception
pub mod Entry
pub mod Processor
pub mod Atomic
pub mod Console
pub mod Serial
pub mod Lapic
pub mod Descriptor
pub mod Kernel
pub mod Syscall
pub mod Ipc
pub mod Dispatch
pub mod Boot
pub mod Startup
pub mod Msr
pub mod Init
pub mod System
pub mod Safety
pub mod User
pub mod Examples
