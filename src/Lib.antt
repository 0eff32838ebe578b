-- ===== src/Lib.antt =====
-- SDRaD, secure domain rewind and discard (src/*.c): a C library that gives parts of a process their
-- own memory, guarded by the protection keys of the processor, and that comes back from a fault in
-- one part by discarding it and going on in the part that had made it.
--
-- The parts. `sdrad_global_manager` holds the tables of slots (domains) and threads, the list of user
-- indices and the list of cached memory. `sdrad_init` makes a domain under a user index: it takes a slot,
-- a protection key, a stack or a heap, and keeps the caller's context. `sdrad_enter` and `sdrad_exit`
-- switch stack, rights and allocator. A signal or a smashed stack ends in
-- `sdrad_abnormal_domain_exit`, which goes to the context in the domain's record; `sdrad_init_destroy` then discards
-- the domain. `sdrad_dprotect` gives rights on a domain's memory; `sdrad_malloc` and its kin allocate in a
-- given domain; `malloc` and its kin in the active one.
--
-- The files. A file models one part, and its children prove what their names say.
--   Codes, State: the numbers and the structs of src/sdrad.h and src/sdrad_api.h.
--   Platform: what the code calls and does not contain, a record that every definition takes.
--   Machine: the state the code runs on and its commands; a command ends or faults.
--   Pkey: src/sdrad_pkey.h, src/sdrad_pkey.c, the rights word.
--   Slots: the slot and thread tables (src/sdrad.c, src/sdrad_thread.h).
--   Control: the list of user indices (src/sdrad.c).
--   Running: the running thread, as every entry point finds it.
--   Pools: heaps and stacks of domains (src/sdrad.c, src/sdrad_heap_mng.c).
--   Alloc: `malloc`, `free` and their kin (src/sdrad_heap_mng.c).
--   UdiHeap: `sdrad_malloc` and its kin (src/sdrad_heap_mng.c).
--   Domain: slots, list nodes and cached memory of domains (src/sdrad.c, src/sdrad_cache.c).
--   Protect: `sdrad_dprotect`; Init: `__sdrad_init`; Destroy: `sdrad_deinit` and `sdrad_destroy`;
--   Call: `sdrad_call` (src/sdrad_api.c).
--   Gate: `__sdrad_enter`, `__sdrad_exit`, the same for the root domain, and the assembly stubs.
--   Rewind: `sdrad_abnormal_domain_exit` and `sdrad_init_destroy` (src/sdrad.c), the signal
--   handler (src/sdrad_signal.c), the stack protector's (src/sdrad_error_handling.c), and the way back
--   from `longjmp` in the stub of `sdrad_init` (src/sdrad_init.S). The stub does not load the argument
--   of `sdrad_init_destroy`, so the register is an argument of the model.
--   Boot: `sdrad_constructor` (src/sdrad.c); Threads: src/sdrad_thread.c.
--   Main: `fake_main` (src/sdrad.c), which the program's `main` runs in; Symbols: how
--   `__libc_start_main` (src/sdrad.c) and src/sdrad_thread.c find the functions of the C library.
--   Lock: the mutexes (src/sdrad_thread.h, src/sdrad_thread.c). Lock/Interleave has any number of
--   threads that take turns in any order, each running a program of accesses to what they share and
--   of calls of the mutex. Four parts of the multithreaded build are such programs:
--   Threads/Handshake is `pthread_create` beside the new thread's first routine, with Invariant and
--   Moves for what a thread knows where it stands, Table for the thread table, Progress and Safety;
--   Control/Memory is the list of user indices as nodes in memory, with Chain for chains of nodes,
--   Listed, Inserted and Lost for several threads, Walk, Delete, Insert and Found for one thread and the
--   functions on lists that Control has for them; UdiHeap/Exclusive is who works in a heap under
--   which mutex; Slots/Race is the table of slots.
--   Valid: when the manager is well formed, and that every operation keeps it so: Valid/Start the
--   constructor, Register, Build and Makes `__sdrad_init`, Gates entering and leaving, Caching, Ends and
--   Rewinding the two ways to end a domain, Rights `sdrad_dprotect`, Heaps and Calls the allocation
--   functions, Keeps the rules these proofs are put together from.
--   System: the single-threaded process as a transition system. A step is a call of the library
--   (`malloc` only after the constructor, `sdrad_init` only when the kernel does not give the root
--   domain's key out again), code of the program that leaves the manager alone, or a caught fault
--   of a domain without SDRAD_RETURN_TO_PARENT with the rewinding that follows, whatever the stub's
--   register holds for the user index. The states that a process reaches are those that such steps lead to after the constructor. System/Invariant is
--   about one step and the valid manager, System/Refine about one step and the map from user
--   indices to domains, System/Process and System/Recovery about all reached states.
--   Examples: a small platform and concrete runs.
--
-- The model. A C function is a definition of the same name; a name with leading underscores, as
-- `__sdrad_init`, is `sdrad_init_base`, and so on. Pointers and sizes are numbers. An index outside an
-- array and a pointer that is NULL are faults. Asserts are compiled out in the sources and are not
-- modelled. A loop over a table is a recursion on the rounds that are left; the pool loop has
-- `heap_size / max` rounds, one for each whole pool.
--
-- A mutex is a parameter with the laws that the C library documents. In the programs of Lock/Interleave
-- an access to shared memory is one step, and so is a scan of a table. The numbers that the
-- kernel gives to threads are taken not to be used twice. `ReachBy` are the runs of one thread alone.
--
-- Not modelled: the TLSF allocator (src/tlsf.c, a copy of another project's, whose calls are
-- parameters; a request of some bytes to a NULL allocator is a fault in `sdrad_realloc` and
-- `sdrad_calloc`, and elsewhere a call like any other), the end of the process when `sigaction` fails,
-- and the example programs. The calls of the condition variable stand in asserts that are
-- compiled out, so they do nothing. The transition system System is that of the single-threaded
-- build; of the multithreaded build the four programs above are modelled with their steps
-- interleaved, and every other function as one thread runs it.
pub mod Base
pub mod Codes
pub mod State
pub mod Platform
pub mod Lock
pub mod Machine
pub mod Pkey
pub mod Slots
pub mod Control
pub mod Running
pub mod Pools
pub mod Alloc
pub mod UdiHeap
pub mod Domain
pub mod Protect
pub mod Init
pub mod Gate
pub mod Destroy
pub mod Rewind
pub mod Boot
pub mod Call
pub mod Main
pub mod Valid
pub mod System
pub mod Symbols
pub mod Threads
pub mod Examples
