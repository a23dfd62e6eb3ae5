-- ===== src/Lib.antt =====
-- ROCdbgapi, the library by which a debugger controls and inspects AMD GPU processes.
--
-- The program. A client attaches to a process; the library keeps, for each process, its agents,
-- queues, dispatches and waves (src/process.cpp, src/queue.cpp, src/wave.cpp), reaches memory
-- through the driver and a cache (src/os_driver.cpp, src/memory.cpp), and gives the client handles
-- and events. An address that the client names stands in an address space; it is lowered to a base
-- space (global, local, private), and converted, for one lane of one wave, to global memory. The
-- entry points of include/amd-dbgapi.h.in check their arguments, call the components, and turn
-- what these throw into status codes.
--
-- The files.
--   Base: names that all files share, tests and lists, machine words (Base/Word), and bitwise
--     operations as arithmetic (Base/Bits, Base/Fields, Base/Disjoint, Base/Power, Base/Division).
--   Utils: bit and alignment helpers of src/utils.h, by their own names.
--   Status: amd_dbgapi_status_t, `THROW` as `err`, and the `CATCH` of src/exception.h.
--   AddressSpace: the classes that derive from address_space_t in src/memory.h, as the
--     constructors of BaseClass and AddressSpace, with `lower`, `convert`, `address_dependency`
--     and `address_is_in_address_class` of src/memory.cpp. `convert` is one function for each
--     destination (convert_to_global, convert_to_local, convert_to_swizzled,
--     convert_to_unswizzled, convert_to_generic). Child modules have the theorems: Lower, Swizzle,
--     Contiguous and Generic. AddressSpace/Api has amd_dbgapi_convert_address_space,
--     amd_dbgapi_address_is_in_address_class and amd_dbgapi_address_dependency. What
--     wave_t::scratch_memory_region gives is part of WaveView, also that it may throw.
--   Memory: accesses to global memory and what they give back; Memory/Plain says what an access
--     does to plain memory.
--   MemoryCache: memory_cache_t of src/memory.h and src/memory.cpp, above the transfer to global
--     memory that its constructor takes: xfer_global_memory, with its theorems in Lines, Line,
--     OneAccess, Split and End; write_back and discard in Flush; prefetch in Prefetch.
--   Wave/PrivateMemory: wave_t::xfer_private_memory and wave_t::xfer_segment_memory of
--     src/wave.cpp, above the transfer to global memory, which is a parameter.
--   Architecture: the registers of a wave in its context save area, and what amdgcn_architecture_t of
--     src/architecture.cpp does to them: exceptions here, with Signals, and the state, the halt bit
--     and the parked pc in Architecture/State.
--   Wave/Machine: a wave with its registers, events and displaced stepping operations, and update,
--     park, unpark, raise_event and client_visible_state of src/wave.cpp; set_state and terminate in
--     Wave/Machine/SetState, and the entry points that stop and resume a wave in
--     Wave/Machine/Entry. The queue is suspended, so that registers are read in place; decoding
--     and simulating instructions are parameters (Setting). park_instruction_address and
--     terminating_instruction_address of src/queue.cpp are modelled as they are, with the buffer
--     that they allocate on first use; what that allocation answers, an address or an error, is a
--     parameter here, and allocate_displaced_instruction itself is in Queue; Wave/Machine/ParkBuffer
--     has the address where the two are put together.
--   Wave/Masks: the read-only bits of a register in wave_t::write_register of src/wave.cpp, where
--     they are masked one byte at a time.
--   Watchpoint: the range that the constructor of watchpoint_t in src/watchpoint.cpp selects, with
--     its masks as powers of two in Block and its theorems in Range. Watchpoint/Agent has
--     insert_watchpoint and remove_watchpoint of src/agent.cpp, and of src/process.cpp the loops
--     over the agents that insert, and that find the kind of sharing and the number of watchpoints;
--     Watchpoint/Agent/Entry has amd_dbgapi_set_watchpoint of src/watchpoint.cpp up to its CATCH, and
--     Watchpoint/Agent/Unset amd_dbgapi_remove_watchpoint.
--   Queue: the instruction buffers of aql_queue_t in src/queue.cpp, which the record Device gives
--     the accesses to global memory.
--   DisplacedStepping: displaced_stepping_start and displaced_stepping_complete of src/wave.cpp and
--     those of src/displaced_stepping.cpp, above Wave/Machine and Queue, with the entry points in
--     DisplacedStepping/Entry.
--   Event: the states of events and the queue of pending ones, in src/event.cpp and src/process.cpp,
--     with enqueue_event, next_pending_event and the entry points that report and process an event.
--   Tests: the theorems at concrete inputs.
--
-- Numbers are natural numbers, and what is 64 bits wide in the source wraps at 2 ^ 64 where it is
-- written so (Base/Word). The loop of xfer_private_memory runs on fuel, one unit for each round: a
-- round that another follows transfers a byte at least, but at the null address, and so one unit
-- more than there are bytes is enough for a read.
-- The recursion of the cache's xfer_global_memory has a bound on its depth; it is 2 but at the end of
-- the address space. Its loop over lines has fuel for a round for each byte and one more, and the
-- loops of contains_all, prefetch and write_back have a unit for each line and one more.
--
-- Not modelled: the driver, the decoding of instructions and the register tables of
-- src/architecture.cpp, queries (`get_info`), tracing, client callbacks, and the retry of an entry
-- point after its process has exited. Enabling the traps for a first watchpoint and disabling them
-- for the last are parameters. Not modelled are also the search of suspended queues for new events,
-- and the rest of queues.
pub mod Base
pub mod Utils
pub mod Status
pub mod Architecture
pub mod AddressSpace
pub mod Memory
pub mod MemoryCache
pub mod Wave
pub mod Watchpoint
pub mod Event
pub mod Queue
pub mod DisplacedStepping
pub mod Tests
