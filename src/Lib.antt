-- ===== src/Lib.antt =====
-- fpag: a C++ library of containers, memory, debugging and argument parsing. This development
-- models the parts below; paths are from the repository's root.
--
-- - Common: tests, lists, 64-bit words and bit operations that the models share.
-- - MathUtil: include/fpag/base/math_util.h, with `is_power_of_two`, `next_power_of_two`,
--   `round_up` and `round_down` at 64 bits.
-- - SpscQueue: include/fpag/container/spsc_queue.h and src/container/spsc_queue.cc. The record
--   `SpscQueue` has the source's members; `init`, `reset`, the moves, `peek`, `discard`, `dequeue`,
--   `reserve`, `commit` and `enqueue` take a queue and answer the queue they leave. `Ring` is the
--   memory, mapped twice in a row; `Items` says which records a ring holds.
-- - Arena: include/fpag/mem/arena.h and src/mem/arena.cc, with every operation on the region.
-- - ConcurrentArena: include/fpag/mem/concurrent_arena.h and src/mem/concurrent_arena.cc. The
--   record has the source's members with one function per operation; `Lanes` is about the slices
--   that `set_lanes` cuts. `Threads` has any number of threads that allocate as a step relation,
--   with one access to an atomic in a step. `alloc_exact` adds to the offset before it looks at the
--   room, and that look can wrap: that its caller has made sure of the room, as its comment
--   demands, is a premise of the addition.
-- - Dwarf: src/debug/dwarf/reader.h and reader.cc. `Cursor` has the bounded reads of a section,
--   `Forms` the abbreviations, the attribute values and the indexed values, `Ranges` the range
--   lists, `LineHeader` and `Line` the line programs with `Rows` for the sequences of rows they
--   emit, `Unit` the units, and `Module` the units of a module and the lookups by address of
--   module.cc. A reader is a function from a cursor to an outcome, so that a chain of reads that
--   answer false on failure is a `do` block.
-- - Args: include/fpag/arg and src/arg. `Arg`, `Command` and `Matches` are the declarations, their
--   builders and what a parse has matched; `Session` is the state of `Parser::parse_impl` with one
--   function per change, `Parser` its body and the two option handlers, `Entry` the entry points.
--   `Moves` states the changes as a step relation, `Reads` the forms of the arguments that are
--   taken without an error, and `Render` says how a command line is written.
-- - Str: include/fpag/str and src/str. `Memory` has the bytes of a region, `Pool` the string pool
--   over `ConcurrentArena`, `Table` the intern table with its walk and one turn of `try_intern`,
--   `Interner` the calls of `intern` one behind the other. `Threads` has the writers of the table
--   as a step relation, with one load, claim or publication in a step.
-- - SooVec: include/fpag/base/soo_vec.h. A cell of the storage has an object or none, and the
--   storage has room for N of them, or for as many as its block was allocated with, so that to
--   build over an object or outside of the room, or to read or destroy what is not there, is
--   `none`. `Cells` is about the loops over the elements, `Lists` compares an operation with one on
--   lists, `Run` sequences of calls and `Copies` the construction from a list, the copies and the
--   moves.
-- - Logging: include/fpag/logging/async. `Codec` has the arguments of a log call as bytes and
--   `decode_args`, `Serializer` writes a call as a record of the queue, piece by piece as
--   `serialize_to` does, and `Worker` has `deserialize` and `process_batch`. `Records` compares the
--   writing with `enqueue`, and `Delivery` follows calls from `serialize_to` to the sink.
--
-- The records of the log go through the queue. The queue, the arena and the pool use `round_up` for
-- an alignment, the table uses the pool, and the reader, the vector and the parser of command lines
-- stand alone.
--
-- Numbers of the source are u64 (usize on the 64-bit targets): a native number, with `% 2 ^ 64`
-- wherever the source can wrap. An i64 is its bit pattern.
--
-- A failed FPAG_CHECK ends the process, and the models answer `none` there. FPAG_DCHECK is compiled
-- out of release builds, so that what it asserts is a hypothesis; in ConcurrentArena, Logging and
-- SooVec, and in `SpscQueue::init`, a debug check that fails is `none` as well. A loop of the
-- reader that has no bound in the source runs on fuel, one more than the section has bytes; `stuck`
-- says that the fuel was not enough, and `fault` that a read looked outside its section. A string
-- is searched in what the section has from its offset on, as with memchr, so that a fault of that
-- search has no place in the model. In a round of each of these loops a byte at least is taken,
-- with one exception: an extended opcode of a line program whose length stands past the end of its
-- unit can take the cursor back, and the source's loop need not end then.
--
-- The parser of command lines needs no fuel: it goes through its arguments, and through the letters
-- of each, once. The walk of the intern table takes as many steps as the table has slots, as the
-- source's does. A hash, a converter and a help formatter are parameters, as in the source's
-- templates. The loop of `process_batch` has one round more than the queue has bytes.
--
-- Not modelled: the threads, the waiting and the sinks of the logger, formats that are passed to it
-- as pointers, the appends of several threads to one pool (the writers of `Threads` publish a name,
-- not its bytes), the memory order of the table's atomics, the memory order of the queue's and the
-- concurrent arena's atomics (a call of the queue is one step, and a waiting producer is given the
-- positions that the consumer publishes), the page allocator (its answer is a parameter of `init`
-- and of the arena's operations), the iterators, index ranges and slices of the vector, and the
-- parts of the library with no module here.
pub mod Common
pub mod MathUtil
pub mod SpscQueue
pub mod Arena
pub mod ConcurrentArena
pub mod Dwarf
pub mod Args
pub mod Logging
pub mod SooVec
pub mod Str
