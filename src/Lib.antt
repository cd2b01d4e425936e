-- ===== src/Lib.antt =====
-- A verification library for marpaWrapper, the C library around libmarpa.
--
-- The program. `marpaWrapper_newp` makes a wrapper around a grammar of libmarpa; the application adds
-- symbols and rules to it, precomputes, starts a recognizer and feeds it terminals by hand or through
-- the generic loop `marpaWrapper_r_recognizeb`. After each step the events of libmarpa are digested.
-- Beneath the wrapper lie a growing array of pointers (manageBuf) and a stack of copies
-- (genericStack).
--
-- The files.
--   Prelude        integers and lists on the native numbers; `int` is ℤ, `size_t` and `unsigned int`
--                  are natural numbers with their wrap-around written out
--   World          what lies outside: the C runtime, libmarpa, the callbacks. A program is a function
--                  of its state and of the trace of calls made so far; an environment says what each
--                  call answers, given that trace. World/Frees counts calls of `free`, World/Tally those
--                  of libmarpa; World/Blocks is a ledger of the blocks given and taken
--   Stack          src/genericStack.c: `new`, `push`, `pop`, `get`, `set_at`, `destroy` and `size` are
--                  genericStack_newp, _pushi, _popp, _getp, _seti, _destroyv and _sizei. Valid has the
--                  invariant, Contents the abstract list, Growth the growth loop, Access reading and
--                  writing, Destroy and Creation the memory, Runs any sequence of operations
--   Buf            src/manageBuf.c: `create` and `free_all` are manageBuf_createp and manageBuf_freev;
--                  Valid has the invariant, Release, Dangling and Balance the memory
--   Message        src/messageBuilder.c: `build` is messageBuilder_ap; Fits that two rounds do,
--                  Balance what becomes of its block
--   Date           src/dateBuilder.c: `build` is dateBuilder; Balance what becomes of its block
--   Logger         src/genericLogger.c: `log_message` is genericLogger_log; Ledger the
--                  callback and the memory, Default the default callback: Writes and
--                  Failures are about its loop over `write`, Balance about its blocks
--   Wrapper        src/marpaWrapper.c and include/marpaWrapper.h: the structures and the macros
--   Wrapper/Lifecycle, Symbols, Rules, Events, Recognizer, Recognize, ProgressReport
--                  marpaWrapper_newp and _destroyv; _g_addSymbolp; _g_addRulep; _marpaWrapper_event;
--                  _g_precomputeb and the _r_ functions; _r_recognizeb; _r_progressb. Their children
--                  hold the proofs, those called Memory what becomes of the blocks; Wrapper/Tables
--                  what symbols and rules share. Of the generic loop, Longest and Order are about
--                  the check and the sort, Offers and Rearranged about what libmarpa is offered,
--                  Reads, Rounds, Ends and Lockstep about the rounds
--   Wrapper/Valuation
--                  marpaWrapper_vb with its stack callbacks: Steps the loop over the steps of a value,
--                  Trees what is around it. Roles, Tallies, Balance, Books and Returns are about the
--                  objects of libmarpa, Valid, Answers, Ends and Termination about the stack and the
--                  loops, Inputs and Leaves about the callbacks, Endless about a failing marpa_v_step
--   Wrapper/Messages
--                  _marpaWrapper_strerror, and the text that _marpaWrapper_logExt logs
--   Wrapper/Logging
--                  _marpaWrapper_log, _logWrapper and _logExt; Ledger the callback and the memory
--   Wrapper/Getters
--                  the getters; Added what they read of an added symbol
--   Wrapper/Life   any sequence of the operations of a wrapper: Frames and Reports have what the
--                  operations leave alone, Sound the invariant, Additions, Numbered and Reading that it
--                  is kept, Runs the step relation
--   Tests          concrete worlds, stacks, arrays and wrappers, to which the theorems are applied
--
-- How state and operations correspond. A structure of the C code is a record, a block of pointers the
-- list of what its slots hold beside the address and the size of the block. Structures that the
-- library reaches through pointers (symbols, rules) are maps from addresses. An operation returns
-- its C result with the new state and trace; results through pointers are part of the result. Every
-- function that takes a wrapper begins with a test for NULL, which is `unless_null`; the definitions
-- are for a wrapper that is there.
--
-- Bounds and fuel. Sizes are those of platforms with 8-byte pointers and 4-byte `int`. The loop of
-- `manageBuf_createp` gets 65 rounds: the array starts with 100 slots or more and doubles, so any
-- number of pointers below 2^59 is reached earlier. The growth loop of the stack gets as many rounds
-- as the index plus one; within a round the loop that fills the new slots has an `unsigned int` for its
-- counter and ends below 2^32 slots only, which `grow` says, and so no stack ever has more. The loop over the reader gets as many rounds as the caller says, since the
-- reader decides when it ends; Wrapper/Recognize/Ends has how many are enough. So do the loops of
-- `marpaWrapper_vb` over the trees and over the steps of a value, which libmarpa ends;
-- Wrapper/Valuation/Termination has how many are enough. A message is built in two rounds at most,
-- where `vsnprintf` answers a second time as the first. The loop over `write` gets as many rounds as
-- the caller says; one more than the line has bytes is enough. Allocation of more than PTRDIFF_MAX
-- bytes is taken to fail.
--
-- Not modelled: libmarpa itself, a copy of another project (a parameter, World.Env); the sorting of
-- the C library (a parameter); the trace messages, which expand to nothing under MARPAWRAPPER_NTRACE;
-- the test program. In the operations of the wrapper a message that is logged is one call, `log`;
-- what that call does is Wrapper/Logging. An identifier of libmarpa that is outside a table reads a
-- NULL pointer in the model, where the code reads past the block.
pub mod Prelude
pub mod World
pub mod Stack
pub mod Buf
pub mod Message
pub mod Date
pub mod Logger
pub mod Wrapper
pub mod Tests
