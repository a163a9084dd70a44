-- ===== src/Lib.antt =====
-- unp: a network library in C++ (sockets, reactors, a chained buffer, HTTP, length-prefixed messages).
--
-- What is modelled, and where:
--   Buffer          src/reactor/buffer.h and src/reactor/buffer.cpp. A `buffer` is a list of chains, the index of
--                   `last_chain_with_data_`, and `total_len_`; a pointer to a chain is its index, and `next_` is the
--                   index after it. Buffer/Chain has `buffer_chain`: its block is a list of bytes, of which those
--                   from `misalign_` to `off_` are in use. Buffer/Store has the private operations that make room,
--                   Buffer/Write the appends, Buffer/Read `remove`, `drain`, `pullup` and `read_T`, Buffer/Copy the
--                   copies of a buffer and of a part of it from an iterator on, and Buffer/Iter `buffer_iter` and
--                   what follows it; there a buffer is named by a number, and another one than that which is
--                   copied to. Buffer/Packed has what the theorems speak of: the view of a buffer, the bytes of its chains in a row, and
--                   the packed buffers, which are empty or have data in each chain, the last one being
--                   `last_chain_with_data_`, and count their bytes in `total_len_`.
--   Decoder         src/proto/decoder.h for a length of type int64_t, over the buffer. The machine's reading of
--                   eight bytes and protobuf's ParseFromArray are parameters.
--   Util/Kmp        src/util/substring_search/KMP.cpp: the table and both searches.
--   Util/StringPiece  src/util/string_piece/string_piece.h: comparison, find and sub_string on the bytes of a piece.
--                   `strncmp` is written out; of its result only the sign is kept.
--   Buffer/Queue    the calls of the buffer's users beside a queue of bytes.
--   Reactor         src/reactor/poll_demultiplex_table.cpp: PollEventRepo, the table of handlers by handle and event,
--                   and of timeout handlers by time point. Maps and sets are lists without an order.
--   Net/HandleSet   src/net/handle_set.h: the handles of select, with their count and the greatest one.
--   Reactor/Epoller  src/reactor/epoller.cpp: the masks by handle and the calls of epoll. The kernel is a parameter
--                   (`Kernel`), with what epoll_ctl(2) says of its interest list as named hypotheses (`IsEpoll`).
--   Reactor/Epoll   src/reactor/epoll_reactor_impl.cpp: registration over the table and the epoller.
--   Reactor/Dispatch  the rest of that file: the wait, the dispatch of input and output, and the timeouts. The
--                   virtual functions of the handlers are parameters that change the reactor and the rest
--                   of the program; the clock's reading is an argument.
--   Reactor/Select  the table of handles of src/reactor/select_reactor_impl.h and src/reactor/select_reactor_impl.cpp, and
--                   the registration over it and Net/HandleSet.
--   Reactor/Wheel   src/reactor/HHWheelTimer.cpp: scheduling, the slots, the cascade, and the loop that collects what
--                   has expired. Its fuel is a round for each tick that is looked at, and one more.
--   Thread/Pool     src/thread/thread_pool.cpp as a step relation of its threads, in which what a thread does while
--                   it owns the mutex is one step.
--   Util/Date       src/util/unp_date.cpp: day numbers and dates of the years from 1 on in the source's ints, beside the
--                   same formulas over numbers without a bound (Util/Date/Formula) and the calendar's rules.
--   Base            Boolean tests, lists over the native numbers, and machine words.
--
-- The code's objects are passed from state to state. A result is a value with the new state; -1 and the null
-- pointer are `none` beside the state, and a `none` outside is a fault: a copy that leaves its block, a failed
-- assertion, a thrown exception or an index out of range. calloc is taken to succeed. uint32_t and uint64_t
-- wrap around (`add32`, `sub32`, `add64`, `sub64`), and a size is reduced where the code converts it.
--
-- Fuel: `grow_capacity` has 21 rounds, which double 1024 to 2 ^ 31, the bound of its caller's branch;
-- `fall_back` has two more than the index it falls from, since entries of the table are below their index.
-- The loops of `append_printf` and of `decode` take their fuel as an argument, and `running` says that it
-- was used up; so does `none` for the loop over the timeouts. The theorems say how much ends them, or that
-- none does.
--
-- Not modelled: logging; the addresses of blocks; `search_range` and what calls it; `operator=` of `buffer`,
-- which leaves pointers into the other buffer, and the constructor from its first bytes, which leaves a chain
-- that is its own next one; the stubs `append_vprintf`, `prepend` and `peek`; the poll reactor; the waiting
-- and dispatch of the select reactor; the timer wheel's handlers, which enter the wheel again, and its `cancelAll`; the pool's `cancel`; the printing of dates; sockets and HTTP; the copies of
-- easylogging++, json11 and http_parser; the MySQL client and the example programs.
pub mod Net
pub mod Base
pub mod Buffer
pub mod Decoder
pub mod Reactor
pub mod Thread
pub mod Util
