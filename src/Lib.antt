-- ===== src/Lib.antt =====
-- sync_agent is an agent, written in C, that is to keep static files in step between machines.
-- This library models the code of src/agent and src/core/base by functions that can be run, and
-- proves what they do.
--
-- The parts and how they interact. `main` (src/agent/sync_agent.c) reads its arguments, loads the
-- configuration (src/agent/sync_config.c), starts the log (src/core/base/elog.c), may become a
-- daemon, and then runs as a server (src/agent/sync_server.c) or as a client. The configuration
-- is read by `property_read` (src/core/base/eproperty.c), which hands the items of a file to a
-- callback, and uses the string helpers (src/core/base/estring.c). The log writes to a descriptor
-- or to the client of a syslog server (src/core/base/esyslog.c). The queue
-- (src/core/base/equeue.c) and the helpers of src/core/base/eother.c stand by themselves, but for
-- `get_ip`, which `main` calls.
--
-- Which file models what:
-- - Base: lists, C strings, C integers and printed numbers over the native numbers.
-- - Queue: src/core/base/equeue.c. `create`, `push`, `pop` and so on are `queue_create`,
--   `queue_push`, `queue_pop`. The record `Queue` is `queue_t`: the array is an option, since a
--   failed `realloc` leaves NULL, on which `realloc` is `malloc`; the mutex is a flag, and locking
--   it twice is a fault. `malloc` and `realloc` are the interface `Allocator`. Below it: the
--   contents as a list, the growth of the array, the operations against the list, sessions of
--   calls, and the sizes that they come to. Queue/Threads interleaves threads that call `queue_push` and `queue_pop`, piece by piece
--   of their calls.
-- - Text: src/core/base/estring.c. A C string is the list of its bytes before the NUL. `trim_str`
--   works on memory with the bytes in front of the string, since it scans backwards.
-- - Property: src/core/base/eproperty.c. `read_line` is the body of the loop on the line buffer
--   of 2048 bytes. The loop runs on fuel, one more than the bytes of the file: each round takes
--   one. It is on a file whose reads do not fail; Property/Failing has the loop on a file whose
--   reading fails from some point on, after any number of rounds.
-- - Effect: what the program does to descriptors, in order.
-- - Syslog and Log: src/core/base/esyslog.c and src/core/base/elog.c. The static variables are
--   records; the results of `open`, `socket`, `sendto`, of the time functions and of `vsnprintf`
--   are arguments. `log_debug` to `log_error` repeat the text of `log_by_level` at their own
--   levels. Log/Relay follows a message from the log to the datagram; Log/Session has sessions of
--   calls against the open descriptor.
-- - Other: src/core/base/eother.c, over the interface `FileSystem` to the system calls on files.
-- - Config: src/agent/sync_config.c. The set and the map are interfaces, since their code is a
--   copy of other projects'. Config/Lists has the two list parsers: the sets that the map of
--   subscriptions points to are in a list, and a pointer is an index into it, so that two entries
--   of one host share a set. The parsers run on fuel, one more than the bytes of their text.
--   Entries has the entries that such a list is the text of; Subscribe, Subscribed, Listing and
--   Served follow the parser through one entry, the map, the list of entries and the last of
--   them. Reference has a parser that cuts a list at its commas, colons and bars, and Reading and
--   Parts compare the two parsers of the code with such cuts on every text; Order permutes the
--   entries. Fields and Keys relate the fields of a loaded configuration to the items of its
--   file, Accept, Verdict and Ending the result of loading to the table of keys. Config/Dump is
--   the list of the lines that `sync_config_dump` prints.
-- - Agent: src/agent/sync_agent.c. The results of `getopt` and of the system calls are arguments;
--   what `main` finds when it starts is the record `World` of Agent/Main. Agent/Modes goes from
--   the text of the configuration file to the mode, Agent/Program on to the end of `main`, and
--   Agent/Outcomes from every file, taken or not, to the end of the program.
-- - Server: src/agent/sync_server.c. A thread is what it does: a list of actions, or of rounds.
--   Held is what a handler holds while it acts. Server/System interleaves the listeners, the
--   handlers of their connections and the signals of src/agent/sync_agent.c: an event is one
--   thread going on to its next call, or a signal, and `Reach` holds of the states that sequences
--   of events lead to. Server/Run is `sync_server_run` of src/agent/sync_agent.c.
--
-- In all of them `none` as the result of a step is an access out of bounds, a NULL pointer
-- followed or a lock taken twice.
--
-- What is not modelled: the copies of other projects' libraries (src/thirdparty: lthread,
-- hashmap, hashset), whose calls are parameters; what the code prints, but for
-- `sync_config_dump`; src/core/base/ememory.c, which nothing calls; src/agent/sync_client.c,
-- which is empty. The NUL that the list parsers of the configuration store one past each of their
-- arrays, and their untested calls of `malloc`, are faults unless the byte can be written and
-- there is memory, which fields of the records SetOps and MapOps say. The sizes of the queue are
-- natural numbers, with bounds on them in Queue/Size. The interleaved
-- threads are those of a server whose threads were all created, and those of the queue call
-- `queue_push` and `queue_pop` only.
pub mod Base
pub mod Queue
pub mod Text
pub mod Property
pub mod Effect
pub mod Syslog
pub mod Log
pub mod Other
pub mod Config
pub mod Agent
pub mod Server
