-- ===== src/Lib.antt =====
-- A verification library for the key-value service of this repository: a hash table with chaining
-- kept by a server, with the lists, values and queue below it.
--
-- Parts and files:
-- - Prelude: shared names, C integers (Int), C strings (Text), and the result of a call (Outcome):
--   a value, a fault, or a loop that its fuel cut off. A fault is undefined behaviour of C: the use
--   of a NULL, freed or indeterminate pointer or an access outside an object.
-- - Data, Data/*: source/data.c, include/data.h. A block of bytes is a list whose elements may be
--   unknown, which are indeterminate bytes and those of pointers; `data_dup` builds the bytes of
--   `struct data_t` that its copy lands in.
-- - Entry: source/entry.c. A key and a value, each of which may be NULL.
-- - NodeList, NodeList/*: source/list.c, include/list-private.h. Nodes lie on an explicit heap at
--   addresses that are not used twice. `IsList` says which cells a list stands for, `TailOk` what
--   its tail has to be.
-- - Table, Table/*: source/table.c, include/table-private.h. `IsTable` relates the array of lists
--   to rows of cells, `view` is the abstract map of the rows.
-- - Fifo: source/fifo.c, include/fifo.h and include/task.h. Tasks lie at addresses; a link that was
--   never set is a value of its own. `fifo_add` takes the address that `new_task` gave the task.
-- - Message: source/message.c, include/message-private.h. Texts are blocks of a store; `to_message`
--   and `to_message_t` convert from and to the struct of protobuf, of which only the fields are
--   used. The enumerations are taken as signed integers. Print is `print_message`. Wire is what protobuf
--   gives back for a struct that it packed: "" for a NULL string, as include/sdmessage.pb-c.h has it.
-- - Skeleton: source/table_skel.c. `invoke` and `process_task` are the two steps of a `Server`, which
--   is the globals of that file; deletes and puts become tasks, which a round of the worker runs
--   on the table. The fuel of `verify` is one more than the size of the queue, and
--   Skeleton/Verify shows that it is enough.
-- - Stub: source/client_stub.c and `network_send_receive` of source/network_client.c. A connection is
--   a function from the struct that is sent to what comes back; `ask` and `close` are the statements
--   that the six calls share.
-- - Serialization: source/serialization.c. Whether `realloc` moves the buffer is an argument.
-- - Socket: `write_all` and `read_all` of source/message.c. What the calls of `write` and `read` give is
--   a list, which stands for the fuel of their loops; where the list ends, the loop has not returned.
-- - NetworkServer: `network_send`, `network_receive` and the body of the loop over the connections in
--   source/network_server.c, which calls `invoke`. The packing of protobuf is a pair of functions.
-- - Connections: the array of descriptors and `network_main_loop` of source/network_server.c. What
--   `poll` and `accept` give comes in with each round; the body is an argument. The loop over the
--   connections has one unit of fuel more than there are connections, which Connections/Pass shows
--   to be enough.
-- - Tokens: `strtok`, `atoi`, `strcpy` and `fgets` of the C library, as far as the source uses them: a
--   token and the string that is left, numbers in the range of an int, arrays of fixed size, and lines.
-- - Startup: `table_skel_init` of source/table_skel.c over what ZooKeeper gives; a call of `exit` is an
--   outcome of its own.
-- - Client: the command loop of source/table-client.c, which calls the functions of Stub. The
--   connections come in with each round, since a ZooKeeper thread sets them. `fgets` gives at most 2047
--   bytes of the input at once.
-- - Service: a client and the server together, one module for each call of Stub (Keys for the keys
--   and the size, Deletes, Gets and Values). The request of a call comes in at `handle` of
--   NetworkServer, and the bytes that go out are the answer.
-- - Threads: the two threads of the server. A step is a delete or put in `invoke`, or a round of
--   `process_task`, which queue_lock keeps apart, or a change of the store, as the other requests and
--   the receiving and freeing of messages make it; the states are those that steps without a fault
--   reach, with the writes that were accepted on the way.
-- - Shutdown: `fifo_delete` of source/fifo.c and `sendMessage` (`send_message`) of source/table_skel.c.
--   The loop has one unit of fuel more than there are tasks, which Shutdown/Queue shows to be enough.
--   The nodes of the lists are freed in NodeList/Destroy and Table/Destroy.
-- - ServerProgram: `network_server_init`, and the requests of a server whose start was refused.
-- - Tests, Tests/*: the theorems at concrete inputs, and runs.
--
-- A function of the C source has a definition of the same name; a loop is a definition of its own
-- that ends in `_loop`, and a pointer to a struct is an `Option`, with NULL as `none`.
--
-- Bounds: a loop over nodes has one unit of fuel more than the list ever had nodes, which the
-- theorems show to be enough. Counts of nodes, entries and operations are natural numbers, since
-- an int holds every count that memory allows; the sizes of values are integers, and the sum of `hash`
-- wraps around like an int.
-- `malloc` is taken to succeed where its size is that of an object. Pointers have eight
-- bytes, an int has four, and char is signed, as on x86-64.
--
-- Not modelled: `data_destroy` and `entry_destroy`, since keys and values are values of the model
-- and go with their node, and `list_print`;
-- the ZooKeeper watchers of source/table_skel.c and source/table-client.c; signals; `main` of
-- source/table-server.c and `table_skel_destroy`, after whose `table_destroy` the worker may still run
-- a task; what a request that reads sees while a round changes the table; the arguments of the client
-- and the end of its input. The calls of `print_message` are left out of the functions that print.
pub mod Prelude
pub mod Data
pub mod Entry
pub mod NodeList
pub mod Table
pub mod Serialization
pub mod Socket
pub mod Fifo
pub mod Message
pub mod Skeleton
pub mod NetworkServer
pub mod Connections
pub mod Tokens
pub mod Stub
pub mod Startup
pub mod Client
pub mod Service
pub mod Threads
pub mod Shutdown
pub mod ServerProgram
pub mod Tests
