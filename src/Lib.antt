-- ===== src/Lib.antt =====
-- The simulation of a bank's queues, in C: clients arrive over time, wait at standard and robotic
-- servers, are served for a time that depends on who they are and where they go, and the run's means
-- are reported. This library models the program's own code, part by part, and states what it does.
--
-- Parts and files:
--   Queue      src/queue.c, include/queue.h: a growable array used as a FIFO queue, and its iterator.
--              Queue.Array has the block of slots and the shifting of items, Queue.Ops the functions
--              under their C names (`push` is `queue_push` after its tests for NULL), Queue.Layout the
--              shape of a well-formed queue and its contents, oldest item first.
--   Platform   what the program takes from elsewhere, as a record: `double` arithmetic, `log`,
--              RAND_MAX and the hash map (include/hashmap.h), with the laws of the latter in
--              `TableLaws`; Platform.Sample has the samples of src/utils.c.
--   Client     src/client.c, include/client.h: `client_t`, its setters, and in Client.Arrivals
--              `clients_init`, which makes the clients of a run.
--   Server     src/server.c, include/server.h: Server.Types has the structures and constructors,
--              Server.Table the hash and comparison, `init_table` and `get_service_time`, Server.Load
--              the load and the assignment of a client, Server.Serve the tick, the next client, the
--              end of a service and the retry, Server.Accounts the statistics and `server_free`.
--   System     src/system.c, include/system.h: System.Assign has `get_client` and `assign_client`,
--              System.Tick one tick, System.Totals `compute_stats`, System.Simulate `simulate`.
--   Stat       src/stat.c: sums and averages over all tests; Stat.Print has `print_stats`.
--   Output     include/erf_io.h: `erf_log`, and what a call of `printf` writes as a list of texts and
--              values. Client.Print and Server.Print have the prints of those parts.
--   Params     src/utils.c, include/utils.h: `sim_param_t`, its options and `initialize_parameters`,
--              over a parser of the command line in Platform.Options with its law, `CFlagLaws`.
--   Main       src/main.c: the two setups, one test, the loop over tests, `main`. Main.Prints has what
--              the setups print themselves, apart from their runs, and `print_memory_usage`.
-- The other modules below Queue, Client, Server, System, Stat, Params and Main hold proofs.
-- Server.Left has the ticks that a server needs for its clients, System.Means the averages that the
-- means of `compute_stats` stand for, Stat.Averages the fields of the statistics one by one, and
-- Server.Counters what a step may do to the counters of a server. Server.Machine is the abstract
-- server: a step relation on who is finished, who is served and for how long, and who waits, in
-- order; System.Follow relates the ticks of the system to it. Server.Overflow is about the wrap of the
-- sum of queue lengths, and System.Bounded about the size of the counters. Client.Known is about the
-- clients on the heap, Common has shared names and lemmas, and Tests concrete data and runs.
--
-- How they interact: `system_tick` takes the client who is due from the queue of the system, gives it
-- to the server of lowest load, ticks every server and runs each through `update_server`, which ends
-- a service, retries it or takes the next client; all of them move clients between queues.
--
-- State and environment:
--   * A `client_t *` is a number, its place on a heap that all queues and servers share, so that a
--     write by one holder is seen by the others. Servers are distinct objects and are passed on as
--     values. A structure that a function tests for NULL is an option.
--   * What the code cannot decide is an argument: each answer of the allocator, each number drawn by
--     `rand` and what new memory holds where the code does not write it. `Luck`, `Tick`, `Draw`,
--     `Memory` and `Chance` collect them.
--   * A failed assertion, a call of `exit`, a read outside a block and a read through NULL are the
--     faults of `Result`.
--   * An `unsigned` and its conversion to `int` have their wrap-around written out (`% 2 ^ 32`,
--     `int_of_size`). So have the places where the code mixes the two: `int += size_t`, the sum of
--     the queue lengths of a server, is `add_size`, and `int / size_t`, the mean queue size, is
--     `div_size`. A sum or quotient of two `int`s is one of integers without bound, since its
--     overflow is undefined in C. The counters of a server, which are only raised by 1, are natural
--     numbers. An `enum` is the number that C stores.
--   * The tag of a server is a constructor of `Server`, `invalid` for any other tag.
--
-- Refused memory: the code does not read what `queue_push` answers, so a refused request loses a
-- client. The invariants, from `BaseInv` to `SystemInv`, and the relation `Remains` have an index
-- `strict`: true where every push is granted, so that no client is lost, and false where the
-- allocator may answer as it likes.
--
-- Bounds and fuel: the theorems on queues and loads assume fewer than 2 ^ 31 clients, so that no
-- capacity and no conversion to `int` wraps; `assign_client` tests against INT32_MAX, so loads stay
-- below 2 ^ 31 - 1. The code adds the length of a server's queue to an `int` in every tick, and
-- asserts that the mean does not become negative, so the theorems on rounds and ticks assume at most
-- `most`, 46340, clients and ticks: 46340 * 46340 < 2 ^ 31, so that the sum does not wrap. In a
-- longer run it may, and the assertion is then a fault. The bound is meant for the sums of `int`s
-- too: no time of such a run is above 46340, nor is a mean of times, and 10000 * 46340 < 2 ^ 31. The
-- loop over an iterator runs on fuel, which is one more than the queue's size in `compute_stats`,
-- enough for every item and the last test. The loop of `clients_init` ends at a time drawn at
-- random, so its fuel is an argument; `out_of_fuel` is no outcome of the code.
--
-- Not modelled: the moments at which a test prints and logs, the digits of a printed number, the
-- inside of the flag parser (src/cflag.c, another project's library) and of the hash map
-- (src/hashmap.c, likewise), seeding and the size of memory. `queue_iterator_destroy` and the freeing
-- of blocks leave nothing to observe.
pub mod Common
pub mod Queue
pub mod Platform
pub mod Output
pub mod Client
pub mod Server
pub mod System
pub mod Stat
pub mod Params
pub mod Main
pub mod Tests
