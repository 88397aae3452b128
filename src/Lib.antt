-- ===== src/Lib.antt =====
-- Verification library of ttracker, a BitTorrent tracker in C.
--
-- A request is read and split by http.c, queued by work.c and handled by a worker thread: the request
-- is checked, the torrent is looked up in the list of torrent.c, which caches the data base of db.c, its peers and
-- counters change, and the bencoded list of peers is printed into an array and from there appended to an
-- output buffer of buffer.c; a scrape gets the counters of several torrents. http.c writes the buffer
-- to the client. Output buffers come from the pool of buffer_pool.c, thread data from that of
-- td_pool.c.
--
-- The modules, and the code that each is about:
--   Base, Base/*         lists, bytes, C integers and decimal digits over the native numbers
--   Memory, Memory/*     objects of chars, of which each is written or not, and the functions of
--                        <string.h> and <stdio.h> on them
--   Buffer, Buffer/*     buffer.h, buffer.c: `buffer_align_buffer` is `align_buffer`, and so on
--   Bencode              the format: values, their printer and a reader
--   Bencode/Encode/*     bncode.c: `encode_bytes`, `encode_int`, `bencode`
--   Bencode/Entries      bncode.c: the entries of dictionaries, and `bencode_init_peer` is `init_peer`
--   Entry                torrent.h: peers, torrents and the torrent list
--   Reply, Reply/*       torrent.c: `torrent_bencode_torrent` is `bencode_torrent`, and the array
--   Torrent, Torrent/*   torrent.c: `torrent_lookup_torrent` is `lookup_torrent`, `peer_search_peer` is
--                        `search_peer`, `torrent_add_peer_and_return_list`,
--                        `torrent_update_peer_and_return_list` and `torrent_remove_peer` are
--                        `add_peer_and_return_list`, `update_peer_and_return_list` and `remove_peer`;
--                        Unlisting: `torrent_remove_torrent`, `torrent_init_cache_pool`
--   Failure, Failure/*   torrent.c: `torrent_msg_failure_generic`, `torrent_msg_failure_missing_hash`
--   Request, Request/*   http.c: `sanitize_peer_req`
--   Build, Build/Hash    http.c: `http_build_peer_req` is `build_peer_req`, with `url_decode`
--   Query, Query/*       http.c: `http_parse_job_from_request` is `parse_job`, and `http_parse_query` is
--                        `parse_query`
--   Response, Response/* http.c: `http_response`, with its loop `send`, `http_error`, `http_handle_write`
--   Receive, Receive/Any http.c: `http_handle_read` is `handle_read`
--   Db, Db/Steps         db.c: `db_query_lookup_torrent` is `query_lookup_torrent`, with `step_loop`
--   Scrape, Scrape/*     torrent.c: `bencode_scrape_ctx`; http.c: `http_build_peer_req_hash_list` is
--                        `hash_list`; work.c: `_job_handle_scrape` is `handle_scrape`
--   Announce, Announce/* work.c: `_job_handle_announce` is `handle_announce`
--   Pool, Pool/*         what buffer_pool.c and td_pool.c do alike
--   BufferPool, TdPool   buffer_pool.c and td_pool.c with their constants
--   Job, Job/*           work.c: `work_process_job` is `process_job`; main.c: a round of `handle_jobs` is
--                        `handle_job`
--   WorkQueue, Order     work.c: the queue of jobs and the list of thread data
--   Server, Server/*     main.c: `runq_events`, `handle_req` and `handle_jobs`, with `job_complete` of
--                        work.c, as the steps of the threads on the pools and queues
--   Heap, Heap/*         objects that point to one another, and the loops that free a list of them
--   Free, Free/*         the functions that free a structure. Buffers: `buffer_free_buffer`,
--                        `buffer_pool_stop_buffers`; ThreadData: `td_stop_td_pool`; Waiting:
--                        `td_stop_list`; Lists: `scrape_stop_ctx`; Torrents: `free_torrent`,
--                        `torrent_stop_pool`; Values: `bencode_free_with_keys`; Jobs: `job_complete`;
--                        Shutdown, Twice: the end of `do_shutdown`
--   Alloc, Alloc/*       mem.c: `xmalloc`; buffer_pool.c: the pool as it is allocated;
--                        bncode.c: `mk_benc_dict`, `mk_benc_list_entry`, `benc_list_entry_set_v`;
--                        Queues: main.c: `build_server_connection`, `server_init_server_list` and
--                        the queues of `server_init_globals`, to their end in `do_shutdown`
--   Threads, Threads/*   main.c: `server_init_threads`, `cleanup_server`, `server_stop_threads`
--   Events, Events/*     main.c: `runq_events`
--   Tests, Tests/*       runs of the theorems at concrete inputs
--
-- How the code is modelled. An object in memory is a list of cells; a cell that was not written holds
-- nothing. A function that writes takes the object and gives the new one. `none` is undefined
-- behaviour, such as an access outside an object or a read of what was not written; `abort` and a
-- failing assertion in the pools are `none` too. Lists of the LIST_ and TAILQ_ macros are lists of
-- entries, and a pointer to an entry is the address that the entry keeps. `size_t` wraps at 2^64, and
-- the conversion to `int` cuts to 32 bits. The decimal digits of a number n are made on fuel n + 1,
-- which is enough as every step divides by ten. The reader of the format takes fuel too: one for each
-- value, place and end in what is read, which is `size` of the value. The loop over the pairs of a query
-- takes the number of its chars as fuel, as each round takes one at least; the loop of writes takes the
-- number of chars and five, as each call writes one or is one of five failures; the steps of a statement
-- take the fuel that the caller names. The calls of the system and of sqlite3, curl and sscanf are
-- parameters, and their documented behaviour is a hypothesis: `IsWrite` of write, `IsScan` of sscanf, `IsMalloc` of malloc.
-- Every function of the pools and queues holds its mutex throughout, except in pthread_cond_wait, so a
-- run of the threads is a sequence of these calls.
--
-- For what is freed, the memory is a heap of objects: a function from addresses to the words of an object.
-- A structure is a list of such objects, in the order in which they are freed, on top of any other heap,
-- whose addresses it does not use. A second `free`, an access to what is not allocated, and a call that
-- ends in `abort` are faults. The loops that free take fuel above the length of their list,
-- `bencode_free_with_keys` the size of the value; the loop that creates the threads takes fifteen rounds,
-- as four succeed, the tenth failure ends the program and one round sees the end; the loop of accept
-- takes the number of calls that there are.
--
-- What is not modelled: sqlite3, curl and sscanf, which are parameters; the text of messages on stderr;
-- the signals and the loop of `main_server` in main.c; failing allocation but in Alloc, where the program
-- then exits; the overflow of the `int` counters of a torrent, which are integers without a bound, so
-- that histories of announces are of fewer than 2^31; and the links back in the lists, which LIST_REMOVE
-- sets in the next entry. In Threads, TAILQ_INSERT_TAIL is modelled for an entry that is in the list
-- already, too.
pub mod Base
pub mod Memory
pub mod Buffer
pub mod Bencode
pub mod Entry
pub mod Reply
pub mod Torrent
pub mod Failure
pub mod Request
pub mod Build
pub mod Query
pub mod Response
pub mod Receive
pub mod Db
pub mod Scrape
pub mod Announce
pub mod Pool
pub mod BufferPool
pub mod TdPool
pub mod Heap
pub mod Free
pub mod Alloc
pub mod Job
pub mod WorkQueue
pub mod Server
pub mod Threads
pub mod Events
pub mod Tests
