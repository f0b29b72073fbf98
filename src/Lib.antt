-- ===== src/Lib.antt =====
-- A model of the publish/subscribe broker in src/ of the repository, with the theorems that make it
-- correct, and those that show where it is not.
--
-- The program. Publishers and subscribers connect over TCP, and libevent calls a handler for each
-- ready socket. A subscriber sends requests in the multi bulk form of RESP or as inline lines
-- (src/protocol/subcli.c). They are read from its read buffer into an argument vector and run as
-- commands, and the replies go through its write buffer. A subscription puts the channel into a trie
-- (src/common/trie_util.c, over libdatrie) and a set of connections (src/common/hset.c) into a hash
-- table. A publisher's message (src/protocol/pubcli.c) goes to the channels of the trie that it begins
-- with, the empty one aside.
--
-- The model, file by file:
--   Number      string2ll of src/util.c
--   Log         log_set_level and srv_log of src/util.c
--   ObjectId    create_objectid and get_time_sec of src/util.c
--   Random      rand_int64 of src/util.c for numbers up to RAND_MAX
--   Net         src/net.c, over the results of the system calls
--   Config      src/config.c, over cJSON, with the defaults of src/constant.h; Config.Load is about
--               files whose items have the right types, Config.Outcome about all others too
--   Startup     main, server_init and the rest of src/broker.c; Startup.Serving and Startup.Watched
--               are about what comes to the event loop, over Going, what holds of a process that
--               goes on, and Ready, the sockets; Startup.Reachable is about the states
--               that handlers lead to behind a start, Startup.Delivery about a message from there
--   Libc        strchr, strlen and indexing, as src/protocol uses them
--   Sds, Ght, Libevent, Datrie
--               records of the calls of sds, libghthash, libevent, libdatrie and iconv, with what
--               their documentation says as laws; sds and libghthash stand in the repository as
--               copies of other projects
--   Client      sub_client with its argument vector, free_client_argv, reset_client; Client.Create
--               sub_cli_create
--   Protocol    process_multibulk_buffer, process_inline_buffer and the read loop of
--               process_sub_read_buf; Encode says how a client writes a request, and Line is
--               about inline lines
--   Reply       add_reply and its kin, subcli_event_update, prepare_to_write, send_reply_to_subcli
--   TrieUtil    src/common/trie_util.c; Alphabet says which characters a key may have
--   Hset        src/common/hset.c; Hset.Members what calls leave in a set
--   Broker      the shared tables, subscribe_channel, single_chan_publish, process_pub_read_buf,
--               sub_cli_release and pub_cli_release; Broker.Command the table of commands,
--               process_command and process_sub_read_buf, with Ping, Part and Whole about requests;
--               Broker.Handlers the handlers of src/event.c, over the results of read, write and
--               accept, and Broker.Handlers.Reach the sequences of them; Broker.Linked is about the
--               addresses in the sets of channels, Broker.Foreign about channels whose names are no
--               words of letters, Broker.Topics about a message to several channels
--   LinkedList  src/common/list.c, with nodes at addresses of a heap
--   Samples     concrete libraries; Tests applies the theorems to concrete inputs
--
-- State and outcome. A function that changes a connection returns the new one. A Run is a value, a
-- fault (the code touches memory that it does not own, such as a slot behind the end of argv or a
-- freed connection), a call of exit, or a loop of the model out of fuel. The argument vector is the
-- allocated array, with none at a slot that has not been written. Connections that are shared live at
-- addresses in Server.clients, and the tables hold addresses.
--
-- Bounds. A sds value is its bytes, below 2^31 in number, so that int and size_t offsets into it do
-- not wrap; other machine arithmetic is written with its modulus. bulk_len is none at -1. The loop
-- over bulks recurs on multi_bulk_len. The read loop takes one round more than there are bytes in the
-- buffer, which suffices since each round takes a byte off it. The results of read and write are
-- inputs; a list of writes that ends before the buffer is empty leaves the sending loop out of fuel.
-- The publication loop takes as many rounds as the message has bytes and one more.
--
-- A start is a Process: it goes on, has ended with a status, or was stopped by a fault, such as the
-- dispatch of an event loop that is NULL. The results of its system calls are the record Calls.
--
-- Not modelled: malloc returning NULL (the code checks it almost nowhere), the file of the log, the
-- event loop of libevent but for the handlers that it calls, rand_int64 of src/util.c for
-- numbers above RAND_MAX, which needs double arithmetic, and its functions that nothing calls.
-- src/common/zmalloc.c and src/common/cJSON.c are copies of other projects' libraries. A block of
-- zmalloc starts behind its size in a build of the Makefile, so free on it is a fault; strdup on NULL
-- is one too. The argc that the memory of a new connection holds is taken as not negative. The room
-- that subscribe_channel allocates for the converted channel is not tracked.
pub mod Base
pub mod LinkedList
pub mod Number
pub mod Net
pub mod Config
pub mod Libc
pub mod Sds
pub mod Libevent
pub mod Client
pub mod Protocol
pub mod Reply
pub mod Ght
pub mod Datrie
pub mod TrieUtil
pub mod Hset
pub mod Broker
pub mod Log
pub mod ObjectId
pub mod Random
pub mod Startup
pub mod Samples
mod Tests
