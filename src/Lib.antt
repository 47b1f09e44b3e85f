-- ===== src/Lib.antt =====
-- DNS relay server.
--
-- The program answers DNS requests from a cache and a host file, and forwards the others to a DNS
-- server. Its parts that are modelled, and where (paths from the repository's root):
--
--   Ring      include/utils/list.h   the circular lists, as the Linux kernel has them. A node is a
--             number and the memory two functions `next` and `prev`; 0 is NULL, and to go through
--             NULL is a `fault`. `for_each` takes fuel; more than the number of nodes is enough.
--   Entry     src/Service/cache.c    `DNS_entry_set` and `DNS_entry_free`. A string is the list of
--             its bytes without the final 0, and a null pointer is `none`.
--   Cache     src/Service/cache.c    the LRU cache: an array of entries, a flag for each slot, the
--             number of entries, and a list with a node for each used slot (node `i + 2` for slot
--             `i`, node 1 for the head). A call and the rotation that a thread makes later are
--             separate operations. Cache.Inv has the well-formed states, and each operation's
--             theorem stands in a module of its own; Cache.Stale has two orders of calls that
--             fault; Cache.Steps has the orders in which the calls, and the rotations that
--             wait, may follow each other.
--   IdMap     src/Server/map.c       the request map: 128 slots for the requests that wait for an
--             answer, under serial numbers below 65535. `time(NULL)` is an argument.
--   Hash      src/Utils/hash.c       the map from strings to values, 1024 buckets chosen by the
--             FNV hash of 32 bits with its wrap-around.
--   Memory    buffers of bytes with a size; to go outside is a `fault`.
--   Inet      src/Utils/inet.c       names on the wire and dotted strings, the branches AF_MAX of
--             `inetParse` and `inetFormat`. The loops take fuel; the theorems say how much is
--             enough.
--   Address   src/Utils/inet.c       the branches AF_INET and AF_INET6 for POSIX, over `inet_ntop` and
--             `inet_pton` of the C library, which are arguments (`Family`).
--   Url       src/Service/url.c      the data of a record: `urlParse` with the pointers in a name, and
--             `urlFormat`, which finds what a name shares with the question's and writes a pointer.
--   Net       include/main.h         the part of a socket address that is stored.
--   Protocol  include/protocol.h     packets with their questions and answers.
--   Host      src/Service/host.c     the host table: a Hash from names to heads of lists, with a
--             store of lists; the lines of the host file are arguments.
--   Query     src/Service/query.c    the answers to a packet from the cache and the host table, and
--             the storing of answers. It takes the cache and the table as they are between calls.
--   Wire      src/Service/packet.c   the bytes of the answer section, written by `responseFormat`
--             and read by `packetParse`.
--   Question  src/Service/packet.c   the question section that `packetParse` reads, over Inet.
--   Packet    src/Service/packet.c   `packetParse` and `responseFormat` in memory, over Question and
--             Url, with the buffers that they write into; what `packetCheck` prints.
--   Server    src/Server/basic.c     `connectHandle`: a request is answered, or forwarded under a
--             number of IdMap; a response is stored and sent to the client that waits. Its packets
--             have lists; Server.Datagram puts `packetParse` in front of it, and behind it what
--             `sendto` is given, in bytes.
--   Socket    src/Server/socket.c    the sockets, with the calls of the system that they make.
--   Start     src/main.c, src/Server/basic.c, src/Utils/thread.c
--             `main` and the beginning of `start`; Start.Loop has the loop of `start` and the threads
--             that it starts as a relation: a round of the loop, a handler, a rotation, a scan, a
--             flush, a new address of the DNS server, or the end of a detached thread is one step, in
--             any order. The runs are those in which no step has been a fault.
--   Console   src/Server/console.c   the options of the command line and the commands of the debug
--             thread; `atoi` and `inet_addr` are arguments.
--   Base      what the modules share: results that may fault or run out of fuel, lists, bits.
--
-- A value of `Run` is a result, a `fault` (an access outside an object or through NULL) or
-- `out_of_fuel`; a theorem with `Returns` says that the code returns.
--
-- Not modelled: what the sockets, threads and locks of the system do (each call on a locked object is
-- one step, a handler of a thread is one step, and what `socket`, `bind`, `select`, `recvfrom` and
-- `pthread_create` answer is an argument; the threads that query the host table can be created); what
-- such a thread writes through pointers to the variables of `qnameSearch` after it has returned; a
-- failure of `malloc` for sizes that are not negative; what only prints; the release of memory, but for what
-- `cacheFree` and `free_hash` free and the arguments of the threads; the conversion of addresses, which
-- is the C library's and an argument; the branches for Windows. Query and Server take a packet with
-- its strings as lists; Packet.View reads them from the buffers of Packet.
pub mod Address
pub mod Base
pub mod Cache
pub mod Console
pub mod Entry
pub mod Hash
pub mod Host
pub mod IdMap
pub mod Inet
pub mod Memory
pub mod Net
pub mod Packet
pub mod Protocol
pub mod Query
pub mod Question
pub mod Ring
pub mod Server
pub mod Socket
pub mod Start
pub mod Url
pub mod Wire
