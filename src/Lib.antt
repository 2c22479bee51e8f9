-- ===== src/Lib.antt =====
-- Arbore is a peer-to-peer file system: hosts with 160-bit keys form an overlay in which a
-- message for a key travels to the host nearest to it. This library models the part that decides
-- where it travels, lib/chimera with lib/util/key.cpp and lib/net/host.cpp, the network below it,
-- lib/net, the distributed hash table above it, lib/dht, and the files with their attributes,
-- lib/files, and proves what their operations do.
--
-- A Routing is what one host knows of the others. It has a leafset, the neighbours in the key
-- space, and a routing table, which orders hosts by the prefix that their key shares with the own
-- key. Routing::add and Routing::remove try the leafset first and the table if that refuses;
-- Routing::routeLookup answers with itself, with a leaf, with a perfect match of the table, or
-- with the nearer of two candidates. Both parts read the keys, success averages and latencies of
-- hosts that they share by pointer.
--
-- - Base: names and lemmas that all files share. Lists are measured and indexed by native
--   numbers.
-- - Key: lib/util/key.cpp and key.h. A Key is the list of its five 32-bit words, the lowest
--   first. Order, Distance, Hex and Index relate the operators to the number that the words stand
--   for.
-- - Host: lib/net/host.cpp. A Host is null or a pointer into a heap of HostInfo, and what is read
--   of a host is read from the heap at that time. Stats is about the window of results.
-- - Leafset: lib/chimera/leafset.cpp. Side is about one ordered side, Invariant about order and
--   size, Nearest about the hosts that are kept, Lookup about the hosts that are found.
-- - RoutingTable: lib/chimera/routing_table.cpp. The vector of 40 * 16 * 3 hosts is a list,
--   vector::at is a result that can be out_of_range, and writes of the code lie inside of the
--   vector. Walk is routeLookup; Cells, Invariant, Place, Prefix, Search, Termination and Throws
--   are the proofs.
-- - Routing: lib/chimera/routing.cpp and routing.h. Every method holds a lock for its whole body,
--   so each is one step. Invariant and Lookup are the proofs.
-- - Chimera: lib/chimera/chimera.cpp. A Node is the network, the routing and the own host.
--   Handlers is messages.cpp and check_leafset_job.cpp; Owner, Live and Handlers.Join are the
--   proofs.
-- - Step: how an operation of a node ends. Messages: the packet types of lib/chimera, lib/dht and
--   lib/files.
-- - Network: lib/net/network.cpp, hosts_list.cpp, job_handle_packet.cpp and
--   job_resend_packet.cpp. The jobs are in a memory of their own, so that a read of a deleted job
--   is an outcome. Hosts is the list of hosts and Loop what happens to a datagram; Resend, Acks,
--   Expiry, Wire and Receive are the proofs.
-- - Packet: lib/net/packet.cpp, packet_type.cpp and packet_type_list.cpp. Address:
--   lib/net/pf_addr.cpp and addr_list.cpp. Chunk: lib/files/file_chunk.cpp and
--   file_chunk_desc.cpp. Packet.Write and Packet.Scan are the two directions of the byte form of
--   a packet, Fit is about arguments; RoundTrip and Codec are the proofs about byte forms.
-- - Content: lib/files/file_content.cpp, with Disk and Requests for what goes to the disk and to
--   others. Have, Cut and Flush are the proofs.
-- - Service: lib/dht/dht.cpp and messages.cpp, over a Node and a Storage. Live, Publish and Runs
--   are the proofs; Runs puts all layers of a node together.
-- - Netutil: lib/net/netutil.cpp, numbers and strings as bytes, with RoundTrip.
-- - Dht: lib/dht/data.cpp, datakey.cpp and datastring.cpp, the values of the distributed storage
--   and their byte form, with Sets, Codec and Size; Dht.Storage is lib/dht/storage.cpp, with
--   Contents about the keys that it holds. Key.Bytes is the byte form of a key.
-- - Scheduler: lib/scheduler. The queue of jobs, the repetition of a job and the loop that starts
--   the jobs that are due. Order is about the queue, Loop about the loop.
-- - Tree: lib/files/file_entry.cpp and dir_entry.cpp. Files and directories are objects in a
--   memory of their own and point to each other; a pointer to nothing is an outcome. Attributes
--   is what tree_cfg keeps of them, with Kept, the proofs; Paths is Path2File of
--   lib/files/cache_base.cpp, and Cache its other operations. Invariant (Changes, Rounds, Walks),
--   Places (Found, Removed) and Cache.Roots are the proofs.
-- - Session: lib/util/session_config.cpp, with Numbers and File for the proofs. Tools: stringtok
--   of lib/util/tools.cpp, with Tokens. StrMap: a std::map from strings, with Order. Key.Parse is
--   the assignment of a string to a Key, with RoundTrip.
-- - Config: lib/util/pf_config.cpp. Load is MyConfig::Load, with sections in a memory as the
--   files of Tree; Items, Writes and Sound are the proofs.
-- - Tests: runs of the model on a heap of hosts and on a small tree of files.
--
-- The loops over a fixed number of cells are recursions on that number. The two searches of
-- RoutingTable::routeLookup are loops without a bound in the source; they take a number of rounds
-- as fuel, and 697 rounds are proved to be enough for each. The doubles of Key::operator- hold
-- whole numbers and are numbers here. The loop of the scheduler takes rounds as well, and one
-- more than there are due jobs is proved to be enough under conditions on the clock and on what
-- jobs queue; Start, which the subclasses of Job define, is a parameter. Times count
-- microseconds. The success average is a float of twentieths in the source and counts them here;
-- a latency stands for its place in the order of the doubles. The index of the window is an int
-- in the source, so the model is that of its first 2^31 results.
--
-- The loop of Chimera::Route has no bound in the source and takes a number of tries; the lookups
-- that it makes have 700 rounds. What sendto and the clock answer is a function of the number of
-- packets that were sent before. A handler is one step: the threads of the scheduler and of the
-- network do not interleave inside of it. The averages of latencies are a parameter.
--
-- The loops of GetFullName and IsChildOf over the parents take a number of rounds; more rounds
-- than the address of the file are proved to be enough where a parent is older than its child.
-- The loops of Path2File and LoadAttr over the tokens of a text take one round more than the text
-- has characters, which is proved to be enough. `delete` of a directory takes as many rounds as
-- there are addresses. The characters of a string are numbers below 256. What the file system
-- answers to Load and Save is a parameter. The copy of a section of a configuration takes as many
-- rounds as there are addresses.
--
-- Not modelled: log output and printing, with what is printed only; Key::MakeHash, a call of
-- OpenSSL, and Key::GetRandomKey, one of rand; Key::operator+, which this part does not use;
-- Storage::clean, which goes on from an iterator that it has erased and has no meaning to model;
-- the reference counts of hosts; the opening of sockets, select and the resolver; Read, Write and
-- Truncate of the cache, the walk over the directories of the disk in lib/files/hdd.cpp, the jobs
-- of lib/jobs, AddSection, AddItem and the callbacks of lib/util/pf_config.cpp, and lib/ssl.
pub mod Base
pub mod Key
pub mod Host
pub mod Leafset
pub mod RoutingTable
pub mod Routing
pub mod Netutil
pub mod Address
pub mod Packet
pub mod Network
pub mod Chunk
pub mod Content
pub mod Step
pub mod Messages
pub mod Chimera
pub mod Service
pub mod Dht
pub mod Scheduler
pub mod StrMap
pub mod Config
pub mod Tree
pub mod Tools
pub mod Session
pub mod Tests
