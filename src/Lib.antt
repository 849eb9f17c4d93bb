-- ===== src/Lib.antt =====
-- Karmanet: a peer-to-peer network for sharing files. A bootstrap server knows the superpeers, a
-- superpeer knows its peers and is connected to other superpeers by TCP, and a peer talks to its
-- superpeer by UDP. The library models the lists, tables, counters and byte formats that the programs
-- keep and exchange, the handlers of the bootstrap server as a whole, and the state machine by which
-- a client joins, is promoted to a superpeer and leaves.
--
-- The modules and what they model (paths from the root of the repository):
--
-- Common: names of the libraries, Boolean tests and lists over the native numbers;
--   Common/Memory has byte arrays and memcpy, where an access outside an array is none;
--   Common/Positions has nodes of a list named by their place.
-- Wire: src/common/ioutil.c (ltob, stob, btol, btos) and the address functions of
--   src/common/inetutil.c (addr2str, str2addr, str_to_addr, addrcmp, contains_addr).
-- Packet: include/packet_util.h and src/common/packet_util.c: the packet, its constructors, its
--   flags, pck_to_b, b_to_pck, pckcpy.
-- DList: src/common/list.c over an explicit heap: a function from addresses to nodes, where malloc
--   is given the address that it returns and a wrong dereference is none.
-- SpList: src/bootstrap/sp_list.c and src/bootstrap/sp_list_checker.c: the list of superpeers with
--   its iterator. The list is a list of cells, each the address of its node and its data.
-- Bootstrap: src/bootstrap/bootstrap.c: the handlers and the dispatch of main.
-- PeerList: src/client/peer_list.c and the peer part of src/client/peer_list_checker.c.
-- Requests: src/client/fifo_request.c and the request part of src/client/peer_list_checker.c.
-- Select: src/client/select_util.c without the calls of select.
-- Overlay: src/client/near_list.c, and accept_conn, close_conn, set_near and flood_overlay of
--   src/client/superpeer.c; Overlay/Join has join_overlay of the same file, which Overlay/Joining and
--   Overlay/Rounds are about.
-- Retx: src/client/packet_list.c and src/client/retx.c.
-- Transfers: src/client/transfer_list.c; Transfers/Chunks has the chunks and parts of a file of
--   src/client/uploader.c and src/client/downloader.c, and Transfers/Info the exchange before them.
-- SharedFiles: add_files of src/client/superpeer.c and write_diff of src/client/shared.c;
--   SharedFiles/Share has send_share and update_file_list_handler of src/client/client.c and readline of
--   src/common/ioutil.c, and SharedFiles/Own has add_sp_file.
-- Whohas: the answers to requests for files, and how they are read, of src/client/client.c;
--   Whohas/Handler has whohas_request_handler, which uses Requests, Overlay and FileIndex.
-- FileIndex: include/hashtable.h and src/client/hashtable.c without the functions that print: the
--   three hash tables of a superpeer, their chains and what links them.
-- Client: include/state.h, the global variables of include/client.h, the functions that start and stop
--   threads, and init_superpeer of src/client/superpeer.c. Of src/client/client.c, Client/Messages,
--   Client/Joining and Client/Lists have the handlers of the UDP messages, Client/Commands has
--   udp_handler, error_handler and the line RST of pipe_handler, and Client/Loop the main loop as a
--   relation. A handler changes the variables of the state machine (Core), the peers (PeerList), the
--   packets that wait (Retx) and the neighbours (Overlay), by the functions of those modules.
--   Client/Invariant has what the handlers keep, by the part of the code that it is about.
-- Superpeer: join_peer and promote_peer of src/client/superpeer.c.
-- Tests: the theorems at concrete inputs.
--
-- Global variables are a record that each operation takes and returns. A function keeps the name
-- that it has in the source. A result -1 or NULL is none, and undefined behaviour is none as well,
-- the outer one where both occur. Numbers are natural numbers: unsigned fields are bounded by their
-- widths where a theorem needs it, and wrap-around is written out where the source relies on it. A
-- long has four bytes and the machine is little-endian, as ADDR_STR_LEN asks. Structures are copied
-- without their padding.
--
-- Loops over a list are recursion over the list as it is when the loop starts: the rounds before do
-- not change what is left of it. The walks of list.c over a heap run on fuel, and more fuel than
-- cells is enough. The loop of get_download runs on fuel too, since it need not end. The loop of
-- contains_addr runs on the length of the buffer, since every round advances by six bytes, and that
-- of add_files on the length of its data, since every round takes a byte.
--
-- A handler of the client has four outcomes: the results 0 and -1, the end of the process, and
-- undefined behaviour. Its environment (Env) says what the calls return that leave the model: the
-- thread functions, the share files, and what happens with each TCP connection. The calls of
-- remove_all_file and add_sp_file are recorded, not run, and Env says whether they leave their
-- memory: FileIndex and SharedFiles have these functions. The message that udp_handler gets is
-- decoded; Packet/Bounds has the decoding. The variables that the model does not keep are those that
-- no handler tests.
--
-- System calls are parameters: whether a packet is sent, the socket that accept returns, the port
-- that the other side sends, the memory that malloc returns and what it holds. malloc and the
-- mutexes do not fail. A critical section runs without another thread in between, and the handlers
-- of the bootstrap server run theirs one after the other.
--
-- The loops that answer a request for files and that send a file of changes run on fuel, since they
-- may go back; the theorems say how much is enough, and where none is.
--
-- Not modelled: the reading of answers to requests for a digest; whohas_handler_udp, which with
-- the lists of files is a parameter of udp_handler that changes no variable of the state machine
-- and may fault; the commands of the keyboard except leave; the messages on TCP connections; the
-- end of an upload in error_handler; the counters of the pinger and of the superpeer checker; of
-- the transfers the form of the file of the parts and errors of sockets and of read and write; the
-- directories that are shared; and all that only reads files, sends, receives, prints or starts
-- threads.
pub mod Common
pub mod Wire
pub mod Packet
pub mod DList
pub mod FileIndex
pub mod SpList
pub mod Bootstrap
pub mod PeerList
pub mod Requests
pub mod Select
pub mod Overlay
pub mod Retx
pub mod Transfers
pub mod SharedFiles
pub mod Superpeer
pub mod Client
pub mod Whohas
pub mod Tests
