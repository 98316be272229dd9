-- ===== src/Lib.antt =====
-- The Lindenbaum RTP proxy, a Linux kernel module that relays RTP calls between senders behind a
-- proxy and a session border controller (SBC): a model of its code, and theorems about it.
--
-- The program. Commands that are written to a proc file set the configuration and the rows of a
-- routing table, one row for each UDP port of the proxy. Netfilter hooks look the destination
-- port of each UDP packet up, choose a route by the source of the packet, and rewrite addresses and
-- ports; outgoing RTP packets also get their sequence numbers smoothed, so that a source that
-- starts over looks like one stream. Reading the proc file lists the table.
--
-- The files:
--   Base, Base/*          shared names, Boolean tests, lists and bytes over native numbers
--   Net/ByteOrder         htons and so on, a parameter; Net/Address: the macros of src/module.h
--   Config                src/config.c
--   Packet, Kernel        the kernel's packets, and the kernel functions that the module calls
--   Checksum              src/checksum.c, as built without DEBUG; Checksum/Device: behind a device that
--                         finishes sums
--   Table, Table/Routing  src/table.c
--   Rewrite/Smoothing     set_SN_function of src/rewrite.c, with streams of numbers and a reference in
--                         terms of the numbers alone; Rewrite/Rtp: rewrite_rtp and the packet
--                         layout of src/rtp_packet.h, Rewrite/Rtp/Control: that of
--                         src/rtcp_packet.h; Rewrite/Matching: matching and route choice;
--                         Rewrite/Hooks: the hook functions and the table of hooks
--   Mangle                generic_hook_func of src/mangle.c; Mangle/Forward: the way of a packet
--                         through PRE_ROUTING and POST_ROUTING; Mangle/Calls, Mangle/Pair,
--                         Mangle/Loopback: what that does for the addresses of a call, of two calls
--                         that meet, and for rows that return to their own proxy port; Mangle/Media,
--                         Mangle/MediaStream: one RTP packet, and a stream of them; Mangle/Placed: from
--                         the text of a command to the packets of its call; Mangle/Deleted: a row that
--                         is deleted between the two hooks of a packet; Mangle/LocalOut,
--                         Mangle/LocalIn: packets that the machine sends and receives itself
--   Command               src/command.c; Command/Formats: the formats of its sscanf calls
--   Procfs                src/procfs.c; Procfs/Listing, Procfs/Resume, Procfs/Session and
--                         Procfs/Ending: a read as seq_file makes it, whole and in portions;
--                         Procfs/Operations: the tables of operations, and a read through them
--   Startup               src/module.c and the registration of hooks in src/mangle.c
--   System                sequences of writes to the proc file and of packets at the hooks, as a step
--                         relation; System/Hooks, System/Calls, System/Invariant: what they keep;
--                         System/Packets: the ranges of packets; System/Inside: bytes behind their ends
--   Debug                 src/debug.c and the other functions that print in a DEBUG build;
--                         Debug/Incoming, Debug/Hooks, Debug/Outgoing, Debug/Commands: what such a
--                         build does with arriving packets, in the hook functions, with leaving
--                         packets and in the generic hook function, and with commands; Debug/Builds,
--                         Debug/Equivalence: the hooks of the two builds side by side
--   Spec                  the abstract view of configuration and table, as a replay of the commands,
--                         and the routes that it makes; Spec/Requests: what a command asks for;
--                         Spec/Refinement: System against it
--   Threads               writers of the proc file and packets at the same time, as an interleaving of
--                         their accesses of the shared state; Threads/Safety, Threads/Rows,
--                         Threads/Races and Threads/OneWriter: what several threads, or one writer,
--                         leave; Threads/Commands: the commands of src/command.c as runs of such
--                         accesses; Threads/Hooks: a call of generic_hook_func by its accesses,
--                         config_get, the two lookups of get_routing and the hook function, with those
--                         of writers and other calls in between; Threads/Hooks/Refinement: that among
--                         the runs of Threads; Threads/Hooks/Whole: a call that nobody interrupts, and
--                         generic_hook_func; Threads/Hooks/Commands: commands among the runs with such
--                         calls; Threads/Hooks/Routes, Threads/Hooks/Races, Threads/Hooks/Isolation:
--                         what a call looks up while commands change it, and while they do not;
--                         Threads/Hooks/Rows: what becomes of the rows; Threads/Hooks/Calls,
--                         Threads/Hooks/Lookups: lemmas on single accesses
--   Examples              a little endian machine with the Internet checksum and a scanner of decimal
--                         numbers, and runs of the theorems on it; Examples/Cascade: the calls of
--                         tests/table_test.c
--
-- State and operations. A function of the source has the same name here, in lower case. It takes
-- the static variables that it uses, the configuration and the table, as arguments and returns
-- what it leaves in them; what it changes through a pointer is part of its result. The table is a
-- function from indices, of which the code uses those below 65536. Each access of a row or of
-- the configuration holds a lock in the code and is one atomic step here. In System a
-- write to the proc file and a call of a hook are one step each; in Threads each access is one, so
-- that those of several threads interleave, with any row as the one that a packet finds, and in
-- Threads/Hooks a packet looks its row up, access by access. Numbers are natural numbers, with the
-- wrap-around of 16-bit sequence numbers and 8-bit bytes written out; an address or a port in
-- network order is the number that the machine reads from the field. The bytes behind a UDP header
-- are a list, and a read or a write of rewrite_rtp behind its end makes the result `none`. Sums over
-- the packet are taken by csum_partial of the kernel, over as many bytes as the UDP header says; where
-- that is more than there is, what it yields is left open. A UDP header is complete.
--
-- Parameters. Byte order, checksum functions, skb_linearize and ip_route_me_harder, and sscanf are
-- code of the kernel; they are records of functions with their documented behaviour as laws, taken
-- as instance arguments. So are the functions of seq_file that open, read, seek and release the proc
-- file, without laws. The random number of a new row, the success of kmalloc, copy_from_user and
-- of the registration of hooks are arguments, and so is nf_unregister_net_hooks. In Mangle/Forward the
-- kernel keeps the headers between the two hooks but for what the first one changed. The device in
-- Checksum/Device is a function with the documented behaviour of one.
--
-- Bounds and fuel. The loops of table_clr, next_table_index and rtp_proxy_seq_start are structural
-- recursion on the rounds that are left: 65536 for the rows, and one more than the position for
-- the last. `listed` has fuel 65536, which is enough since the indices ascend.
--
-- A DEBUG build. A function that prints there has a second definition with `_debug` at the end of its
-- name, which also returns what it prints, in order. What is read for printing alone comes as an
-- argument, with what `%s` prints for the name of the device, or of none: the name is an array inside
-- the device, so that the code reads nothing through the pointer itself.
--
-- Not modelled: packets that end within their UDP header, the other tests, the build files, the message
-- at loading and unloading, which names the version and the build, and the kernel's side of netfilter
-- and of the proc file. Of the tables of file operations and of the interfaces of netfilter the code
-- has one for each range of kernel versions: those of the newest kernels are modelled.
pub mod Base
pub mod Net
pub mod Config
pub mod Debug
pub mod Packet
pub mod Kernel
pub mod Checksum
pub mod Table
pub mod Rewrite
pub mod Mangle
pub mod Command
pub mod Procfs
pub mod Startup
pub mod Examples
pub mod Spec
pub mod System
pub mod Threads
