-- ===== src/Lib.antt =====
-- RPi-Hadoop shares the radio channel of a cluster of Raspberry Pis, which run Hadoop, among its
-- nodes. The master schedules: it collects a report from each node and hands out slots of sending
-- time. Each node reports, holds back the packets of Hadoop's shuffle in one queue for each
-- destination, and writes them during its slot. A sniffer on each node counts the packets that arrive
-- and tells the others.
--
-- Files and code (paths from the repository's root):
-- - Scheduler: `send_config` of CreateLoopbackMS.c, with `max_array`. A round reads the job's
--   progress, chooses the next node with data, fills the table of slots, and sends a message to each
--   node that has one. Jobs is about the progress, Allocation and Dispatch about the table and the
--   messages, RoundRobin about the choice, Round about one round, Fairness about nine, Exclusive about
--   whose turn it is to send, Grants about the messages, Events about sequences of rounds, Live about
--   a table that changes during the search.
-- - Report: `int_arry_toa` of monitor.h, the text that `report_task` there composes, and
--   `process_report` of CreateLoopbackMS.c. Buffers is about the buffers, Safety about the tables'
--   bounds, Server is the loop of `process_report`, RoundTrip about both ends. Earlier is
--   `response_task` of monitor.h, the server before it, and Earlier/Sums what its table holds.
-- - Slot: `recv_config` of CreateLoopbackCS1Q.c, at the other end of the scheduler's messages. Grant
--   joins them.
-- - PacketQueue: `enq`, `deq`, `create_queue` and `is_empty` of CreateLoopbackCS1Q.c, on an explicit
--   heap of nodes. Chain and Ops are about one queue, Array about the nine queues that share the heap.
-- - Forwarder: the reader of CreateLoopbackCS1Q.c (`main`) and its writer (`write_tun`). Ports is
--   about which packets are queued, Pipeline is the step relation of both threads, Turns is about one
--   turn, Order about what is reached. Scan is the writer's passes over the queues, Fronts and Passes
--   are about them, Draining says that they empty the queues; Limit is the sum that the writer starts
--   with, Late about what it writes behind the end of a slot.
-- - HostNumber: `get_last_digit` and `get_Last_IP_Digit` of packet_rate.c, and `get_Last_IP_Digit` of
--   monitor.h.
-- - PacketRate: `process_packet`, `recv_broadcast` and `get_digit_from_content` of packet_rate.c.
--   Counting is about what is counted, Publishing about what a packet leaves and when the counts are
--   published, Exchange about what is written and read back, Receiving about what a broadcast leaves.
--   Start is `main` of packet_rate.c, over the calls of CZMQ and libpcap, and Start/Closing is about
--   the beacons that it opens, with Start/Beacons for what is relied on.
-- - LinkQuality: `get_link_quality` of monitor.h, which reads what the sniffer writes.
-- - MapTasks: `report_task`, `map_list_cmp`, `get_data_size` and `recv_broadcast` of monitor.h, over
--   CZMQ's lists as an interface. Lists has the interface's laws, Pending the same on plain lists,
--   Sending and Refinement join the two, Announced and Broadcast go on to the scheduler's tables, from
--   a message and from the beacon, Instalments is about the file that grows.
-- - Handshake: the exchange before the first slot, of `send_config` in CreateLoopbackMS.c and `main`
--   in CreateLoopbackCS1Q.c. Invariant says how far both ends can be apart, Progress that they reach
--   the end, Addresses is about the address that a node asks at.
-- - Devices: `tun_alloc`, `cread`, `cwrite` and `read_n` of CreateLoopbackMS.c, over the kernel's
--   calls as interfaces.
-- - Copying: the loops of `main` of CreateLoopbackMS.c and CreateLoopback.c, which copy packets
--   between two devices. Conserved is about what becomes of the packets.
-- - SlotWindow: `recv_config` and the sending window of `main` of CreateLoopback.c.
-- - Cluster: the parts joined. A report goes through `process_report` into a round of `send_config`,
--   whose messages go to the nodes' `recv_config` and whose waits take their answers. Delivery is
--   about the messages of a round, Cycle about all of it, Latest about several reports. Threads is the
--   same a step at a time: the events of the master's rounds against `recv_config` on each node and
--   the monitor, which may end a slot. There Turns is about one node, Exclusive about who has a slot,
--   Completion about the end of the rounds. Rates follows the sniffer's counts to the master's tables.
-- - Startup: the options and the connection of `main` of CreateLoopbackMS.c. Laws is about the
--   options, Attempts about the connection.
-- - Setup: `main` of CreateLoopbackMS.c, CreateLoopbackCS1Q.c and CreateLoopback.c from the options to
--   the loop, over the kernel's calls as an interface. Outcomes and Shared are about what the three
--   have in common, AsClient and AsServer about the two roles.
-- - FolderWatch: `folder_watch` of monitor.h, over the calls of CZMQ. Seen is about the files that it
--   looks for.
-- - CText and CArray: `strtok`, `atoi`, `sprintf` and arrays of C as the code uses them. Prelude: what
--   all share.
-- - Tests: runs at concrete inputs.
--
-- How C is modelled: an `int` is an integer whose sums wrap around at 32 bits. Undefined behaviour (an
-- index out of bounds, a null pointer, a buffer overrun, a value that was never set) is the outcome
-- `fault`. A C string is the list of its bytes. The memory that `malloc` returns is a parameter. A
-- node of a queue and the buffer that it points at are one cell of the heap, since they are allocated
-- and freed together. Whether `char` is signed is a parameter of the packet path, and so are the
-- operations of `float` in the sum that `write_tun` starts with; the path begins behind that sum. A
-- round of the scheduler reads the tables that the report thread writes once; Live has the search with
-- a table that changes.
--
-- Fuel: the search for the next node and the countdown of a slot run on fuel. Nine steps are enough
-- for the search whenever it ends, and more steps than the slot has hundreds of microseconds for the
-- countdown; the theorems about them have the bound among their conditions. A walk through a list of
-- outputs has fuel for more items than the list has, and `read_n` for more rounds than bytes are
-- wanted. The loop of connection attempts has 21. The writer's passes run as often as they are asked
-- to; as many as packets are held are enough.
--
-- Not modelled: what ZeroMQ's sockets are created with, printing, locks and signals, which are system
-- calls or calls of ZeroMQ; zhelpers.h and czmq.h, which are copies of other projects' files; the Java
-- client and the shell scripts.
pub mod Prelude
pub mod CText
pub mod CArray
pub mod Report
pub mod Scheduler
pub mod PacketQueue
pub mod Forwarder
pub mod Slot
pub mod HostNumber
pub mod PacketRate
pub mod SlotWindow
pub mod Startup
pub mod LinkQuality
pub mod MapTasks
pub mod Handshake
pub mod Devices
pub mod Cluster
pub mod Setup
pub mod Copying
pub mod FolderWatch
pub mod Tests
