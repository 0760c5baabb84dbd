-- ===== src/Lib.antt =====
-- FlowBundler: a traffic shaper for many flows, the data structures that it stands on, and the shapers
-- Eiffel, Carousel and DRR beside it.
--
-- The program. FlowBundler is a module of the BESS software switch. Each of its packets gets the time
-- at which its flow may send it, and waits in a calendar until then. The calendar has 64 queues of
-- buckets; a bucket of queue `q` stands for 2 ^ (q + min_gran_scale) ns, and the rate of the packet's
-- destination chooses the queue. Enqueue computes the time and the queue and calls Insert, which finds
-- the bucket. Dequeue walks the head of the calendar up to the clock, and takes the packets of the
-- first bucket that has any. Buckets take their nodes from a pool of blocks. What leaves a bucket
-- lowers the bytes that its flow has queued, gives the flow a new turn to generate a packet, in a ring,
-- and feeds the estimator of the destination's rate, in a table by hash. A worker of BESS runs the
-- tasks of its modules, RunTask among them, in rounds of a scheduler: a round wakes the traffic classes
-- that are due, runs the task of one leaf of the tree of classes, and accounts for it up to the root.
--
-- The files, and the code that they are about (paths from the repository's root):
--
--   CircularQueue   bess/core/utils/circular-queue.h. The ring as a record of its positions and its
--                   memory: round_size and create are the constructor, push, pop, reset, is_full,
--                   is_empty and elements_num the methods. Invariant has the well-formed rings, Window
--                   and Count the elements of a ring in order, Refine the bounded FIFO.
--   MemoryPool      bess/core/utils/mempool-list.h. Blocks are cells at addresses with their prev and
--                   next links: create (constructor), get_element, put_element, get_num. Chain relates
--                   the links to a list of free addresses, Laws says what the calls do to it, Held what
--                   clients hold.
--   EasyMap         bess/core/utils/easy-map.{h,cc} and flow_rate_estimator.{h,cc}: get, insert, reset,
--                   and update_rate, which is FlowRateEstimator::UpdateRate. Estimates has the window
--                   of one entry, Table the entries.
--   BitMap          the bitmap of bess/core/utils/flow.h, its layers in a list from the last to the first:
--                   create (constructor), set_bit_map, free_bit_map, and the descent find_first of ffs in
--                   bess/core/modules/eiffel.cc. Links says when the layers agree, Laws what a change
--                   does, First what is found, Size what is made.
--   Packet          the parts of bess/core/packet.h and pktbatch.h that the shaper uses.
--   Platform        what Init of FlowBundler and Eiffel asks of BESS, and its checks in their order.
--   HbListBucket    bess/core/utils/hb-list-bucket.{h,cc}: enqueue_packet and dequeue_packet_bulk, on a
--                   bucket and on the members that all buckets share (record Shared). Loop and Laws
--                   follow the nodes between bucket and pool, Numbers the count.
--   ListBucket      bess/core/utils/list-bucket.{h,cc}, the bucket of the other shapers, in the same way;
--                   Numbers is about the packets alone, and Flows has what AddFlow does to its members.
--   Drain           the loop that both kinds of bucket have, for any nodes (record Releasing).
--   PacketGenerator bess/core/utils/PacketGenerator.{h,cc} and random.h: new_generator (constructor),
--                   alloc_packets, rewrite_using_single_template and the setters. Templates is about the
--                   constructor, Turns about a batch.
--   Task            what the RunTask of each shaper returns and counts (bess/core/task.h, port.h).
--   Eiffel          bess/core/modules/eiffel.{h,cc}: init, ffs, adjust_rotation, drop_packet_insert,
--                   enqueue, dequeue, set_max_dequeue_burst; Flows has add_flow, Task run_task. Marks is about
--                   one half and its bitmap, Calendar about inserting, Serve about Dequeue, Start about Init
--                   and Enqueue, Round about RunTask.
--   Carousel        bess/core/modules/carousel.{h,cc}: insert, enqueue and dequeue; Setup has init, add_flow
--                   and set_max_dequeue_burst, Task run_task. Wheel reads the ring as a calendar, the
--                   packets of each slot of time; Insert, Serve, Loop, Dequeue, Anchor and Arrive say what the
--                   operations do to it, Start what Init makes. Due, Turns, Round and Safety are about
--                   histories of turns and commands, with a log of the packets that were accepted.
--   FlowBundler     bess/core/modules/flowbundler.{h,cc}. Geometry: the constants of Init, and
--                   FindQueueIndex, FindBucketIndex and FindRealLocation. State: the members, Insert,
--                   Enqueue and Dequeue. Setup: Init, SetDefaultRate and AddFlow. Task: RunTask. Slots and Place are
--                   about where a packet goes, Rates about its queue, Counters and Counted about the
--                   packet counters and the bitmap, Fill and Pacing about Enqueue, Stored about where Insert puts a
--                   packet, Drain about Dequeue, Start about Init, Flows about AddFlow, Round about RunTask.
--   Drr             bess/core/modules/drr.{h,cc}: the loop of GetNextBatch (round, rounds) with
--                   get_next_flow and get_next_packets; Fill has process_batch, with add_new_flow, enqueue and
--                   resize_queue. Serve is about one flow, Rounds about the loop, Grow about Enqueue.
--   TrafficClass    bess/core/traffic_class.{h,cc}: the classes as a tree, with unblock and block. Step has
--                   picking, accounting, the ways towards the root, add_child and remove_child. Consistent
--                   says when the members of a tree agree; Account, Unblock, Add, Block and Remove are about
--                   one operation each, Climb about both ways towards the root, Order, Position and Erase
--                   about the flags of children, Limit about the tokens of a rate limit over what happens to it
--                   (data Event): accountings, and wakeups of its own and of classes below it.
--   Scheduler       bess/core/scheduler.h: the root, its default class, the wakeup queue and a round of each
--                   scheduler. Wake is about WakeTCs and a round, Size and Tree about the root, Shape
--                   about a round and the default class.
--   ExtendedPriorityQueue  bess/core/utils/extended_priority_queue.h: decrease_key_top. Swap and Heap are about
--                   the heap in its vector.
--   Common          lists, words and bits. Tests: the theorems at concrete inputs.
--
-- Conventions. A method that changes its object returns the new one, after its result; the results 0
-- and -1 are true and false. Unsigned arithmetic has its wrap-around written out (u32, u64, sub32,
-- sub64, shl64, shr64); a shift takes its count modulo the width, as x86 does. A null pointer is none.
-- A member that the code reads before it writes it, and what the clock says, are arguments. A signed
-- number is its bit pattern, so a negative int is at least 2 ^ 31; the counter of the loop that links the
-- blocks of a pool is an int, and exact for fewer than 2 ^ 31 blocks.
--
-- Parameters. Arithmetic on doubles is the record Doubles, the bit patterns of IEEE numbers with the
-- operations of the processor; no law of it is assumed. The clock is an argument of each call: Enqueue
-- takes a reading for each packet. A turn of RunTask is a record of what the pool of packet buffers, the
-- clock and the port do in it, and for Eiffel and Carousel also the packet generator; that the port sends
-- no more packets than it is given is a hypothesis of a step. The string from which the templates of
-- packets are made is taken to hold an Ethernet and an IPv4 header, or to be empty. The
-- rings of DRR (bess/core/kmod/llring.h, derived from DPDK) are a record of calls; that they are first in,
-- first out, and what room they have, are records of laws.
--
-- Trees. A traffic class is known by a number, for its address, and owns its children; its parent is the
-- class that holds it. A way towards the root finds the class with the number and hands each step's news
-- to the class above; if there is no such class, the tree is as it was. What a task returns, and when, is an argument of a round. Of the entries of the wakeup queue with the least time,
-- the first one is taken; the heap of the source may take another one of them.
--
-- Fuel. WakeTCs has as many rounds as its queue has entries, and takes one out in each. The constructor of the ring doubles from 1 up to a value below 2 ^ 31, for which 31 rounds are
-- enough. GetNum walks at most size + 1 blocks. Dequeue has as many rounds as its head needs to pass the
-- clock, and one more. The constructor of BitMap multiplies by 64 at most 10 times for up to 2 ^ 60 slots;
-- beyond that the source does not end. ResizeQueue moves as many packets as the old ring
-- counts. The loop of GetNextBatch has no bound of its own here: `rounds` is any number of its rounds.
--
-- Not modelled: the bytes of packets beyond their length and addresses, with the checksums of templates;
-- the port beyond the answers that Init gets from BESS, which are the record Platform; the packet generator that AddFlow makes, as a member of the shapers, and
-- their commands that pass a number on to it; the counters of processor cycles, which only GetDesc
-- prints; of DRR Init and RunTask; of the traffic classes the weighted fair class, the table of names and the
-- destructors; ScheduleLoop, which runs rounds without an end; and the rest of BESS.
mod Common
pub mod CircularQueue
pub mod MemoryPool
pub mod EasyMap
pub mod BitMap
pub mod Packet
pub mod Platform
pub mod Task
pub mod Drain
pub mod HbListBucket
pub mod ListBucket
pub mod Eiffel
pub mod Carousel
pub mod PacketGenerator
pub mod FlowBundler
pub mod Drr
pub mod TrafficClass
pub mod Scheduler
pub mod ExtendedPriorityQueue
mod Tests
