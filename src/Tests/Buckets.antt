-- ===== src/Tests/Buckets.antt =====
-- A bucket that takes one packet from a pool of three nodes, and gives it back.
use flow_bundler.Common.{◌≡◌, refl, arith, [], ◌∷◌, length, replicate, Bool}
use flow_bundler.CircularQueue
use flow_bundler.EasyMap
use flow_bundler.MemoryPool.{create, link_blocks, get_element}
use flow_bundler.MemoryPool.Laws.{first_blocks, create-IsPool}
use flow_bundler.Packet.{Packet, PacketBatch}
use flow_bundler.HbListBucket.{
  Shared, HbListBucket, empty_bucket, enqueue_packet, dequeue_packet_bulk,
}
use flow_bundler.HbListBucket.Loop.{IsBucket}
use flow_bundler.HbListBucket.Laws.{
  Outcome, Stored, stored_node, dequeue_packet_bulk_lem, enqueue_packet-Stored,
}
use flow_bundler.ListBucket.{ListShared, ListBucket, new_bucket}
use flow_bundler.ListBucket
use flow_bundler.ListBucket.Laws.{
  IsListBucket, ListOutcome, ListStored, list_bucket_bulk_lem, enqueue_packet-ListStored,
}
use flow_bundler.Tests.Estimators.{numbers}

abbrev members : Shared
members = record {
  pool = create 3 7;
  pkts_num = 1500 ∷ 0 ∷ [];
  aggregation_rates = EasyMap.create_map 4;
  flow_to_gen = CircularQueue.create 0 8;
}

abbrev packet : Packet
packet = record { buffer = 9; total_len = 1500; src = 0; dst = 77 }

abbrev none_yet : PacketBatch
none_yet = record { cnt = 0; pkts = replicate 32 packet }

empty-IsBucket : IsBucket (empty_bucket 3000)
empty-IsBucket = record { counts = refl; small = omega arith }

abbrev after_enqueue : Bool × Shared × HbListBucket
after_enqueue = enqueue_packet members (empty_bucket 3000) packet 0 100 2

stored :
    Stored
      (stored_node members (empty_bucket 3000) packet 0 100 2)
      members
      (empty_bucket 3000)
      4
      (first_blocks 2)
      after_enqueue
stored =
    enqueue_packet-Stored members (empty_bucket 3000) packet 0 100 2 4 (first_blocks 2)
      empty-IsBucket (create-IsPool 3 7 (omega arith)) tt (omega arith)

one_node : length after_enqueue.2.nodes ≡ 1
unfolding enqueue_packet create link_blocks get_element
one_node = refl

three_nodes : after_enqueue.1.pool.size ≡ 3
unfolding enqueue_packet create link_blocks get_element
three_nodes = refl

dequeue_packet_bulk_lem_example :
    Outcome numbers 32 5 after_enqueue.1 after_enqueue.2 none_yet
      (first_blocks 2)
      (dequeue_packet_bulk numbers after_enqueue.1 after_enqueue.2 none_yet 32 5)
dequeue_packet_bulk_lem_example =
    dequeue_packet_bulk_lem numbers after_enqueue.1 after_enqueue.2 none_yet 32 5 (first_blocks 2)
      stored.bucket stored.pool stored.held (omega (arith, one_node, three_nodes)) (omega arith)
      (omega (arith, one_node))

-- The same with the other kind of bucket.
abbrev list_members : ListShared
list_members = record {
  pool = create 3 7;
  pkts_num = 0 ∷ 0 ∷ [];
  flow_to_gen = CircularQueue.create 0 8;
}

new-IsListBucket : IsListBucket (new_bucket 3000)
new-IsListBucket = record { counts = refl; small = omega arith }

abbrev after_list : Bool × ListShared × ListBucket
after_list = ListBucket.enqueue_packet list_members (new_bucket 3000) packet 1

list_stored : ListStored packet 1 list_members (new_bucket 3000) 4 (first_blocks 2) after_list
list_stored =
    enqueue_packet-ListStored list_members (new_bucket 3000) packet 1 4 (first_blocks 2)
      new-IsListBucket (create-IsPool 3 7 (omega arith)) tt (omega arith)

one_list_node : length after_list.2.nodes ≡ 1
unfolding ListBucket.enqueue_packet create link_blocks get_element
one_list_node = refl

three_list_nodes : after_list.1.pool.size ≡ 3
unfolding ListBucket.enqueue_packet create link_blocks get_element
three_list_nodes = refl

list_bucket_bulk_lem_example :
    ListOutcome 32 after_list.1 after_list.2 none_yet
      (first_blocks 2)
      (ListBucket.dequeue_packet_bulk after_list.1 after_list.2 none_yet 32)
list_bucket_bulk_lem_example =
    list_bucket_bulk_lem after_list.1 after_list.2 none_yet 32 (first_blocks 2) list_stored.bucket
      list_stored.pool list_stored.held (omega (arith, one_list_node, three_list_nodes))
      (omega arith) (omega (arith, one_list_node))
