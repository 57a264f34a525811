-- ===== src/Rpc/UnitTests/Pass.antt =====
-- The unit tests of src/rpc/mod.rs pass.
use dht_kad_rs.Mock
use dht_kad_rs.RoutingTable.Peers.{Peer}
use dht_kad_rs.Base.{ℕ, ◌+◌, ◌++◌, List, [], ◌∷◌, map, ◌≡◌, refl, ◌∙◌, done, dec_le, dec_lt}
use dht_kad_rs.Base.HashMap
use dht_kad_rs.Base.Sort.{sort_by, insert}
use dht_kad_rs.Base.Text.{codes, digits}
use dht_kad_rs.Keyutil.{
  common_prefix_length, leading_zeros, key_to_bytes, to_be_bytes, key_from_bytes, from_be_bytes,
}
use dht_kad_rs.Kvstore
use dht_kad_rs.Messages.{Protobuf, ErrorCode, new_message}
use dht_kad_rs.Messages.Utf8.{is_utf8, from_utf8}
use dht_kad_rs.Messages.Util.{
  validate_request, proto_peer_to_peer, proto_peer_from_peer, create_store_request,
  create_find_node_request, create_find_value_request, create_ping_request, create_store_response,
  create_find_node_response, create_find_value_response, create_ping_response,
}
use dht_kad_rs.RoutingTable.{
  new, update, bucket_at, last_index, ideal_index, insert_new, add_peer_to_bucket, with_bucket,
  insert_unfolded, unfold_buckets, split_last, k_nearest_peers, nearest_peers, surrounding, nearer,
}
use dht_kad_rs.RoutingTable.Buckets
use dht_kad_rs.RoutingTable.Buckets.{move_to_front_if_exists, position, move_to_end, remove, split}
use dht_kad_rs.Rpc.{
  table_after_reply, update_routing_table, admit, admit_sender, store_reply, answer_store,
  store_async, answer_find_node, find_node_async, find_value_reply, answer_find_value,
  find_value_async, answer_ping, ping_async,
}
use dht_kad_rs.Rpc.UnitTests.{
  store_test, close_to_zero, read_peers, nearest_ten, find_node_test, find_value_test, ping_test,
}

abbrev numbered : List ℕ → List Peer
numbered ns = map (λ n. Mock.peer (codes "0.0.0.0:" ++ digits 2 n) n) ns

abbrev ten : List ℕ
ten = 1 ∷ 2 ∷ 3 ∷ 4 ∷ 5 ∷ 6 ∷ 7 ∷ 8 ∷ 9 ∷ 10 ∷ []

abbrev twenty : List ℕ
twenty = ten ++ map (λ n. n + 10) ten

module _ (P : Protobuf) where
  -- The table takes the first ten peers, and the server answers by them.
  find_node_answer :
      find_node_test P
      ≡ nearest_ten P (numbered twenty) (create_find_node_response P (numbered ten))
  unfolding find_node_test close_to_zero find_node_async answer_find_node admit_sender admit
      update_routing_table table_after_reply validate_request proto_peer_to_peer
      proto_peer_from_peer create_find_node_request create_find_node_response new_message is_utf8
      from_utf8 key_to_bytes to_be_bytes key_from_bytes from_be_bytes digits new update last_index
      bucket_at ideal_index common_prefix_length leading_zeros move_to_front_if_exists position
      move_to_end remove Buckets.new insert_new insert_unfolded unfold_buckets split_last split
      add_peer_to_bucket with_bucket k_nearest_peers nearest_peers surrounding nearer sort_by insert
      dec_le dec_lt
  find_node_answer = refl

  nearest_ten_found :
      nearest_ten P (numbered twenty) (create_find_node_response P (numbered ten)) ≡ done tt
  unfolding nearest_ten read_peers create_find_node_response new_message proto_peer_to_peer
      proto_peer_from_peer key_to_bytes to_be_bytes key_from_bytes from_be_bytes digits is_utf8
      from_utf8
  nearest_ten_found = rw P.codes.value-unset refl

  store_test_passes : store_test P ≡ done tt
  unfolding store_test store_async answer_store store_reply admit_sender admit update_routing_table
      table_after_reply validate_request proto_peer_to_peer proto_peer_from_peer
      create_store_request create_store_response new_message is_utf8 from_utf8 key_to_bytes
      to_be_bytes key_from_bytes from_be_bytes new update last_index bucket_at ideal_index
      common_prefix_length leading_zeros move_to_front_if_exists position Buckets.new insert_new
      add_peer_to_bucket with_bucket k_nearest_peers nearest_peers surrounding nearer sort_by insert
      Kvstore.new Kvstore.get Kvstore.put HashMap.get HashMap.insert
  store_test_passes = rw (P.codes.value-new ErrorCode.ok) refl

  find_value_test_passes : find_value_test P ≡ done tt
  unfolding find_value_test find_node_async answer_find_node find_value_async answer_find_value
      find_value_reply admit_sender admit update_routing_table table_after_reply validate_request
      proto_peer_to_peer proto_peer_from_peer create_find_value_request create_find_node_response
      create_find_value_response new_message is_utf8 from_utf8 key_to_bytes to_be_bytes
      key_from_bytes from_be_bytes new update last_index bucket_at ideal_index common_prefix_length
      leading_zeros move_to_front_if_exists position move_to_end remove Buckets.new insert_new
      add_peer_to_bucket with_bucket k_nearest_peers nearest_peers surrounding nearer sort_by insert
      Kvstore.new Kvstore.get Kvstore.put HashMap.get HashMap.insert
  find_value_test_passes = rw P.codes.value-unset refl

  ping_test_passes : ping_test P ≡ done tt
  unfolding ping_test ping_async answer_ping admit_sender admit update_routing_table
      table_after_reply validate_request proto_peer_to_peer proto_peer_from_peer create_ping_request
      create_ping_response new_message is_utf8 from_utf8 key_to_bytes to_be_bytes key_from_bytes
      from_be_bytes new update last_index bucket_at ideal_index common_prefix_length leading_zeros
      move_to_front_if_exists position Buckets.new insert_new add_peer_to_bucket with_bucket
  ping_test_passes = rw P.codes.value-unset refl

  -- The four tests pass, whatever the protobuf crate makes of the enums.
  pub unit_tests_pass :
      (store_test P ≡ done tt)
      × (find_node_test P ≡ done tt)
      × (find_value_test P ≡ done tt)
      × (ping_test P ≡ done tt)
  unit_tests_pass = (
    store_test_passes,
    find_node_answer ∙ nearest_ten_found,
    find_value_test_passes,
    ping_test_passes,
  )
