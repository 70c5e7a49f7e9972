-- ===== src/Mvba/Broadcaster.antt =====
-- src/mvba/bundle.rs and src/mvba/broadcaster.rs. The broadcaster is one object that all the
-- components of a node share; a component's record holds it while one of its methods runs.
use sn_consensus.Prelude.{String, Option, List, [], ◌∷◌, ◌++◌}
use sn_consensus.Keys.{Bytes}
use sn_consensus.Mvba.Tag.{NodeId}

pub record Bundle : Type 0 where
  pub initiator : NodeId
  pub target : Option NodeId
  pub module_name : String
  pub payload : Bytes

pub data Outgoing : Type 0 where
  gossip : Bundle → Outgoing
  direct : NodeId → Bundle → Outgoing

pub record Broadcaster : Type 0 where
  pub self_id : NodeId
  pub outgoings : List Outgoing

unfoldable pub new : NodeId → Broadcaster
new self_id = record { self_id = self_id; outgoings = [] }

unfoldable pub make_bundle : Broadcaster → String → Option NodeId → Bytes → Bundle
make_bundle b m target payload = record {
  initiator = b.self_id;
  target = target;
  module_name = m;
  payload = payload;
}

unfoldable pub send_to : Broadcaster → String → Option NodeId → Bytes → NodeId → Broadcaster
unfolding make_bundle
send_to b m target payload recipient = record b {
  outgoings = b.outgoings ++ direct recipient (make_bundle b m target payload) ∷ [];
}

unfoldable pub broadcast : Broadcaster → String → Option NodeId → Bytes → Broadcaster
unfolding make_bundle
broadcast b m target payload = record b {
  outgoings = b.outgoings ++ gossip (make_bundle b m target payload) ∷ [];
}

unfoldable pub take_outgoings : Broadcaster → List Outgoing × Broadcaster
take_outgoings b = (b.outgoings, record b { outgoings = [] })
