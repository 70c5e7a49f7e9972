-- ===== src/Mvba/Vcbc/Message.antt =====
-- src/mvba/vcbc/message.rs and src/mvba/vcbc/error.rs. An error's text is its fixed part.
use sn_consensus.Prelude.{ℕ, String, Option}
use sn_consensus.Keys.{Bytes, Format}
use sn_consensus.Mvba.Tag.{Tag, NodeId, Proposal}
use sn_consensus.Mvba.Hash.{Hash32}

pub data Action (Sig : Type 0) (Share : Type 0) : Type 0 where
  send : Proposal → Action Sig Share
  ready : Hash32 → Share → Action Sig Share
  final : Hash32 → Sig → Action Sig Share
  request : Action Sig Share
  answer : Proposal → Sig → Action Sig Share

pub record Message (Sig : Type 0) (Share : Type 0) : Type 0 where
  pub tag : Tag
  pub action : Action Sig Share

abbrev pub action_str : {Sig Share : Type 0} → Action Sig Share → String
action_str (send _) = "c-send"
action_str (ready _ _) = "c-ready"
action_str (final _ _) = "c-final"
action_str request = "c-request"
action_str (answer _ _) = "c-answer"

pub data Error : Type 0 where
  encoding blsttc : Error
  invalid_hash_length : ℕ → ℕ → Error
  duplicated_message : NodeId → String → Error
  invalid_message : String → Error
  generic : String → Error

-- The libraries that the component calls: the hash, and bincode at the two types that it writes.
pub record Extern (Sig : Type 0) (Share : Type 0) : Type 0 where
  pub sha3 : Bytes → Bytes
  pub ready_format : Format (Tag × String × Hash32)
  pub message_format : Format (Message Sig Share)

-- (ID.j.s, c-ready, H(m)) in the protocol's notation.
unfoldable pub c_ready_bytes_to_sign : Format (Tag × String × Hash32) → Tag → Hash32 → Option Bytes
c_ready_bytes_to_sign f tag digest = f.serialize (tag, "c-ready", digest)

unfoldable pub make_c_request_message :
    {Sig Share : Type 0} → Format (Message Sig Share) → Tag → Option Bytes
make_c_request_message f tag = f.serialize (record { tag = tag; action = request })
