-- ===== src/Mvba/Mvba/Message.antt =====
-- src/mvba/mvba/message.rs and src/mvba/mvba/error.rs. An error's text is its fixed part.
use sn_consensus.Prelude.{String, Bool, Option}
use sn_consensus.Keys.{Bytes, Format, SigEq}
use sn_consensus.Mvba.Tag.{Tag, NodeId, Tag-discrete}
use sn_consensus.Mvba.Hash.{Hash32, Hash32-discrete}
use sn_consensus.Mvba.Vcbc.Message.{Message as BroadcastMessage}

pub record Vote (Sig : Type 0) : Type 0 where
  pub tag : Tag
  pub value : Bool
  pub proof : Option (Hash32 × Sig)

pub record Message (Sig : Type 0) (Share : Type 0) : Type 0 where
  pub vote : Vote Sig
  pub voter : NodeId
  pub signature : Share

pub data Error : Type 0 where
  encoding blsttc : Error
  invalid_message : String → Error
  generic : String → Error

-- The libraries that the component calls: the hash, and bincode at the types that it writes. The
-- c-request message is one of src/mvba/vcbc.
pub record Extern (Sig : Type 0) (Share : Type 0) : Type 0 where
  pub sha3 : Bytes → Bytes
  pub sig_eq : SigEq Sig Share
  pub ready_format : Format (Tag × String × Hash32)
  pub vote_format : Format (Vote Sig)
  pub message_format : Format (Message Sig Share)
  pub request_format : Format (BroadcastMessage Sig Share)

unfoldable pub Vote-discrete : {Sig : Type 0} → Discrete Sig → Discrete (Vote Sig)
Vote-discrete d = hlevel (d, Tag-discrete, Hash32-discrete)
