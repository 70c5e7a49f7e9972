-- ===== src/Mvba/VoteMessage.antt =====
-- src/mvba/message.rs, which no module of the repository includes.
use sn_consensus.Prelude.{Bool, Option}
use sn_consensus.Mvba.Tag.{NodeId}
use sn_consensus.Mvba.Vcbc.Message.{Message}

pub record VoteMessage (Sig : Type 0) (Share : Type 0) : Type 0 where
  pub party : NodeId
  pub value : Bool
  pub proof : Option (Message Sig Share)
