-- ===== src/Mvba/Vcbc/State.antt =====
-- The state of src/mvba/vcbc/mod.rs and the functions that do not send.
use sn_consensus.Prelude.{
  on_option, ℕ, String, Option, none, some, [], Map, lookup, insert, Exec, raise, done, ◌+◌,
  is_some, if◌then◌else◌, ◌==◌, ◌≡◌, Outcome, ok, stop, panicked, arith,
}
use sn_consensus.Keys.{PublicKeySet, SecretKeyShare}
use sn_consensus.Mvba.Tag.{Tag, NodeId, Proposal, MessageValidity}
use sn_consensus.Mvba.Hash.{Hash32}
use sn_consensus.Mvba.Broadcaster.{Broadcaster, new as new_broadcaster}
use sn_consensus.Mvba.Vcbc.Message.{Message, action_str, Error}

abbrev pub module_name : String
module_name = "vcbc"

pub record Vcbc (Sig : Type 0) (Share : Type 0) : Type 0 where
  pub tag : Tag
  pub i : NodeId
  pub m_bar : Option Proposal
  pub u_bar : Option Sig
  pub wd : Map Share
  pub rd : ℕ
  pub d : Option Hash32
  pub pub_key_set : PublicKeySet Sig Share
  pub sec_key_share : SecretKeyShare Share
  pub final_messages : Map (Message Sig Share)
  pub message_validity : MessageValidity
  pub broadcaster : Broadcaster

module _ {Sig Share : Type 0} where
  -- `Vcbc::new` after its assertion
  unfoldable pub new_state :
      Tag
      → NodeId
      → PublicKeySet Sig Share
      → SecretKeyShare Share
      → MessageValidity
      → Broadcaster
      → Vcbc Sig Share
  new_state tag self_id pub_key_set sec_key_share message_validity broadcaster = record {
    tag = tag;
    i = self_id;
    m_bar = none;
    u_bar = none;
    wd = [];
    rd = 0;
    d = none;
    pub_key_set = pub_key_set;
    sec_key_share = sec_key_share;
    final_messages = [];
    message_validity = message_validity;
    broadcaster = broadcaster;
  }

  -- The source asserts that the broadcaster is that of the node.
  unfoldable pub new :
      Tag
      → NodeId
      → PublicKeySet Sig Share
      → SecretKeyShare Share
      → MessageValidity
      → Broadcaster
      → Outcome Error (Vcbc Sig Share)
  new tag self_id pub_key_set sec_key_share message_validity broadcaster =
      if self_id == broadcaster.self_id
      then ok (new_state tag self_id pub_key_set sec_key_share message_validity broadcaster)
      else stop panicked

  -- With the broadcaster that `Consensus::init` makes, the assertion holds.
  new-own :
      (tag : Tag) (i : NodeId) (keys : PublicKeySet Sig Share) (key : SecretKeyShare Share)
      (valid : MessageValidity)
      → new tag i keys key valid (new_broadcaster i)
        ≡ ok (new_state tag i keys key valid (new_broadcaster i))
  unfolding new_broadcaster new
  new-own tag i keys key valid = ground arith

  unfoldable pub threshold : Vcbc Sig Share → ℕ
  threshold v = v.pub_key_set.threshold + 1

  unfoldable pub read_delivered : Vcbc Sig Share → Option (Proposal × Sig)
  read_delivered v = on_option v.m_bar none λ m. on_option v.u_bar none λ u. some (m, u)

  -- `try_insert` on `final_messages`.
  unfoldable pub try_insert : NodeId → Message Sig Share → Exec (Vcbc Sig Share) Error Unit
  try_insert k m v =
      if is_some (lookup k v.final_messages)
      then raise (Error.duplicated_message k (action_str m.action)) v
      else done (record v { final_messages = insert k m v.final_messages })
