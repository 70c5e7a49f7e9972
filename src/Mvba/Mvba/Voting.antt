-- ===== src/Mvba/Mvba/Voting.antt =====
-- `receive_message`, `vote`, `set_proposal` and `move_to_next_proposal` of src/mvba/mvba/mod.rs.
use sn_consensus.Keys.{Bytes}
use sn_consensus.Prelude.{
  ℕ, Bool, true, false, not, ◌&&◌, Option, none, some, List, lookup, insert, is_some, any, length,
  leb, ◌==◌, ◌+◌, if◌then◌else◌, Stop, halt, raise, reading, or_raise, pure, modify, done, ◌>>=◌,
  ◌>>◌,
}
use sn_consensus.Mvba.Tag.{NodeId, Tag, Proposal}
use sn_consensus.Mvba.Hash.{calculate}
use sn_consensus.Mvba.Broadcaster
use sn_consensus.Mvba.Vcbc.Message.{c_ready_bytes_to_sign}
use sn_consensus.Mvba.Mvba.Message.{Vote, Message, Error, Extern}
use sn_consensus.Mvba.Mvba.State.{
  Mvba, Method, module_name, proposer_votes, current_tag, build_tag, threshold,
}
use sn_consensus.Mvba.Mvba.Checks.{check_message, add_vote}

abbrev pub contains : List ℕ → ℕ → Bool
contains xs a = any (λ y. y == a) xs

module _ {Sig Share : Type 0} (x : Extern Sig Share) where
  -- With n - t proposals and n - t votes for the message's proposer, the vote is complete.
  unfoldable pub conclude : NodeId → Mvba Sig Share → Mvba Sig Share
  conclude proposer s =
      if not (leb (threshold s) (length s.proposals) && not (is_some s.v))
      then s
      else if not (leb (threshold s) (length (proposer_votes proposer s)))
      then s
      else record s { v = some (any (λ e. (e.1).value) (proposer_votes proposer s)) }

  -- What follows the checks.
  unfoldable pub count_vote : Message Sig Share → Method Sig Share Unit
  count_vote msg = do
    fresh ← add_vote x msg
    modify λ s. if fresh then conclude msg.vote.tag.proposer s else s

  unfoldable pub receive_message : Message Sig Share → Method Sig Share Unit
  receive_message msg = do check_message x msg; count_vote msg

  -- Hand a payload for all the parties to the broadcaster.
  unfoldable pub note : Bytes → Method Sig Share Unit
  note payload =
      modify
        λ s. record s { broadcaster = Broadcaster.broadcast s.broadcaster module_name none payload }

  -- A vote as this node's message.
  unfoldable pub sign_vote : Vote Sig → Bytes → Mvba Sig Share → Message Sig Share
  sign_vote vote sign_bytes s = record {
    vote = vote;
    voter = s.i;
    signature = s.sec_key_share.sign sign_bytes;
  }

  unfoldable pub broadcast : Vote Sig → Method Sig Share Unit
  broadcast vote = do
    sign_bytes ← or_raise Error.encoding (x.vote_format.serialize vote)
    reading λ s. do
      payload ← or_raise Error.encoding (x.message_format.serialize (sign_vote vote sign_bytes s))
      note payload
      receive_message (sign_vote vote sign_bytes s)

  -- The vote on the current proposer: yes, with the proof, if the proposal is known.
  unfoldable pub make_vote : Tag → Option (Proposal × Sig) → Vote Sig
  make_vote tag none = record { tag = tag; value = false; proof = none }
  make_vote tag (some (proposal, signature)) = record {
    tag = tag;
    value = true;
    proof = some (calculate x.sha3 proposal, signature);
  }

  unfoldable pub set_voted : Mvba Sig Share → Mvba Sig Share
  set_voted s = record s { voted = true }

  unfoldable pub cast : Method Sig Share Unit
  cast = do
    tag ← current_tag
    reading λ s. broadcast (make_vote tag (lookup tag.proposer s.proposals))
    modify set_voted

  unfoldable pub vote : Method Sig Share Unit
  vote = reading λ s. if leb (threshold s) (length s.proposals) && not s.voted then cast else done

  unfoldable pub store_proposal : NodeId → Proposal → Sig → Mvba Sig Share → Mvba Sig Share
  store_proposal proposer proposal signature s = record s {
    proposals = insert proposer (proposal, signature) s.proposals;
  }

  -- The source asserts here that the proposer is a party.
  unfoldable pub set_proposal : NodeId → Proposal → Sig → Method Sig Share Unit
  set_proposal proposer proposal signature = reading λ s.
      if not (contains s.parties proposer) then halt Stop.panicked else do
        sign_bytes ← or_raise Error.encoding (
            c_ready_bytes_to_sign x.ready_format (build_tag s proposer) (calculate x.sha3 proposal))
        if not (s.pub_key_set.verify signature sign_bytes)
            then raise (Error.invalid_message "proposal with an invalid proof")
            else (do modify (store_proposal proposer proposal signature); vote)

  unfoldable pub next_round : Mvba Sig Share → Mvba Sig Share
  next_round s = record s { l = s.l + 1; v = none; voted = false }

  unfoldable pub move_to_next_proposal : Method Sig Share Bool
  move_to_next_proposal =
      reading λ s.
        if s.l + 1 == length s.parties then pure false else do modify next_round; vote; pure true
