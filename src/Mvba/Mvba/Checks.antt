-- ===== src/Mvba/Mvba/Checks.antt =====
-- `check_message` and `add_vote` of src/mvba/mvba/mod.rs.
use sn_consensus.Prelude.{
  Bool, true, false, not, ◌&&◌, Option, none, some, lookup, insert, contains_key, is_some, same,
  on_option, if◌then◌else◌, raise, reading, or_raise, pure, modify, done, ◌>>=◌, ◌>>◌,
}
use sn_consensus.Keys.{Bytes}
use sn_consensus.Mvba.Tag.{Tag, Domain-discrete}
use sn_consensus.Mvba.Hash.{Hash32}
use sn_consensus.Mvba.Broadcaster
use sn_consensus.Mvba.Vcbc.Message.{c_ready_bytes_to_sign, make_c_request_message}
use sn_consensus.Mvba.Vcbc.State
use sn_consensus.Mvba.Mvba.Message.{Vote, Message, Error, Extern, Vote-discrete}
use sn_consensus.Mvba.Mvba.State.{Mvba, Method, proposer_votes, current_tag}

module _ {Sig Share : Type 0} (x : Extern Sig Share) where
  -- A proof, if there is one, is a signature on the c-ready bytes of the vote's tag and digest.
  unfoldable pub check_proof : Tag → Option (Hash32 × Sig) → Method Sig Share Unit
  check_proof tag none = done
  check_proof tag (some (digest, signature)) = do
    sign_bytes ←
        or_raise (Error.generic "bincode") (c_ready_bytes_to_sign x.ready_format tag digest)
    reading λ s.
        if not (s.pub_key_set.verify signature sign_bytes)
        then raise (Error.invalid_message "proposal with an invalid proof")
        else done

  unfoldable pub check_vote : Message Sig Share → Bytes → Method Sig Share Unit
  check_vote msg sign_bytes = reading λ s.
      if not (s.pub_key_set.verify_share msg.voter msg.signature sign_bytes)
      then raise (Error.invalid_message "invalid signature")
      else if not msg.vote.value && is_some msg.vote.proof
      then raise (Error.invalid_message "no vote with proof")
      else if msg.vote.value && not (is_some msg.vote.proof)
      then raise (Error.invalid_message "yes vote without proof")
      else check_proof msg.vote.tag msg.vote.proof

  unfoldable pub check_message : Message Sig Share → Method Sig Share Unit
  check_message msg = reading λ s.
      if not (same Domain-discrete msg.vote.tag.domain s.domain)
      then raise (Error.invalid_message "invalid domain")
      else do
        sign_bytes ← or_raise Error.encoding (x.vote_format.serialize msg.vote)
        check_vote msg sign_bytes

  -- `votes.insert`, in the votes of the message's proposer.
  unfoldable pub record_vote : Message Sig Share → Mvba Sig Share → Mvba Sig Share
  record_vote msg s = record s {
    votes_per_proposer =
        insert msg.vote.tag.proposer
          (insert msg.voter msg.vote (proposer_votes msg.vote.tag.proposer s)) s.votes_per_proposer;
  }

  -- Ask the voter for the proposal. The request carries the tag of the current proposer.
  unfoldable pub request_proposal : Message Sig Share → Method Sig Share Unit
  request_proposal msg = do
    tag ← current_tag
    payload ← or_raise Error.encoding (make_c_request_message x.request_format tag)
    modify λ s. record s {
      broadcaster =
          Broadcaster.send_to s.broadcaster State.module_name (some msg.vote.tag.proposer) payload
            msg.voter;
    }

  -- A second vote of the same voter: `Ok(false)` if it is the same vote.
  unfoldable pub repeat_vote : Message Sig Share → Vote Sig → Method Sig Share Bool
  repeat_vote msg exist =
      if not (same (Vote-discrete x.sig_eq.sig_eq) exist msg.vote)
      then raise (Error.invalid_message "double vote detected")
      else pure false

  unfoldable pub first_vote : Message Sig Share → Method Sig Share Bool
  first_vote msg = do
    modify (record_vote msg)
    reading λ s.
        if msg.vote.value && not (contains_key msg.vote.tag.proposer s.proposals)
        then (do request_proposal msg; pure false)
        else pure true

  unfoldable pub add_vote : Message Sig Share → Method Sig Share Bool
  add_vote msg = reading λ s.
      on_option (lookup msg.voter (proposer_votes msg.vote.tag.proposer s)) (first_vote msg)
        λ exist. repeat_vote msg exist
