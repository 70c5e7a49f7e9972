-- ===== src/Mvba/Abba/OwnVote.antt =====
-- A node's own pre-vote in src/mvba/abba/mod.rs, from `send_pre_vote` to its delivery to the node.
use sn_consensus.Prelude.{ℕ, suc, ◌≡◌, none, some, ok, true, arith, same_refl, ap, refl}
use sn_consensus.Keys.{Bytes}
use sn_consensus.Mvba.Tag.{Tag-discrete}
use sn_consensus.Mvba.Hash.{Hash32}
use sn_consensus.Mvba.Vcbc.Message.{c_ready_bytes_to_sign}
use sn_consensus.Mvba.Abba.Message.{
  Value, with_validity, PreVoteAction, pre_vote, Message, Extern, Value-discrete,
}
use sn_consensus.Mvba.Abba.State.{Abba, pred_round, pre_vote_bytes_to_sign}
use sn_consensus.Mvba.Abba.Checks.{
  check_message, check_action, check_pre_vote, check_share, check_pre_justification, check_validity,
  check_sig,
}
use sn_consensus.Mvba.Abba.Store.{grow_pre_votes, put_pre_vote, add_pre_vote, add_message}
use sn_consensus.Mvba.Abba.Protocol.{note, broadcast, send_pre_vote, on_action, receive_message}
use sn_consensus.Mvba.Abba.Preservation.{on_action-Good, receive-Good}
use sn_consensus.Mvba.Abba.History.{vote_of, vote_of-grow, vote_of-put_self}
use sn_consensus.Mvba.Abba.Stability.{HasPreVote, HasPreVote-preserved}
use sn_consensus.Mvba.Abba.Refusals.{accept_checked}

module _ {Sig Share : Type 0} (x : Extern Sig Share) where
  -- The pre-vote for 1 of a party in its round.
  abbrev pub vote_for_one : Hash32 → Sig → Bytes → Abba Sig Share → PreVoteAction Sig Share
  vote_for_one h u b s = record {
    round = s.r;
    value = Value.one;
    justification = with_validity h u;
    sig_share = s.sec_key_share.sign b;
  }

  -- What the party's keys and formats do for that pre-vote: its share and the validating data
  -- verify.
  pub record Verifies (h : Hash32) (u : Sig) (b : Bytes) (s : Abba Sig Share) : Type 0 where
    pub ready_bytes : Bytes
    pub bytes : pre_vote_bytes_to_sign x s.tag s.r Value.one ≡ some b
    pub share_verifies : s.pub_key_set.verify_share s.i (s.sec_key_share.sign b) b ≡ true
    pub is_ready : c_ready_bytes_to_sign x.ready_format s.tag h ≡ some ready_bytes
    pub sig_verifies : s.pub_key_set.verify u ready_bytes ≡ true

  abbrev pub own_message : Hash32 → Sig → Bytes → Abba Sig Share → Message Sig Share
  own_message h u b s = record { tag = s.tag; action = pre_vote (vote_for_one h u b s) }

  own_passes :
      (h : Hash32) (u : Sig) (b : Bytes) (s : Abba Sig Share)
      → Verifies h u b s
      → check_message x s.i (own_message h u b s) s ≡ (ok tt, s)
  unfolding check_message check_action check_pre_vote check_share check_pre_justification
      check_validity check_sig Value-discrete
  own_passes h u b s w =
      rw (same_refl Tag-discrete s.tag)
        (rw w.bytes (rw w.share_verifies (rw w.is_ready (rw w.sig_verifies refl))))

  -- The party that receives its own pre-vote, the first of its round, has stored it.
  own_received :
      (fuel n : ℕ) (h : Hash32) (u : Sig) (b : Bytes) (s : Abba Sig Share)
      → s.decided_value ≡ none
      → s.r ≡ suc n
      → vote_of n s.i s.round_pre_votes ≡ none
      → Verifies h u b s
      → vote_of n s.i (receive_message x (suc fuel) s.i (own_message h u b s) s).1.round_pre_votes
        ≡ some (vote_for_one h u b s)
  unfolding add_message add_pre_vote pred_round grow_pre_votes put_pre_vote on_action
  own_received fuel n h u b s undecided r new_vote w = ground (
    arith,
    accept_checked x fuel s.i (own_message h u b s) s undecided
        (ap (λ q. q.0) (own_passes h u b s w)),
    vote_of-grow s.r n s.i s.round_pre_votes,
    new_vote,
    acted.2,
  )
    where
      v : PreVoteAction Sig Share
      v = vote_for_one h u b s

      t : Abba Sig Share
      t = put_pre_vote x n s.i v (grow_pre_votes x s.r s)

      acted :
          HasPreVote x s.pub_key_set s.tag n s.i v
            (on_action x (receive_message x fuel) (pre_vote v) t).1
      acted =
          ((on_action-Good x s.pub_key_set s.tag _
              (HasPreVote-preserved x s.pub_key_set s.tag n s.i v) (receive_message x fuel)
              (receive-Good x s.pub_key_set s.tag _
                (HasPreVote-preserved x s.pub_key_set s.tag n s.i v) fuel)
              s.i (pre_vote v) (rw w.bytes w.share_verifies, rw w.is_ready w.sig_verifies)).at
            t (refl, refl, rw r (vote_of-put_self n s.i _ _ s.round_pre_votes))).0

  pub own_stored :
      (fuel n : ℕ) (h : Hash32) (u : Sig) (b p : Bytes) (s : Abba Sig Share)
      → s.decided_value ≡ none
      → s.r ≡ suc n
      → vote_of n s.i s.round_pre_votes ≡ none
      → Verifies h u b s
      → x.message_format.serialize (own_message h u b s) ≡ some p
      → vote_of n s.i
          (send_pre_vote x
            (receive_message x (suc fuel))
            s.r
            Value.one
            (with_validity h u)
            s).1.round_pre_votes
        ≡ some (vote_for_one h u b s)
  unfolding send_pre_vote broadcast note
  own_stored fuel n h u b p s undecided r new_vote w written =
      rw w.bytes (rw written (own_received fuel n h u b (note x p s).1 undecided r new_vote noted))
    where
      noted : Verifies h u b (note x p s).1
      noted = record {
        ready_bytes = w.ready_bytes;
        bytes = w.bytes;
        share_verifies = w.share_verifies;
        is_ready = w.is_ready;
        sig_verifies = w.sig_verifies;
      }
