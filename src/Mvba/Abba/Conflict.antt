-- ===== src/Mvba/Abba/Conflict.antt =====
-- Which pre-vote the main-votes of a round lead to in src/mvba/abba/mod.rs.
use sn_consensus.Prelude.{
  ℕ, suc, ◌≡◌, refl, none, some, ok, true, false, Map, List, insert, contains_key, length, leb,
  get_elem?, on_option, arith, ◌∙◌,
}
use sn_consensus.Keys.{Bytes}
use sn_consensus.Mvba.Tag.{NodeId}
use sn_consensus.Mvba.Hash.{Hash32}
use sn_consensus.Mvba.Vcbc.Message.{c_ready_bytes_to_sign}
use sn_consensus.Mvba.Abba.Message.{
  Value, value, with_validity, MainVoteAction, main_vote, Message, Extern,
}
use sn_consensus.Mvba.Abba.State.{Abba, threshold, pred_round, pre_vote_bytes_to_sign}
use sn_consensus.Mvba.Abba.Checks.{check_message}
use sn_consensus.Mvba.Abba.Store.{
  votes_at, grow_main_votes, put_main_vote, add_main_vote, add_message,
}
use sn_consensus.Mvba.Abba.Protocol.{
  Receiver, main_votes_for, send_pre_vote, pre_vote_validity, choose_pre_vote, count_main_votes,
  on_main_vote, on_action, receive_message,
}
use sn_consensus.Mvba.Abba.History.{vote_of, vote_of-grow, put_votes, votes_at-grow}
use sn_consensus.Mvba.Abba.Refusals.{accept_checked}
use sn_consensus.Mvba.Abba.OwnVote.{own_message, own_stored}

module _ {V : Type 0} where
  no_vote_there :
      (n : ℕ) (i : NodeId) (ms : List (Map V))
      → vote_of n i ms ≡ none
      → on_option (get_elem? ms n) false (contains_key i) ≡ false
  unfolding votes_at
  no_vote_there n i ms e = ground (arith, e)

module _ {Sig Share : Type 0} (x : Extern Sig Share) where
  -- The state once the vote of a party has been stored at an index.
  abbrev pub with_main_vote :
      ℕ → NodeId → MainVoteAction Sig Share → Abba Sig Share → Abba Sig Share
  with_main_vote n j a s = put_main_vote x n j a (grow_main_votes x a.round s)

  pub add_new :
      (j : NodeId) (a : MainVoteAction Sig Share) (n : ℕ) (s : Abba Sig Share)
      → a.round ≡ suc n
      → vote_of n j s.round_main_votes ≡ none
      → add_message x j (main_vote a) s ≡ (ok true, with_main_vote n j a s)
  unfolding add_message add_main_vote pred_round grow_main_votes
  add_new j a n s e new_vote = ground (arith, e, vote_of-grow a.round n j s.round_main_votes)

  pub there :
      (a : MainVoteAction Sig Share) (j : NodeId) (n : ℕ) (s : Abba Sig Share)
      (votes : Map (MainVoteAction Sig Share))
      → a.round ≡ suc n
      → insert j a (votes_at n s.round_main_votes) ≡ votes
      → get_elem? (with_main_vote n j a s).round_main_votes n ≡ some votes
  unfolding put_main_vote grow_main_votes
  there a j n s votes e is_votes =
      rw (votes_at-grow a.round n s.round_main_votes)
        (rw is_votes (rw e (put_votes n votes s.round_main_votes)))

  module _ (recv : Receiver Sig Share) (n : ℕ) (votes : Map (MainVoteAction Sig Share)) where
    pub on_new :
        (a : MainVoteAction Sig Share) (t : Abba Sig Share)
        → a.round ≡ suc n
        → t.r ≡ suc (suc n)
        → get_elem? t.round_main_votes n ≡ some votes
        → on_main_vote x recv a t ≡ count_main_votes x recv a.round votes t
    unfolding on_main_vote pred_round
    on_new a t e r at_n = ground (arith, e, r, at_n)

    undecided_count :
        (r : ℕ) (t : Abba Sig Share)
        → leb (threshold t) (length votes) ≡ true
        → leb (threshold t) (length (main_votes_for (value Value.zero) votes)) ≡ false
        → leb (threshold t) (length (main_votes_for (value Value.one) votes)) ≡ false
        → count_main_votes x recv r votes t ≡ choose_pre_vote x recv t.r votes t
    unfolding count_main_votes
    undecided_count r t enough zeros ones = rw enough (rw zeros (rw ones refl))

    validity_first :
        (t : Abba Sig Share) (h : Hash32) (u : Sig)
        → t.weak_validity ≡ some (h, u)
        → t.r ≡ suc (suc n)
        → vote_of (suc n) t.i t.round_pre_votes ≡ none
        → choose_pre_vote x recv t.r votes t
          ≡ send_pre_vote x recv t.r Value.one (with_validity h u) t
    unfolding choose_pre_vote pre_vote_validity pred_round
    validity_first t h u valid r fresh =
        rw valid (rw r (rw (no_vote_there (suc n) t.i t.round_pre_votes fresh) refl))

  answers_with_one :
      (fuel : ℕ) (s : Abba Sig Share) (j : NodeId) (m : Message Sig Share)
      (a : MainVoteAction Sig Share) (n : ℕ) (votes : Map (MainVoteAction Sig Share)) (h : Hash32)
      (u : Sig)
      → s.decided_value ≡ none
      → s.weak_validity ≡ some (h, u)
      → s.r ≡ suc (suc n)
      → vote_of (suc n) s.i s.round_pre_votes ≡ none
      → (check_message x j m s).0 ≡ ok tt
      → m.action ≡ main_vote a
      → a.round ≡ suc n
      → vote_of n j s.round_main_votes ≡ none
      → insert j a (votes_at n s.round_main_votes) ≡ votes
      → leb (threshold s) (length votes) ≡ true
      → leb (threshold s) (length (main_votes_for (value Value.zero) votes)) ≡ false
      → leb (threshold s) (length (main_votes_for (value Value.one) votes)) ≡ false
      → receive_message x (suc fuel) j m s
        ≡ send_pre_vote x
            (receive_message x fuel)
            s.r
            Value.one
            (with_validity h u)
            (with_main_vote n j a s)
  unfolding on_action put_main_vote grow_main_votes threshold
  answers_with_one fuel s j m a n votes h u undecided valid r fresh checked is_main at_n new_vote
        is_votes enough zeros ones =
      accept_checked x fuel j m s undecided checked
      ∙ rw is_main (
          rw (add_new j a n s at_n new_vote) (
            on_new recv n votes a t at_n r (there a j n s votes at_n is_votes)
            ∙ undecided_count recv n votes a.round t enough zeros ones
            ∙ validity_first recv n votes t h u valid r fresh))
    where
      recv : Receiver Sig Share
      recv = receive_message x fuel

      t : Abba Sig Share
      t = with_main_vote n j a s

  -- The main-votes of one round may be for 0 in any number below the threshold: an undecided party
  -- that has validating data and has not pre-voted in its round answers the main-vote that completes
  -- the threshold by a pre-vote for 1, which it has then stored as its own of its round. This is
  -- where the main-vote passes the checks and is new, and the party's share on the pre-vote and the
  -- validating data verify and the pre-vote can be serialized.
  pub validity_outweighs_zeros :
      (fuel : ℕ) (s : Abba Sig Share) (j : NodeId) (m : Message Sig Share)
      (a : MainVoteAction Sig Share) (n : ℕ) (votes : Map (MainVoteAction Sig Share)) (h : Hash32)
      (u : Sig) (b c p : Bytes)
      → s.decided_value ≡ none
      → s.weak_validity ≡ some (h, u)
      → s.r ≡ suc (suc n)
      → vote_of (suc n) s.i s.round_pre_votes ≡ none
      → (check_message x j m s).0 ≡ ok tt
      → m.action ≡ main_vote a
      → a.round ≡ suc n
      → vote_of n j s.round_main_votes ≡ none
      → insert j a (votes_at n s.round_main_votes) ≡ votes
      → leb (threshold s) (length votes) ≡ true
      → leb (threshold s) (length (main_votes_for (value Value.zero) votes)) ≡ false
      → leb (threshold s) (length (main_votes_for (value Value.one) votes)) ≡ false
      → pre_vote_bytes_to_sign x s.tag s.r Value.one ≡ some b
      → s.pub_key_set.verify_share s.i (s.sec_key_share.sign b) b ≡ true
      → c_ready_bytes_to_sign x.ready_format s.tag h ≡ some c
      → s.pub_key_set.verify u c ≡ true
      → x.message_format.serialize (own_message x h u b s) ≡ some p
      → vote_of (suc n) s.i (receive_message x (suc (suc fuel)) j m s).1.round_pre_votes
        ≡ some (record {
          round = s.r;
          value = Value.one;
          justification = with_validity h u;
          sig_share = s.sec_key_share.sign b;
        })
  unfolding put_main_vote grow_main_votes
  validity_outweighs_zeros fuel s j m a n votes h u b c p undecided valid r fresh checked is_main
        at_n new_vote is_votes enough zeros ones bytes own ready validated written =
      rw
        (answers_with_one (suc fuel) s j m a n votes h u undecided valid r fresh checked is_main
          at_n new_vote is_votes enough zeros ones)
        (own_stored x fuel (suc n) h u b p (with_main_vote n j a s) undecided r fresh
          (record {
            ready_bytes = c;
            bytes = bytes;
            share_verifies = own;
            is_ready = ready;
            sig_verifies = validated;
          })
          written)
