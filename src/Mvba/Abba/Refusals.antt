-- ===== src/Mvba/Abba/Refusals.antt =====
-- Messages that src/mvba/abba/mod.rs refuses, and one at which it panics.
use sn_consensus.Prelude.{
  ℕ, suc, ◌≡◌, ◌≢◌, none, some, ok, stop, raised, panicked, arith, same→eq, if◌then◌else◌, done,
  ◌>>=◌, true, refl, ap, same_refl,
}
use sn_consensus.Keys.{Bytes}
use sn_consensus.Mvba.Tag.{NodeId, Tag-discrete}
use sn_consensus.Mvba.Hash.{Hash32}
use sn_consensus.Mvba.Vcbc.Message.{c_ready_bytes_to_sign}
use sn_consensus.Mvba.Abba.Message.{
  PreVoteAction, MainVoteAction, pre_vote, main_vote, Message, Error, Extern,
  PreVoteAction-discrete, MainVoteAction-discrete, Value, with_validity, Value-discrete,
}
use sn_consensus.Mvba.Abba.State.{Abba, pred_round, pre_vote_bytes_to_sign}
use sn_consensus.Mvba.Abba.Checks.{
  check_message, check_action, check_pre_vote, check_share, check_pre_justification, check_validity,
  check_sig,
}
use sn_consensus.Mvba.Abba.Store.{
  grow_pre_votes, add_pre_vote, grow_main_votes, add_main_vote, add_message,
}
use sn_consensus.Mvba.Abba.Protocol.{on_action, accept, handle, receive_message}
use sn_consensus.Mvba.Abba.Induction.{check_unchanged}
use sn_consensus.Mvba.Abba.History.{vote_of, vote_of-grow}

module _ {Sig Share : Type 0} (x : Extern Sig Share) where
  pub accept_checked :
      (fuel : ℕ) (j : NodeId) (m : Message Sig Share) (s : Abba Sig Share)
      → s.decided_value ≡ none
      → (check_message x j m s).0 ≡ ok tt
      → receive_message x (suc fuel) j m s
        ≡ (do
          fresh ← add_message x j m.action
          if fresh then on_action x (receive_message x fuel) m.action else done)
            s
  unfolding receive_message handle accept
  accept_checked fuel j m s n c = ground (arith, check_unchanged x j m s)

  -- A party that has pre-voted in a round and sends a different pre-vote for it is refused: when
  -- the new vote passes the checks and nothing is decided, the call fails with the double-vote
  -- error.
  pub double_pre_vote_refused :
      (fuel : ℕ) (s : Abba Sig Share) (j : NodeId) (m : Message Sig Share)
      (a exist : PreVoteAction Sig Share) (n : ℕ)
      → s.decided_value ≡ none
      → (check_message x j m s).0 ≡ ok tt
      → m.action ≡ pre_vote a
      → a.round ≡ suc n
      → vote_of n j s.round_pre_votes ≡ some exist
      → exist ≢ a
      → (receive_message x (suc fuel) j m s).0
        ≡ stop (raised (Error.invalid_message "double pre-vote detected"))
  unfolding add_message add_pre_vote pred_round grow_pre_votes
  double_pre_vote_refused fuel s j m a exist n u c e r v d = ground (
    arith,
    accept_checked fuel j m s u c,
    vote_of-grow a.round n j s.round_pre_votes,
    same→eq (PreVoteAction-discrete x.sig_eq) exist a,
  )

  -- A party that has main-voted in a round and sends a different main-vote for it is refused: when
  -- the new vote passes the checks and nothing is decided, the call fails with the double-vote
  -- error.
  pub double_main_vote_refused :
      (fuel : ℕ) (s : Abba Sig Share) (j : NodeId) (m : Message Sig Share)
      (a exist : MainVoteAction Sig Share) (n : ℕ)
      → s.decided_value ≡ none
      → (check_message x j m s).0 ≡ ok tt
      → m.action ≡ main_vote a
      → a.round ≡ suc n
      → vote_of n j s.round_main_votes ≡ some exist
      → exist ≢ a
      → (receive_message x (suc fuel) j m s).0
        ≡ stop (raised (Error.invalid_message "double main-vote detected"))
  unfolding add_message add_main_vote pred_round grow_main_votes
  double_main_vote_refused fuel s j m a exist n u c e r v d = ground (
    arith,
    accept_checked fuel j m s u c,
    vote_of-grow a.round n j s.round_main_votes,
    same→eq (MainVoteAction-discrete x.sig_eq) exist a,
  )

  zero_round_passes :
      (s : Abba Sig Share) (j : NodeId) (a : PreVoteAction Sig Share) (h : Hash32) (u : Sig)
      (b c : Bytes)
      → a.round ≡ 0
      → a.value ≡ Value.one
      → a.justification ≡ with_validity h u
      → pre_vote_bytes_to_sign x s.tag 0 Value.one ≡ some b
      → s.pub_key_set.verify_share j a.sig_share b ≡ true
      → c_ready_bytes_to_sign x.ready_format s.tag h ≡ some c
      → s.pub_key_set.verify u c ≡ true
      → check_message x j (record { tag = s.tag; action = pre_vote a }) s ≡ (ok tt, s)
  unfolding check_message check_action check_pre_vote check_share check_pre_justification
      check_validity check_sig Value-discrete
  zero_round_passes s j a h u b c r v w sb vs cb vu =
      rw (same_refl Tag-discrete s.tag) (rw r (rw v (rw w (rw sb (rw vs (rw cb (rw vu refl)))))))

  -- A party that holds validating data and signs can make an undecided instance panic: a pre-vote
  -- of it for 1 in round 0, with the instance's tag, its share on the vote's bytes and the c-final
  -- signature of the broadcast, is a panic in a build with overflow checks, as the index of its
  -- round is computed by `round - 1`.
  pub round_zero_panics :
      (fuel : ℕ) (s : Abba Sig Share) (j : NodeId) (a : PreVoteAction Sig Share) (h : Hash32)
      (u : Sig) (b c : Bytes)
      → s.decided_value ≡ none
      → a.round ≡ 0
      → a.value ≡ Value.one
      → a.justification ≡ with_validity h u
      → pre_vote_bytes_to_sign x s.tag 0 Value.one ≡ some b
      → s.pub_key_set.verify_share j a.sig_share b ≡ true
      → c_ready_bytes_to_sign x.ready_format s.tag h ≡ some c
      → s.pub_key_set.verify u c ≡ true
      → (receive_message x (suc fuel) j (record { tag = s.tag; action = pre_vote a }) s).0
        ≡ stop panicked
  unfolding add_message add_pre_vote pred_round
  round_zero_panics fuel s j a h u b c undecided r v w sb vs cb vu = ground (
    arith,
    accept_checked fuel j (record { tag = s.tag; action = pre_vote a }) s undecided
        (ap (λ p. p.0) (zero_round_passes s j a h u b c r v w sb vs cb vu)),
  )
