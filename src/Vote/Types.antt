-- ===== src/Vote/Types.antt =====
-- src/vote.rs, src/fault.rs and src/error.rs: votes, faults and errors. A signed vote holds votes
-- and faults, which hold signed votes, so the types are one block and the sets are lists of their
-- own. A set is in ascending order wherever the source builds it.
use sn_consensus.Prelude.{ℕ, List, [], ◌∷◌}

-- NodeId is u8, and Generation is u64.
abbrev pub NodeId : Type 0
NodeId = ℕ

abbrev pub Generation : Type 0
Generation = ℕ

mutual
  pub data Ballot (T : Type 0) (Share : Type 0) : Type 0 where
    propose : T → Ballot T Share
    merge : Votes T Share → Ballot T Share
    super_majority : Votes T Share → List (T × (NodeId × Share)) → Ballot T Share

  -- The fields gen, ballot and faults.
  pub data Vote (T : Type 0) (Share : Type 0) : Type 0 where
    vote : Generation → Ballot T Share → Faults T Share → Vote T Share

  -- The fields vote, voter and sig.
  pub data SignedVote (T : Type 0) (Share : Type 0) : Type 0 where
    signed : Vote T Share → NodeId → Share → SignedVote T Share

  pub data Fault (T : Type 0) (Share : Type 0) : Type 0 where
    changed_vote : SignedVote T Share → SignedVote T Share → Fault T Share
    invalid_fault : SignedVote T Share → Fault T Share

  -- BTreeSet<SignedVote<T>>
  pub data Votes (T : Type 0) (Share : Type 0) : Type 0 where
    no_votes : Votes T Share
    and_vote : SignedVote T Share → Votes T Share → Votes T Share

  -- BTreeSet<Fault<T>>
  pub data Faults (T : Type 0) (Share : Type 0) : Type 0 where
    no_faults : Faults T Share
    and_fault : Fault T Share → Faults T Share → Faults T Share

pub data FaultError : Type 0 where
  changed_vote_fault_is_from_different_voters changed_vote_is_not_actually_changed
        accused_an_improperly_signed_vote accused_vote_of_invalid_fault_but_all_faults_are_valid :
      FaultError

-- The payloads of third-party errors are left out.
pub data Error : Type 0 where
  io fmt no_members members_at_capacity join_request_for_existing_member
        leave_request_for_non_member :
      Error
  parent_and_child_with_diff_gen : Generation → Generation → Error
  bad_generation : Generation → Generation → Error
  decision_has_no_votes not_elder voter_changed_vote existing_vote_incompatible_with_new_vote
        super_majority_ballot_is_not_super_majority :
      Error
  invalid_generation : Generation → Error
  invalid_vote_in_history invalid_decision encoding invalid_elder_signature
        super_majority_proposals_does_not_match_vote_proposals blsttc attempted_faulty_proposal :
      Error
  fault_is_faulty : FaultError → Error

module _ {T Share : Type 0} where
  abbrev pub vote_list : Votes T Share → List (SignedVote T Share)
  vote_list no_votes = []
  vote_list (and_vote v vs) = v ∷ vote_list vs

  abbrev pub to_votes : List (SignedVote T Share) → Votes T Share
  to_votes [] = no_votes
  to_votes (v ∷ vs) = and_vote v (to_votes vs)

  abbrev pub fault_list : Faults T Share → List (Fault T Share)
  fault_list no_faults = []
  fault_list (and_fault f fs) = f ∷ fault_list fs

  abbrev pub to_faults : List (Fault T Share) → Faults T Share
  to_faults [] = no_faults
  to_faults (f ∷ fs) = and_fault f (to_faults fs)

  abbrev pub gen_of : Vote T Share → Generation
  gen_of (vote gen _ _) = gen

  abbrev pub ballot_of : Vote T Share → Ballot T Share
  ballot_of (vote _ ballot _) = ballot

  abbrev pub faults_of : Vote T Share → List (Fault T Share)
  faults_of (vote _ _ faults) = fault_list faults

  abbrev pub vote_of : SignedVote T Share → Vote T Share
  vote_of (signed v _ _) = v

  abbrev pub voter_of : SignedVote T Share → NodeId
  voter_of (signed _ voter _) = voter

  abbrev pub sig_of : SignedVote T Share → Share
  sig_of (signed _ _ sig) = sig

  -- Fault::voter_at_fault
  abbrev pub voter_at_fault : Fault T Share → NodeId
  voter_at_fault (changed_vote a b) = voter_of a
  voter_at_fault (invalid_fault v) = voter_of v
