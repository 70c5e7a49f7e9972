-- ===== src/Vote/Ballots.antt =====
-- src/vote.rs: what a vote contains, which votes it supersedes, and its proposals.
use Prim.Native.Nat.{compare}
use sn_consensus.Prelude.{
  Bool, true, false, not, List, [], ◌∷◌, ◌++◌, map, Option, none, some, any, ◌==◌, if◌then◌else◌,
  ◌&&◌, keep,
}
use sn_consensus.Prelude.Ordered.{has, collect, is_subset}
use sn_consensus.Vote.Types.{
  NodeId, Ballot, propose, merge, super_majority, Vote, vote, SignedVote, signed, Votes, no_votes,
  and_vote, vote_list, to_votes, gen_of, ballot_of, faults_of, vote_of, voter_of, voter_at_fault,
}
use sn_consensus.Vote.Extern.{Extern, same_vote, same_ballot, order_votes}

module _ {T Share : Type 0} where
  unfoldable mutual
    -- SignedVote::unpack_votes
    pub unpack_votes : SignedVote T Share → List (SignedVote T Share)
    unpack_votes (signed v voter sig) = signed v voter sig ∷ unpack_vote v

    -- The votes below a ballot.
    pub unpack_vote : Vote T Share → List (SignedVote T Share)
    unpack_vote (vote gen ballot _) = unpack_ballot ballot

    pub unpack_ballot : Ballot T Share → List (SignedVote T Share)
    unpack_ballot (propose p) = []
    unpack_ballot (merge votes) = unpack_all votes
    unpack_ballot (super_majority votes _) = unpack_all votes

    -- `flat_map(SignedVote::unpack_votes)`
    pub unpack_all : Votes T Share → List (SignedVote T Share)
    unpack_all no_votes = []
    unpack_all (and_vote v vs) = unpack_votes v ++ unpack_all vs

  abbrev pub unpack_list : List (SignedVote T Share) → List (SignedVote T Share)
  unpack_list [] = []
  unpack_list (v ∷ vs) = unpack_votes v ++ unpack_list vs

  -- Vote::faulty_ids
  abbrev pub faulty_ids : Vote T Share → List NodeId
  faulty_ids v = collect compare (map voter_at_fault (faults_of v))

  abbrev pub as_proposal : Ballot T Share → Option T
  as_proposal (propose p) = some p
  as_proposal _ = none

  abbrev pub is_super_majority_ballot : Vote T Share → Bool
  is_super_majority_ballot (vote _ (super_majority _ _) _) = true
  is_super_majority_ballot _ = false

  -- `filter_map(|v| v.vote.ballot.as_proposal())`
  abbrev pub proposed : List (SignedVote T Share) → List T
  proposed [] = []
  proposed (v ∷ vs) =
      let rest = proposed vs in
      elim (as_proposal (ballot_of (vote_of v))) [ none ↦ rest | some p ↦ p ∷ rest ]

module _ {T Share : Type 0} (x : Extern T Share) where
  -- The first test of `SignedVote::supersedes`.
  abbrev pub covers : SignedVote T Share → SignedVote T Share → Bool
  covers (signed v voter _) (signed w other _) =
      voter == other
      && gen_of v == gen_of w
      && same_ballot x (ballot_of v) (ballot_of w)
      && is_subset compare (faulty_ids w) (faulty_ids v)

  unfoldable mutual
    pub supersedes : SignedVote T Share → SignedVote T Share → Bool
    supersedes (signed v voter sig) other =
        let below = vote_supersedes v other in
        if covers (signed v voter sig) other then true else below

    pub vote_supersedes : Vote T Share → SignedVote T Share → Bool
    vote_supersedes (vote gen ballot _) other = ballot_supersedes ballot other

    pub ballot_supersedes : Ballot T Share → SignedVote T Share → Bool
    ballot_supersedes (propose p) other = false
    ballot_supersedes (merge votes) other = any_supersedes votes other
    ballot_supersedes (super_majority votes _) other = any_supersedes votes other

    -- `votes.iter().any(|v| v.supersedes(other))`
    pub any_supersedes : Votes T Share → SignedVote T Share → Bool
    any_supersedes no_votes other = false
    any_supersedes (and_vote v vs) other =
        let rest = any_supersedes vs other in if supersedes v other then true else rest

  -- The test of `simplify_votes` whether another of the votes supersedes this one.
  abbrev pub is_superseded : List (SignedVote T Share) → SignedVote T Share → Bool
  is_superseded all v =
      any (λ other. supersedes other v) (keep (λ other. not (same_vote x other v)) all)

  abbrev pub simplify_votes : List (SignedVote T Share) → List (SignedVote T Share)
  simplify_votes all = collect (order_votes x) (keep (λ v. not (is_superseded all v)) all)

  -- Ballot::simplify
  abbrev pub simplify : Ballot T Share → Ballot T Share
  simplify (propose p) = propose p
  simplify (merge votes) = merge (to_votes (simplify_votes (vote_list votes)))
  simplify (super_majority votes ps) =
      super_majority (to_votes (simplify_votes (vote_list votes))) ps

  -- The function `proposals`.
  abbrev pub proposals : Votes T Share → List NodeId → List T
  proposals votes known_faulty =
      collect x.cmp
        (proposed (keep (λ v. not (has compare (voter_of v) known_faulty)) (unpack_all votes)))

  abbrev pub proposals_with_known_faults : Vote T Share → List NodeId → List T
  proposals_with_known_faults (vote _ (propose p) _) known_faulty = p ∷ []
  proposals_with_known_faults (vote _ (merge votes) _) known_faulty = proposals votes known_faulty
  proposals_with_known_faults (vote _ (super_majority votes _) _) known_faulty =
      proposals votes known_faulty

  -- Vote::proposals
  abbrev pub vote_proposals : Vote T Share → List T
  vote_proposals v = proposals_with_known_faults v (faulty_ids v)
