-- ===== src/Elders/Membership/Handlers.antt =====
-- src/sn_membership.rs: `handle_signed_vote`, `sign_vote`, `cast_vote` and `propose`.
use sn_consensus.Prelude.{
  ℕ, ◌+◌, if◌then◌else◌, raised, Outcome, Exec, pure, halt, lift, reading, ◌>>=◌, ◌>>◌, is_empty,
}
use sn_consensus.Keys.{PublicKeySet}
use sn_consensus.Vote.Types.{
  Ballot, Vote, vote, SignedVote, Error, attempted_faulty_proposal, to_faults, gen_of, vote_of,
}
use sn_consensus.Vote.Validity.{detect_byzantine_faults}
use sn_consensus.Elders.Generation.{
  fault_set, is_processed, sign_vote as sign_in_generation, VoteResponse,
}
use sn_consensus.Elders.Handlers.{handle_signed_vote, cast_vote as cast_in_generation}
use sn_consensus.Elders.Membership.State.{
  Reconfig, MemberExtern, votes_extern, Membership, at_gen, current, advance,
}
use sn_consensus.Elders.Membership.Checks.{validate_proposals}

module _ {T Share Sig : Type 0} (x : MemberExtern T Share) (elders : PublicKeySet Sig Share) where
  abbrev pub Method : Type 0 → Type 0
  Method = Exec (Membership T Share Sig) Error

  unfoldable pub handle_vote :
      ℕ → SignedVote (Reconfig T) Share → Method (VoteResponse (Reconfig T) Share)
  handle_vote fuel v = reading λ s. do
    lift (validate_proposals x s v)
    response ← at_gen (gen_of (vote_of v)) (handle_signed_vote (votes_extern x) elders fuel v)
    advance (gen_of (vote_of v))
    pure response

  unfoldable pub sign_vote :
      Membership T Share Sig
      → Vote (Reconfig T) Share
      → Outcome Error (SignedVote (Reconfig T) Share)
  sign_vote s v = sign_in_generation (votes_extern x) s.consensus v

  unfoldable pub cast_vote :
      ℕ → SignedVote (Reconfig T) Share → Method (SignedVote (Reconfig T) Share)
  cast_vote fuel v = current (cast_in_generation (votes_extern x) elders fuel v)

  -- The proposal is ours to make if nobody could take it for a fault.
  unfoldable pub cast_proposal :
      ℕ → SignedVote (Reconfig T) Share → Method (SignedVote (Reconfig T) Share)
  cast_proposal fuel v = reading λ s.
      if is_empty (
        detect_byzantine_faults (votes_extern x) elders v s.consensus.votes
          (is_processed (votes_extern x) s.consensus))
      then cast_vote fuel v
      else halt (raised attempted_faulty_proposal)

  unfoldable pub propose : ℕ → Reconfig T → Method (SignedVote (Reconfig T) Share)
  propose fuel reconfig = reading λ s. do
    v ← lift (
        sign_vote s (
          vote (s.gen + 1) (Ballot.propose reconfig)
            (to_faults (fault_set (votes_extern x) s.consensus))))
    lift (validate_proposals x s v)
    cast_proposal fuel v
