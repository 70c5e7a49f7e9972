-- ===== src/Examples/Sections.antt =====
-- Runs of the membership of a section, with the elders of `Ballots`.
use Prim.Native.Nat.{compare}
use Prim.Native.Nat.Ordering.{gt}
use sn_consensus.Prelude.{
  true, All, arith, ℕ, ◌+◌, ◌≡◌, ◌≢◌, inl, refl, some, none, List, [], ◌∷◌, ok, stop, raised,
  panicked, length,
}
use sn_consensus.Prelude.Ordered.{has, keys}
use sn_consensus.Elders.Choice.{IsTotal, resolve_votes-max}
use sn_consensus.Vote.Types.{
  Generation, Ballot, merge, super_majority, Vote, vote, SignedVote, signed, no_votes, and_vote,
  no_faults, bad_generation, vote_list,
}
use sn_consensus.Vote.Ballots.{unpack_votes, supersedes}
use sn_consensus.Vote.Compare.{cmp_ballot}
use sn_consensus.Vote.Count.{candidate_in}
use sn_consensus.Vote.Validity.{validate, validate_fault, verify_sig_share}
use sn_consensus.Elders.Handlers.{
  handle_signed_vote, cast_vote, handle, check_vote, process_signed_vote, count_votes, respond,
  adopt_ballot, vote_super_majority, merge_votes, accept_decision, reach_decision,
  cast_and_broadcast,
}
use sn_consensus.Elders.Membership.{
  Reconfig, join, leave, MemberExtern, Membership, from, at_gen, advance, members,
  validate_proposals, handle_vote,
}
use sn_consensus.Elders.Generations.{Op, joins, handles, run, apply, IsHistory, run-IsHistory}
use sn_consensus.Elders.Members.{validate_never_panics, unknown_generation_refused}
use sn_consensus.Examples.Ballots.{elders, key_of, digest}

abbrev reconfig_code : Reconfig ℕ → ℕ
reconfig_code (join p) = p
reconfig_code (leave p) = 50 + p

abbrev vote_code : Vote (Reconfig ℕ) ℕ → List ℕ
vote_code (vote g (Ballot.propose r) fs) = g ∷ 1 ∷ reconfig_code r ∷ []
vote_code (vote g (merge vs) fs) = g ∷ 20 ∷ length (vote_list vs) ∷ []
vote_code (vote g (super_majority vs ps) fs) = g ∷ 30 ∷ length ps ∷ []

abbrev section : MemberExtern ℕ ℕ
section = record {
  cmp = compare;
  cmp_share = compare;
  proposal_format = record {
    serialize = λ r. some (reconfig_code r ∷ []);
    deserialize = λ _. none;
  };
  vote_format = record { serialize = λ v. some (vote_code v); deserialize = λ _. none };
}

abbrev joining : ℕ → Generation → SignedVote (Reconfig ℕ) ℕ
joining i g =
    let v = vote g (Ballot.propose (join 5)) no_faults in signed v i (digest i (vote_code v))

abbrev agreed : ℕ → SignedVote (Reconfig ℕ) ℕ
agreed i =
    let v =
      vote 1
        (super_majority (and_vote (joining 1 1) (and_vote (joining 2 1) no_votes))
          ((join 5, (i, digest i (5 ∷ []))) ∷ []))
        no_faults in
    signed v i (digest i (vote_code v))

-- Member 8 is there from the start; elders 1 and 2 agree that 5 joins.
abbrev history : List (Op ℕ ℕ)
history =
    joins 8
    ∷ handles 4 (joining 1 1)
    ∷ handles 4 (joining 2 1)
    ∷ handles 4 (agreed 1)
    ∷ handles 4 (agreed 2)
    ∷ []

abbrev grown : Membership ℕ ℕ ℕ
grown = run section elders history (from 3 (key_of 3) 3)

both_members : members section grown 1 ≡ ok (5 ∷ 8 ∷ [])
unfolding run apply handle_vote at_gen advance handle_signed_vote cast_vote handle check_vote
    process_signed_vote count_votes respond adopt_ballot vote_super_majority merge_votes
    accept_decision reach_decision cast_and_broadcast validate verify_sig_share validate_fault
    candidate_in supersedes unpack_votes cmp_ballot
both_members = refl

run-IsHistory_example : IsHistory grown
run-IsHistory_example = run-IsHistory section elders 3 (key_of 3) 3 history

grown-IsHistory : IsHistory grown
grown-IsHistory = run-IsHistory section elders 3 (key_of 3) 3 history

validate_never_panics_example : validate_proposals section grown (joining 1 2) ≢ stop panicked
validate_never_panics_example = validate_never_panics section grown (joining 1 2) grown-IsHistory

unknown_generation_refused_example :
    handle_vote section elders 4 (joining 1 0) grown
    ≡ (stop (raised (bad_generation 0 grown.gen)), grown)
unknown_generation_refused_example =
    unknown_generation_refused section elders 4 grown (joining 1 0) grown-IsHistory (inl refl)

compare-IsTotal : IsTotal compare
compare-IsTotal = record {
  le_refl = λ a. ground arith;
  le_trans = λ a b c. ground arith;
  le_of_gt = λ a b. ground arith;
}

abbrev two_decided : List (ℕ × ℕ)
two_decided = (5, 7) ∷ (8, 7) ∷ []

resolve_votes-max_example :
    (has compare 8 (keys two_decided) ≡ true) × All (λ e. compare e.0 8 ≢ gt) two_decided
resolve_votes-max_example = resolve_votes-max compare compare-IsTotal two_decided 8 refl
