-- ===== src/Examples/Elders.antt =====
-- Runs of the agreement of the elders of `Ballots`, with elder 3 as the node.
use sn_consensus.Prelude.{ℕ, ◌≡◌, refl, some, none, List, [], ◌∷◌, ok, arith}
use sn_consensus.Vote.Types.{
  propose, merge, super_majority, vote, SignedVote, signed, Votes, no_votes, and_vote, no_faults,
  vote_of, voter_of, sig_of,
}
use sn_consensus.Vote.Ballots.{unpack_votes, supersedes}
use sn_consensus.Vote.Compare.{cmp_ballot}
use sn_consensus.Vote.Count.{candidate_in}
use sn_consensus.Vote.Validity.{validate, validate_fault, verify_sig_share, validate_signature}
use sn_consensus.Vote.Decision.{Decision}
use sn_consensus.Elders.Generation.{Consensus, new, waiting_for_more_votes}
use sn_consensus.Elders.Handlers.{
  handle_signed_vote, cast_vote, handle, check_vote, process_signed_vote, count_votes, respond,
  adopt_ballot, vote_super_majority, merge_votes, accept_decision, reach_decision,
  cast_and_broadcast,
}
use sn_consensus.Elders.History.{Op, handles, run, apply}
use sn_consensus.Elders.Records.{IsRecorded, records_sound}
use sn_consensus.Elders.Growth.{IsAtLeast, stored_vote_grows}
use sn_consensus.Elders.Outcome.{decision_is_final, processed_votes_decide, own_vote_verifies}
use sn_consensus.Examples.Ballots.{
  orders, orders_lawful, elders, key_of, proposes, majority_of, by, decided,
}

abbrev start : Consensus ℕ ℕ ℕ
start = new 3 (key_of 3) 3

-- The votes of elders 1 and 2 come in, and then their super-majorities.
abbrev rounds : List (Op ℕ ℕ)
rounds =
    handles 4 (proposes 1 5)
    ∷ handles 4 (proposes 2 5)
    ∷ handles 4 (majority_of 1)
    ∷ handles 4 (majority_of 2)
    ∷ []

records_sound_example : IsRecorded orders elders (run orders elders rounds start)
records_sound_example = records_sound orders elders orders_lawful 3 (key_of 3) 3 rounds

-- The node has the vote of elder 1 only.
abbrev one_vote : Consensus ℕ ℕ ℕ
one_vote = record start {
  processed_votes_cache = sig_of (proposes 1 5) ∷ [];
  votes = (1, proposes 1 5) ∷ [];
}

stored_vote_grows_example :
    IsAtLeast orders elders 1 (proposes 1 5) (run orders elders rounds one_vote)
stored_vote_grows_example =
    stored_vote_grows orders elders orders_lawful 1 (proposes 1 5) rounds one_vote refl

decision_is_final_example :
    run orders elders rounds (record start { decision = some decided })
    ≡ record start { decision = some decided }
decision_is_final_example =
    decision_is_final orders elders rounds (record start { decision = some decided }) decided refl

own_vote_verifies_example :
    (vote_of (proposes 3 5) ≡ vote 1 (propose 5) no_faults)
    × (voter_of (proposes 3 5) ≡ start.id)
    × (validate_signature orders elders (proposes 3 5) ≡ ok tt)
own_vote_verifies_example =
    own_vote_verifies orders elders start (vote 1 (propose 5) no_faults) (proposes 3 5)
      (λ b. ground arith) refl

-- Elder 4's vote over the two super-majorities decides.
abbrev final_vote : SignedVote ℕ ℕ
final_vote =
    by 4 (vote 1 (merge (and_vote (majority_of 1) (and_vote (majority_of 2) no_votes))) no_faults)

abbrev decided_proposals : Consensus ℕ ℕ ℕ → List (ℕ × ℕ)
decided_proposals c = elim c.decision [ none ↦ [] | some d ↦ d.proposals ]

rounds_decide : decided_proposals (run orders elders rounds start) ≡ (5, 7) ∷ []
unfolding run apply handle_signed_vote cast_vote handle check_vote process_signed_vote count_votes
    respond adopt_ballot vote_super_majority merge_votes accept_decision reach_decision
    cast_and_broadcast validate verify_sig_share validate_fault candidate_in supersedes unpack_votes
    cmp_ballot
rounds_decide = refl

-- Super-majorities for 99 that nobody signed, with the signatures of the votes of elders 1 and 2.
abbrev forged_majority : ℕ → SignedVote ℕ ℕ
forged_majority i =
    signed (vote 1 (super_majority no_votes ((99, (i, 0)) ∷ [])) no_faults) i
      (sig_of (proposes i 5))

abbrev attack : SignedVote ℕ ℕ
attack = by 4 (
    vote 1 (merge (and_vote (forged_majority 1) (and_vote (forged_majority 2) no_votes))) no_faults)

-- Elder 4 alone makes the node decide 99.
attack_decides :
    decided_proposals (
      run orders elders
        (handles 4 (proposes 1 5) ∷ handles 4 (proposes 2 5) ∷ handles 4 attack ∷ [])
        start)
    ≡ (99, 7) ∷ []
unfolding run apply handle_signed_vote cast_vote handle check_vote process_signed_vote count_votes
    respond adopt_ballot vote_super_majority merge_votes accept_decision reach_decision
    cast_and_broadcast validate verify_sig_share validate_fault candidate_in supersedes unpack_votes
    cmp_ballot
attack_decides = refl

abbrev two_votes : Consensus ℕ ℕ ℕ
two_votes = record start {
  processed_votes_cache = sig_of (proposes 1 5) ∷ sig_of (proposes 2 5) ∷ [];
  votes = (1, proposes 1 5) ∷ (2, proposes 2 5) ∷ [];
}

abbrev forged : Votes ℕ ℕ
forged = and_vote (forged_majority 1) (and_vote (forged_majority 2) no_votes)

processed_votes_decide_example :
    ((handle_signed_vote orders elders 0 attack two_votes).0 ≡ ok waiting_for_more_votes)
    × ((d : Decision ℕ ℕ ℕ) × ((handle_signed_vote orders elders 0 attack two_votes).1.decision
          ≡ some d)
        × (d.proposals ≡ (99, 7) ∷ []))
unfolding validate verify_sig_share validate_fault candidate_in supersedes unpack_votes cmp_ballot
processed_votes_decide_example =
    processed_votes_decide orders elders 0 1 forged 4 (sig_of attack) two_votes ((99, 7) ∷ []) refl
      refl refl ((refl, refl), ((refl, refl), tt)) (refl, (refl, tt)) refl refl refl
