-- ===== src/Examples/Votes.antt =====
-- Runs of src/mvba/mvba.
use sn_consensus.Prelude.{
  ℕ, ◌≡◌, refl, stop, raised, ap, true, false, none, some, List, [], ◌∷◌, ok, lookup, inl, arith,
  String_discrete, ℕ_discrete,
}
use sn_consensus.Mvba.Tag.{NodeId, Domain-discrete}
use sn_consensus.Mvba.Hash.{calculate}
use sn_consensus.Mvba.Vcbc.Message.{c_ready_bytes_to_sign}
use sn_consensus.Mvba.Mvba.Message.{Vote, Message, Error}
use sn_consensus.Mvba.Mvba.State.{
  Mvba, new, proposer_votes, build_tag, current_proposer, completed_vote, threshold,
}
use sn_consensus.Mvba.Mvba.Checks.{check_message, check_vote, check_proof}
use sn_consensus.Mvba.Mvba.Voting.{receive_message, sign_vote, make_vote}
use sn_consensus.Mvba.Mvba.Ballots.{receives, offers, moves, apply, run, IsValid, run-IsValid}
use sn_consensus.Mvba.Mvba.Rounds.{
  current_proposer_exists, own_vote_accepted, any_votes_complete, double_vote_refused,
  completed_vote_stable,
}
use sn_consensus.Examples.Toy.{keys, key, domain, tag, silent, mvba_extern}

abbrev parties : List NodeId
parties = 0 ∷ 1 ∷ 2 ∷ []

abbrev start : Mvba ℕ ℕ
start = new domain 1 key keys parties silent

abbrev no_for : NodeId → Vote ℕ
no_for p = record { tag = tag p; value = false; proof = none }

abbrev yes_for : NodeId → Vote ℕ
yes_for p = record { tag = tag p; value = true; proof = some (record { bytes = 5 ∷ [] }, 7) }

-- A vote of party 2.
abbrev from_two : Vote ℕ → Message ℕ ℕ
from_two v = record { vote = v; voter = 2; signature = 2 }

-- Party 2 has voted no on the proposer 0.
abbrev voted : Mvba ℕ ℕ
voted = record start { votes_per_proposer = (0, (2, no_for 0) ∷ []) ∷ [] }

-- Two proposals are known, and party 1 has voted no on the proposer 2; the current one is 0.
abbrev two_known : Mvba ℕ ℕ
two_known = record start {
  proposals = (0, (5 ∷ [], 7)) ∷ (1, (6 ∷ [], 7)) ∷ [];
  votes_per_proposer = (2, (1, no_for 2) ∷ []) ∷ [];
}

run-IsValid_example :
    IsValid mvba_extern domain keys
      (run mvba_extern (receives (from_two (no_for 0)) ∷ offers 0 (5 ∷ []) 7 ∷ moves ∷ []) start)
run-IsValid_example =
    run-IsValid mvba_extern domain 1 key keys parties silent
      (receives (from_two (no_for 0)) ∷ offers 0 (5 ∷ []) 7 ∷ moves ∷ [])

current_proposer_exists_example :
    (p : NodeId) × (current_proposer (run mvba_extern (moves ∷ moves ∷ moves ∷ []) start)
      ≡ (ok p, run mvba_extern (moves ∷ moves ∷ moves ∷ []) start))
current_proposer_exists_example =
    current_proposer_exists mvba_extern domain 1 key keys parties silent
      (moves ∷ moves ∷ moves ∷ []) (omega arith)

own_vote_accepted_example :
    (check_message mvba_extern
      (sign_vote mvba_extern
        (make_vote mvba_extern (build_tag start 0) (lookup 0 start.proposals))
        []
        start)
      start).0
    ≡ ok tt
unfolding run new
own_vote_accepted_example =
    own_vote_accepted mvba_extern domain keys start 0 []
      (run-IsValid mvba_extern domain 1 key keys parties silent []) (λ b. refl) refl

-- The current proposer is 0, and its vote is completed by votes for 2.
any_votes_complete_example :
    completed_vote (receive_message mvba_extern (from_two (no_for 2)) two_known).1 ≡ some false
unfolding check_message check_vote check_proof new proposer_votes threshold Domain-discrete
    String_discrete ℕ_discrete
any_votes_complete_example =
    any_votes_complete mvba_extern (from_two (no_for 2)) two_known refl refl (inl refl) refl
      (omega arith) (omega arith)

double_vote_refused_example :
    receive_message mvba_extern (from_two (yes_for 0)) voted
    ≡ (stop (raised (Error.invalid_message "double vote detected")), voted)
unfolding check_message check_vote check_proof new proposer_votes c_ready_bytes_to_sign calculate
    Domain-discrete String_discrete ℕ_discrete
double_vote_refused_example =
    double_vote_refused mvba_extern (from_two (yes_for 0)) voted (no_for 0) refl refl
      (λ e. ground (arith, ap (λ v. v.value) e))

-- The vote on the current proposer is completed with no.
abbrev completed : Mvba ℕ ℕ
completed = record start { v = some false }

completed_vote_stable_example :
    completed_vote (apply mvba_extern (receives (from_two (yes_for 0))) completed) ≡ some false
unfolding completed_vote new
completed_vote_stable_example =
    completed_vote_stable mvba_extern completed false (receives (from_two (yes_for 0))) (λ e. cc)
      refl
