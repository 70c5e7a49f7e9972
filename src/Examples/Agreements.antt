-- ===== src/Examples/Agreements.antt =====
-- Runs of src/mvba/abba.
use sn_consensus.Prelude.{
  ℕ, ◌≡◌, ◌≤◌, refl, ap, some, List, [], ◌∷◌, stop, raised, panicked, arith, String_discrete,
  ℕ_discrete, out_of_fuel, ◌≢◌,
}
use sn_consensus.Mvba.Tag.{NodeId, Domain-discrete, Tag-discrete}
use sn_consensus.Mvba.Hash.{Hash32}
use sn_consensus.Mvba.Vcbc.Message.{c_ready_bytes_to_sign}
use sn_consensus.Mvba.Broadcaster
use sn_consensus.Mvba.Abba.Message.{
  Value, value, PreVoteAction, MainVoteAction, DecisionAction, first_round_zero, with_validity,
  no_abstain, pre_vote, main_vote, Action, Message, Error, Value-discrete, MainVoteValue-discrete,
  hard,
}
use sn_consensus.Mvba.Abba.State.{
  Abba, new, threshold, pred_round, pre_vote_bytes_to_sign, main_vote_bytes_to_sign,
}
use sn_consensus.Mvba.Abba.Checks.{
  check_message, check_action, check_pre_vote, check_main_vote, check_share, check_sig,
  check_pre_justification, check_main_justification, check_validity, check_just_0,
}
use sn_consensus.Mvba.Abba.Store.{votes_at}
use sn_consensus.Mvba.Abba.Protocol.{receive_message}
use sn_consensus.Mvba.Abba.History.{Op, receives, votes_zero, apply, run, vote_of}
use sn_consensus.Mvba.Abba.Decision.{IsSound, decisions_signed}
use sn_consensus.Mvba.Abba.Stability.{IsKept, nothing_taken_back}
use sn_consensus.Mvba.Abba.Abstention.{mixed_round_stuck}
use sn_consensus.Mvba.Abba.Progress.{enough_main_votes_decide}
use sn_consensus.Mvba.Abba.Termination.{receive_ends}
use sn_consensus.Mvba.Abba.Refusals.{double_pre_vote_refused, round_zero_panics}
use sn_consensus.Examples.Toy.{keys, key, tag, silent, abba_extern, toy-Combines}

abbrev start : Abba ℕ ℕ
start = new (tag 0) 1 keys key silent

abbrev digest : Hash32
digest = record { bytes = 5 ∷ [] }

-- Votes of party 2.
abbrev pre_zero : PreVoteAction ℕ ℕ
pre_zero = record { round = 1; value = Value.zero; justification = first_round_zero; sig_share = 2 }

abbrev pre_one : ℕ → PreVoteAction ℕ ℕ
pre_one r = record {
  round = r;
  value = Value.one;
  justification = with_validity digest 7;
  sig_share = 2;
}

abbrev main : Value → MainVoteAction ℕ ℕ
main v = record { round = 1; value = value v; justification = no_abstain 7; sig_share = 2 }

abbrev message : Action ℕ ℕ → Message ℕ ℕ
message a = record { tag = tag 0; action = a }

abbrev history : List (Op ℕ ℕ)
history =
    votes_zero
    ∷ receives 2 (message (pre_vote pre_zero))
    ∷ receives 2 (message (main_vote (main Value.zero)))
    ∷ []

abbrev pre_voted : Abba ℕ ℕ
pre_voted = record start { round_pre_votes = ((2, pre_zero) ∷ []) ∷ [] }

abbrev main_voted : Abba ℕ ℕ
main_voted = record start { round_main_votes = ((2, main Value.zero) ∷ []) ∷ [] }

abbrev final_decision : DecisionAction ℕ
final_decision = record { round = 1; value = Value.zero; sig = 7 }

decisions_signed_example : IsSound abba_extern keys (tag 0) (run abba_extern 4 history start)
decisions_signed_example =
    decisions_signed abba_extern keys (tag 0) 1 key silent (toy-Combines 0) 4 history

receive_ends_example :
    (receive_message abba_extern 3 2 (message (pre_vote pre_zero)) start).0 ≢ stop out_of_fuel
receive_ends_example = receive_ends abba_extern 0 2 (message (pre_vote pre_zero)) start

double_pre_vote_refused_example :
    (receive_message abba_extern 4 2 (message (pre_vote (pre_one 1))) pre_voted).0
    ≡ stop (raised (Error.invalid_message "double pre-vote detected"))
unfolding votes_at new check_message check_action check_pre_vote check_share check_sig
    check_pre_justification check_validity c_ready_bytes_to_sign pre_vote_bytes_to_sign Tag-discrete
    Domain-discrete String_discrete ℕ_discrete Value-discrete
double_pre_vote_refused_example =
    double_pre_vote_refused abba_extern 3 pre_voted 2 (message (pre_vote (pre_one 1))) (pre_one 1)
      pre_zero 0 refl refl refl refl refl (λ e. ground (arith, ap (λ v. v.value) e))

round_zero_panics_example :
    (receive_message abba_extern 4 2 (message (pre_vote (pre_one 0))) start).0 ≡ stop panicked
unfolding new check_message check_action check_pre_vote check_share check_sig
    check_pre_justification check_validity c_ready_bytes_to_sign pre_vote_bytes_to_sign Tag-discrete
    Domain-discrete String_discrete ℕ_discrete Value-discrete
round_zero_panics_example =
    round_zero_panics abba_extern 3 start 2 (pre_one 0) digest 7 _ _ refl refl refl refl refl refl
      refl refl

nothing_taken_back_example :
    let t : Abba ℕ ℕ =
      apply abba_extern 4 (receives 2 (message (pre_vote (pre_one 1)))) pre_voted in
    IsKept (vote_of 0 2 pre_voted.round_pre_votes) (vote_of 0 2 t.round_pre_votes)
    × IsKept (vote_of 0 2 pre_voted.round_main_votes) (vote_of 0 2 t.round_main_votes)
    × IsKept pre_voted.decided_value t.decided_value
    × (pre_voted.r ≤ t.r)
nothing_taken_back_example =
    nothing_taken_back abba_extern 3 (receives 2 (message (pre_vote (pre_one 1)))) pre_voted 0 2

-- In round 2, a pre-vote for 1 that follows main-votes, and then one for 0.
abbrev hard_vote : Value → NodeId → PreVoteAction ℕ ℕ
hard_vote v j = record { round = 2; value = v; justification = hard 7; sig_share = j }

abbrev one_pre_vote : Abba ℕ ℕ
one_pre_vote = record start { r = 2; round_pre_votes = [] ∷ ((1, hard_vote Value.one 1) ∷ []) ∷ [] }

mixed_round_stuck_example :
    let (result, t) =
      receive_message abba_extern 4 2 (message (pre_vote (hard_vote Value.zero 2))) one_pre_vote in
    (result ≡ stop (raised (Error.invalid_message "invalid justification for value 1 in round 1")))
    × (t.broadcaster ≡ Broadcaster.broadcast silent "abba" (some 0) [])
    × (t.r ≡ 2)
    × (t.round_main_votes ≡ [])
unfolding votes_at new check_message check_action check_pre_vote check_share check_sig
    check_pre_justification check_just_0 pred_round main_vote_bytes_to_sign pre_vote_bytes_to_sign
    Tag-discrete Domain-discrete String_discrete ℕ_discrete Value-discrete threshold
mixed_round_stuck_example =
    mixed_round_stuck abba_extern 2 one_pre_vote 2 (message (pre_vote (hard_vote Value.zero 2)))
      (hard_vote Value.zero 2) (hard_vote Value.zero 2) (hard_vote Value.one 1) 1 _ _ _ refl refl
      refl refl refl refl refl refl refl refl tt refl refl refl refl

-- Two main-votes for 1 in round 1, at a party in round 2.
abbrev one_voted : Abba ℕ ℕ
one_voted = record start {
  r = 2;
  round_main_votes = ((1, record (main Value.one) { sig_share = 1 }) ∷ []) ∷ [];
}

enough_main_votes_decide_example :
    (receive_message abba_extern 4 2
      (message (main_vote (main Value.one)))
      one_voted).1.decided_value
    ≡ some (record { round = 1; value = Value.one; sig = 7 })
unfolding votes_at new check_message check_action check_main_vote check_share check_sig
    check_main_justification main_vote_bytes_to_sign pre_vote_bytes_to_sign Tag-discrete
    Domain-discrete String_discrete ℕ_discrete Value-discrete MainVoteValue-discrete threshold
enough_main_votes_decide_example =
    enough_main_votes_decide abba_extern 3 one_voted 2 (message (main_vote (main Value.one)))
      (main Value.one) 0 Value.one _ 7 refl refl refl refl refl refl refl refl refl refl
