-- ===== src/Examples/Networks.antt =====
-- Runs of a network of four parties of src/mvba/abba.
use mathlib.Core.List.{take}
use sn_consensus.Prelude.{
  ℕ, ◌≡◌, refl, Bool, true, false, Option, none, some, List, [], ◌∷◌, get_elem?, ℕ_discrete,
  String_discrete,
}
use sn_consensus.Mvba.Tag.{NodeId, Tag-discrete, Domain-discrete}
use sn_consensus.Mvba.Hash.{Hash32-discrete}
use sn_consensus.Mvba.Vcbc.Message.{c_ready_bytes_to_sign}
use sn_consensus.Mvba.Broadcaster
use sn_consensus.Mvba.Broadcaster.{Bundle, Outgoing, gossip, direct}
use sn_consensus.Mvba.Abba.Message.{
  Value, MainVoteValue, first_round_zero, with_validity, abstains, MainVoteAction, main_vote,
  Message, PreVoteAction-discrete, MainVoteAction-discrete, DecisionAction-discrete, Value-discrete,
  MainVoteValue-discrete, PreVoteJustification-discrete, MainVoteJustification-discrete,
}
use sn_consensus.Mvba.Abba.State.{
  Abba, decided, grow, set_at, new, threshold, pred_round, pre_vote_bytes_to_sign,
  main_vote_bytes_to_sign, value_bool,
}
use sn_consensus.Mvba.Abba.Checks.{
  check_sig, check_share, check_validity, check_pre_justification, check_pre_vote, check_just_0,
  check_just_1, check_main_justification, check_main_vote, check_decision, check_action,
  check_message,
}
use sn_consensus.Mvba.Abba.Store.{
  votes_at, grow_pre_votes, put_pre_vote, add_pre_vote, grow_main_votes, put_main_vote,
  add_main_vote, add_message,
}
use sn_consensus.Mvba.Abba.Protocol.{
  combine, main_sig, set_decided, set_voted, next_round, set_validity, note, broadcast,
  send_pre_vote, start, send_main_vote, main_vote_value, main_vote_abstain, choose_main_vote,
  count_pre_votes, on_pre_vote, decide, hard_pre_vote, soft_pre_vote, follow_main_votes,
  pre_vote_validity, choose_pre_vote, count_main_votes, on_main_vote, on_decision, on_action,
  accept, handle, receive_message, pre_vote_zero, pre_vote_one,
}
use sn_consensus.Mvba.Abba.Conflict.{validity_outweighs_zeros}
use sn_consensus.Mvba.Abba.History.{vote_of}
use sn_consensus.Mvba.Abba.Unison.{unanimous_start_decides}
use sn_consensus.Mvba.Abba.Network.{
  Network, initial, starts_zero, starts_one, delivers, Reach, here, later,
}
use sn_consensus.Examples.Toy.{tag}
use sn_consensus.Examples.Quorum.{
  quorum_keys, secret, digest, valid, table, Action-discrete, Message-discrete, place, read_in,
  table_extern, table-ReadsBack,
}

-- A network that has been reached by the calls so far.
record Run : Type 0 where
  starts : List Value
  net : Network ℕ ℕ
  reach : Reach table_extern 4 (initial (tag 0) quorum_keys secret) starts net

data Call : Type 0 where
  zero_at one_at : NodeId → Call
  deliver : (to : NodeId) (from : NodeId) (nth : ℕ) → Call

begin : Run
begin = record { starts = []; net = _; reach = here }

sent_by : Run → NodeId → ℕ → Option Outgoing
sent_by r j k = get_elem? (r.net j).broadcaster.outgoings k

-- The next call; a delivery of what has not been sent is left out.
delivered :
    (r : Run) (i j : NodeId) (k : ℕ) (b : Bundle) (o : Option (Message ℕ ℕ))
    → sent_by r j k ≡ some (gossip b)
    → read_in table b.payload ≡ o
    → Run
unfolding sent_by
delivered r i j k b none e q = r
delivered r i j k b (some m) e q = record {
  starts = _;
  net = _;
  reach = later r.reach (delivers i j k b m e q);
}

taken : (r : Run) (i j : NodeId) (k : ℕ) (o : Option Outgoing) → sent_by r j k ≡ o → Run
taken r i j k none e = r
taken r i j k (some (direct n b)) e = r
taken r i j k (some (gossip b)) e = delivered r i j k b (read_in table b.payload) e refl

next : Run → Call → Run
unfolding taken delivered sent_by
next r (zero_at i) = record { starts = _; net = _; reach = later r.reach (starts_zero i) }
next r (one_at i) = record { starts = _; net = _; reach = later r.reach (starts_one i digest 0) }
next r (deliver i j k) = taken r i j k (sent_by r j k) refl

runs : Run → List Call → Run
runs r [] = r
runs r (c ∷ cs) = runs (next r c) cs

-- Parties 1, 2 and 3 start with 0 and party 4 with 1; all of them follow the code.
abbrev calls : List Call
calls =
    zero_at 1
    ∷ zero_at 2
    ∷ zero_at 3
    ∷ one_at 4
    ∷ deliver 1 2 0
    ∷ deliver 1 3 0
    ∷ deliver 2 1 0
    ∷ deliver 2 3 0
    ∷ deliver 3 1 0
    ∷ deliver 3 2 0
    ∷ deliver 4 1 0
    ∷ deliver 4 2 0
    ∷ deliver 4 1 1
    ∷ deliver 4 2 1
    ∷ deliver 1 2 1
    ∷ deliver 1 3 1
    ∷ deliver 2 4 2
    ∷ deliver 2 3 1
    ∷ deliver 2 4 1
    ∷ deliver 3 4 2
    ∷ deliver 3 2 1
    ∷ deliver 3 4 1
    ∷ deliver 2 3 2
    ∷ deliver 3 2 2
    ∷ deliver 4 2 2
    ∷ deliver 4 3 2
    ∷ deliver 2 3 3
    ∷ deliver 2 4 3
    ∷ []

-- Party 1 decides 0, party 2 decides 1.
honest_parties_disagree :
    (decided ((runs begin calls).net 1) ≡ some false)
    × (decided ((runs begin calls).net 2) ≡ some true)
unfolding runs next begin taken delivered sent_by place Action-discrete Message-discrete grow set_at
    new threshold pred_round decided pre_vote_bytes_to_sign main_vote_bytes_to_sign check_sig
    check_share check_validity check_pre_justification check_pre_vote check_just_0 check_just_1
    check_main_justification check_main_vote check_decision check_action check_message votes_at
    grow_pre_votes put_pre_vote add_pre_vote grow_main_votes put_main_vote add_main_vote add_message
    combine main_sig set_decided set_voted next_round set_validity note broadcast send_pre_vote
    start send_main_vote main_vote_value main_vote_abstain choose_main_vote count_pre_votes
    on_pre_vote decide hard_pre_vote soft_pre_vote follow_main_votes pre_vote_validity
    choose_pre_vote count_main_votes on_main_vote on_decision on_action accept handle
    receive_message pre_vote_zero pre_vote_one Value-discrete MainVoteValue-discrete
    PreVoteJustification-discrete MainVoteJustification-discrete PreVoteAction-discrete
    MainVoteAction-discrete DecisionAction-discrete Tag-discrete Domain-discrete String_discrete
    ℕ_discrete Hash32-discrete c_ready_bytes_to_sign Broadcaster.new Broadcaster.broadcast
    Broadcaster.make_bundle
honest_parties_disagree = (refl, refl)

-- With the value 0 for all, and the messages of three parties.
abbrev zero_calls : List Call
zero_calls =
    zero_at 1
    ∷ zero_at 2
    ∷ zero_at 3
    ∷ deliver 1 2 0
    ∷ deliver 1 3 0
    ∷ deliver 2 1 0
    ∷ deliver 2 3 0
    ∷ deliver 3 1 0
    ∷ deliver 3 2 0
    ∷ deliver 1 2 1
    ∷ deliver 1 3 1
    ∷ []

abbrev zero_run : Run
zero_run = runs begin zero_calls

unanimous_start_decides_example : ◌≡◌ {A = Bool} false (value_bool Value.zero)
unfolding runs next begin taken delivered sent_by place Action-discrete Message-discrete grow set_at
    new threshold pred_round decided pre_vote_bytes_to_sign main_vote_bytes_to_sign check_sig
    check_share check_validity check_pre_justification check_pre_vote check_just_0 check_just_1
    check_main_justification check_main_vote check_decision check_action check_message votes_at
    grow_pre_votes put_pre_vote add_pre_vote grow_main_votes put_main_vote add_main_vote add_message
    combine main_sig set_decided set_voted next_round set_validity note broadcast send_pre_vote
    start send_main_vote main_vote_value main_vote_abstain choose_main_vote count_pre_votes
    on_pre_vote decide hard_pre_vote soft_pre_vote follow_main_votes pre_vote_validity
    choose_pre_vote count_main_votes on_main_vote on_decision on_action accept handle
    receive_message pre_vote_zero pre_vote_one Value-discrete MainVoteValue-discrete
    PreVoteJustification-discrete MainVoteJustification-discrete PreVoteAction-discrete
    MainVoteAction-discrete DecisionAction-discrete Tag-discrete Domain-discrete String_discrete
    ℕ_discrete Hash32-discrete c_ready_bytes_to_sign Broadcaster.new Broadcaster.broadcast
    Broadcaster.make_bundle
unanimous_start_decides_example =
    unanimous_start_decides table_extern Value.zero table-ReadsBack 4 (tag 0) quorum_keys secret
      zero_run.reach (refl, (refl, (refl, tt))) 1 refl

-- Party 2 has validating data, and main-votes for 0 of two parties; then party 4 abstains.
abbrev before_abstention : Run
before_abstention = runs begin (take 18 calls)

abbrev abstention : MainVoteAction ℕ ℕ
abstention = record {
  round = 1;
  value = MainVoteValue.abstain;
  justification = abstains first_round_zero valid;
  sig_share = 4212;
}

validity_outweighs_zeros_example :
    let s : Abba ℕ ℕ = before_abstention.net 2 in
    vote_of 1 2
      (receive_message table_extern 4 4
        (record { tag = tag 0; action = main_vote abstention })
        s).1.round_pre_votes
    ≡ some (record {
      round = 2;
      value = Value.one;
      justification = with_validity digest 0;
      sig_share = 2121;
    })
unfolding runs next begin taken delivered sent_by place Action-discrete Message-discrete grow set_at
    new threshold pred_round decided pre_vote_bytes_to_sign main_vote_bytes_to_sign check_sig
    check_share check_validity check_pre_justification check_pre_vote check_just_0 check_just_1
    check_main_justification check_main_vote check_decision check_action check_message votes_at
    grow_pre_votes put_pre_vote add_pre_vote grow_main_votes put_main_vote add_main_vote add_message
    combine main_sig set_decided set_voted next_round set_validity note broadcast send_pre_vote
    start send_main_vote main_vote_value main_vote_abstain choose_main_vote count_pre_votes
    on_pre_vote decide hard_pre_vote soft_pre_vote follow_main_votes pre_vote_validity
    choose_pre_vote count_main_votes on_main_vote on_decision on_action accept handle
    receive_message pre_vote_zero pre_vote_one Value-discrete MainVoteValue-discrete
    PreVoteJustification-discrete MainVoteJustification-discrete PreVoteAction-discrete
    MainVoteAction-discrete DecisionAction-discrete Tag-discrete Domain-discrete String_discrete
    ℕ_discrete Hash32-discrete c_ready_bytes_to_sign Broadcaster.new Broadcaster.broadcast
    Broadcaster.make_bundle
validity_outweighs_zeros_example =
    validity_outweighs_zeros table_extern 2 (before_abstention.net 2) 4
      (record { tag = tag 0; action = main_vote abstention }) abstention 0 _ digest 0 _ _ _ refl
      refl refl refl refl refl refl refl refl refl refl refl refl refl refl refl refl
