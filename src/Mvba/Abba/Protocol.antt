-- ===== src/Mvba/Abba/Protocol.antt =====
-- `receive_message` of src/mvba/abba/mod.rs. Each handler takes `recv`, the call of
-- `receive_message` that delivers a node's own messages to itself.
use sn_consensus.Prelude.{
  ℕ, zero, suc, ◌+◌, true, false, not, Option, none, some, [], ◌∷◌, Map, map, contains_key, is_some,
  same, keep, length, leb, ltb, ◌==◌, get_elem?, on_option, if◌then◌else◌, Stop, halt, raise,
  reading, or_raise, pure, modify, done, ◌>>=◌, ◌>>◌,
}
use sn_consensus.Keys.{Bytes}
use sn_consensus.Mvba.Tag.{NodeId}
use sn_consensus.Mvba.Hash.{Hash32}
use sn_consensus.Mvba.Broadcaster
use sn_consensus.Mvba.Abba.Message.{
  Value, MainVoteValue, value, PreVoteJustification, first_round_zero, with_validity, hard, soft,
  MainVoteJustification, abstains, no_abstain, PreVoteAction, MainVoteAction, DecisionAction,
  Action, pre_vote, main_vote, decision, Message, Error, Extern, Value-discrete,
  MainVoteValue-discrete, DecisionAction-discrete,
}
use sn_consensus.Mvba.Abba.State.{
  Abba, Method, module_name, threshold, pred_round, pre_vote_bytes_to_sign, main_vote_bytes_to_sign,
}
use sn_consensus.Mvba.Abba.Checks.{check_message}
use sn_consensus.Mvba.Abba.Store.{add_message}

-- The type of `receive_message`.
abbrev pub Receiver : Type 0 → Type 0 → Type 0
Receiver Sig Share = NodeId → Message Sig Share → Method Sig Share Unit

abbrev pub first : {V : Type 0} → Map V → Option V
first [] = none
first ((_, v) ∷ _) = some v

module _ {Sig Share : Type 0} where
  abbrev pub pre_votes_for : Value → Map (PreVoteAction Sig Share) → Map (PreVoteAction Sig Share)
  pre_votes_for v = keep (λ e. same Value-discrete (e.1).value v)

  abbrev pub main_votes_for :
      MainVoteValue → Map (MainVoteAction Sig Share) → Map (MainVoteAction Sig Share)
  main_votes_for v = keep (λ e. same MainVoteValue-discrete (e.1).value v)

  abbrev pub pre_shares : Map (PreVoteAction Sig Share) → Map Share
  pre_shares = map (λ e. (e.0, (e.1).sig_share))

  abbrev pub main_shares : Map (MainVoteAction Sig Share) → Map Share
  main_shares = map (λ e. (e.0, (e.1).sig_share))

  -- `combine_signatures(..)?`
  unfoldable pub combine : Map Share → Method Sig Share Sig
  combine shares = reading λ s. or_raise Error.blsttc (s.pub_key_set.combine_signatures shares)

  -- The S-threshold signature that justifies a main-vote for a value.
  unfoldable pub main_sig : MainVoteJustification Sig → Method Sig Share Sig
  main_sig (no_abstain sig) = pure sig
  main_sig (abstains _ _) =
      raise (Error.generic "protocol violated, invalid main-vote justification")

  unfoldable pub set_decided : DecisionAction Sig → Abba Sig Share → Abba Sig Share
  set_decided d s = record s { decided_value = some d }

  unfoldable pub set_voted : Abba Sig Share → Abba Sig Share
  set_voted s = record s { voted = true }

  unfoldable pub next_round : Abba Sig Share → Abba Sig Share
  next_round s = record s { r = s.r + 1 }

  unfoldable pub set_validity : PreVoteJustification Sig → Abba Sig Share → Abba Sig Share
  set_validity (with_validity digest sig) s = record s { weak_validity = some (digest, sig) }
  set_validity _ s = s

module _ {Sig Share : Type 0} (x : Extern Sig Share) where
  -- Hand a payload for all the parties to the broadcaster.
  unfoldable pub note : Bytes → Method Sig Share Unit
  note payload = modify λ s. record s {
    broadcaster = Broadcaster.broadcast s.broadcaster module_name (some s.tag.proposer) payload;
  }

  unfoldable pub broadcast : Receiver Sig Share → Action Sig Share → Method Sig Share Unit
  broadcast recv action = reading λ s. do
    payload ←
        or_raise Error.encoding
          (x.message_format.serialize (record { tag = s.tag; action = action }))
    note payload
    recv s.i (record { tag = s.tag; action = action })

  -- A pre-vote of this node in a round.
  unfoldable pub send_pre_vote :
      Receiver Sig Share → ℕ → Value → PreVoteJustification Sig → Method Sig Share Unit
  send_pre_vote recv round v justification = reading λ s. do
    sign_bytes ← or_raise Error.encoding (pre_vote_bytes_to_sign x s.tag round v)
    broadcast recv (
        pre_vote (record {
          round = round;
          value = v;
          justification = justification;
          sig_share = s.sec_key_share.sign sign_bytes;
        }))

  -- `self.voted` is set before the message goes out.
  unfoldable pub start :
      Receiver Sig Share → Value → PreVoteJustification Sig → Method Sig Share Unit
  start recv v justification = reading λ s. if s.voted then done else do
    sign_bytes ← or_raise Error.encoding (pre_vote_bytes_to_sign x s.tag 1 v)
    modify set_voted
    broadcast recv (
        pre_vote (record {
          round = 1;
          value = v;
          justification = justification;
          sig_share = s.sec_key_share.sign sign_bytes;
        }))

  -- Main-vote for the round, and then go to the next one.
  unfoldable pub send_main_vote :
      Receiver Sig Share → ℕ → MainVoteValue → MainVoteJustification Sig → Method Sig Share Unit
  send_main_vote recv round v justification = reading λ s. do
    sign_bytes ← or_raise Error.encoding (main_vote_bytes_to_sign x s.tag round v)
    broadcast recv (
        main_vote (record {
          round = round;
          value = v;
          justification = justification;
          sig_share = s.sec_key_share.sign sign_bytes;
        }))
    modify next_round

  unfoldable pub main_vote_value :
      Receiver Sig Share → ℕ → Value → Map (PreVoteAction Sig Share) → Method Sig Share Unit
  main_vote_value recv round v votes = do
    sig ← combine (pre_shares votes)
    send_main_vote recv round (value v) (no_abstain sig)

  unfoldable pub main_vote_abstain :
      Receiver Sig Share
      → ℕ
      → Option (PreVoteAction Sig Share)
      → Option (PreVoteAction Sig Share)
      → Method Sig Share Unit
  main_vote_abstain recv round (some zero_vote) (some one_vote) =
      send_main_vote recv round MainVoteValue.abstain
        (abstains zero_vote.justification one_vote.justification)
  main_vote_abstain recv round _ _ = raise (Error.generic "protocol violated, no pre-vote majority")

  -- MAIN-VOTE, with the pre-votes of the round.
  unfoldable pub choose_main_vote :
      Receiver Sig Share → ℕ → Map (PreVoteAction Sig Share) → Method Sig Share Unit
  choose_main_vote recv round votes =
      if length (pre_votes_for Value.zero votes) == length votes
      then main_vote_value recv round Value.zero (pre_votes_for Value.zero votes)
      else if length (pre_votes_for Value.one votes) == length votes
      then main_vote_value recv round Value.one (pre_votes_for Value.one votes)
      else main_vote_abstain recv round (first (pre_votes_for Value.zero votes))
          (first (pre_votes_for Value.one votes))

  unfoldable pub count_pre_votes : Receiver Sig Share → Method Sig Share Unit
  count_pre_votes recv = reading λ s. do
    n ← pred_round s.r
    on_option (get_elem? s.round_pre_votes n) done
        λ votes. if leb (threshold s) (length votes) then choose_main_vote recv s.r votes else done

  unfoldable pub on_pre_vote : Receiver Sig Share → PreVoteAction Sig Share → Method Sig Share Unit
  on_pre_vote recv a = reading λ s.
      if not (a.round == s.r)
      then done
      else do modify (set_validity a.justification); count_pre_votes recv

  unfoldable pub decide :
      Receiver Sig Share → ℕ → Value → Map (MainVoteAction Sig Share) → Method Sig Share Unit
  decide recv round v votes = do
    sig ← combine (main_shares votes)
    modify (set_decided (record { round = round; value = v; sig = sig }))
    broadcast recv (decision (record { round = round; value = v; sig = sig }))

  -- A hard pre-vote, with the signature that a main-vote came with.
  unfoldable pub hard_pre_vote :
      Receiver Sig Share → ℕ → Value → MainVoteAction Sig Share → Method Sig Share Unit
  hard_pre_vote recv round v vote = do
    sig ← main_sig vote.justification
    send_pre_vote recv round v (hard sig)

  -- A soft pre-vote, if all the main-votes abstain.
  unfoldable pub soft_pre_vote :
      Receiver Sig Share → ℕ → Map (MainVoteAction Sig Share) → Method Sig Share Unit
  soft_pre_vote recv round votes =
      if length (main_votes_for MainVoteValue.abstain votes) == length votes
      then (do
        sig ← combine (main_shares (main_votes_for MainVoteValue.abstain votes))
        send_pre_vote recv round Value.one (soft sig))
      else raise (Error.generic "protocol violated, no pre-vote majority")

  -- The pre-vote that the main-votes of the last round call for.
  unfoldable pub follow_main_votes :
      Receiver Sig Share → ℕ → Map (MainVoteAction Sig Share) → Method Sig Share Unit
  follow_main_votes recv round votes =
      on_option (first (main_votes_for (value Value.zero) votes))
        (on_option (first (main_votes_for (value Value.one) votes)) (soft_pre_vote recv round votes)
          λ vote. hard_pre_vote recv round Value.one vote)
        λ vote. hard_pre_vote recv round Value.zero vote

  -- With the validating data at hand, pre-vote for 1, unless this node has pre-voted in the round.
  unfoldable pub pre_vote_validity : Receiver Sig Share → ℕ → Hash32 → Sig → Method Sig Share Unit
  pre_vote_validity recv round digest sig = reading λ s. do
    n ← pred_round round
    if on_option (get_elem? s.round_pre_votes n) false (contains_key s.i)
        then done
        else send_pre_vote recv round Value.one (with_validity digest sig)

  unfoldable pub choose_pre_vote :
      Receiver Sig Share → ℕ → Map (MainVoteAction Sig Share) → Method Sig Share Unit
  choose_pre_vote recv round votes = reading λ s.
      on_option s.weak_validity (follow_main_votes recv round votes)
        λ e. pre_vote_validity recv round e.0 e.1

  -- CHECK FOR DECISION, with the main-votes of the round `round`, one before the current.
  unfoldable pub count_main_votes :
      Receiver Sig Share → ℕ → Map (MainVoteAction Sig Share) → Method Sig Share Unit
  count_main_votes recv round votes = reading λ s.
      if not (leb (threshold s) (length votes))
      then done
      else if leb (threshold s) (length (main_votes_for (value Value.zero) votes))
      then decide recv round Value.zero (main_votes_for (value Value.zero) votes)
      else if leb (threshold s) (length (main_votes_for (value Value.one) votes))
      then decide recv round Value.one (main_votes_for (value Value.one) votes)
      else choose_pre_vote recv s.r votes

  unfoldable pub on_main_vote :
      Receiver Sig Share → MainVoteAction Sig Share → Method Sig Share Unit
  on_main_vote recv a = reading λ s.
      if not (a.round + 1 == s.r) then done else if not (ltb 1 s.r) then done else do
        before ← pred_round s.r
        n ← pred_round before
        on_option (get_elem? s.round_main_votes n) done λ votes. count_main_votes recv a.round votes

  unfoldable pub on_decision : Receiver Sig Share → DecisionAction Sig → Method Sig Share Unit
  on_decision recv a = reading λ s.
      on_option s.decided_value (do modify (set_decided a); broadcast recv (decision a))
        λ existing.
          if not (same (DecisionAction-discrete x.sig_eq) existing a)
          then raise (Error.generic "received conflicting decision")
          else done

  unfoldable pub on_action : Receiver Sig Share → Action Sig Share → Method Sig Share Unit
  on_action recv (pre_vote a) = on_pre_vote recv a
  on_action recv (main_vote a) = on_main_vote recv a
  on_action recv (decision a) = on_decision recv a

  unfoldable pub accept : Receiver Sig Share → Receiver Sig Share
  accept recv initiator msg = do
    check_message x initiator msg
    fresh ← add_message x initiator msg.action
    if fresh then on_action recv msg.action else done

  unfoldable pub handle : Receiver Sig Share → Receiver Sig Share
  handle recv initiator msg =
      reading λ s. if is_some s.decided_value then done else accept recv initiator msg

  -- The fuel bounds how deep the calls of `receive_message` by itself go.
  unfoldable pub receive_message : ℕ → Receiver Sig Share
  receive_message zero initiator msg = halt Stop.out_of_fuel
  receive_message (suc fuel) initiator msg = handle (receive_message fuel) initiator msg

  unfoldable pub pre_vote_zero : ℕ → Method Sig Share Unit
  pre_vote_zero fuel = start (receive_message fuel) Value.zero first_round_zero

  unfoldable pub pre_vote_one : ℕ → Hash32 → Sig → Method Sig Share Unit
  pre_vote_one fuel digest sig = start (receive_message fuel) Value.one (with_validity digest sig)
