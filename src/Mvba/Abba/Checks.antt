-- ===== src/Mvba/Abba/Checks.antt =====
-- `check_message` of src/mvba/abba/mod.rs, branch by branch.
use sn_consensus.Prelude.{
  ℕ, not, Option, String, same, ◌==◌, if◌then◌else◌, raise, reading, or_raise, done, ◌>>=◌, ◌>>◌,
}
use sn_consensus.Keys.{Bytes}
use sn_consensus.Mvba.Tag.{NodeId, Tag-discrete}
use sn_consensus.Mvba.Hash.{Hash32}
use sn_consensus.Mvba.Vcbc.Message.{c_ready_bytes_to_sign}
use sn_consensus.Mvba.Abba.Message.{
  Value, MainVoteValue, value, PreVoteJustification, first_round_zero, with_validity, hard, soft,
  MainVoteJustification, abstains, no_abstain, PreVoteAction, MainVoteAction, DecisionAction,
  Action, pre_vote, main_vote, decision, Message, Error, Extern, Value-discrete,
}
use sn_consensus.Mvba.Abba.State.{
  Method, pred_round, pre_vote_bytes_to_sign, main_vote_bytes_to_sign,
}

abbrev pub invalid : {Sig Share A : Type 0} → String → Method Sig Share A
invalid text = raise (Error.invalid_message text)

module _ {Sig Share : Type 0} (x : Extern Sig Share) where
  -- `pub_key_set.public_key().verify(sig, sign_bytes)`, or the error with this text.
  unfoldable pub check_sig : String → Sig → Option Bytes → Method Sig Share Unit
  check_sig text sig bytes = do
    sign_bytes ← or_raise Error.encoding bytes
    reading λ s. if not (s.pub_key_set.verify sig sign_bytes) then invalid text else done

  -- `public_key_share(initiator).verify(sig_share, sign_bytes)`.
  unfoldable pub check_share : NodeId → Share → Option Bytes → Method Sig Share Unit
  check_share initiator sig_share bytes = do
    sign_bytes ← or_raise Error.encoding bytes
    reading λ s.
        if not (s.pub_key_set.verify_share initiator sig_share sign_bytes)
        then invalid "invalid signature share"
        else done

  -- The proof that comes with a pre-vote for 1: a c-final signature of the broadcast.
  unfoldable pub check_validity : Hash32 → Sig → Method Sig Share Unit
  check_validity digest sig = reading λ s.
      check_sig "invalid signature for the VCBC proposal" sig
        (c_ready_bytes_to_sign x.ready_format s.tag digest)

  unfoldable pub check_pre_justification :
      ℕ → Value → PreVoteJustification Sig → Method Sig Share Unit
  check_pre_justification round v first_round_zero =
      if not (round == 1)
      then invalid "invalid round. expected 1"
      else if not (same Value-discrete v Value.zero)
      then invalid "initial value should be zero"
      else done
  check_pre_justification round v (with_validity digest sig) = do
    check_validity digest sig
    if not (same Value-discrete v Value.one) then invalid "initial value should be one" else done
  check_pre_justification round v (hard sig) = do
    before ← pred_round round
    reading λ s.
        check_sig "invalid hard-vote justification" sig (pre_vote_bytes_to_sign x s.tag before v)
  check_pre_justification round v (soft sig) = do
    before ← pred_round round
    reading λ s.
        check_sig "invalid soft-vote justification" sig
          (main_vote_bytes_to_sign x s.tag before MainVoteValue.abstain)

  unfoldable pub check_pre_vote : NodeId → PreVoteAction Sig Share → Method Sig Share Unit
  check_pre_vote initiator a = reading λ s. do
    check_share initiator a.sig_share (pre_vote_bytes_to_sign x s.tag a.round a.value)
    check_pre_justification a.round a.value a.justification

  -- The justification of the pre-vote for 0, in an abstaining main-vote.
  unfoldable pub check_just_0 : ℕ → PreVoteJustification Sig → Method Sig Share Unit
  check_just_0 round first_round_zero = done
  check_just_0 round (hard sig) = do
    before ← pred_round round
    reading λ s.
        check_sig "invalid abstain justification for value zero" sig
          (pre_vote_bytes_to_sign x s.tag before Value.zero)
  check_just_0 round _ = invalid "invalid justification for value 0 in round 1"

  unfoldable pub check_just_1 : PreVoteJustification Sig → Method Sig Share Unit
  check_just_1 (with_validity digest sig) = check_validity digest sig
  check_just_1 _ = invalid "invalid justification for value 1 in round 1"

  unfoldable pub check_main_justification :
      ℕ → MainVoteValue → MainVoteJustification Sig → Method Sig Share Unit
  check_main_justification round (value v) (no_abstain sig) =
      reading λ s.
        check_sig "invalid main-vote justification" sig (pre_vote_bytes_to_sign x s.tag round v)
  check_main_justification round MainVoteValue.abstain (no_abstain sig) =
      invalid "no-abstain justifications should come with no-abstain value"
  check_main_justification round (value v) (abstains just_0 just_1) =
      invalid "abstain justifications should come with abstain value"
  check_main_justification round MainVoteValue.abstain (abstains just_0 just_1) = do
    check_just_0 round just_0
    check_just_1 just_1

  unfoldable pub check_main_vote : NodeId → MainVoteAction Sig Share → Method Sig Share Unit
  check_main_vote initiator a = reading λ s. do
    check_share initiator a.sig_share (main_vote_bytes_to_sign x s.tag a.round a.value)
    check_main_justification a.round a.value a.justification

  unfoldable pub check_decision : DecisionAction Sig → Method Sig Share Unit
  check_decision a = reading λ s.
      check_sig "invalid signature" a.sig (main_vote_bytes_to_sign x s.tag a.round (value a.value))

  unfoldable pub check_action : NodeId → Action Sig Share → Method Sig Share Unit
  check_action initiator (pre_vote a) = check_pre_vote initiator a
  check_action initiator (main_vote a) = check_main_vote initiator a
  check_action initiator (decision a) = check_decision a

  unfoldable pub check_message : NodeId → Message Sig Share → Method Sig Share Unit
  check_message initiator msg = reading λ s.
      if not (same Tag-discrete msg.tag s.tag)
      then invalid "invalid tag"
      else check_action initiator msg.action
