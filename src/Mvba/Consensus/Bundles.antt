-- ===== src/Mvba/Consensus/Bundles.antt =====
-- `propose` and `process_bundle` of src/mvba/consensus.rs. The fuel bounds how deep the calls of a
-- component's `receive_message` by itself go.
use sn_consensus.Prelude.{
  ℕ, Bool, Option, none, some, List, [], String_discrete, same, lookup, is_some, ◌==◌, on_option,
  if◌then◌else◌, Outcome, Stop, halt, raise, reading, or_raise, pure, modify, done, ◌>>=◌, ◌>>◌,
}
use sn_consensus.Mvba.Tag.{NodeId, Proposal}
use sn_consensus.Mvba.Hash.{calculate}
use sn_consensus.Mvba.Broadcaster
use sn_consensus.Mvba.Broadcaster.{Bundle, Outgoing}
use sn_consensus.Mvba.Vcbc.Message.{make_c_request_message}
use sn_consensus.Mvba.Vcbc.State as VcbcState
use sn_consensus.Mvba.Vcbc.State.{Vcbc, read_delivered}
use sn_consensus.Mvba.Vcbc.Handlers as VcbcHandlers
use sn_consensus.Mvba.Abba.State as AbbaState
use sn_consensus.Mvba.Abba.State.{Abba, decided}
use sn_consensus.Mvba.Abba.Protocol as AbbaProtocol
use sn_consensus.Mvba.Mvba.State as MvbaState
use sn_consensus.Mvba.Mvba.State.{completed_vote, completed_vote_value, current_proposer}
use sn_consensus.Mvba.Mvba.Voting as MvbaVoting
use sn_consensus.Mvba.Consensus.State.{
  Consensus, Method, Error, Extern, call_vcbc, call_abba, call_mvba,
}

module _ {Sig Share : Type 0} where
  unfoldable pub set_decided_proposer : NodeId → Consensus Sig Share → Consensus Sig Share
  set_decided_proposer p s = record s { decided_proposer = some p }

  unfoldable pub set_decided_proposal : Proposal → Consensus Sig Share → Consensus Sig Share
  set_decided_proposal m s = record s { decided_proposal = some m }

  -- What the instance of a proposer has delivered.
  unfoldable pub delivered_by : NodeId → Consensus Sig Share → Option (Proposal × Sig)
  delivered_by p s = on_option (lookup p s.vcbc_map) none read_delivered

  unfoldable pub decided_by : NodeId → Consensus Sig Share → Option Bool
  decided_by p s = on_option (lookup p s.abba_map) none decided

  unfoldable pub take_outgoings : Method Sig Share (List Outgoing)
  take_outgoings s =
      let r = Broadcaster.take_outgoings s.broadcaster in
      (Outcome.ok r.0, record s { broadcaster = r.1 })

module _ {Sig Share : Type 0} (x : Extern Sig Share) (fuel : ℕ) where
  -- The agreement may have come before the proposal.
  unfoldable pub on_delivered : NodeId → Proposal → Sig → Method Sig Share Unit
  on_delivered target proposal sig = reading λ s.
      if is_some s.decided_proposer
      then modify (set_decided_proposal proposal)
      else call_mvba (MvbaVoting.set_proposal x.mvba target proposal sig)

  unfoldable pub receive_vcbc : Bundle → NodeId → Vcbc Sig Share → Method Sig Share Unit
  receive_vcbc bundle target v = do
    msg ← or_raise Error.encoding (x.vcbc.message_format.deserialize bundle.payload)
    call_vcbc target v (VcbcHandlers.receive_message x.vcbc fuel bundle.initiator msg)
    reading λ s. on_option (delivered_by target s) done λ e. on_delivered target e.0 e.1

  unfoldable pub not_found : {A : Type 0} → Method Sig Share A
  not_found = raise (Error.invalid_message "target not found")

  unfoldable pub no_target : {A : Type 0} → Method Sig Share A
  no_target = raise (Error.invalid_message "no target is defined")

  unfoldable pub on_vcbc : Bundle → Method Sig Share Unit
  on_vcbc bundle =
      on_option bundle.target no_target
        λ t. reading λ s. on_option (lookup t s.vcbc_map) not_found λ v. receive_vcbc bundle t v

  -- Ask all the parties for the proposal.
  unfoldable pub request_proposal : NodeId → Method Sig Share Unit
  request_proposal target = reading λ s. do
    payload ← or_raise Error.encoding (
        make_c_request_message x.vcbc.message_format
          (record { domain = s.domain; proposer = target }))
    modify λ s. record s {
      broadcaster = Broadcaster.broadcast s.broadcaster VcbcState.module_name (some target) payload;
    }

  -- The source expects here that the proposer has an instance.
  unfoldable pub on_accepted : NodeId → Method Sig Share Unit
  on_accepted target = do
    modify (set_decided_proposer target)
    reading λ s. on_option (lookup target s.vcbc_map) (halt Stop.panicked) λ v.
        on_option (read_delivered v) (request_proposal target)
          λ e. modify (set_decided_proposal e.0)

  unfoldable pub on_rejected : NodeId → Method Sig Share Unit
  on_rejected target = do
    p ← call_mvba current_proposer
    if p == target then call_mvba (MvbaVoting.move_to_next_proposal x.mvba) >> done else done

  unfoldable pub receive_abba : Bundle → NodeId → Abba Sig Share → Method Sig Share Unit
  receive_abba bundle target a = do
    msg ← or_raise Error.encoding (x.abba.message_format.deserialize bundle.payload)
    call_abba target a (AbbaProtocol.receive_message x.abba fuel bundle.initiator msg)
    reading λ s.
        on_option (decided_by target s) done
          λ v. if v then on_accepted target else on_rejected target

  unfoldable pub on_abba : Bundle → Method Sig Share Unit
  on_abba bundle =
      on_option bundle.target no_target
        λ t. reading λ s. on_option (lookup t s.abba_map) not_found λ a. receive_abba bundle t a

  unfoldable pub on_mvba : Bundle → Method Sig Share Unit
  on_mvba bundle = do
    msg ← or_raise Error.encoding (x.mvba.message_format.deserialize bundle.payload)
    call_mvba (MvbaVoting.receive_message x.mvba msg)

  unfoldable pub dispatch : Bundle → Method Sig Share Unit
  dispatch bundle =
      if same String_discrete bundle.module_name VcbcState.module_name
      then on_vcbc bundle
      else if same String_discrete bundle.module_name AbbaState.module_name
      then on_abba bundle
      else if same String_discrete bundle.module_name MvbaState.module_name
      then on_mvba bundle
      else raise (Error.invalid_message "unknown module")

  -- The binary agreement on the current proposer starts once the vote on it is complete.
  unfoldable pub start_one : NodeId → Abba Sig Share → Method Sig Share Unit
  start_one p a = do
    e ← call_mvba completed_vote_value
    on_option e done
        λ e. call_abba p a (AbbaProtocol.pre_vote_one x.abba fuel (calculate x.mvba.sha3 e.0) e.1)

  unfoldable pub start_agreement : Method Sig Share Unit
  start_agreement = reading λ s. on_option (completed_vote s.mvba) done λ v. do
    p ← call_mvba current_proposer
    reading λ s.
        on_option (lookup p s.abba_map) (halt Stop.panicked)
          λ a. if v then start_one p a else call_abba p a (AbbaProtocol.pre_vote_zero x.abba fuel)

  unfoldable pub process : Bundle → Method Sig Share (List Outgoing)
  process bundle = do dispatch bundle; start_agreement; take_outgoings

  unfoldable pub process_bundle : Bundle → Method Sig Share (List Outgoing)
  process_bundle bundle =
      reading λ s. if is_some s.decided_proposal then pure [] else process bundle

  unfoldable pub broadcast_own : Proposal → Method Sig Share Unit
  broadcast_own proposal = reading λ s.
      on_option (lookup s.self_id s.vcbc_map) done
        λ v. call_vcbc s.self_id v (VcbcHandlers.c_broadcast x.vcbc fuel proposal)

  unfoldable pub propose : Proposal → Method Sig Share (List Outgoing)
  propose proposal = do broadcast_own proposal; take_outgoings
