-- ===== src/Mvba/Consensus/Outcome.antt =====
-- The decided proposal of src/mvba/consensus.rs: it never changes, and whose it may be.
use sn_consensus.Prelude.{
  lookup-insert_self, ℕ, ◌≡◌, none, some, List, [], ◌∷◌, lookup, ok, arith, same_refl,
  String_discrete,
}
use sn_consensus.Mvba.Tag.{NodeId, Proposal}
use sn_consensus.Mvba.Broadcaster.{Bundle}
use sn_consensus.Mvba.Vcbc.Message.{Message as VcbcMessage}
use sn_consensus.Mvba.Vcbc.State as VcbcState
use sn_consensus.Mvba.Vcbc.State.{Vcbc, read_delivered}
use sn_consensus.Mvba.Vcbc.Handlers as VcbcHandlers
use sn_consensus.Mvba.Consensus.State.{
  Consensus, Extern, store_vcbc, store_abba, store_mvba, call_vcbc, call_abba, call_mvba,
}
use sn_consensus.Mvba.Consensus.Bundles.{
  set_decided_proposal, delivered_by, take_outgoings, on_delivered, receive_vcbc, on_vcbc, dispatch,
  start_one, start_agreement, process, process_bundle, broadcast_own, propose,
}
use sn_consensus.Mvba.Consensus.Induction.{lent_vcbc}
use sn_consensus.Mvba.Consensus.History.{Op, proposes, takes, apply, run}

module _ {Sig Share : Type 0} (x : Extern Sig Share) (fuel : ℕ) where
  apply_decided :
      (o : Op) (s : Consensus Sig Share) (m : Proposal)
      → s.decided_proposal ≡ some m
      → (apply x fuel o s).decided_proposal ≡ some m
  unfolding apply process_bundle propose broadcast_own call_vcbc store_vcbc take_outgoings
  apply_decided (proposes p) s m e = ground (arith, e)
  apply_decided (takes b) s m e = ground (arith, e)

  -- A decided proposal stays the decided proposal after any further bundles and proposals.
  pub decided_proposal_final :
      (os : List Op) (s : Consensus Sig Share) (m : Proposal)
      → s.decided_proposal ≡ some m
      → (run x fuel os s).decided_proposal ≡ some m
  unfolding run
  decided_proposal_final [] s m e = e
  decided_proposal_final (o ∷ os) s m e =
      decided_proposal_final os (apply x fuel o s) m (apply_decided o s m e)

  start_keeps :
      (s : Consensus Sig Share) (m : Proposal)
      → s.decided_proposal ≡ some m
      → (start_agreement x fuel s).1.decided_proposal ≡ some m
  unfolding start_agreement start_one call_mvba store_mvba call_abba store_abba
  start_keeps s m e = ground (arith, e)

  receive_decides :
      (s : Consensus Sig Share) (b : Bundle) (p t : NodeId) (v : Vcbc Sig Share)
      (msg : VcbcMessage Sig Share) (m : Proposal) (u : Sig)
      → s.decided_proposer ≡ some p
      → x.vcbc.message_format.deserialize b.payload ≡ some msg
      → let r = VcbcHandlers.receive_message x.vcbc fuel b.initiator msg (lent_vcbc s v) in
        r.0 ≡ ok tt
        → read_delivered r.1 ≡ some (m, u)
        → ((receive_vcbc x fuel b t v s).0 ≡ ok tt)
          × ((receive_vcbc x fuel b t v s).1.decided_proposal ≡ some m)
  unfolding receive_vcbc call_vcbc store_vcbc delivered_by on_delivered set_decided_proposal
  receive_decides s b p t v msg m u d e o r = ground (
    arith,
    d,
    e,
    o,
    r,
    lookup-insert_self t
        (VcbcHandlers.receive_message x.vcbc fuel b.initiator msg (lent_vcbc s v)).1 s.vcbc_map,
  )

  dispatch_vcbc :
      (s : Consensus Sig Share) (b : Bundle) (t : NodeId) (v : Vcbc Sig Share)
      → b.module_name ≡ VcbcState.module_name
      → b.target ≡ some t
      → lookup t s.vcbc_map ≡ some v
      → dispatch x fuel b s ≡ receive_vcbc x fuel b t v s
  unfolding dispatch on_vcbc
  dispatch_vcbc s b t v c f k =
      ground (arith, c, f, k, same_refl String_discrete VcbcState.module_name)

  -- The proposal that is decided need not be the decided proposer's. At a node that has decided a
  -- proposer but no proposal, a bundle for the broadcast of any proposer, whose message is handled
  -- without an error and leaves a proposal delivered there, makes that the decided proposal.
  pub any_delivery_decides :
      (s : Consensus Sig Share) (b : Bundle) (p t : NodeId) (v : Vcbc Sig Share)
      (msg : VcbcMessage Sig Share) (m : Proposal) (u : Sig)
      → s.decided_proposal ≡ none
      → s.decided_proposer ≡ some p
      → b.module_name ≡ VcbcState.module_name
      → b.target ≡ some t
      → lookup t s.vcbc_map ≡ some v
      → x.vcbc.message_format.deserialize b.payload ≡ some msg
      → (VcbcHandlers.receive_message x.vcbc fuel b.initiator msg (lent_vcbc s v)).0 ≡ ok tt
      → read_delivered (VcbcHandlers.receive_message x.vcbc fuel b.initiator msg (lent_vcbc s v)).1
        ≡ some (m, u)
      → (process_bundle x fuel b s).1.decided_proposal ≡ some m
  unfolding process_bundle process take_outgoings
  any_delivery_decides s b p t v msg m u n d c f k e o r = ground (
    arith,
    n,
    dispatch_vcbc s b t v c f k,
    receive_decides s b p t v msg m u d e o r,
    start_keeps (receive_vcbc x fuel b t v s).1 m,
  )
