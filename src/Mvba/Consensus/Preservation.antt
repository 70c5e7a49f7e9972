-- ===== src/Mvba/Consensus/Preservation.antt =====
-- `propose` and `process_bundle` of src/mvba/consensus.rs change the state only by the elementary
-- changes of `IsPreserved`.
use sn_consensus.Prelude.{
  ℕ, ◌≡◌, refl, Bool, true, false, Option, none, some, lookup, is_some, on_option, Stop, Keeps,
  Keeps-pure, Keeps-halt, Keeps-known, Anyhow, Stops, Stops-Anyhow, if◌then◌else◌, bind_then,
  bind_from, Keeps-option, halt, modify, done, reading, on_option_at, keeps_rules, arith,
  Option-cases, inl, inr,
}
use sn_consensus.Mvba.Tag.{NodeId, Proposal}
use sn_consensus.Mvba.Hash.{Hash32, calculate}
use sn_consensus.Mvba.Broadcaster.{Bundle}
use sn_consensus.Mvba.Vcbc.State.{Vcbc, read_delivered}
use sn_consensus.Mvba.Vcbc.Handlers as VcbcHandlers
use sn_consensus.Mvba.Abba.State.{Abba}
use sn_consensus.Mvba.Abba.Protocol as AbbaProtocol
use sn_consensus.Mvba.Abba.History as AbbaHistory
use sn_consensus.Mvba.Abba.History.{receives, votes_zero, votes_one}
use sn_consensus.Mvba.Mvba.State.{completed_vote_value, current_proposer}
use sn_consensus.Mvba.Mvba.Message.{Message as MvbaMessage}
use sn_consensus.Mvba.Mvba.Voting as MvbaVoting
use sn_consensus.Mvba.Mvba.Ballots as MvbaBallots
use sn_consensus.Mvba.Mvba.Ballots.{offers, moves}
use sn_consensus.Mvba.Consensus.State.{
  Consensus, Method, Error, Extern, store_mvba, call_vcbc, call_abba, call_mvba,
}
use sn_consensus.Mvba.Consensus.Bundles.{
  set_decided_proposer, set_decided_proposal, delivered_by, decided_by, take_outgoings,
  on_delivered, receive_vcbc, not_found, no_target, on_vcbc, request_proposal, on_accepted,
  on_rejected, receive_abba, on_abba, on_mvba, dispatch, start_one, start_agreement, process,
  process_bundle, broadcast_own, propose,
}
use sn_consensus.Mvba.Consensus.Induction.{IsPreserved}

module _ {Sig Share : Type 0} (x : Extern Sig Share) (fuel : ℕ) (P : Consensus Sig Share → Type 0)
    (w : IsPreserved x fuel P) where
  abbrev Good : {A : Type 0} → Method Sig Share A → Type 0
  Good = Keeps P Anyhow

  raised_ok : (e : Error) → Anyhow (Stop.raised e)
  raised_ok e = tt

  set_proposal-Good :
      (p : NodeId) (m : Proposal) (u : Sig)
      → Good (call_mvba (MvbaVoting.set_proposal x.mvba p m u))
  unfolding call_mvba MvbaBallots.apply
  set_proposal-Good p m u = record { at = λ s h. (w.runs_mvba s (offers p m u) h, Stops-Anyhow _) }

  move-Good : Good (call_mvba (MvbaVoting.move_to_next_proposal x.mvba))
  unfolding call_mvba MvbaBallots.apply
  move-Good = record { at = λ s h. (w.runs_mvba s moves h, Stops-Anyhow _) }

  receive_mvba-Good :
      (m : MvbaMessage Sig Share) → Good (call_mvba (MvbaVoting.receive_message x.mvba m))
  unfolding call_mvba MvbaBallots.apply
  receive_mvba-Good m = record {
    at = λ s h. (w.runs_mvba s (MvbaBallots.receives m) h, Stops-Anyhow _);
  }

  current_proposer-Good : Good (call_mvba current_proposer)
  unfolding call_mvba current_proposer
  current_proposer-Good = record { at = λ s h. ground (arith, w.reads_mvba s h) }

  completed_value-Good : Good (call_mvba completed_vote_value)
  unfolding call_mvba completed_vote_value current_proposer
  completed_value-Good = record { at = λ s h. ground (arith, w.reads_mvba s h) }

  take-Good : Good (take_outgoings {Sig = Sig} {Share = Share})
  unfolding take_outgoings
  take-Good = record { at = λ s h. (w.sends s _ h, tt) }

  on_delivered-at :
      (p : NodeId) (m : Proposal) (u : Sig) (s : Consensus Sig Share)
      → delivered_by p s ≡ some (m, u)
      → P s
      → P (on_delivered x fuel p m u s).1 × Stops Anyhow (on_delivered x fuel p m u s).0
  unfolding on_delivered
  on_delivered-at p m u s e h =
      ground (arith, w.decides s p m u e, (set_proposal-Good p m u).at s h)

  delivered-Good :
      (p : NodeId)
      → Good (reading λ s. on_option (delivered_by p s) done λ e. on_delivered x fuel p e.0 e.1)
  delivered-Good p =
      Keeps-known _ (delivered_by p) _ (Keeps-pure tt) λ e s q h. on_delivered-at p e.0 e.1 s q h

  receive_vcbc-at :
      (b : Bundle) (p : NodeId) (v : Vcbc Sig Share) (s : Consensus Sig Share)
      → lookup p s.vcbc_map ≡ some v
      → P s
      → P (receive_vcbc x fuel b p v s).1 × Stops Anyhow (receive_vcbc x fuel b p v s).0
  unfolding receive_vcbc call_vcbc
  receive_vcbc-at b p v s e h = elim (Option-cases (x.vcbc.message_format.deserialize b.payload)) [
    | inl q ↦ rw q (h, tt)
    | inr (m, q) ↦ rw q (
        bind_then (call_vcbc p v (VcbcHandlers.receive_message x.vcbc fuel b.initiator m)) _ s
          (w.runs_vcbc s p v b.initiator m e h, Stops-Anyhow _) λ _. delivered-Good p)
  ]

  on_vcbc-Good : (b : Bundle) → Good (on_vcbc x fuel b)
  unfolding on_vcbc not_found no_target
  on_vcbc-Good b = Keeps-option b.target _ _ (Keeps-halt _ tt) λ p _.
      Keeps-known _ (λ s. lookup p s.vcbc_map) _ (Keeps-halt _ tt)
        λ v s e h. receive_vcbc-at b p v s e h

  request-Good : (p : NodeId) → Good (request_proposal x fuel p)
  unfolding request_proposal
  request-Good p = search (keeps_rules, raised_ok, w.sends) depth 8

  delivered_by-read :
      (p : NodeId) (v : Vcbc Sig Share) (s : Consensus Sig Share) (e : Proposal × Sig)
      → lookup p s.vcbc_map ≡ some v
      → read_delivered v ≡ some e
      → delivered_by p s ≡ some e
  unfolding delivered_by
  delivered_by-read p v s e q r = ground (arith, q, r)

  -- With the proposer accepted, the proposal that its instance has delivered is decided.
  settle-at :
      (p : NodeId) (v : Vcbc Sig Share) (s : Consensus Sig Share)
      → lookup p s.vcbc_map ≡ some v
      → is_some s.decided_proposer ≡ true
      → P s
      → let m : Method Sig Share Unit =
          on_option
            (read_delivered v)
            (request_proposal x fuel p)
            λ e. modify (set_decided_proposal e.0) in
        P (m s).1 × Stops Anyhow (m s).0
  settle-at p v s q d h =
      on_option_at P Anyhow (read_delivered v) (request_proposal x fuel p)
        (λ e. modify (set_decided_proposal e.0)) s (λ _. (request-Good p).at s h)
        λ e r. (w.decides s p e.0 e.1 (delivered_by-read p v s e q r) d h, tt)

  on_accepted-at :
      (p : NodeId) (s : Consensus Sig Share)
      → decided_by p s ≡ some true
      → P s
      → P (on_accepted x fuel p s).1 × Stops Anyhow (on_accepted x fuel p s).0
  unfolding on_accepted
  on_accepted-at p s d h =
      let t : Consensus Sig Share = set_decided_proposer p s in
      let k : P t = w.accepts s p d h in
      on_option_at P Anyhow (lookup p t.vcbc_map) (halt Stop.panicked) _ t (λ _. (k, tt))
        λ v q. settle-at p v t q (unfold set_decided_proposer in refl) k

  on_rejected-Good : (p : NodeId) → Good (on_rejected x fuel p)
  unfolding on_rejected
  on_rejected-Good p = search (keeps_rules, current_proposer-Good, move-Good) depth 8

  decided-at :
      (p : NodeId) (b : Bool) (s : Consensus Sig Share)
      → decided_by p s ≡ some b
      → P s
      → let m : Method Sig Share Unit = if b then on_accepted x fuel p else on_rejected x fuel p in
        P (m s).1 × Stops Anyhow (m s).0
  decided-at p true s d h = on_accepted-at p s d h
  decided-at p false s d h = (on_rejected-Good p).at s h

  receive_abba-at :
      (b : Bundle) (p : NodeId) (a : Abba Sig Share) (s : Consensus Sig Share)
      → lookup p s.abba_map ≡ some a
      → P s
      → P (receive_abba x fuel b p a s).1 × Stops Anyhow (receive_abba x fuel b p a s).0
  unfolding receive_abba call_abba AbbaHistory.apply
  receive_abba-at b p a s e h = elim (Option-cases (x.abba.message_format.deserialize b.payload)) [
    | inl q ↦ rw q (h, tt)
    | inr (m, q) ↦ rw q (
        bind_then (call_abba p a (AbbaProtocol.receive_message x.abba fuel b.initiator m)) _ s
          (w.runs_abba s p a (receives b.initiator m) e h, Stops-Anyhow _)
          λ _. Keeps-known _ (decided_by p) _ (Keeps-pure tt) λ v s q h. decided-at p v s q h)
  ]

  on_abba-Good : (b : Bundle) → Good (on_abba x fuel b)
  unfolding on_abba not_found no_target
  on_abba-Good b = Keeps-option b.target _ _ (Keeps-halt _ tt) λ p _.
      Keeps-known _ (λ s. lookup p s.abba_map) _ (Keeps-halt _ tt)
        λ a s e h. receive_abba-at b p a s e h

  on_mvba-Good : (b : Bundle) → Good (on_mvba x fuel b)
  unfolding on_mvba
  on_mvba-Good b = search (keeps_rules, raised_ok, receive_mvba-Good) depth 8

  dispatch-Good : (b : Bundle) → Good (dispatch x fuel b)
  unfolding dispatch
  dispatch-Good b =
      search (keeps_rules, raised_ok, on_vcbc-Good, on_abba-Good, on_mvba-Good) depth 8

  -- A pre-vote of this node, at the instance that the state holds.
  pre_vote_zero-at :
      (p : NodeId) (a : Abba Sig Share) (s : Consensus Sig Share)
      → lookup p s.abba_map ≡ some a
      → P s
      → let m : Method Sig Share Unit = call_abba p a (AbbaProtocol.pre_vote_zero x.abba fuel) in
        P (m s).1 × Stops Anyhow (m s).0
  unfolding call_abba AbbaHistory.apply
  pre_vote_zero-at p a s e h = (w.runs_abba s p a votes_zero e h, Stops-Anyhow _)

  pre_vote_one-at :
      (p : NodeId) (a : Abba Sig Share) (d : Hash32) (u : Sig) (s : Consensus Sig Share)
      → lookup p s.abba_map ≡ some a
      → P s
      → let m : Method Sig Share Unit = call_abba p a (AbbaProtocol.pre_vote_one x.abba fuel d u) in
        P (m s).1 × Stops Anyhow (m s).0
  unfolding call_abba AbbaHistory.apply
  pre_vote_one-at p a d u s e h = (w.runs_abba s p a (votes_one d u) e h, Stops-Anyhow _)

  value_known-at :
      (p : NodeId) (a : Abba Sig Share) (o : Option (Proposal × Sig)) (s : Consensus Sig Share)
      → lookup p s.abba_map ≡ some a
      → P s
      → let m : Method Sig Share Unit = on_option o done λ e.
        call_abba p a (AbbaProtocol.pre_vote_one x.abba fuel (calculate x.mvba.sha3 e.0) e.1) in
        P (m s).1 × Stops Anyhow (m s).0
  value_known-at p a none s e h = (h, tt)
  value_known-at p a (some (m, u)) s e h = pre_vote_one-at p a (calculate x.mvba.sha3 m) u s e h

  start_one-at :
      (p : NodeId) (a : Abba Sig Share) (s : Consensus Sig Share)
      → lookup p s.abba_map ≡ some a
      → P s
      → P (start_one x fuel p a s).1 × Stops Anyhow (start_one x fuel p a s).0
  unfolding start_one call_mvba store_mvba
  start_one-at p a s e h =
      bind_from P Anyhow (call_mvba completed_vote_value) _ s (completed_value-Good.at s h) λ o.
        value_known-at p a o (call_mvba completed_vote_value s).1 e (completed_value-Good.at s h).0

  start-at :
      (p : NodeId) (v : Bool) (a : Abba Sig Share) (s : Consensus Sig Share)
      → lookup p s.abba_map ≡ some a
      → P s
      → let m : Method Sig Share Unit =
          if v
          then start_one x fuel p a
          else call_abba p a (AbbaProtocol.pre_vote_zero x.abba fuel) in
        P (m s).1 × Stops Anyhow (m s).0
  start-at p true a s e h = start_one-at p a s e h
  start-at p false a s e h = pre_vote_zero-at p a s e h

  start_with-Good :
      (v : Bool) (p : NodeId)
      → Good (
          reading λ s. on_option (lookup p s.abba_map) (halt Stop.panicked) λ a.
            if v
            then start_one x fuel p a
            else call_abba p a (AbbaProtocol.pre_vote_zero x.abba fuel))
  start_with-Good v p =
      Keeps-known _ (λ s. lookup p s.abba_map) _ (Keeps-halt _ tt) λ a s e h. start-at p v a s e h

  start_agreement-Good : Good (start_agreement x fuel)
  unfolding start_agreement
  start_agreement-Good = search (keeps_rules, current_proposer-Good, start_with-Good) depth 8

  pub process_bundle-Good : (b : Bundle) → Good (process_bundle x fuel b)
  unfolding process_bundle process
  process_bundle-Good b =
      search (keeps_rules, dispatch-Good, start_agreement-Good, take-Good) depth 10

  broadcast_own-Good : (m : Proposal) → Good (broadcast_own x fuel m)
  unfolding broadcast_own call_vcbc
  broadcast_own-Good m = record {
    at = λ s h.
        on_option_at P Anyhow (lookup s.self_id s.vcbc_map) done
          (λ v. call_vcbc s.self_id v (VcbcHandlers.c_broadcast x.vcbc fuel m)) s (λ _. (h, tt))
          λ v e. (w.runs_send s s.self_id v m e h, Stops-Anyhow _);
  }

  pub propose-Good : (m : Proposal) → Good (propose x fuel m)
  unfolding propose
  propose-Good m = search (keeps_rules, broadcast_own-Good, take-Good) depth 8
