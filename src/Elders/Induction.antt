-- ===== src/Elders/Induction.antt =====
-- Every way in which src/consensus.rs changes the state of the agreement, as one principle: what
-- each elementary change preserves, `handle_signed_vote` and `cast_vote` preserve on every path.
use sn_consensus.Prelude.{
  ℕ, zero, suc, Bool, List, [], ◌∷◌, Map, Anyhow, Keeps, Keeps-lift, keeps_rules,
}
use sn_consensus.Keys.{PublicKeySet}
use sn_consensus.Vote.Types.{SignedVote}
use sn_consensus.Vote.Extern.{Extern}
use sn_consensus.Vote.Count.{VoteCount}
use sn_consensus.Vote.Ballots.{unpack_votes}
use sn_consensus.Vote.Validity.{detect_byzantine_faults}
use sn_consensus.Vote.Decision.{Decision}
use sn_consensus.Elders.Generation.{Consensus, log_one, log_all, log_processed_signed_vote}
use sn_consensus.Elders.Handlers.{
  Method, set_decision, extend_faults, accept_decision, reach_decision, cast_and_broadcast,
  merge_votes, vote_super_majority, adopt_ballot, respond, count_votes, process_signed_vote,
  check_vote, handle, cast_vote, handle_signed_vote,
}

module _ {T Share Sig : Type 0} (x : Extern T Share) (elders : PublicKeySet Sig Share) where
  pub record IsPreserved (P : Consensus T Share Sig → Type 0) : Type 0 where
    pub logs : (v : SignedVote T Share) (c : Consensus T Share Sig) → P c → P (log_one x v c)
    pub accuses :
        (v : SignedVote T Share) (existing : Map (SignedVote T Share)) (memo : Share → Bool)
        → (c : Consensus T Share Sig) → P c
        → P (extend_faults (detect_byzantine_faults x elders v existing memo) c)
    pub decides :
        (d : Decision T Share Sig) (c : Consensus T Share Sig) → P c → P (set_decision d c)

  module _ (P : Consensus T Share Sig → Type 0) (w : IsPreserved P) where
    abbrev Good : {A : Type 0} → Method x elders A → Type 0
    Good = Keeps P Anyhow

    log_all-Good :
        (vs : List (SignedVote T Share)) (c : Consensus T Share Sig) → P c → P (log_all x vs c)
    log_all-Good [] c h = h
    log_all-Good (v ∷ vs) c h = log_all-Good vs (log_one x v c) (w.logs v c h)

    log-Good :
        (v : SignedVote T Share) (c : Consensus T Share Sig)
        → P c
        → P (log_processed_signed_vote x v c)
    log-Good v = log_all-Good (unpack_votes v)

    accept-Good :
        (v : SignedVote T Share) (ps : List (T × Sig)) → Good (accept_decision x elders v ps)
    unfolding accept_decision
    accept-Good v ps = search (keeps_rules, w.decides) depth 8

    reach-Good :
        (v : SignedVote T Share) (ps : List (T × Sig)) → Good (reach_decision x elders v ps)
    unfolding reach_decision
    reach-Good v ps = search (keeps_rules, Keeps-lift, w.decides) depth 10

    module _ (cast : SignedVote T Share → Method x elders (SignedVote T Share))
        (k : (v : SignedVote T Share) → Good (cast v)) where
      cast_and_broadcast-Good : (v : SignedVote T Share) → Good (cast_and_broadcast x elders cast v)
      unfolding cast_and_broadcast
      cast_and_broadcast-Good v = search (keeps_rules, k)

      merge-Good :
          (v : SignedVote T Share) (n : VoteCount T Share) → Good (merge_votes x elders cast v n)
      unfolding merge_votes
      merge-Good v n = search (keeps_rules, Keeps-lift, cast_and_broadcast-Good) depth 10

      super_majority-Good : (v : SignedVote T Share) → Good (vote_super_majority x elders cast v)
      unfolding vote_super_majority
      super_majority-Good v = search (keeps_rules, Keeps-lift, cast_and_broadcast-Good) depth 10

      adopt-Good : (v : SignedVote T Share) → Good (adopt_ballot x elders cast v)
      unfolding adopt_ballot
      adopt-Good v = search (keeps_rules, Keeps-lift, cast_and_broadcast-Good) depth 10

      respond-Good :
          (v : SignedVote T Share) (n : VoteCount T Share) → Good (respond x elders cast v n)
      unfolding respond
      respond-Good v n =
          search (keeps_rules, Keeps-lift, merge-Good, super_majority-Good, adopt-Good) depth 10

      count-Good : (v : SignedVote T Share) → Good (count_votes x elders cast v)
      unfolding count_votes
      count-Good v = search (keeps_rules, Keeps-lift, respond-Good, reach-Good) depth 10

      process-Good : (v : SignedVote T Share) → Good (process_signed_vote x elders cast v)
      unfolding process_signed_vote
      process-Good v = search (keeps_rules, Keeps-lift, log-Good, count-Good, accept-Good) depth 10

      check-Good : (v : SignedVote T Share) → Good (check_vote x elders cast v)
      unfolding check_vote
      check-Good v = search (keeps_rules, Keeps-lift, w.accuses, process-Good) depth 12

      handle-Good : (v : SignedVote T Share) → Good (handle x elders cast v)
      unfolding handle
      handle-Good v = search (keeps_rules, check-Good) depth 10

    pub cast_vote-Good : (fuel : ℕ) (v : SignedVote T Share) → Good (cast_vote x elders fuel v)
    unfolding cast_vote
    cast_vote-Good zero v = search (keeps_rules)
    cast_vote-Good (suc fuel) v =
        search (keeps_rules, handle-Good (cast_vote x elders fuel) (cast_vote-Good fuel))

    pub handle_signed_vote-Good :
        (fuel : ℕ) (v : SignedVote T Share) → Good (handle_signed_vote x elders fuel v)
    unfolding handle_signed_vote
    handle_signed_vote-Good fuel v = handle-Good (cast_vote x elders fuel) (cast_vote-Good fuel) v
