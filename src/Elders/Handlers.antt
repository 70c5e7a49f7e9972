-- ===== src/Elders/Handlers.antt =====
-- src/consensus.rs: `handle_signed_vote`, `process_signed_vote` and `cast_vote`.
use Prim.Native.Nat.{compare}
use sn_consensus.Prelude.{
  ℕ, zero, suc, Bool, false, List, none, some, is_some, Map, if◌then◌else◌, out_of_fuel, Exec, pure,
  halt, lift, reading, modify, ◌>>=◌, ◌>>◌, on_option,
}
use sn_consensus.Prelude.Ordered.{get, put_all, values}
use sn_consensus.Keys.{PublicKeySet}
use sn_consensus.Vote.Types.{
  merge, vote, SignedVote, Fault, no_votes, and_vote, Error, to_votes, to_faults, gen_of, faults_of,
  vote_of, voter_of,
}
use sn_consensus.Vote.Extern.{Extern}
use sn_consensus.Vote.Ballots.{simplify_votes, simplify, is_super_majority_ballot}
use sn_consensus.Vote.Count.{
  VoteCount, count, vote_count, get_decision, is_split_vote, do_we_have_supermajority, same_count,
}
use sn_consensus.Vote.Validity.{validate, detect_byzantine_faults}
use sn_consensus.Vote.Decision.{Decision}
use sn_consensus.Elders.Generation.{
  Consensus, VoteResponse, waiting_for_more_votes, broadcast, known_faulty, fault_set, vote_set,
  is_processed, have_we_processed_vote, sign_vote, build_super_majority_vote,
  log_processed_signed_vote,
}

module _ {T Share : Type 0} where
  -- What `cast_vote` returns of the response of `handle_signed_vote`.
  abbrev pub cast_result : SignedVote T Share → VoteResponse T Share → SignedVote T Share
  cast_result v waiting_for_more_votes = v
  cast_result v (broadcast w) = w

module _ {T Share Sig : Type 0} where
  abbrev pub set_decision : Decision T Share Sig → Consensus T Share Sig → Consensus T Share Sig
  set_decision d c = record c { decision = some d }

  -- `self.faults.extend(faults)`
  abbrev pub extend_faults : Map (Fault T Share) → Consensus T Share Sig → Consensus T Share Sig
  extend_faults faults c = record c { faults = put_all compare c.faults faults }

  -- We have voted with a super-majority ballot.
  abbrev pub sent_super_majority : Consensus T Share Sig → Bool
  sent_super_majority c = elim (get compare c.id c.votes) [
    | none ↦ false
    | some ours ↦ is_super_majority_ballot (vote_of ours)
  ]

module _ {T Share Sig : Type 0} (x : Extern T Share) (elders : PublicKeySet Sig Share) where
  abbrev pub Method : Type 0 → Type 0
  Method = Exec (Consensus T Share Sig) Error

  -- They terminated and we have not: the decision of the vote is ours.
  unfoldable pub accept_decision :
      SignedVote T Share → List (T × Sig) → Method (VoteResponse T Share)
  accept_decision v ps = reading λ c. do
    modify (
        set_decision (record {
          votes = simplify_votes x (vote_set x c);
          proposals = ps;
          faults = faults_of (vote_of v);
        }))
    pure waiting_for_more_votes

  -- A super-majority over super-majorities.
  unfoldable pub reach_decision :
      SignedVote T Share → List (T × Sig) → Method (VoteResponse T Share)
  reach_decision v ps = reading λ c. do
    w ← lift (
        build_super_majority_vote x c (simplify_votes x (vote_set x c)) (fault_set x c)
          (gen_of (vote_of v)))
    modify (
        set_decision (record {
          votes = simplify_votes x (vote_set x c);
          proposals = ps;
          faults = fault_set x c;
        }))
    pure (broadcast w)

  -- `cast` is `cast_vote`.
  module _ (cast : SignedVote T Share → Method (SignedVote T Share)) where
    unfoldable pub cast_and_broadcast : SignedVote T Share → Method (VoteResponse T Share)
    cast_and_broadcast w = do cast_vote ← cast w; pure (broadcast cast_vote)

    unfoldable pub merge_votes :
        SignedVote T Share → VoteCount T Share → Method (VoteResponse T Share)
    merge_votes v n = reading λ c. do
      w ← lift (
          sign_vote x c (
            vote (gen_of (vote_of v)) (simplify x (merge (to_votes (vote_set x c))))
              (to_faults (fault_set x c))))
      if same_count x n (vote_count x w) then pure waiting_for_more_votes else cast_and_broadcast w

    unfoldable pub vote_super_majority : SignedVote T Share → Method (VoteResponse T Share)
    vote_super_majority v = reading λ c.
        if sent_super_majority c then pure waiting_for_more_votes else do
          w ←
              lift
                (build_super_majority_vote x c (vote_set x c) (fault_set x c) (gen_of (vote_of v)))
          cast_and_broadcast w

    unfoldable pub adopt_ballot : SignedVote T Share → Method (VoteResponse T Share)
    adopt_ballot v = reading λ c.
        if is_some (get compare c.id c.votes) then pure waiting_for_more_votes else do
          w ← lift (
              sign_vote x c (
                vote (gen_of (vote_of v)) (merge (and_vote v no_votes))
                  (to_faults (fault_set x c))))
          cast_and_broadcast w

    -- What follows when nobody has decided.
    unfoldable pub respond : SignedVote T Share → VoteCount T Share → Method (VoteResponse T Share)
    respond v n = reading λ c. do
      split ← lift (is_split_vote n elders c.n_elders)
      if split
          then merge_votes v n
          else if do_we_have_supermajority n elders
          then vote_super_majority v
          else adopt_ballot v

    unfoldable pub count_votes : SignedVote T Share → Method (VoteResponse T Share)
    count_votes v = reading λ c. do
      decided ← lift (get_decision (count x (values c.votes) (known_faulty c)) elders)
      on_option decided (respond v (count x (values c.votes) (known_faulty c))) (reach_decision v)

    unfoldable pub process_signed_vote : SignedVote T Share → Method (VoteResponse T Share)
    process_signed_vote v = do
      modify (log_processed_signed_vote x v)
      decided ← lift (get_decision (vote_count x v) elders)
      on_option decided (count_votes v) (accept_decision v)

    unfoldable pub check_vote : SignedVote T Share → Method (VoteResponse T Share)
    check_vote v = reading λ c. do
      lift (validate x elders (is_processed x c) v)
      modify (extend_faults (detect_byzantine_faults x elders v c.votes (is_processed x c)))
      reading λ d.
          if is_some (get compare (voter_of v) d.faults)
          then pure waiting_for_more_votes
          else process_signed_vote v

    unfoldable pub handle : SignedVote T Share → Method (VoteResponse T Share)
    handle v = reading λ c.
        if is_some c.decision
        then pure waiting_for_more_votes
        else if have_we_processed_vote x c v
        then pure waiting_for_more_votes
        else check_vote v

  unfoldable pub cast_vote : ℕ → SignedVote T Share → Method (SignedVote T Share)
  cast_vote zero v = halt out_of_fuel
  cast_vote (suc fuel) v = do response ← handle (cast_vote fuel) v; pure (cast_result v response)

  unfoldable pub handle_signed_vote : ℕ → SignedVote T Share → Method (VoteResponse T Share)
  handle_signed_vote fuel = handle (cast_vote fuel)
