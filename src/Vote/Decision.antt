-- ===== src/Vote/Decision.antt =====
-- src/decision.rs: a decision as a proof that others can check.
use Prim.Native.Nat.{compare}
use sn_consensus.Prelude.{
  Bool, true, false, not, List, [], ◌∷◌, map, Option, none, some, Map, ◌==◌, if◌then◌else◌, Outcome,
  ok, stop, raised, same, ◌&&◌,
}
use sn_consensus.Prelude.Ordered.{collect, keys, is_subset, is_eq}
use sn_consensus.Prelude.Results.{and_then, for_each}
use sn_consensus.Keys.{PublicKeySet}
use sn_consensus.Vote.Types.{
  NodeId, Generation, SignedVote, Fault, Error, decision_has_no_votes, invalid_decision, gen_of,
  vote_of, voter_at_fault,
}
use sn_consensus.Vote.Extern.{Extern}
use sn_consensus.Vote.Ballots.{unpack_list}
use sn_consensus.Vote.Count.{count, keep_latest, get_decision}
use sn_consensus.Vote.Validity.{validate, validate_fault, detect_byzantine_faults, map_fault_err}

pub record Decision (T : Type 0) (Share : Type 0) (Sig : Type 0) : Type 0 where
  pub votes : List (SignedVote T Share)
  pub proposals : List (T × Sig)
  pub faults : List (Fault T Share)

module _ {T Share Sig : Type 0} where
  abbrev pub generation : Decision T Share Sig → Outcome Error Generation
  generation d = elim d.votes [
    | [] ↦ stop (raised decision_has_no_votes)
    | v ∷ _ ↦ ok (gen_of (vote_of v))
  ]

  abbrev pub decision_faulty_ids : Decision T Share Sig → List NodeId
  decision_faulty_ids d = collect compare (map voter_at_fault d.faults)

module _ {T Share : Type 0} (x : Extern T Share) where
  abbrev pub latest_of :
      Map (SignedVote T Share) → List (SignedVote T Share) → Map (SignedVote T Share)
  latest_of m [] = m
  latest_of m (v ∷ more) = latest_of (keep_latest x v m) more

module _ {T Share Sig : Type 0} (x : Extern T Share) where
  abbrev pub votes_by_voter : Decision T Share Sig → Map (SignedVote T Share)
  votes_by_voter d = latest_of x [] (unpack_list d.votes)

module _ {T Share Sig : Type 0} (x : Extern T Share) (sig_eq : Discrete Sig)
    (voters : PublicKeySet Sig Share) where
  abbrev pub check_vote :
      Decision T Share Sig → Generation → SignedVote T Share → Outcome Error (Unit {0})
  check_vote d gen v = and_then (validate x voters (λ _. false) v) (λ _.
      if not (gen_of (vote_of v) == gen)
      then stop (raised invalid_decision)
      else if is_subset compare
          (keys (detect_byzantine_faults x voters v (votes_by_voter x d) (λ _. false)))
          (decision_faulty_ids d)
      then ok tt
      else stop (raised invalid_decision))

  -- `==` of the maps of proposals
  abbrev pub same_proposals : List (T × Sig) → List (T × Sig) → Bool
  same_proposals [] [] = true
  same_proposals [] (_ ∷ _) = false
  same_proposals (_ ∷ _) [] = false
  same_proposals ((p, u) ∷ ps) ((q, w) ∷ qs) =
      is_eq (x.cmp p q) && same sig_eq u w && same_proposals ps qs

  abbrev pub check_proposals :
      Decision T Share Sig → Option (List (T × Sig)) → Outcome Error (Unit {0})
  check_proposals d none = stop (raised invalid_decision)
  check_proposals d (some ps) =
      if same_proposals ps d.proposals then ok tt else stop (raised invalid_decision)

  -- Decision::validate
  abbrev pub validate_decision : Decision T Share Sig → Outcome Error (Unit {0})
  validate_decision d = and_then (generation d) λ gen.
      and_then (for_each (check_vote d gen) d.votes) λ _.
        and_then (for_each (λ f. map_fault_err (validate_fault x voters f)) d.faults) λ _.
          and_then (get_decision (count x d.votes (decision_faulty_ids d)) voters)
            (check_proposals d)
