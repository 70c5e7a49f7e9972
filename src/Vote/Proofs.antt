-- ===== src/Vote/Proofs.antt =====
-- What `Decision::validate` of src/decision.rs establishes.
use Prim.Native.Nat.{compare}
use mathlib.Core.List.{Mem}
use sn_consensus.Prelude.{
  ◌<◌, ◌≢◌, true, false, [], ◌∷◌, map, ◌≡◌, refl, ◌↔◌, List, Option, none, some, All, All-mono,
  length, arith, Outcome, ok,
}
use sn_consensus.Prelude.Ordered.{is_subset, keys, has, add, extend, compare-IsFaithful}
use sn_consensus.Prelude.Subsets.{has-add, has-add_self}
use sn_consensus.Prelude.Results.{and_then-ok, for_each, for_each-All}
use sn_consensus.Keys.{PublicKeySet}
use sn_consensus.Vote.Types.{
  NodeId, Generation, SignedVote, Fault, FaultError, Error, gen_of, ballot_of, vote_of, voter_of,
  voter_at_fault,
}
use sn_consensus.Vote.Extern.{Extern, IsOrdered}
use sn_consensus.Vote.Count.{Candidate, candidate, count, get_decision}
use sn_consensus.Vote.Validity.{validate, validate_fault, detect_byzantine_faults, map_fault_err}
use sn_consensus.Vote.Ballots.{unpack_list}
use sn_consensus.Vote.Backing.{AllDistinct, is_super_majority, decision_supported}
use sn_consensus.Vote.Decision.{
  Decision, generation, decision_faulty_ids, votes_by_voter, check_vote, check_proposals,
  same_proposals, validate_decision,
}

module _ {T Share Sig : Type 0} (x : Extern T Share) (sig_eq : Discrete Sig)
    (voters : PublicKeySet Sig Share) where
  -- A vote of the decision's generation that is valid, down to its last child, and in which no
  -- fault is found but of voters that the decision names.
  abbrev pub IsSoundVote : Decision T Share Sig → Generation → SignedVote T Share → Type 0
  IsSoundVote d gen v =
      (validate x voters (λ _. false) v ≡ ok tt)
      × (gen_of (vote_of v) ≡ gen)
      × (is_subset compare
            (keys (detect_byzantine_faults x voters v (votes_by_voter x d) (λ _. false)))
            (decision_faulty_ids d)
          ≡ true)

  -- A decision that proves itself: sound votes of one generation, valid faults, and proposals that
  -- the count of the votes decides.
  pub record IsProof (d : Decision T Share Sig) : Type 0 where
    pub gen : Generation
    pub of_generation : generation d ≡ ok gen
    pub votes_sound : All (IsSoundVote d gen) d.votes
    pub faults_valid : All (λ f. validate_fault x voters f ≡ ok tt) d.faults
    pub proposals : List (T × Sig)
    pub decided :
        get_decision (count x d.votes (decision_faulty_ids d)) voters ≡ ok (some proposals)
    pub same_as_decided : same_proposals x sig_eq voters proposals d.proposals ≡ true

  check_vote-IsSoundVote :
      (d : Decision T Share Sig) (gen : Generation) (v : SignedVote T Share)
      → (check_vote x sig_eq voters d gen v ≡ ok tt) ↔ IsSoundVote d gen v
  check_vote-IsSoundVote d gen v = ground arith

  map_fault_err-ok : (r : Outcome FaultError (Unit {0})) → (map_fault_err r ≡ ok tt) ↔ (r ≡ ok tt)
  map_fault_err-ok r = ground arith

  -- The two loops of `validate`.
  abbrev check_votes : Decision T Share Sig → Generation → Outcome Error (Unit {0})
  check_votes d gen = for_each (check_vote x sig_eq voters d gen) d.votes

  abbrev check_faults : Decision T Share Sig → Outcome Error (Unit {0})
  check_faults d = for_each (λ f. map_fault_err (validate_fault x voters f)) d.faults

  abbrev decided_by : Decision T Share Sig → Outcome Error (Option (List (T × Sig)))
  decided_by d = get_decision (count x d.votes (decision_faulty_ids d)) voters

  checks-IsProof :
      (d : Decision T Share Sig) (gen : Generation) (o : Option (List (T × Sig)))
      → generation d ≡ ok gen
      → check_votes d gen ≡ ok tt
      → check_faults d ≡ ok tt
      → decided_by d ≡ ok o
      → check_proposals x sig_eq voters d o ≡ ok tt
      → IsProof d
  checks-IsProof d gen none g v f e s = cc
  checks-IsProof d gen (some ps) g v f e s = record {
    gen = gen;
    of_generation = g;
    votes_sound =
        All-mono d.votes (λ w. (check_vote-IsSoundVote d gen w).0)
          ((for_each-All (check_vote x sig_eq voters d gen) d.votes).0 v);
    faults_valid =
        All-mono d.faults (λ a. (map_fault_err-ok (validate_fault x voters a)).0)
          ((for_each-All (λ a. map_fault_err (validate_fault x voters a)) d.faults).0 f);
    proposals = ps;
    decided = e;
    same_as_decided = ground (arith, s);
  }

  checks_of_proof :
      (d : Decision T Share Sig) (p : IsProof d)
      → (check_votes d p.gen ≡ ok tt) × (check_faults d ≡ ok tt)
  checks_of_proof d p = (
    (for_each-All (check_vote x sig_eq voters d p.gen) d.votes).1
        (All-mono d.votes (λ w. (check_vote-IsSoundVote d p.gen w).1) p.votes_sound),
    (for_each-All (λ a. map_fault_err (validate_fault x voters a)) d.faults).1
        (All-mono d.faults (λ a. (map_fault_err-ok (validate_fault x voters a)).1) p.faults_valid),
  )

  -- `Decision::validate` accepts exactly the decisions that prove themselves.
  validate_decision-IsProof :
      (d : Decision T Share Sig) → (validate_decision x sig_eq voters d ≡ ok tt) ↔ IsProof d
  validate_decision-IsProof d = (accepted, accepts)
    where
      accepted : validate_decision x sig_eq voters d ≡ ok tt → IsProof d
      accepted h =
          let (gen, g, h1) = and_then-ok (generation d) _ tt h in
          let (u, v, h2) = and_then-ok (check_votes d gen) _ tt h1 in
          let (w, f, h3) = and_then-ok (check_faults d) _ tt h2 in
          let (o, e, s) = and_then-ok (decided_by d) (check_proposals x sig_eq voters d) tt h3 in
          checks-IsProof d gen o g v f e s

      accepts : IsProof d → validate_decision x sig_eq voters d ≡ ok tt
      accepts p =
          rw
            (
              p.of_generation,
              (checks_of_proof d p).0,
              (checks_of_proof d p).1,
              p.decided,
              p.same_as_decided,
            )
            refl

-- The voter is at fault in none of the faults.
abbrev pub IsNotBlamed : {T Share : Type 0} → List (Fault T Share) → NodeId → Type 0
IsNotBlamed fs i = All (λ f. i ≢ voter_at_fault f) fs

-- A set made of a list has what the list has.
has-extend :
    (i : NodeId) (s xs : List NodeId)
    → has compare i (extend compare s xs) ≡ false
    → (has compare i s ≡ false) × All (λ j. i ≢ j) xs
has-extend i s [] h = (h, tt)
has-extend i s (j ∷ xs) h =
    let (before, rest) = has-extend i (add compare j s) xs h in
    (
      ground (arith, has-add compare compare-IsFaithful j i s),
      (λ e. cc (has-add_self compare compare-IsFaithful j s, e, before), rest),
    )

module _ {T Share Sig : Type 0} (x : Extern T Share) (sig_eq : Discrete Sig)
    (voters : PublicKeySet Sig Share) where
  not_blamed :
      (fs : List (Fault T Share)) (i : NodeId)
      → All (λ j. i ≢ j) (map voter_at_fault fs)
      → IsNotBlamed fs i
  not_blamed [] i h = tt
  not_blamed (f ∷ fs) i h = (h.0, not_blamed fs i h.1)

  -- Behind a decision that validates there is one candidate and more votes than the threshold,
  -- where candidates are told apart by their order: votes of different voters, none of them at fault
  -- in the faults that the decision names, each among the decision's votes and their children, and
  -- each a super-majority ballot whose own count that candidate wins.
  pub valid_decision_backed :
      IsOrdered x
      → (d : Decision T Share Sig) → validate_decision x sig_eq voters d ≡ ok tt
      → (c : Candidate T) × (vs : List (SignedVote T Share)) × (voters.threshold < length vs)
        × AllDistinct (map voter_of vs)
        × All
            (λ v.
              Mem v (unpack_list d.votes)
              × IsNotBlamed d.faults (voter_of v)
              × (is_super_majority (ballot_of (vote_of v)) ≡ true)
              × (candidate x v ≡ c))
            vs
  valid_decision_backed law d h =
      let p = (validate_decision-IsProof x sig_eq voters d).0 h in
      let (c, vs, enough, b) =
        decision_supported x law d.votes (decision_faulty_ids d) voters p.proposals p.decided in
      (
        c,
        vs,
        enough,
        b.distinct,
        All-mono vs
            (λ v k. (
              k.0,
              not_blamed d.faults (voter_of v) (has-extend (voter_of v) [] _ k.1).1,
              k.2,
              k.3,
            ))
            b.backs,
      )
