-- ===== src/Vote/Validity.antt =====
-- `Vote::validate` and `SignedVote::validate` of src/vote.rs, src/fault.rs,
-- `detect_byzantine_faults`, and `verify_sig_share` of src/lib.rs.
use Prim.Native.Nat.{compare}
use sn_consensus.Prelude.{
  Bool, true, false, not, List, [], ◌∷◌, Option, none, some, Map, ◌==◌, if◌then◌else◌, ◌||◌,
  Outcome, ok, stop, raised, panicked, out_of_fuel,
}
use sn_consensus.Prelude.Ordered.{get, put, keys, is_eq, cmp_list}
use sn_consensus.Prelude.Results.{and_then, for_each}
use sn_consensus.Keys.{PublicKeySet, Format}
use sn_consensus.Vote.Types.{
  NodeId, Generation, Ballot, propose, merge, super_majority, Vote, vote, SignedVote, signed, Fault,
  changed_vote, invalid_fault, Votes, no_votes, and_vote, Faults, no_faults, and_fault, FaultError,
  changed_vote_fault_is_from_different_voters, changed_vote_is_not_actually_changed,
  accused_an_improperly_signed_vote, accused_vote_of_invalid_fault_but_all_faults_are_valid, Error,
  parent_and_child_with_diff_gen, super_majority_ballot_is_not_super_majority, encoding,
  invalid_elder_signature, super_majority_proposals_does_not_match_vote_proposals, fault_is_faulty,
  vote_list, gen_of, voter_of, sig_of,
}
use sn_consensus.Vote.Extern.{Extern}
use sn_consensus.Vote.Ballots.{unpack_votes, supersedes, faulty_ids}
use sn_consensus.Vote.Count.{count, winner, do_we_have_supermajority}

abbrev pub is_ok {ℓ κ} : {E : Type ℓ} → {A : Type κ} → Outcome E A → Bool
is_ok (ok _) = true
is_ok (stop _) = false

-- `map_err(|_| e)`
abbrev pub map_err {ℓ κ μ} :
    {E : Type ℓ} → {F : Type κ} → {A : Type μ} → F → Outcome E A → Outcome F A
map_err e (ok a) = ok a
map_err e (stop _) = stop (raised e)

-- `map_err(Error::FaultIsFaulty)`
abbrev pub map_fault_err {κ} : {A : Type κ} → Outcome FaultError A → Outcome Error A
map_fault_err (ok a) = ok a
map_fault_err (stop (raised e)) = stop (raised (fault_is_faulty e))
map_fault_err (stop panicked) = stop panicked
map_fault_err (stop out_of_fuel) = stop out_of_fuel

module _ {Share Sig : Type 0} where
  unfoldable pub verify_sig_share :
      {M : Type 0}
      → Format M
      → M
      → Share
      → NodeId
      → PublicKeySet Sig Share
      → Outcome Error (Unit {0})
  verify_sig_share format msg sig voter voters = elim (format.serialize msg) [
    | none ↦ stop (raised encoding)
    | some bytes ↦
        if voters.verify_share voter sig bytes then ok tt else stop (raised invalid_elder_signature)
  ]

module _ {T Share Sig : Type 0} (x : Extern T Share) (voters : PublicKeySet Sig Share) where
  abbrev pub validate_signature : SignedVote T Share → Outcome Error (Unit {0})
  validate_signature (signed v voter sig) = verify_sig_share x.vote_format v sig voter voters

  -- The tests of a super-majority ballot before its votes are validated. The set of proposals is
  -- compared with the keys of the map in order.
  abbrev pub check_super_majority :
      List (SignedVote T Share)
      → List (T × (NodeId × Share))
      → List NodeId
      → Outcome Error (Unit {0})
  check_super_majority votes ps faulty =
      if not (do_we_have_supermajority (count x votes faulty) voters)
      then stop (raised super_majority_ballot_is_not_super_majority)
      else if not (is_eq (cmp_list x.cmp (winner (count x votes faulty)).proposals (keys ps)))
      then stop (raised super_majority_proposals_does_not_match_vote_proposals)
      else map_err invalid_elder_signature
          (for_each (λ (p, (id, sig)). verify_sig_share x.proposal_format p sig id voters) ps)

  -- One vote below a ballot; `valid` is what `validate` answers on it.
  abbrev pub check_child :
      (Share → Bool)
      → Generation
      → SignedVote T Share
      → Outcome Error (Unit {0})
      → Outcome Error (Unit {0})
  check_child memo gen (signed v _ sig) valid =
      if gen_of v == gen
      then (if memo sig then ok tt else valid)
      else stop (raised (parent_and_child_with_diff_gen (gen_of v) gen))

  unfoldable mutual
    -- SignedVote::validate
    pub validate : (Share → Bool) → SignedVote T Share → Outcome Error (Unit {0})
    validate memo (signed v voter sig) =
        let valid = validate_vote memo v in
        and_then (validate_signature (signed v voter sig)) (λ _. valid)

    -- Vote::validate
    pub validate_vote : (Share → Bool) → Vote T Share → Outcome Error (Unit {0})
    validate_vote memo (vote gen ballot fs) = validate_ballot memo gen fs ballot

    pub validate_ballot :
        (Share → Bool) → Generation → Faults T Share → Ballot T Share → Outcome Error (Unit {0})
    validate_ballot memo gen fs (propose p) = ok tt
    validate_ballot memo gen fs (merge votes) = validate_child_votes memo gen votes
    validate_ballot memo gen fs (super_majority votes ps) =
        let valid = validate_child_votes memo gen votes in
        and_then
          (check_super_majority (vote_list votes) ps
            (faulty_ids (vote gen (super_majority votes ps) fs)))
          (λ _. valid)

    -- The closure `validate_child_votes`
    pub validate_child_votes :
        (Share → Bool) → Generation → Votes T Share → Outcome Error (Unit {0})
    validate_child_votes memo gen no_votes = ok tt
    validate_child_votes memo gen (and_vote v more) =
        let valid = validate memo v in
        let rest = validate_child_votes memo gen more in
        and_then (check_child memo gen v valid) (λ _. rest)

  abbrev pub signed_properly : SignedVote T Share → Outcome FaultError (Unit {0})
  signed_properly v = map_err accused_an_improperly_signed_vote (validate_signature v)

  abbrev pub check_changed : SignedVote T Share → SignedVote T Share → Outcome FaultError (Unit {0})
  check_changed a b = and_then (signed_properly a) λ _. and_then (signed_properly b) (λ _.
      if not (voter_of a == voter_of b)
      then stop (raised changed_vote_fault_is_from_different_voters)
      else if (supersedes x a b || supersedes x b a)
      then stop (raised changed_vote_is_not_actually_changed)
      else ok tt)

  unfoldable mutual
    -- Fault::validate
    pub validate_fault : Fault T Share → Outcome FaultError (Unit {0})
    validate_fault (changed_vote a b) = check_changed a b
    validate_fault (invalid_fault v) =
        let all_faults_are_valid = signed_faults_are_valid v in
        and_then (signed_properly v) (λ _.
          if all_faults_are_valid
          then stop (raised accused_vote_of_invalid_fault_but_all_faults_are_valid)
          else ok tt)

    pub signed_faults_are_valid : SignedVote T Share → Bool
    signed_faults_are_valid (signed v voter sig) = vote_faults_are_valid v

    pub vote_faults_are_valid : Vote T Share → Bool
    vote_faults_are_valid (vote gen ballot fs) = all_are_valid fs

    -- True on no faults, so that the source's test for none is covered.
    pub all_are_valid : Faults T Share → Bool
    all_are_valid no_faults = true
    all_are_valid (and_fault f fs) =
        let rest = all_are_valid fs in if is_ok (validate_fault f) then rest else false

  abbrev pub is_valid_fault : Fault T Share → Bool
  is_valid_fault f = is_ok (validate_fault f)

  -- The accusation, if it stands: `if let Ok(()) = fault.validate(voters)`.
  abbrev pub accuse : NodeId → Fault T Share → Map (Fault T Share) → Map (Fault T Share)
  accuse id f faults = if is_valid_fault f then put compare id f faults else faults

  abbrev pub accuse_changed :
      Option (SignedVote T Share) → SignedVote T Share → Map (Fault T Share) → Map (Fault T Share)
  accuse_changed none v faults = faults
  accuse_changed (some existing) v faults = accuse (voter_of v) (changed_vote existing v) faults

  abbrev pub detect_in :
      Map (SignedVote T Share)
      → (Share → Bool)
      → Map (Fault T Share)
      → List (SignedVote T Share)
      → Map (Fault T Share)
  detect_in existing memo faults [] = faults
  detect_in existing memo faults (v ∷ more) =
      detect_in existing memo
        (if memo (sig_of v)
          then faults
          else accuse (voter_of v) (invalid_fault v)
              (accuse_changed (get compare (voter_of v) existing) v faults))
        more

  -- SignedVote::detect_byzantine_faults; no faults is its `Ok`.
  abbrev pub detect_byzantine_faults :
      SignedVote T Share → Map (SignedVote T Share) → (Share → Bool) → Map (Fault T Share)
  detect_byzantine_faults v existing memo = detect_in existing memo [] (unpack_votes v)
