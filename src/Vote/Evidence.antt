-- ===== src/Vote/Evidence.antt =====
-- What `Fault::validate` of src/fault.rs establishes.
use sn_consensus.Prelude.{true, false, not, ◌≡◌, refl, ◌↔◌, any, arith, ok}
use sn_consensus.Keys.{PublicKeySet}
use sn_consensus.Vote.Types.{
  vote, SignedVote, signed, Fault, changed_vote, invalid_fault, Faults, no_faults, and_fault,
  fault_list, faults_of, vote_of, voter_of,
}
use sn_consensus.Vote.Extern.{Extern}
use sn_consensus.Vote.Ballots.{supersedes}
use sn_consensus.Vote.Validity.{validate_signature, validate_fault, is_valid_fault, all_are_valid}

module _ {T Share Sig : Type 0} (x : Extern T Share) (voters : PublicKeySet Sig Share) where
  abbrev pub IsSigned : SignedVote T Share → Type 0
  IsSigned v = validate_signature x voters v ≡ ok tt

  -- Two votes that a voter signed, neither of which supersedes the other; or a vote that accuses on
  -- evidence of which some does not stand.
  abbrev pub IsEvidence : Fault T Share → Type 0
  IsEvidence (changed_vote a b) =
      IsSigned a
      × IsSigned b
      × (voter_of a ≡ voter_of b)
      × (supersedes x a b ≡ false)
      × (supersedes x b a ≡ false)
  IsEvidence (invalid_fault v) =
      IsSigned v × (any (λ f. not (is_valid_fault x voters f)) (faults_of (vote_of v)) ≡ true)

  all_are_valid-any :
      (fs : Faults T Share)
      → all_are_valid x voters fs ≡ not (any (λ f. not (is_valid_fault x voters f)) (fault_list fs))
  unfolding validate_fault
  all_are_valid-any no_faults = refl
  all_are_valid-any (and_fault f fs) = ground (arith, all_are_valid-any fs)

  -- A fault is valid exactly if its evidence shows one: two signed votes of one voter, neither of
  -- which supersedes the other, or a signed vote that names a fault which is itself not valid.
  pub is_valid_fault-IsEvidence :
      (f : Fault T Share) → (is_valid_fault x voters f ≡ true) ↔ IsEvidence f
  unfolding validate_fault
  is_valid_fault-IsEvidence (changed_vote a b) = ground arith
  is_valid_fault-IsEvidence (invalid_fault (signed (vote g b fs) i s)) =
      ground (arith, all_are_valid-any fs)
