-- ===== src/Vote/Compare.antt =====
-- The derived `Ord` of src/vote.rs and src/fault.rs: enumerations by their constructors, in the
-- order of their declaration, structures by their fields, sets and maps by their entries.
use Prim.Native.Nat.{compare, Ordering}
use Prim.Native.Nat.Ordering.{lt, eq, gt}
use sn_consensus.Prelude.{◌≡◌, refl, ap, arith}
use sn_consensus.Prelude.Ordered.{
  then_cmp, cmp_list, IsFaithful, compare-IsFaithful, cmp_list-IsFaithful,
}
use sn_consensus.Vote.Types.{
  NodeId, Ballot, propose, merge, super_majority, Vote, vote, SignedVote, signed, Fault,
  changed_vote, invalid_fault, Votes, no_votes, and_vote, Faults, no_faults, and_fault,
}

module _ {T Share : Type 0} (cmp_t : T → T → Ordering) (cmp_share : Share → Share → Ordering) where
  -- An entry of `proposals`.
  abbrev pub cmp_entry : T × (NodeId × Share) → T × (NodeId × Share) → Ordering
  cmp_entry (p, (i, s)) (q, (j, t)) = then_cmp (cmp_t p q) (then_cmp (compare i j) (cmp_share s t))

  unfoldable mutual
    pub cmp_ballot : Ballot T Share → Ballot T Share → Ordering
    cmp_ballot (propose p) (propose q) = cmp_t p q
    cmp_ballot (propose p) _ = lt
    cmp_ballot (merge vs) (propose q) = gt
    cmp_ballot (merge vs) (merge ws) = cmp_votes vs ws
    cmp_ballot (merge vs) (super_majority _ _) = lt
    cmp_ballot (super_majority vs ps) (super_majority ws qs) =
        then_cmp (cmp_votes vs ws) (cmp_list cmp_entry ps qs)
    cmp_ballot (super_majority vs ps) _ = gt

    pub cmp_vote : Vote T Share → Vote T Share → Ordering
    cmp_vote (vote g b fs) (vote h c gs) =
        then_cmp (compare g h) (then_cmp (cmp_ballot b c) (cmp_faults fs gs))

    pub cmp_signed : SignedVote T Share → SignedVote T Share → Ordering
    cmp_signed (signed v i s) (signed w j t) =
        then_cmp (cmp_vote v w) (then_cmp (compare i j) (cmp_share s t))

    pub cmp_fault : Fault T Share → Fault T Share → Ordering
    cmp_fault (changed_vote a b) (changed_vote c d) = then_cmp (cmp_signed a c) (cmp_signed b d)
    cmp_fault (changed_vote a b) (invalid_fault v) = lt
    cmp_fault (invalid_fault v) (changed_vote a b) = gt
    cmp_fault (invalid_fault v) (invalid_fault w) = cmp_signed v w

    pub cmp_votes : Votes T Share → Votes T Share → Ordering
    cmp_votes no_votes no_votes = eq
    cmp_votes no_votes (and_vote _ _) = lt
    cmp_votes (and_vote _ _) no_votes = gt
    cmp_votes (and_vote v vs) (and_vote w ws) = then_cmp (cmp_signed v w) (cmp_votes vs ws)

    pub cmp_faults : Faults T Share → Faults T Share → Ordering
    cmp_faults no_faults no_faults = eq
    cmp_faults no_faults (and_fault _ _) = lt
    cmp_faults (and_fault _ _) no_faults = gt
    cmp_faults (and_fault f fs) (and_fault g gs) = then_cmp (cmp_fault f g) (cmp_faults fs gs)

  module _ (t_law : IsFaithful cmp_t) (share_law : IsFaithful cmp_share) where
    cmp_entry-IsFaithful : IsFaithful cmp_entry
    cmp_entry-IsFaithful = record {
      reflexive = λ (p, (i, s)). ground (arith, t_law.reflexive p, share_law.reflexive s);
      separates = λ (p, (i, s)) (q, (j, t)).
          ground
            (arith, t_law.separates p q, compare-IsFaithful.separates i j, share_law.separates s t);
    }

    cmp_entries-IsFaithful : IsFaithful (cmp_list cmp_entry)
    cmp_entries-IsFaithful = cmp_list-IsFaithful cmp_entry cmp_entry-IsFaithful

    mutual
      unfolding cmp_ballot

      cmp_ballot_refl : (b : Ballot T Share) → cmp_ballot b b ≡ eq
      cmp_ballot_refl (propose p) = t_law.reflexive p
      cmp_ballot_refl (merge vs) = cmp_votes_refl vs
      cmp_ballot_refl (super_majority vs ps) =
          rw (cmp_votes_refl vs) (cmp_entries-IsFaithful.reflexive ps)

      cmp_vote_refl : (v : Vote T Share) → cmp_vote v v ≡ eq
      cmp_vote_refl (vote g b fs) =
          rw (compare-IsFaithful.reflexive g, cmp_ballot_refl b) (cmp_faults_refl fs)

      cmp_signed_refl : (v : SignedVote T Share) → cmp_signed v v ≡ eq
      cmp_signed_refl (signed v i s) =
          rw (cmp_vote_refl v, compare-IsFaithful.reflexive i) (share_law.reflexive s)

      cmp_fault_refl : (f : Fault T Share) → cmp_fault f f ≡ eq
      cmp_fault_refl (changed_vote a b) = rw (cmp_signed_refl a) (cmp_signed_refl b)
      cmp_fault_refl (invalid_fault v) = cmp_signed_refl v

      cmp_votes_refl : (vs : Votes T Share) → cmp_votes vs vs ≡ eq
      cmp_votes_refl no_votes = refl
      cmp_votes_refl (and_vote v vs) = rw (cmp_signed_refl v) (cmp_votes_refl vs)

      cmp_faults_refl : (fs : Faults T Share) → cmp_faults fs fs ≡ eq
      cmp_faults_refl no_faults = refl
      cmp_faults_refl (and_fault f fs) = rw (cmp_fault_refl f) (cmp_faults_refl fs)

    mutual
      unfolding cmp_ballot

      eq_of_cmp_ballot : (b c : Ballot T Share) → cmp_ballot b c ≡ eq → b ≡ c
      eq_of_cmp_ballot (propose p) (propose q) h = ap propose (t_law.separates p q h)
      eq_of_cmp_ballot (propose p) (merge ws) h = cc
      eq_of_cmp_ballot (propose p) (super_majority ws qs) h = cc
      eq_of_cmp_ballot (merge vs) (propose q) h = cc
      eq_of_cmp_ballot (merge vs) (merge ws) h = ap merge (eq_of_cmp_votes vs ws h)
      eq_of_cmp_ballot (merge vs) (super_majority ws qs) h = cc
      eq_of_cmp_ballot (super_majority vs ps) (propose q) h = cc
      eq_of_cmp_ballot (super_majority vs ps) (merge ws) h = cc
      eq_of_cmp_ballot (super_majority vs ps) (super_majority ws qs) h =
          ground (arith, eq_of_cmp_votes vs ws, cmp_entries-IsFaithful.separates ps qs)

      eq_of_cmp_vote : (v w : Vote T Share) → cmp_vote v w ≡ eq → v ≡ w
      eq_of_cmp_vote (vote g b fs) (vote h c gs) e =
          ground
            (arith, compare-IsFaithful.separates g h, eq_of_cmp_ballot b c, eq_of_cmp_faults fs gs)

      eq_of_cmp_signed : (v w : SignedVote T Share) → cmp_signed v w ≡ eq → v ≡ w
      eq_of_cmp_signed (signed v i s) (signed w j t) e =
          ground
            (arith, eq_of_cmp_vote v w, compare-IsFaithful.separates i j, share_law.separates s t)

      eq_of_cmp_fault : (f g : Fault T Share) → cmp_fault f g ≡ eq → f ≡ g
      eq_of_cmp_fault (changed_vote a b) (changed_vote c d) h =
          ground (arith, eq_of_cmp_signed a c, eq_of_cmp_signed b d)
      eq_of_cmp_fault (changed_vote a b) (invalid_fault v) h = cc
      eq_of_cmp_fault (invalid_fault v) (changed_vote a b) h = cc
      eq_of_cmp_fault (invalid_fault v) (invalid_fault w) h =
          ap invalid_fault (eq_of_cmp_signed v w h)

      eq_of_cmp_votes : (vs ws : Votes T Share) → cmp_votes vs ws ≡ eq → vs ≡ ws
      eq_of_cmp_votes no_votes no_votes h = refl
      eq_of_cmp_votes no_votes (and_vote _ _) h = cc
      eq_of_cmp_votes (and_vote _ _) no_votes h = cc
      eq_of_cmp_votes (and_vote v vs) (and_vote w ws) h =
          ground (arith, eq_of_cmp_signed v w, eq_of_cmp_votes vs ws)

      eq_of_cmp_faults : (fs gs : Faults T Share) → cmp_faults fs gs ≡ eq → fs ≡ gs
      eq_of_cmp_faults no_faults no_faults h = refl
      eq_of_cmp_faults no_faults (and_fault _ _) h = cc
      eq_of_cmp_faults (and_fault _ _) no_faults h = cc
      eq_of_cmp_faults (and_fault f fs) (and_fault g gs) h =
          ground (arith, eq_of_cmp_fault f g, eq_of_cmp_faults fs gs)

    pub cmp_ballot-IsFaithful : IsFaithful cmp_ballot
    cmp_ballot-IsFaithful = record { reflexive = cmp_ballot_refl; separates = eq_of_cmp_ballot }

    pub cmp_signed-IsFaithful : IsFaithful cmp_signed
    cmp_signed-IsFaithful = record { reflexive = cmp_signed_refl; separates = eq_of_cmp_signed }
