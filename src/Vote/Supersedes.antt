-- ===== src/Vote/Supersedes.antt =====
-- `SignedVote::supersedes`: what it compares, and that it is a preorder.
use Prim.Native.Nat.{compare}
use sn_consensus.Prelude.{true, ◌≡◌, refl, any, arith, inl, inr, Bool-cases}
use sn_consensus.Prelude.Ordered.{IsFaithful, compare-IsFaithful}
use sn_consensus.Prelude.Subsets.{any-++, is_subset_trans, is_subset_refl}
use sn_consensus.Vote.Types.{
  Ballot, propose, merge, super_majority, Vote, vote, SignedVote, signed, Votes, no_votes, and_vote,
  ballot_of, vote_of,
}
use sn_consensus.Vote.Compare.{cmp_ballot-IsFaithful, cmp_ballot}
use sn_consensus.Vote.Extern.{Extern, IsOrdered}
use sn_consensus.Vote.Ballots.{
  unpack_votes, unpack_vote, unpack_ballot, unpack_all, covers, supersedes, vote_supersedes,
  ballot_supersedes, any_supersedes, faulty_ids,
}

module _ {T Share : Type 0} (x : Extern T Share) where
  mutual
    unfolding supersedes unpack_votes

    supersedes-unpack :
        (v other : SignedVote T Share)
        → supersedes x v other ≡ any (λ w. covers x w other) (unpack_votes v)
    supersedes-unpack (signed v i s) other = rw (vote_supersedes-unpack v other) refl

    vote_supersedes-unpack :
        (v : Vote T Share) (other : SignedVote T Share)
        → vote_supersedes x v other ≡ any (λ w. covers x w other) (unpack_vote v)
    vote_supersedes-unpack (vote g b fs) other = ballot_supersedes-unpack b other

    ballot_supersedes-unpack :
        (b : Ballot T Share) (other : SignedVote T Share)
        → ballot_supersedes x b other ≡ any (λ w. covers x w other) (unpack_ballot b)
    ballot_supersedes-unpack (propose p) other = refl
    ballot_supersedes-unpack (merge vs) other = any_supersedes-unpack vs other
    ballot_supersedes-unpack (super_majority vs ps) other = any_supersedes-unpack vs other

    any_supersedes-unpack :
        (vs : Votes T Share) (other : SignedVote T Share)
        → any_supersedes x vs other ≡ any (λ w. covers x w other) (unpack_all vs)
    any_supersedes-unpack no_votes other = refl
    any_supersedes-unpack (and_vote v vs) other =
        rw
          (
            supersedes-unpack v other,
            any_supersedes-unpack vs other,
            any-++ (λ w. covers x w other) (unpack_votes v) (unpack_all vs),
          )
          refl

  -- A vote supersedes another exactly if some vote that it contains, itself included, has the
  -- other's voter, generation and ballot, and the other's faulty voters among its own.
  pub supersedes-unpack_votes :
      (v other : SignedVote T Share)
      → supersedes x v other ≡ any (λ w. covers x w other) (unpack_votes v)
  supersedes-unpack_votes = supersedes-unpack

  module _ (law : IsOrdered x) where
    ballots-IsFaithful : IsFaithful (cmp_ballot x.cmp x.cmp_share)
    ballots-IsFaithful =
        cmp_ballot-IsFaithful x.cmp x.cmp_share law.cmp-IsFaithful law.cmp_share-IsFaithful

    covers_refl : (v : SignedVote T Share) → covers x v v ≡ true
    covers_refl (signed v i s) = ground (
      arith,
      ballots-IsFaithful.reflexive (ballot_of v),
      is_subset_refl compare compare-IsFaithful (faulty_ids v),
    )

    covers_trans :
        (v w u : SignedVote T Share)
        → covers x v w ≡ true
        → covers x w u ≡ true
        → covers x v u ≡ true
    covers_trans (signed v i s) (signed w j t) (signed u k r) h g = ground (
      arith,
      ballots-IsFaithful.separates (ballot_of v) (ballot_of w),
      is_subset_trans compare compare-IsFaithful (faulty_ids u) (faulty_ids w) (faulty_ids v),
    )

    -- A vote that covers another has the same votes below it.
    covers-below :
        (v w u : SignedVote T Share)
        → covers x v w ≡ true
        → vote_supersedes x (vote_of w) u ≡ vote_supersedes x (vote_of v) u
    unfolding supersedes
    covers-below (signed (vote g b fs) i s) (signed (vote h c gs) j t) u e =
        ground (arith, ballots-IsFaithful.separates b c)

    -- A vote supersedes itself.
    pub supersedes_refl : (v : SignedVote T Share) → supersedes x v v ≡ true
    unfolding supersedes
    supersedes_refl (signed v i s) = rw (covers_refl (signed v i s)) refl

    mutual
      unfolding supersedes

      -- A vote that supersedes another supersedes all that the other does.
      pub supersedes_trans :
          (v w u : SignedVote T Share)
          → supersedes x v w ≡ true
          → supersedes x w u ≡ true
          → supersedes x v u ≡ true
      supersedes_trans (signed v i s) (signed w j t) u h g =
          elim (Bool-cases (covers x (signed v i s) (signed w j t))) [
            | inl e ↦ ground (
              arith,
              covers_trans (signed v i s) (signed w j t) u,
              covers-below (signed v i s) (signed w j t) u,
            )
            | inr e ↦ ground (arith, vote_supersedes_trans v (signed w j t) u)
          ]

      vote_supersedes_trans :
          (v : Vote T Share) (w u : SignedVote T Share)
          → vote_supersedes x v w ≡ true
          → supersedes x w u ≡ true
          → vote_supersedes x v u ≡ true
      vote_supersedes_trans (vote g b fs) w u h k = ballot_supersedes_trans b w u h k

      ballot_supersedes_trans :
          (b : Ballot T Share) (w u : SignedVote T Share)
          → ballot_supersedes x b w ≡ true
          → supersedes x w u ≡ true
          → ballot_supersedes x b u ≡ true
      ballot_supersedes_trans (propose p) w u h k = cc
      ballot_supersedes_trans (merge vs) w u h k = any_supersedes_trans vs w u h k
      ballot_supersedes_trans (super_majority vs ps) w u h k = any_supersedes_trans vs w u h k

      any_supersedes_trans :
          (vs : Votes T Share) (w u : SignedVote T Share)
          → any_supersedes x vs w ≡ true
          → supersedes x w u ≡ true
          → any_supersedes x vs u ≡ true
      any_supersedes_trans no_votes w u h k = cc
      any_supersedes_trans (and_vote v vs) w u h k =
          ground (arith, supersedes_trans v w u, any_supersedes_trans vs w u)
