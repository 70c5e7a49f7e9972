-- ===== src/Vote/Simplify.antt =====
-- `simplify_votes` of src/vote.rs: what it drops is not lost.
use sn_consensus.Prelude.{
  length-++, All-both, ◌≤◌, length, true, false, List, [], All, All-mono, any, ◌≡◌, refl, arith,
  inl, inr, Bool-cases,
}
use sn_consensus.Prelude.Ordered.{has, IsFaithful}
use sn_consensus.Prelude.Subsets.{any-keep-false, All-has, has-keep, has-extend, has-any}
use sn_consensus.Prelude.Tops.{best, best_above, best_top, best-All}
use sn_consensus.Vote.Types.{
  Ballot, propose, merge, super_majority, Vote, vote, SignedVote, signed, Votes, no_votes, and_vote,
  voter_of,
}
use sn_consensus.Vote.Compare.{cmp_ballot, cmp_signed-IsFaithful, cmp_ballot-IsFaithful}
use sn_consensus.Vote.Extern.{Extern, IsOrdered, order_votes}
use sn_consensus.Vote.Ballots.{
  supersedes, vote_supersedes, ballot_supersedes, any_supersedes, covers, unpack_votes, unpack_vote,
  unpack_ballot, unpack_all, is_superseded, simplify_votes,
}
use sn_consensus.Vote.Supersedes.{supersedes_refl, supersedes_trans}

module _ {T Share : Type 0} (x : Extern T Share) (law : IsOrdered x) where
  ballots-IsFaithful : IsFaithful (cmp_ballot x.cmp x.cmp_share)
  ballots-IsFaithful =
      cmp_ballot-IsFaithful x.cmp x.cmp_share law.cmp-IsFaithful law.cmp_share-IsFaithful

  votes-IsFaithful : IsFaithful (order_votes x)
  votes-IsFaithful =
      cmp_signed-IsFaithful x.cmp x.cmp_share law.cmp-IsFaithful law.cmp_share-IsFaithful

  -- A vote that none of the others supersedes is kept.
  kept_of_top :
      (all : List (SignedVote T Share)) (w : SignedVote T Share)
      → has (order_votes x) w all ≡ true
      → All (λ u. supersedes x u w ≡ true → u ≡ w) all
      → has (order_votes x) w (simplify_votes x all) ≡ true
  kept_of_top all w h top =
      has-extend (order_votes x) votes-IsFaithful w [] _
        (has-keep (order_votes x) votes-IsFaithful _ w all (rw alone refl) h)
    where
      alone : is_superseded x all w ≡ false
      alone =
          any-keep-false _ _ all
            (All-mono all (λ u t d. ground (arith, t, d, votes-IsFaithful.reflexive w)) top)

  -- A vote contains as many votes as one that it supersedes, and more unless it covers it.
  cover_size :
      (v w : SignedVote T Share)
      → covers x v w ≡ true
      → length (unpack_votes v) ≡ length (unpack_votes w)
  unfolding unpack_votes
  cover_size (signed (vote g b fs) i s) (signed (vote h c gs) j t) e =
      ground (arith, ballots-IsFaithful.separates b c)

  mutual
    unfolding supersedes unpack_votes

    size_le :
        (v w : SignedVote T Share)
        → supersedes x v w ≡ true
        → length (unpack_votes w) ≤ length (unpack_votes v)
    size_le (signed v i s) w h = elim (Bool-cases (covers x (signed v i s) w)) [
      | inl e ↦ omega (arith, cover_size (signed v i s) w e)
      | inr e ↦ omega (arith, vote_size_le v w (ground (arith, e, h)))
    ]

    vote_size_le :
        (v : Vote T Share) (w : SignedVote T Share)
        → vote_supersedes x v w ≡ true
        → length (unpack_votes w) ≤ length (unpack_vote v)
    vote_size_le (vote g b fs) w h = ballot_size_le b w h

    ballot_size_le :
        (b : Ballot T Share) (w : SignedVote T Share)
        → ballot_supersedes x b w ≡ true
        → length (unpack_votes w) ≤ length (unpack_ballot b)
    ballot_size_le (propose p) w h = cc
    ballot_size_le (merge vs) w h = any_size_le vs w h
    ballot_size_le (super_majority vs ps) w h = any_size_le vs w h

    any_size_le :
        (vs : Votes T Share) (w : SignedVote T Share)
        → any_supersedes x vs w ≡ true
        → length (unpack_votes w) ≤ length (unpack_all vs)
    any_size_le no_votes w h = cc
    any_size_le (and_vote v vs) w h =
        ground (arith, size_le v w, any_size_le vs w, length-++ (unpack_votes v) (unpack_all vs))

  -- Two votes that supersede each other are of one voter.
  same_voter :
      (v w : SignedVote T Share)
      → supersedes x v w ≡ true
      → supersedes x w v ≡ true
      → voter_of v ≡ voter_of w
  unfolding supersedes unpack_votes
  same_voter (signed v i s) (signed w j t) h k =
      elim (Bool-cases (covers x (signed v i s) (signed w j t))) [
        | inl e ↦ ground (arith, e)
        | inr e ↦ absurd (
            omega (
              arith,
              vote_size_le v (signed w j t) (ground (arith, e, h)),
              size_le (signed w j t) (signed v i s) k,
            ))
      ]

  -- What `simplify_votes` drops is not lost: of votes of different voters, each is superseded by one
  -- that is kept, itself or another.
  pub simplify_votes-supersedes :
      (all : List (SignedVote T Share))
      → ((a b : SignedVote T Share)
          → has (order_votes x) a all ≡ true
          → has (order_votes x) b all ≡ true
          → voter_of a ≡ voter_of b
          → a ≡ b)
      → (v : SignedVote T Share) → has (order_votes x) v all ≡ true
      → any (λ w. supersedes x w v) (simplify_votes x all) ≡ true
  simplify_votes-supersedes all distinct v h =
      has-any (order_votes x) votes-IsFaithful _ w (simplify_votes x all)
        (kept_of_top all w stands top)
        (best_above (supersedes x) (supersedes_refl x law) (supersedes_trans x law) v all)
    where
      w : SignedVote T Share
      w = best (supersedes x) v all

      members : All (λ a. has (order_votes x) a all ≡ true) all
      members = All-has (order_votes x) votes-IsFaithful all all (λ a k. k)

      stands : has (order_votes x) w all ≡ true
      stands = best-All (supersedes x) (λ a. has (order_votes x) a all ≡ true) v all h members

      top : All (λ u. supersedes x u w ≡ true → u ≡ w) all
      top =
          All-both all (λ u m t d. distinct u w m stands (same_voter u w d (t d))) members
            (best_top (supersedes x) (supersedes_refl x law) (supersedes_trans x law) v all)
