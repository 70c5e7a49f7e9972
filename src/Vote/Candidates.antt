-- ===== src/Vote/Candidates.antt =====
-- `SignedVote::candidate`: the fuel of the count below a vote is enough.
use Prim.Native.Nat.{compare}
use sn_consensus.Prelude.{
  ℕ, zero, suc, ◌≤◌, Bool, true, false, ◌≡◌, refl, ap, List, [], ◌∷◌, Option, none, some, Map,
  length, All, length-++, All-mono, All-++, arith, if◌then◌else◌,
}
use sn_consensus.Prelude.Ordered.{compare-IsFaithful, values, get, put-All, get-All, has}
use sn_consensus.Vote.Types.{
  NodeId, Ballot, propose, merge, super_majority, Vote, vote, SignedVote, signed, Votes, no_votes,
  and_vote, vote_list, voter_of,
}
use sn_consensus.Vote.Extern.{Extern}
use sn_consensus.Vote.Ballots.{
  unpack_votes, unpack_vote, unpack_ballot, unpack_all, unpack_list, faulty_ids,
}
use sn_consensus.Vote.Count.{
  Candidate, VoteCount, candidate, candidate_in, candidate_by, count_with, count_all, latest_votes,
  keep_latest, newer, winner,
}

module _ {T Share : Type 0} (x : Extern T Share) where
  module _ (P : SignedVote T Share → Type 0) where
    newer-All :
        (v : SignedVote T Share) (e : Option (SignedVote T Share))
        → P v
        → ((w : SignedVote T Share) → e ≡ some w → P w)
        → P (newer x v e)
    newer-All v none p q = ground arith
    newer-All v (some w) p q = ground (arith, q w refl)

    pub keep_latest-All :
        (v : SignedVote T Share) (m : Map (SignedVote T Share))
        → P v
        → All (λ e. P e.1) m
        → All (λ e. P e.1) (keep_latest x v m)
    keep_latest-All v m p a =
        put-All compare compare-IsFaithful (λ e. P e.1) (voter_of v) _ m
          (newer-All v (get compare (voter_of v) m) p
            (λ w e. get-All compare compare-IsFaithful (λ e. P e.1) (voter_of v) m w a e))
          a

    pub latest_votes-All :
        (faulty : List NodeId) (vs : List (SignedVote T Share)) (m : Map (SignedVote T Share))
        → All P vs
        → All (λ e. P e.1) m
        → All (λ e. P e.1) (latest_votes x faulty m vs)
    latest_votes-All faulty [] m h a = a
    latest_votes-All faulty (v ∷ vs) m h a =
        latest_votes-All faulty vs _ h.1 (step (has compare (voter_of v) faulty))
      where
        step : (b : Bool) → All (λ e. P e.1) (if b then m else keep_latest x v m)
        step true = a
        step false = keep_latest-All v m h.0 a

    values-All : (m : Map (SignedVote T Share)) → All (λ e. P e.1) m → All P (values m)
    values-All [] a = tt
    values-All ((k, v) ∷ m) a = (a.0, values-All m a.1)

  module _ (f g : SignedVote T Share → Candidate T) where
    count_all_ext :
        (vs : List (SignedVote T Share)) (n : VoteCount T Share)
        → All (λ v. f v ≡ g v) vs
        → count_all x f vs n ≡ count_all x g vs n
    count_all_ext [] n a = refl
    count_all_ext (v ∷ vs) n a = rw a.0 (count_all_ext vs _ a.1)

    count_with_ext :
        (vs : List (SignedVote T Share)) (faulty : List NodeId)
        → All (λ v. f v ≡ g v) (unpack_list vs)
        → count_with x f vs faulty ≡ count_with x g vs faulty
    count_with_ext vs faulty a = count_all_ext _ _ (
        values-All (λ v. f v ≡ g v) _
          (latest_votes-All (λ v. f v ≡ g v) faulty (unpack_list vs) [] a tt))

  unpack_list-vote_list : (vs : Votes T Share) → unpack_list (vote_list vs) ≡ unpack_all vs
  unfolding unpack_votes
  unpack_list-vote_list no_votes = refl
  unpack_list-vote_list (and_vote v vs) = rw (unpack_list-vote_list vs) refl

  -- A vote among those that a vote contains contains no more than it.
  abbrev Within : ℕ → SignedVote T Share → Type 0
  Within n v = length (unpack_votes v) ≤ n

  widen : (m n : ℕ) (vs : List (SignedVote T Share)) → m ≤ n → All (Within m) vs → All (Within n) vs
  widen m n vs h a = All-mono vs (λ v k. omega arith) a

  mutual
    unfolding unpack_votes

    unpack_votes-Within :
        (v : SignedVote T Share) → All (Within (length (unpack_votes v))) (unpack_votes v)
    unpack_votes-Within (signed v i s) =
        (omega arith, widen _ _ _ (omega arith) (unpack_vote-Within v))

    unpack_vote-Within : (v : Vote T Share) → All (Within (length (unpack_vote v))) (unpack_vote v)
    unpack_vote-Within (vote g b fs) = unpack_ballot-Within b

    unpack_ballot-Within :
        (b : Ballot T Share) → All (Within (length (unpack_ballot b))) (unpack_ballot b)
    unpack_ballot-Within (propose p) = tt
    unpack_ballot-Within (merge vs) = unpack_all-Within vs
    unpack_ballot-Within (super_majority vs ps) = unpack_all-Within vs

    unpack_all-Within : (vs : Votes T Share) → All (Within (length (unpack_all vs))) (unpack_all vs)
    unpack_all-Within no_votes = tt
    unpack_all-Within (and_vote v vs) =
        All-++ _ _ _
          (widen _ _ _ (omega (arith, length-++ (unpack_votes v) (unpack_all vs)))
            (unpack_votes-Within v))
          (widen _ _ _ (omega (arith, length-++ (unpack_votes v) (unpack_all vs)))
            (unpack_all-Within vs))

  -- Two meanings of the call of itself that agree below a vote give it the same candidate.
  candidate_by_ext :
      (f g : SignedVote T Share → Candidate T) (n : ℕ) (v : SignedVote T Share)
      → Within (suc n) v
      → ((w : SignedVote T Share) → Within n w → f w ≡ g w)
      → candidate_by x f v ≡ candidate_by x g v
  unfolding unpack_votes
  candidate_by_ext f g n (signed (vote h (propose p) fs) i s) k e = refl
  candidate_by_ext f g n (signed (vote h (merge vs) fs) i s) k e = refl
  candidate_by_ext f g n (signed (vote h (super_majority vs ps) fs) i s) k e = ap winner (
      count_with_ext f g (vote_list vs) (faulty_ids (vote h (super_majority vs ps) fs)) (
        rw (unpack_list-vote_list vs)
          (All-mono (unpack_all vs) (λ w j. e w (omega arith)) (unpack_all-Within vs))))

  candidate_in_enough :
      (n m : ℕ) (v : SignedVote T Share)
      → Within n v
      → Within m v
      → candidate_in x n v ≡ candidate_in x m v
  unfolding candidate_in unpack_votes
  candidate_in_enough zero m (signed v i s) h k = absurd (omega arith)
  candidate_in_enough (suc n) zero (signed v i s) h k = absurd (omega arith)
  candidate_in_enough (suc n) (suc m) (signed v i s) h k =
      candidate_by_ext _ _ (length (unpack_vote v)) (signed v i s) (omega arith)
        (λ w j. candidate_in_enough n m w (omega arith) (omega arith))

  -- The candidate of a vote is what the source's `candidate` computes from its own calls of itself:
  -- the winner of the count below a super-majority ballot, and else the proposals and faulty voters
  -- of the vote. The count by fuel never runs out.
  pub candidate_unfolds : (v : SignedVote T Share) → candidate x v ≡ candidate_by x (candidate x) v
  unfolding candidate_in unpack_votes
  candidate_unfolds (signed v i s) =
      candidate_by_ext _ _ (length (unpack_vote v)) (signed v i s) (omega arith) (λ w h.
        candidate_in_enough (length (unpack_vote v)) (length (unpack_votes w)) w h (omega arith))
