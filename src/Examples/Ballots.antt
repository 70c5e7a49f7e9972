-- ===== src/Examples/Ballots.antt =====
-- Votes of three elders, of which two make a super-majority. A proposal is a number; elder i signs
-- bytes with a number made of i and their sum.
use Prim.Native.Nat.{compare, ◌*◌}
use sn_consensus.Prelude.{
  ℕ, ◌+◌, ◌<◌, ◌≡◌, refl, ◌↔◌, true, some, none, List, [], ◌∷◌, length, leb, ◌==◌, if◌then◌else◌,
  ok, arith, any, ℕ_discrete, map, All, ◌⊎◌, inl, inr, Bool-cases, sym, ◌∙◌, ap,
}
use sn_consensus.Prelude.Ordered.{get, has, is_eq, compare-IsFaithful}
use sn_consensus.Keys.{Bytes, PublicKeySet, SecretKeyShare}
use sn_consensus.Vote.Types.{
  Ballot, propose, merge, super_majority, Vote, vote, SignedVote, signed, Fault, changed_vote,
  Votes, no_votes, and_vote, no_faults, vote_list, voter_of, vote_of, ballot_of,
}
use sn_consensus.Vote.Compare.{cmp_ballot, cmp_signed-IsFaithful}
use sn_consensus.Vote.Extern.{Extern, IsOrdered, order_votes}
use sn_consensus.Vote.Ballots.{unpack_votes, unpack_list, supersedes, covers, simplify_votes}
use sn_consensus.Vote.Count.{Candidate, candidate, candidate_in, count, cmp_candidate}
use sn_consensus.Vote.Validity.{validate, validate_fault, is_valid_fault, verify_sig_share}
use sn_consensus.Vote.Decision.{Decision, validate_decision}
use sn_consensus.Vote.Supersedes.{supersedes-unpack_votes}
use sn_consensus.Vote.Simplify.{simplify_votes-supersedes}
use sn_consensus.Vote.Majority.{majority_is_unique, counted_votes}
use sn_consensus.Vote.Evidence.{is_valid_fault-IsEvidence, IsEvidence}
use sn_consensus.Vote.Proofs.{IsNotBlamed, valid_decision_backed}
use sn_consensus.Vote.Backing.{AllDistinct, is_super_majority}
use mathlib.Core.List.{Mem}

abbrev sum : Bytes → ℕ
sum [] = 0
sum (b ∷ bs) = b + sum bs

abbrev pub digest : ℕ → Bytes → ℕ
digest i b = 100 * i + sum b

abbrev pub elders : PublicKeySet ℕ ℕ
elders = record {
  threshold = 1;
  verify_share = λ i s b. s == digest i b;
  verify = λ u b. u == 7;
  combine_signatures = λ shares. if leb 2 (length shares) then some 7 else none;
}

abbrev pub key_of : ℕ → SecretKeyShare ℕ
key_of i = record { sign = digest i }

abbrev ballot_bytes : Ballot ℕ ℕ → Bytes
ballot_bytes (propose p) = 1 ∷ p ∷ []
ballot_bytes (merge vs) = 20 ∷ length (vote_list vs) ∷ []
ballot_bytes (super_majority vs ps) = 30 ∷ length ps ∷ []

abbrev pub vote_bytes : Vote ℕ ℕ → Bytes
vote_bytes (vote g b fs) = g ∷ ballot_bytes b

abbrev pub orders : Extern ℕ ℕ
orders = record {
  cmp = compare;
  cmp_share = compare;
  proposal_format = record { serialize = λ p. some (p ∷ []); deserialize = λ _. none };
  vote_format = record { serialize = λ v. some (vote_bytes v); deserialize = λ _. none };
}

pub orders_lawful : IsOrdered orders
orders_lawful = record {
  cmp-IsFaithful = compare-IsFaithful;
  cmp_share-IsFaithful = compare-IsFaithful;
}

-- Elder i's signature on a vote.
abbrev pub by : ℕ → Vote ℕ ℕ → SignedVote ℕ ℕ
by i v = signed v i (digest i (vote_bytes v))

abbrev pub proposes : ℕ → ℕ → SignedVote ℕ ℕ
proposes i p = by i (vote 1 (propose p) no_faults)

-- Elders 1 and 2 propose 5.
abbrev pub first_round : Votes ℕ ℕ
first_round = and_vote (proposes 1 5) (and_vote (proposes 2 5) no_votes)

-- Elder i has seen that.
abbrev pub majority_of : ℕ → SignedVote ℕ ℕ
majority_of i =
    by i (vote 1 (super_majority first_round ((5, (i, digest i (5 ∷ []))) ∷ [])) no_faults)

abbrev pub decided : Decision ℕ ℕ ℕ
decided = record {
  votes = majority_of 1 ∷ majority_of 2 ∷ [];
  proposals = (5, 7) ∷ [];
  faults = [];
}

decided_valid : validate_decision orders ℕ_discrete elders decided ≡ ok tt
unfolding validate verify_sig_share validate_fault candidate_in supersedes unpack_votes cmp_ballot
    ℕ_discrete
decided_valid = refl

valid_decision_backed_example :
    (c : Candidate ℕ) × (vs : List (SignedVote ℕ ℕ)) × (1 < length vs)
    × AllDistinct (map voter_of vs)
    × All
        (λ v.
          Mem v (unpack_list decided.votes)
          × IsNotBlamed decided.faults (voter_of v)
          × (is_super_majority (ballot_of (vote_of v)) ≡ true)
          × (candidate orders v ≡ c))
        vs
valid_decision_backed_example =
    valid_decision_backed orders ℕ_discrete elders orders_lawful decided decided_valid

abbrev both : List (SignedVote ℕ ℕ)
both = proposes 1 5 ∷ proposes 2 5 ∷ []

abbrev five : Candidate ℕ
five = record { proposals = 5 ∷ []; faulty = [] }

two_for_five : get (cmp_candidate orders) five (count orders both []).candidates ≡ some 2
unfolding candidate_in supersedes unpack_votes cmp_ballot
two_for_five = refl

two_counted : length (counted_votes orders both []) ≡ 2
unfolding supersedes unpack_votes cmp_ballot
two_counted = refl

majority_is_unique_example : five ≡ five
majority_is_unique_example =
    majority_is_unique orders orders_lawful both [] 1 five five 2 2 two_for_five two_for_five
      (omega (arith, two_counted)) (omega arith) (omega arith)

supersedes-unpack_votes_example :
    supersedes orders (majority_of 1) (proposes 2 5)
    ≡ any (λ w. covers orders w (proposes 2 5)) (unpack_votes (majority_of 1))
supersedes-unpack_votes_example = supersedes-unpack_votes orders (majority_of 1) (proposes 2 5)

-- Elder 1 has proposed 5, and then 6.
abbrev pub changed : Fault ℕ ℕ
changed = changed_vote (proposes 1 5) (proposes 1 6)

changed_valid : is_valid_fault orders elders changed ≡ true
unfolding validate_fault verify_sig_share supersedes cmp_ballot
changed_valid = refl

is_valid_fault-IsEvidence_example :
    (is_valid_fault orders elders changed ≡ true) ↔ IsEvidence orders elders changed
is_valid_fault-IsEvidence_example = is_valid_fault-IsEvidence orders elders changed

-- Elder 1 proposes 5, and elder 2 signs what both have proposed.
abbrev proposal_and_majority : List (SignedVote ℕ ℕ)
proposal_and_majority = proposes 1 5 ∷ majority_of 2 ∷ []

one_of_two :
    (a b c : SignedVote ℕ ℕ) → has (order_votes orders) a (b ∷ c ∷ []) ≡ true → (a ≡ b) ⊎ (a ≡ c)
one_of_two a b c h = elim (Bool-cases (is_eq (order_votes orders a b))) [
  | inl e ↦ inl (separates a b (ground (arith, e)))
  | inr e ↦ inr (separates a c (ground (arith, e, h)))
]
  where
    open (cmp_signed-IsFaithful compare compare compare-IsFaithful compare-IsFaithful) use {
      separates,
    }

one_vote_each :
    (a b : SignedVote ℕ ℕ)
    → has (order_votes orders) a proposal_and_majority ≡ true
    → has (order_votes orders) b proposal_and_majority ≡ true
    → voter_of a ≡ voter_of b
    → a ≡ b
one_vote_each a b h k e =
    go (one_of_two a (proposes 1 5) (majority_of 2) h)
      (one_of_two b (proposes 1 5) (majority_of 2) k)
  where
    go : (a ≡ proposes 1 5) ⊎ (a ≡ majority_of 2) → (b ≡ proposes 1 5) ⊎ (b ≡ majority_of 2) → a ≡ b
    go (inl p) (inl q) = p ∙ sym q
    go (inl p) (inr q) = absurd (omega (arith, e, ap voter_of p, ap voter_of q))
    go (inr p) (inl q) = absurd (omega (arith, e, ap voter_of p, ap voter_of q))
    go (inr p) (inr q) = p ∙ sym q

simplify_votes-supersedes_example :
    any (λ w. supersedes orders w (proposes 1 5)) (simplify_votes orders proposal_and_majority)
    ≡ true
unfolding cmp_ballot
simplify_votes-supersedes_example =
    simplify_votes-supersedes orders orders_lawful proposal_and_majority one_vote_each
      (proposes 1 5) refl

-- The proposal is dropped, as the majority contains it.
proposal_dropped : simplify_votes orders proposal_and_majority ≡ majority_of 2 ∷ []
unfolding supersedes cmp_ballot
proposal_dropped = refl
