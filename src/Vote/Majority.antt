-- ===== src/Vote/Majority.antt =====
-- The counts of src/vote_count.rs: every honest voter counts for one candidate.
use Prim.Native.Nat.{compare}
use sn_consensus.Prelude.{
  ℕ, ◌≤◌, ◌<◌, ◌+◌, true, ◌≡◌, refl, List, [], ◌∷◌, Option, none, some, Map, length, All, All-++,
  arith, inl, inr, Bool-cases,
}
use sn_consensus.Prelude.Ordered.{
  IsFaithful, compare-IsFaithful, cmp_list-IsFaithful, values, get, is_eq, max_by_key-All,
  eq_of_is_eq,
}
use sn_consensus.Prelude.Totals.{
  total, total-put_next, value_or_zero, total-get_two, entries-le-total,
}
use sn_consensus.Keys.{PublicKeySet}
use sn_consensus.Vote.Types.{
  NodeId, Ballot, propose, merge, super_majority, SignedVote, ballot_of, vote_of,
}
use sn_consensus.Vote.Extern.{Extern, IsOrdered}
use sn_consensus.Vote.Ballots.{unpack_list}
use sn_consensus.Vote.Count.{
  Candidate, default_count, or_default, VoteCount, SuperMajorityCount, candidate, count, count_all,
  count_one, count_super_majority, latest_votes, cmp_candidate, most_votes,
  candidate_with_most_votes, super_majority_with_most_votes, do_we_have_supermajority, counted,
}

module _ {T Share : Type 0} where
  -- The votes that a count has tallied, by candidate, and by super-majority.
  abbrev tallied : VoteCount T Share → ℕ
  tallied n = total (λ k. k) n.candidates

  abbrev tallied_majorities : VoteCount T Share → ℕ
  tallied_majorities n = total (λ sm. sm.count) n.super_majorities

module _ {T Share : Type 0} (x : Extern T Share) where
  pub cmp_candidate-IsFaithful : IsOrdered x → IsFaithful (cmp_candidate x)
  cmp_candidate-IsFaithful law =
      let proposals_law = cmp_list-IsFaithful x.cmp law.cmp-IsFaithful in
      let faulty_law = cmp_list-IsFaithful compare compare-IsFaithful in
      record {
        reflexive = λ a. rw (proposals_law.reflexive a.proposals) (faulty_law.reflexive a.faulty);
        separates = λ a b h. ground (
          arith,
          proposals_law.separates a.proposals b.proposals,
          faulty_law.separates a.faulty b.faulty,
        );
      }

  module _ (candidate : SignedVote T Share → Candidate T) where
    tallied-count_one :
        (v : SignedVote T Share) (n : VoteCount T Share)
        → tallied (count_one x candidate v n) ≡ tallied n + 1
    tallied-count_one v n =
        total-put_next (λ k. k) (cmp_candidate x) (candidate v) _ n.candidates
          (old (get (cmp_candidate x) (candidate v) n.candidates))
      where
        old : (o : Option ℕ) → or_default 0 o + 1 ≡ value_or_zero (λ k. k) o + 1
        old none = refl
        old (some k) = refl

    tallied-count_all :
        (vs : List (SignedVote T Share)) (n : VoteCount T Share)
        → tallied (count_all x candidate vs n) ≡ tallied n + length vs
    tallied-count_all [] n = omega arith
    tallied-count_all (v ∷ vs) n =
        omega (arith, tallied-count_one v n, tallied-count_all vs (count_one x candidate v n))

    majorities-count :
        (c : Candidate T) (b : Ballot T Share) (m : List (Candidate T × SuperMajorityCount T Share))
        → total (λ sm. sm.count) (count_super_majority x c b m) ≤ total (λ sm. sm.count) m + 1
    majorities-count c (propose p) m = omega arith
    majorities-count c (merge vs) m = omega arith
    majorities-count c (super_majority vs ps) m = omega (
      arith,
      total-put_next (λ sm. sm.count) (cmp_candidate x) c _ m (old (get (cmp_candidate x) c m)),
    )
      where
        old :
            (o : Option (SuperMajorityCount T Share))
            → (or_default default_count o).count + 1 ≡ value_or_zero (λ sm. sm.count) o + 1
        old none = refl
        old (some k) = refl

    tallied_majorities-count_all :
        (vs : List (SignedVote T Share)) (n : VoteCount T Share)
        → tallied_majorities (count_all x candidate vs n) ≤ tallied_majorities n + length vs
    tallied_majorities-count_all [] n = omega arith
    tallied_majorities-count_all (v ∷ vs) n = omega (
      arith,
      majorities-count (candidate v) (ballot_of (vote_of v)) n.super_majorities,
      tallied_majorities-count_all vs (count_one x candidate v n),
    )

  length-values : {V : Type 0} (m : Map V) → length (values m) ≡ length m
  length-values [] = refl
  length-values ((k, v) ∷ m) = omega (arith, length-values m)

  -- The votes that a count takes into account: the latest of each honest voter.
  abbrev pub counted_votes : List (SignedVote T Share) → List NodeId → Map (SignedVote T Share)
  counted_votes votes faulty = latest_votes x faulty [] (unpack_list votes)

  tallied-count :
      (votes : List (SignedVote T Share)) (faulty : List NodeId)
      → tallied (count x votes faulty) ≡ length (counted_votes votes faulty)
  tallied-count votes faulty = omega (
    arith,
    tallied-count_all (candidate x) (values (counted_votes votes faulty)) _,
    length-values (counted_votes votes faulty),
  )

  tallied_majorities-count :
      (votes : List (SignedVote T Share)) (faulty : List NodeId)
      → tallied_majorities (count x votes faulty) ≤ length (counted_votes votes faulty)
  tallied_majorities-count votes faulty = omega (
    arith,
    tallied_majorities-count_all (candidate x) (values (counted_votes votes faulty)) _,
    length-values (counted_votes votes faulty),
  )

  -- Of two different candidates, not both have more than `threshold` votes when at most
  -- `2 * threshold + 1` honest voters are counted.
  pub majority_is_unique :
      IsOrdered x
      → (votes : List (SignedVote T Share)) (faulty : List NodeId) (threshold : ℕ)
      → (c d : Candidate T) (k l : ℕ)
      → get (cmp_candidate x) c (count x votes faulty).candidates ≡ some k
      → get (cmp_candidate x) d (count x votes faulty).candidates ≡ some l
      → length (counted_votes votes faulty) ≤ threshold + threshold + 1
      → threshold < k
      → threshold < l
      → c ≡ d
  majority_is_unique law votes faulty threshold c d k l e f h hk hl =
      elim (Bool-cases (is_eq (cmp_candidate x c d))) [
        | inl same ↦ eq_of_is_eq (cmp_candidate x) (cmp_candidate-IsFaithful law) c d same
        | inr n ↦ absurd (
            omega (
              arith,
              total-get_two (λ j. j) (cmp_candidate x) (cmp_candidate-IsFaithful law) c d k l
                  (count x votes faulty).candidates e f n,
              tallied-count votes faulty,
            ))
      ]

  most_votes-le :
      (votes : List (SignedVote T Share)) (faulty : List NodeId)
      → most_votes (count x votes faulty) ≤ length (counted_votes votes faulty)
  most_votes-le votes faulty = bound (candidate_with_most_votes n) greatest
    where
      n : VoteCount T Share
      n = count x votes faulty

      Small : Candidate T × ℕ → Type 0
      Small e = e.1 ≤ length (counted_votes votes faulty)

      single :
          (o : Option (Candidate T × SuperMajorityCount T Share))
          → ((e : Candidate T × SuperMajorityCount T Share) → o ≡ some e → Small (e.0, e.1.count))
          → All Small (counted o)
      single none h = tt
      single (some e) h = (h e refl, tt)

      greatest : (e : Candidate T × ℕ) → candidate_with_most_votes n ≡ some e → Small e
      greatest e h =
          max_by_key-All (λ (c, k). k) Small _ e
            (All-++ Small n.candidates _
              (entries-le-total (λ k. k) _ n.candidates (omega (arith, tallied-count votes faulty)))
              (single (super_majority_with_most_votes n) (λ d g.
                max_by_key-All (λ (c, sm). sm.count) (λ d. Small (d.0, d.1.count))
                  n.super_majorities d
                  (entries-le-total (λ sm. sm.count) _ n.super_majorities
                    (omega (arith, tallied_majorities-count votes faulty)))
                  g)))
            h

      bound :
          (o : Option (Candidate T × ℕ))
          → ((e : Candidate T × ℕ) → o ≡ some e → Small e)
          → (elim o [ none ↦ 0 | some (c, k) ↦ k ]) ≤ length (counted_votes votes faulty)
      bound none h = omega arith
      bound (some e) h = h e refl

  -- A count that has a super-majority rests on more honest voters than the threshold.
  pub supermajority_backed :
      {Sig : Type 0} (voters : PublicKeySet Sig Share) (votes : List (SignedVote T Share))
      → (faulty : List NodeId) → do_we_have_supermajority (count x votes faulty) voters ≡ true
      → voters.threshold < length (counted_votes votes faulty)
  supermajority_backed voters votes faulty h = ground (arith, most_votes-le votes faulty)
