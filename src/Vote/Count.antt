-- ===== src/Vote/Count.antt =====
-- src/vote_count.rs, and `SignedVote::candidate` and `SignedVote::vote_count` of src/vote.rs.
-- `candidate` counts the votes below a vote, so it calls itself; the fuel is the number of those
-- votes.
use Prim.Native.Nat.{compare, Ordering}
use sn_consensus.Prelude.{
  ℕ, zero, suc, Bool, List, [], ◌∷◌, ◌++◌, Option, none, some, length, Map, ltb, leb, if◌then◌else◌,
  ◌+◌, ◌-◌, ◌&&◌, Outcome, ok, stop, panicked, raised,
}
use sn_consensus.Prelude.Ordered.{
  has, extend, get, put, keys, values, then_cmp, cmp_list, max_by_key, is_eq,
}
use sn_consensus.Prelude.Results.{and_then, collect_results}
use sn_consensus.Keys.{PublicKeySet}
use sn_consensus.Vote.Types.{
  NodeId, Ballot, super_majority, vote, SignedVote, signed, Error, blsttc, vote_list, ballot_of,
  vote_of, voter_of,
}
use sn_consensus.Vote.Extern.{Extern}
use sn_consensus.Vote.Ballots.{unpack_votes, unpack_list, faulty_ids, supersedes, vote_proposals}

pub record Candidate (T : Type 0) : Type 0 where
  pub proposals : List T
  pub faulty : List NodeId

abbrev pub default_candidate : {T : Type 0} → Candidate T
default_candidate = record { proposals = []; faulty = [] }

pub record SuperMajorityCount (T : Type 0) (Share : Type 0) : Type 0 where
  pub count : ℕ
  pub proposals : List (T × Map Share)

abbrev pub default_count : {T Share : Type 0} → SuperMajorityCount T Share
default_count = record { count = 0; proposals = [] }

pub record VoteCount (T : Type 0) (Share : Type 0) : Type 0 where
  pub candidates : List (Candidate T × ℕ)
  pub super_majorities : List (Candidate T × SuperMajorityCount T Share)
  pub voters : List NodeId

-- `entry(k).or_default()`
abbrev pub or_default {ℓ} : {A : Type ℓ} → A → Option A → A
or_default a none = a
or_default a (some b) = b

module _ {T Share : Type 0} (x : Extern T Share) where
  -- The derived `Ord` of `Candidate`.
  abbrev pub cmp_candidate : Candidate T → Candidate T → Ordering
  cmp_candidate a b =
      then_cmp (cmp_list x.cmp a.proposals b.proposals) (cmp_list compare a.faulty b.faulty)

  -- The derived `PartialEq` of `VoteCount`.
  abbrev pub cmp_signatures : T × Map Share → T × Map Share → Ordering
  cmp_signatures (t, sigs) (u, others) =
      then_cmp (x.cmp t u)
        (cmp_list (λ (i, s) (j, r). then_cmp (compare i j) (x.cmp_share s r)) sigs others)

  abbrev pub same_count : VoteCount T Share → VoteCount T Share → Bool
  same_count m n =
      is_eq (
        cmp_list (λ (a, k) (b, l). then_cmp (cmp_candidate a b) (compare k l)) m.candidates
          n.candidates)
      && is_eq (
          cmp_list
            (λ (a, k) (b, l). then_cmp (cmp_candidate a b) (
              then_cmp (compare k.count l.count) (cmp_list cmp_signatures k.proposals l.proposals)))
            m.super_majorities n.super_majorities)
      && is_eq (cmp_list compare m.voters n.voters)

  -- The vote takes its voter's entry if there is none, or if it supersedes the one there.
  abbrev pub newer : SignedVote T Share → Option (SignedVote T Share) → SignedVote T Share
  newer v existing = if supersedes x v (or_default v existing) then v else or_default v existing

  abbrev pub keep_latest : SignedVote T Share → Map (SignedVote T Share) → Map (SignedVote T Share)
  keep_latest v m = put compare (voter_of v) (newer v (get compare (voter_of v) m)) m

  -- `votes_by_honest_voter`
  abbrev pub latest_votes :
      List NodeId → Map (SignedVote T Share) → List (SignedVote T Share) → Map (SignedVote T Share)
  latest_votes faulty m [] = m
  latest_votes faulty m (v ∷ more) =
      latest_votes faulty (if has compare (voter_of v) faulty then m else keep_latest v m) more

  abbrev pub add_signatures :
      List (T × (NodeId × Share)) → List (T × Map Share) → List (T × Map Share)
  add_signatures [] m = m
  add_signatures ((t, (id, sig)) ∷ more) m =
      add_signatures more (put x.cmp t (put compare id sig (or_default [] (get x.cmp t m))) m)

  abbrev pub count_super_majority :
      Candidate T
      → Ballot T Share
      → List (Candidate T × SuperMajorityCount T Share)
      → List (Candidate T × SuperMajorityCount T Share)
  count_super_majority c (super_majority votes ps) m =
      let sm = or_default default_count (get cmp_candidate c m) in
      put cmp_candidate c
        (record { count = sm.count + 1; proposals = add_signatures ps sm.proposals }) m
  count_super_majority c _ m = m

  abbrev pub count_one :
      (SignedVote T Share → Candidate T)
      → SignedVote T Share
      → VoteCount T Share
      → VoteCount T Share
  count_one candidate v n = record n {
    super_majorities =
        count_super_majority (candidate v) (ballot_of (vote_of v)) n.super_majorities;
    candidates =
        put cmp_candidate (candidate v)
          (or_default 0 (get cmp_candidate (candidate v) n.candidates) + 1) n.candidates;
  }

  abbrev pub count_all :
      (SignedVote T Share → Candidate T)
      → List (SignedVote T Share)
      → VoteCount T Share
      → VoteCount T Share
  count_all candidate [] n = n
  count_all candidate (v ∷ more) n = count_all candidate more (count_one candidate v n)

  -- VoteCount::count, for a given meaning of `candidate`.
  abbrev pub count_with :
      (SignedVote T Share → Candidate T)
      → List (SignedVote T Share)
      → List NodeId
      → VoteCount T Share
  count_with candidate votes faulty =
      let honest = latest_votes faulty [] (unpack_list votes) in
      count_all candidate (values honest) record {
        candidates = [];
        super_majorities = [];
        voters = extend compare (extend compare [] (keys honest)) faulty;
      }

module _ {T Share : Type 0} where
  abbrev pub super_majority_with_most_votes :
      VoteCount T Share → Option (Candidate T × SuperMajorityCount T Share)
  super_majority_with_most_votes n = max_by_key (λ (c, sm). sm.count) n.super_majorities

  -- `iter()` of an option, with the count of the super-majority.
  abbrev pub counted : Option (Candidate T × SuperMajorityCount T Share) → List (Candidate T × ℕ)
  counted none = []
  counted (some (c, sm)) = (c, sm.count) ∷ []

  abbrev pub candidate_with_most_votes : VoteCount T Share → Option (Candidate T × ℕ)
  candidate_with_most_votes n =
      max_by_key (λ (c, k). k) (n.candidates ++ counted (super_majority_with_most_votes n))

  -- `map(|(_, c)| c).unwrap_or(0)`
  abbrev pub most_votes : VoteCount T Share → ℕ
  most_votes n = elim (candidate_with_most_votes n) [ none ↦ 0 | some (c, k) ↦ k ]

  -- `map(|(c, _)| c.clone()).unwrap_or_default()`
  abbrev pub winner : VoteCount T Share → Candidate T
  winner n = elim (candidate_with_most_votes n) [ none ↦ default_candidate | some (c, k) ↦ c ]

module _ {T Share : Type 0} (x : Extern T Share) where
  -- What `SignedVote::candidate` does, for a given meaning of its call of itself.
  abbrev pub candidate_by : (SignedVote T Share → Candidate T) → SignedVote T Share → Candidate T
  candidate_by self (signed (vote g (super_majority votes ps) fs) voter sig) =
      winner
        (count_with x self (vote_list votes) (faulty_ids (vote g (super_majority votes ps) fs)))
  candidate_by self (signed v voter sig) = record {
    proposals = vote_proposals x v;
    faulty = faulty_ids v;
  }

  unfoldable pub candidate_in : ℕ → SignedVote T Share → Candidate T
  candidate_in zero v = default_candidate
  candidate_in (suc fuel) v = candidate_by (candidate_in fuel) v

  -- SignedVote::candidate
  abbrev pub candidate : SignedVote T Share → Candidate T
  candidate v = candidate_in (length (unpack_votes v)) v

  -- VoteCount::count
  abbrev pub count : List (SignedVote T Share) → List NodeId → VoteCount T Share
  count = count_with x candidate

  -- SignedVote::vote_count
  abbrev pub vote_count : SignedVote T Share → VoteCount T Share
  vote_count v = count (v ∷ []) (faulty_ids (vote_of v))

module _ {T Share Sig : Type 0} where
  -- The subtraction of the source is a panic when more voters are counted than there are.
  abbrev pub is_split_vote :
      {E : Type 0} → VoteCount T Share → PublicKeySet Sig Share → ℕ → Outcome E Bool
  is_split_vote n voters n_voters =
      if ltb n_voters (length n.voters)
      then stop panicked
      else ok (
          ltb voters.threshold (length n.voters)
          && leb (most_votes n + (n_voters - length n.voters)) voters.threshold)

  abbrev pub do_we_have_supermajority : VoteCount T Share → PublicKeySet Sig Share → Bool
  do_we_have_supermajority n voters = ltb voters.threshold (most_votes n)

  -- One entry of the decision, or the error of `combine_signatures`.
  abbrev pub combine_entry : PublicKeySet Sig Share → T × Map Share → Outcome Error (T × Sig)
  combine_entry voters (t, sigs) = elim (voters.combine_signatures sigs) [
    | none ↦ stop (raised blsttc)
    | some u ↦ ok (t, u)
  ]

  -- The signatures of a super-majority combined, when its count is over the threshold.
  abbrev pub decide :
      PublicKeySet Sig Share → SuperMajorityCount T Share → Outcome Error (Option (List (T × Sig)))
  decide voters sm =
      let all = collect_results (combine_entry voters) sm.proposals in
      if ltb voters.threshold sm.count then and_then all (λ ps. ok (some ps)) else ok none

  abbrev pub get_decision :
      VoteCount T Share → PublicKeySet Sig Share → Outcome Error (Option (List (T × Sig)))
  get_decision n voters = elim (super_majority_with_most_votes n) [
    | none ↦ ok none
    | some (c, sm) ↦ decide voters sm
  ]
