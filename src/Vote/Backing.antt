-- ===== src/Vote/Backing.antt =====
-- The votes that a decision of src/decision.rs rests on: `get_decision` of src/vote_count.rs.
use Prim.Native.Nat.{compare}
use mathlib.Core.List.{Mem, mem-cons_self, mem-cons_of_mem}
use sn_consensus.Prelude.{
  ℕ, ◌<◌, ◌≤◌, ◌+◌, ◌≡◌, ◌≢◌, refl, true, false, Bool, ◌&&◌, if◌then◌else◌, List, [], ◌∷◌, map,
  Option, none, some, Map, All, All-mono, ◌∙◌, keep, length, arith, ok, inl, inr, Option-cases,
  Bool-cases,
}
use sn_consensus.Prelude.Ordered.{
  has, get, put, replace, place_entry, keys, values, is_eq, IsFaithful, compare-IsFaithful, put-All,
  get-All, max_by_key-All, is_eq-reflexive, eq_of_is_eq,
}
use sn_consensus.Keys.{PublicKeySet}
use sn_consensus.Vote.Types.{
  NodeId, Ballot, propose, merge, super_majority, SignedVote, ballot_of, vote_of, voter_of,
}
use sn_consensus.Vote.Extern.{Extern, IsOrdered}
use sn_consensus.Vote.Ballots.{unpack_list}
use sn_consensus.Vote.Count.{
  Candidate, SuperMajorityCount, VoteCount, default_count, or_default, newer, keep_latest,
  latest_votes, count_super_majority, count_one, count_all, candidate, count, cmp_candidate,
  get_decision, super_majority_with_most_votes,
}
use sn_consensus.Vote.Majority.{cmp_candidate-IsFaithful, counted_votes}

-- No number stands in the list twice.
abbrev pub AllDistinct : List ℕ → Type 0
AllDistinct [] = Unit
AllDistinct (k ∷ ks) = All (λ j. k ≢ j) ks × AllDistinct ks

module _ {V : Type 0} where
  keys-replace : (k : ℕ) (v : V) (m : Map V) → keys (replace compare k v m) ≡ keys m
  keys-replace k v [] = refl
  keys-replace k v ((j, w) ∷ m) = ground (arith, keys-replace k v m)

  absent-keys : (k : ℕ) (m : Map V) → get compare k m ≡ none → All (λ j. k ≢ j) (keys m)
  absent-keys k [] e = tt
  absent-keys k ((j, w) ∷ m) e = (λ q. ground (arith, q), absent-keys k m (ground arith))

  place_entry-All :
      (P : ℕ → Type 0) (k : ℕ) (v : V) (m : Map V)
      → P k
      → All P (keys m)
      → All P (keys (place_entry compare k v m))
  place_entry-All P k v [] p a = (p, tt)
  place_entry-All P k v ((j, w) ∷ m) p a = ground (arith, place_entry-All P k v m p a.1)

  place_entry-AllDistinct :
      (k : ℕ) (v : V) (m : Map V)
      → All (λ j. k ≢ j) (keys m)
      → AllDistinct (keys m)
      → AllDistinct (keys (place_entry compare k v m))
  place_entry-AllDistinct k v [] f d = (tt, tt)
  place_entry-AllDistinct k v ((j, w) ∷ m) f d = ground (
    arith,
    place_entry-All (λ i. j ≢ i) k v m (λ e. f.0 (ground (arith, e))) d.0,
    place_entry-AllDistinct k v m f.1 d.1,
  )

  put-AllDistinct :
      (k : ℕ) (v : V) (m : Map V) → AllDistinct (keys m) → AllDistinct (keys (put compare k v m))
  put-AllDistinct k v m d = elim (Option-cases (get compare k m)) [
    | inl e ↦ rw e (place_entry-AllDistinct k v m (absent-keys k m e) d)
    | inr (w, e) ↦ rw e (rw (keys-replace k v m) d)
  ]

module _ {T Share : Type 0} (x : Extern T Share) (faulty : List NodeId)
    (P : SignedVote T Share → Type 0) where
  -- An entry of the latest votes: a vote of the voter that it is filed under, who is not faulty.
  abbrev IsEntry : NodeId × SignedVote T Share → Type 0
  IsEntry (k, v) = (voter_of v ≡ k) × (has compare k faulty ≡ false) × P v

  abbrev AreLatest : Map (SignedVote T Share) → Type 0
  AreLatest m = AllDistinct (keys m) × All IsEntry m

  newer-IsEntry :
      (v : SignedVote T Share) (m : Map (SignedVote T Share))
      → has compare (voter_of v) faulty ≡ false
      → P v
      → All IsEntry m
      → IsEntry (voter_of v, newer x v (get compare (voter_of v) m))
  newer-IsEntry v m f p a = elim (Option-cases (get compare (voter_of v) m)) [
    | inl e ↦ ground (arith, e, f, p)
    | inr (w, e) ↦
        ground (arith, e, f, p, get-All compare compare-IsFaithful IsEntry (voter_of v) m w a e)
  ]

  keep_latest-AreLatest :
      (v : SignedVote T Share) (m : Map (SignedVote T Share))
      → has compare (voter_of v) faulty ≡ false
      → P v
      → AreLatest m
      → AreLatest (keep_latest x v m)
  keep_latest-AreLatest v m f p (d, a) = (
    put-AllDistinct (voter_of v) _ m d,
    put-All compare compare-IsFaithful IsEntry (voter_of v) _ m (newer-IsEntry v m f p a) a,
  )

  latest_votes-AreLatest :
      (us : List (SignedVote T Share)) (m : Map (SignedVote T Share))
      → All P us
      → AreLatest m
      → AreLatest (latest_votes x faulty m us)
  latest_votes-AreLatest [] m p a = a
  latest_votes-AreLatest (v ∷ us) m p a = elim (Bool-cases (has compare (voter_of v) faulty)) [
    | inl e ↦ rw e (latest_votes-AreLatest us m p.1 a)
    | inr e ↦ rw e (latest_votes-AreLatest us _ p.1 (keep_latest-AreLatest v m e p.0 a))
  ]

-- A ballot on a super-majority that the voter has seen.
abbrev pub is_super_majority : {T Share : Type 0} → Ballot T Share → Bool
is_super_majority (super_majority vs ps) = true
is_super_majority _ = false

module _ {T Share : Type 0} (x : Extern T Share) (law : IsOrdered x) where
  -- A vote counts for the super-majority of a candidate.
  abbrev counts_for : (SignedVote T Share → Candidate T) → Candidate T → SignedVote T Share → Bool
  counts_for f c v = is_super_majority (ballot_of (vote_of v)) && is_eq (cmp_candidate x c (f v))

  abbrev AtMost : (Candidate T → ℕ) → List (Candidate T × SuperMajorityCount T Share) → Type 0
  AtMost bound m = All (λ e. e.1.count ≤ bound e.0) m

  majority_step :
      (bound : Candidate T → ℕ) (c : Candidate T) (b : Ballot T Share)
      (m : List (Candidate T × SuperMajorityCount T Share))
      → AtMost bound m
      → AtMost
          (λ d. bound d + (if is_super_majority b && is_eq (cmp_candidate x d c) then 1 else 0))
          (count_super_majority x c b m)
  majority_step bound c (propose p) m h = All-mono m (λ e k. omega (arith, k)) h
  majority_step bound c (merge vs) m h = All-mono m (λ e k. omega (arith, k)) h
  majority_step bound c (super_majority vs ps) m h =
      put-All (cmp_candidate x) order _ c _ m
        (rw (is_eq-reflexive (cmp_candidate x) order c) (
          counted_in (get (cmp_candidate x) c m)
            (λ k e. get-All (cmp_candidate x) order _ c m k h e)))
        (All-mono m (λ e k. omega (arith, k)) h)
    where
      order : IsFaithful (cmp_candidate x)
      order = cmp_candidate-IsFaithful x law

      counted_in :
          (o : Option (SuperMajorityCount T Share))
          → ((k : SuperMajorityCount T Share) → o ≡ some k → k.count ≤ bound c)
          → (or_default default_count o).count + 1 ≤ bound c + 1
      counted_in none h = omega arith
      counted_in (some k) h = omega (arith, h k refl)

  -- The count of each super-majority is at most the number of the votes for it.
  majorities_le :
      (f : SignedVote T Share → Candidate T) (vs : List (SignedVote T Share))
      (bound : Candidate T → ℕ) (n : VoteCount T Share)
      → AtMost bound n.super_majorities
      → AtMost
          (λ c. bound c + length (keep (counts_for f c) vs))
          (count_all x f vs n).super_majorities
  majorities_le f [] bound n h = All-mono n.super_majorities (λ e k. omega (arith, k)) h
  majorities_le f (v ∷ vs) bound n h =
      All-mono _ (λ e k. ground (arith, k))
        (majorities_le f vs _ (count_one x f v n)
          (majority_step bound (f v) (ballot_of (vote_of v)) n.super_majorities h))

module _ {A : Type 0} where
  Mem-self : (xs : List A) → All (λ a. Mem a xs) xs
  Mem-self [] = tt
  Mem-self (a ∷ xs) =
      (mem-cons_self, All-mono xs (λ b h. mem-cons_of_mem a {a = b} h) (Mem-self xs))

module _ {A : Type 0} (p : A → Bool) (voter : A → ℕ) where
  kept-All :
      (P : A → Type 0) (m : Map A)
      → All (λ e. P e.1) m
      → All (λ a. P a × (p a ≡ true)) (keep p (values m))
  kept-All P [] h = tt
  kept-All P ((k, a) ∷ m) h = elim (Bool-cases (p a)) [
    | inl e ↦ rw e ((h.0, e), kept-All P m h.1)
    | inr e ↦ rw e (kept-All P m h.1)
  ]

  kept_apart :
      (k : ℕ) (m : Map A)
      → All (λ e. voter e.1 ≡ e.0) m
      → All (λ j. k ≢ j) (keys m)
      → All (λ j. k ≢ j) (map voter (keep p (values m)))
  kept_apart k [] h f = tt
  kept_apart k ((j, a) ∷ m) h f = elim (Bool-cases (p a)) [
    | inl e ↦ rw e (λ q. f.0 (q ∙ h.0), kept_apart k m h.1 f.1)
    | inr e ↦ rw e (kept_apart k m h.1 f.1)
  ]

  kept-AllDistinct :
      (m : Map A)
      → All (λ e. voter e.1 ≡ e.0) m
      → AllDistinct (keys m)
      → AllDistinct (map voter (keep p (values m)))
  kept-AllDistinct [] h d = tt
  kept-AllDistinct ((j, a) ∷ m) h d = elim (Bool-cases (p a)) [
    | inl e ↦ rw e (rw h.0 (kept_apart j m h.1 d.0), kept-AllDistinct m h.1 d.1)
    | inr e ↦ rw e (kept-AllDistinct m h.1 d.1)
  ]

module _ {T Share : Type 0} (x : Extern T Share) (law : IsOrdered x) where
  -- Votes of different voters, none of them faulty, each a super-majority ballot for the candidate
  -- and one of the votes that are counted, with their children.
  pub record Backs (votes : List (SignedVote T Share)) (faulty : List NodeId) (c : Candidate T)
      (vs : List (SignedVote T Share)) : Type 0 where
    pub distinct : AllDistinct (map voter_of vs)
    pub backs :
        All
          (λ v.
            Mem v (unpack_list votes)
            × (has compare (voter_of v) faulty ≡ false)
            × (is_super_majority (ballot_of (vote_of v)) ≡ true)
            × (candidate x v ≡ c))
          vs

  module _ (votes : List (SignedVote T Share)) (faulty : List NodeId) where
    latest-AreLatest :
        AreLatest x faulty (λ v. Mem v (unpack_list votes)) (counted_votes x votes faulty)
    latest-AreLatest =
        latest_votes-AreLatest x faulty _ (unpack_list votes) [] (Mem-self (unpack_list votes))
          (tt, tt)

    abbrev supporters : Candidate T → List (SignedVote T Share)
    supporters c = keep (counts_for x law (candidate x) c) (values (counted_votes x votes faulty))

    supporters-Backs : (c : Candidate T) → Backs votes faulty c (supporters c)
    supporters-Backs c = record {
      distinct =
          kept-AllDistinct _ voter_of (counted_votes x votes faulty)
            (All-mono _ (λ e h. h.0) latest-AreLatest.1) latest-AreLatest.0;
      backs =
          All-mono _
            (λ v h. ground (
              arith,
              h,
              eq_of_is_eq (cmp_candidate x) (cmp_candidate-IsFaithful x law) c (candidate x v),
            ))
            (kept-All (counts_for x law (candidate x) c) voter_of
              (λ v. Mem v (unpack_list votes) × (has compare (voter_of v) faulty ≡ false))
              (counted_votes x votes faulty)
              (All-mono _ (λ e h. (h.2, rw h.0 h.1)) latest-AreLatest.1));
    }

    majorities_backed :
        All (λ e. e.1.count ≤ length (supporters e.0)) (count x votes faulty).super_majorities
    majorities_backed =
        All-mono _ (λ e h. omega (arith, h))
          (majorities_le x law (candidate x) (values (counted_votes x votes faulty)) (λ c. 0) _ tt)

    -- What a count decides, more voters than the threshold back.
    pub decision_supported :
        {Sig : Type 0} (voters : PublicKeySet Sig Share) (ps : List (T × Sig))
        → get_decision (count x votes faulty) voters ≡ ok (some ps)
        → (c : Candidate T) × (vs : List (SignedVote T Share)) × (voters.threshold < length vs)
          × Backs votes faulty c vs
    decision_supported voters ps h =
        elim (Option-cases (super_majority_with_most_votes (count x votes faulty))) [
          | inl e ↦ absurd (ground (arith, e))
          | inr (e, k) ↦ (
            e.0,
            supporters e.0,
            ground (
              arith,
              k,
              max_by_key-All (λ (c, sm). sm.count) (λ d. d.1.count ≤ length (supporters d.0)) _ e
                  majorities_backed k,
            ),
            supporters-Backs e.0,
          )
        ]
