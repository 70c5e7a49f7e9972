-- ===== src/Elders/Records.antt =====
-- What the agreement of one generation stores: votes and faults.
use Prim.Native.Nat.{compare}
use sn_consensus.Prelude.{
  ℕ, Bool, true, false, ◌≡◌, refl, List, [], ◌∷◌, Option, none, some, Map, All, All-mono, arith,
  inl, inr, Bool-cases, if◌then◌else◌,
}
use sn_consensus.Prelude.Ordered.{compare-IsFaithful, has, add, get, put_all, put-All, get-All}
use sn_consensus.Prelude.Subsets.{has-add, has-add_self}
use sn_consensus.Keys.{PublicKeySet, SecretKeyShare}
use sn_consensus.Vote.Types.{
  NodeId, SignedVote, Fault, changed_vote, invalid_fault, voter_of, sig_of, voter_at_fault,
}
use sn_consensus.Vote.Extern.{Extern, IsOrdered}
use sn_consensus.Vote.Ballots.{unpack_votes}
use sn_consensus.Vote.Count.{newer}
use sn_consensus.Vote.Validity.{detect_in, accuse, accuse_changed, is_valid_fault, validate_fault}
use sn_consensus.Elders.Generation.{Consensus, new, log_one, store_vote, is_processed}
use sn_consensus.Elders.Induction.{IsPreserved}
use sn_consensus.Elders.History.{Op, run, run_induction}

module _ {T Share Sig : Type 0} (x : Extern T Share) (elders : PublicKeySet Sig Share) where
  -- A fault filed under the voter whose fault it is, with evidence that is valid.
  abbrev pub IsProvenFault : NodeId × Fault T Share → Type 0
  IsProvenFault (id, f) = (voter_at_fault f ≡ id) × (is_valid_fault x elders f ≡ true)

  put_all-All :
      {V : Type 0} (P : NodeId × V → Type 0) (more m : Map V)
      → All P more
      → All P m
      → All P (put_all compare m more)
  put_all-All P [] m h a = a
  put_all-All P ((k, v) ∷ more) m h a =
      put_all-All P more _ h.1 (put-All compare compare-IsFaithful P k v m h.0 a)

  accuse-IsProvenFault :
      (id : NodeId) (f : Fault T Share) (m : Map (Fault T Share))
      → (is_valid_fault x elders f ≡ true → voter_at_fault f ≡ id)
      → All IsProvenFault m
      → All IsProvenFault (accuse x elders id f m)
  accuse-IsProvenFault id f m h a = elim (Bool-cases (is_valid_fault x elders f)) [
    | inl e ↦ rw e (put-All compare compare-IsFaithful IsProvenFault id f m (h e, e) a)
    | inr e ↦ rw e a
  ]

  -- A vote that is proved to be changed is changed by its own voter.
  changed_vote-voter :
      (a b : SignedVote T Share)
      → is_valid_fault x elders (changed_vote a b) ≡ true
      → voter_of a ≡ voter_of b
  unfolding validate_fault
  changed_vote-voter a b h = ground arith

  accuse_changed-IsProvenFault :
      (o : Option (SignedVote T Share)) (v : SignedVote T Share) (m : Map (Fault T Share))
      → All IsProvenFault m
      → All IsProvenFault (accuse_changed x elders o v m)
  accuse_changed-IsProvenFault none v m a = a
  accuse_changed-IsProvenFault (some w) v m a =
      accuse-IsProvenFault (voter_of v) (changed_vote w v) m (changed_vote-voter w v) a

  detect_in-IsProvenFault :
      (existing : Map (SignedVote T Share)) (memo : Share → Bool) (vs : List (SignedVote T Share))
      → (m : Map (Fault T Share)) → All IsProvenFault m
      → All IsProvenFault (detect_in x elders existing memo m vs)
  detect_in-IsProvenFault existing memo [] m a = a
  detect_in-IsProvenFault existing memo (v ∷ vs) m a =
      detect_in-IsProvenFault existing memo vs _ (step (memo (sig_of v)))
    where
      step :
          (b : Bool)
          → All IsProvenFault (
              if b
              then m
              else accuse x elders
                  (voter_of v)
                  (invalid_fault v)
                  (accuse_changed x elders (get compare (voter_of v) existing) v m))
      step true = a
      step false =
          accuse-IsProvenFault (voter_of v) (invalid_fault v) _ (λ _. refl)
            (accuse_changed-IsProvenFault (get compare (voter_of v) existing) v m a)

  -- A vote filed under its voter, whose signature is noted as processed.
  abbrev pub IsFiled : List Share → NodeId × SignedVote T Share → Type 0
  IsFiled cache (id, v) = (voter_of v ≡ id) × (has x.cmp_share (sig_of v) cache ≡ true)

  pub record IsRecorded (c : Consensus T Share Sig) : Type 0 where
    pub votes_filed : All (IsFiled c.processed_votes_cache) c.votes
    pub faults_proven : All IsProvenFault c.faults

  module _ (law : IsOrdered x) where
    newer-IsFiled :
        (cache : List Share) (v : SignedVote T Share) (o : Option (SignedVote T Share))
        → has x.cmp_share (sig_of v) cache ≡ true
        → ((w : SignedVote T Share) → o ≡ some w → IsFiled cache (voter_of v, w))
        → IsFiled cache (voter_of v, newer x v o)
    newer-IsFiled cache v none h k = ground arith
    newer-IsFiled cache v (some w) h k = ground (arith, k w refl)

    store_vote-IsRecorded :
        (v : SignedVote T Share) (c : Consensus T Share Sig)
        → IsRecorded c
        → IsRecorded (store_vote x v c)
    store_vote-IsRecorded v c h =
        let cache = add x.cmp_share (sig_of v) c.processed_votes_cache in
        let filed =
          All-mono c.votes (λ f g. (g.0, grown (sig_of v) (sig_of f.1) _ g.1)) h.votes_filed in
        record {
          votes_filed =
              put-All compare compare-IsFaithful (IsFiled cache) (voter_of v) _ c.votes
                (newer-IsFiled cache v (get compare (voter_of v) c.votes)
                  (has-add_self x.cmp_share law.cmp_share-IsFaithful (sig_of v)
                    c.processed_votes_cache)
                  (λ w e.
                    get-All compare compare-IsFaithful (IsFiled cache) (voter_of v) c.votes w filed
                      e))
                filed;
          faults_proven = h.faults_proven;
        }
      where
        grown :
            (a b : Share) (s : List Share)
            → has x.cmp_share b s ≡ true
            → has x.cmp_share b (add x.cmp_share a s) ≡ true
        grown = has-add x.cmp_share law.cmp_share-IsFaithful

    log_one-IsRecorded :
        (v : SignedVote T Share) (c : Consensus T Share Sig)
        → IsRecorded c
        → IsRecorded (log_one x v c)
    log_one-IsRecorded v c h = go (is_processed x c (sig_of v))
      where
        go : (b : Bool) → IsRecorded (if b then c else store_vote x v c)
        go true = h
        go false = store_vote-IsRecorded v c h

    recorded : IsPreserved x elders IsRecorded
    recorded = record {
      logs = log_one-IsRecorded;
      accuses = λ v existing memo c h. record {
        votes_filed = h.votes_filed;
        faults_proven =
            put_all-All IsProvenFault _ c.faults
              (detect_in-IsProvenFault existing memo (unpack_votes v) [] tt) h.faults_proven;
      };
      decides = λ d c h. record { votes_filed = h.votes_filed; faults_proven = h.faults_proven };
    }

    -- After any history of votes handled and cast, each stored vote is filed under its voter and
    -- its signature is noted as processed, and each recorded fault is filed under the voter at
    -- fault and its evidence is valid.
    pub records_sound :
        (id : NodeId) (key : SecretKeyShare Share) (n_elders : ℕ) (ops : List (Op T Share))
        → IsRecorded (run x elders ops (new id key n_elders))
    records_sound id key n_elders ops =
        run_induction x elders IsRecorded recorded ops _
          (record { votes_filed = tt; faults_proven = tt })
