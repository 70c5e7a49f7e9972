-- ===== src/Elders/Growth.antt =====
-- How the vote stored for a voter changes in src/consensus.rs.
use Prim.Native.Nat.{compare}
use sn_consensus.Prelude.{
  Bool, true, false, ◌≡◌, List, some, arith, inl, inr, Bool-cases, if◌then◌else◌,
}
use sn_consensus.Prelude.Ordered.{compare-IsFaithful, get, get-put, is_eq}
use sn_consensus.Keys.{PublicKeySet}
use sn_consensus.Vote.Types.{NodeId, SignedVote, voter_of, sig_of}
use sn_consensus.Vote.Extern.{Extern, IsOrdered}
use sn_consensus.Vote.Ballots.{supersedes}
use sn_consensus.Vote.Count.{newer}
use sn_consensus.Vote.Supersedes.{supersedes_refl, supersedes_trans}
use sn_consensus.Elders.Generation.{Consensus, log_one, store_vote, is_processed}
use sn_consensus.Elders.History.{Op, run, run_induction}

module _ {T Share Sig : Type 0} (x : Extern T Share) (elders : PublicKeySet Sig Share) where
  -- The vote stored for a voter, as it was, or one that supersedes it.
  abbrev pub IsAtLeast : NodeId → SignedVote T Share → Consensus T Share Sig → Type 0
  IsAtLeast voter v c =
      (w : SignedVote T Share) × (get compare voter c.votes ≡ some w) × (supersedes x w v ≡ true)

  module _ (law : IsOrdered x) (voter : NodeId) (v : SignedVote T Share) where
    newer-supersedes :
        (w u : SignedVote T Share)
        → supersedes x u v ≡ true
        → supersedes x (newer x w (some u)) v ≡ true
    newer-supersedes w u h = ground (arith, supersedes_trans x law w u v)

    store_vote-IsAtLeast :
        (w : SignedVote T Share) (c : Consensus T Share Sig)
        → IsAtLeast voter v c
        → IsAtLeast voter v (store_vote x w c)
    store_vote-IsAtLeast w c (u, e, h) = elim (Bool-cases (is_eq (compare voter (voter_of w)))) [
      | inl same ↦ (
        newer x w (some u),
        ground (
          arith,
          get-put compare compare-IsFaithful (voter_of w) voter
              (newer x w (get compare (voter_of w) c.votes)) c.votes,
          compare-IsFaithful.separates voter (voter_of w),
        ),
        newer-supersedes w u h,
      )
      | inr other ↦ (
        u,
        ground (
          arith,
          get-put compare compare-IsFaithful (voter_of w) voter
              (newer x w (get compare (voter_of w) c.votes)) c.votes,
        ),
        h,
      )
    ]

    log_one-IsAtLeast :
        (w : SignedVote T Share) (c : Consensus T Share Sig)
        → IsAtLeast voter v c
        → IsAtLeast voter v (log_one x w c)
    log_one-IsAtLeast w c h = go (is_processed x c (sig_of w))
      where
        go : (b : Bool) → IsAtLeast voter v (if b then c else store_vote x w c)
        go true = h
        go false = store_vote-IsAtLeast w c h

    -- What is stored for a voter only ever gives way to a vote that supersedes it.
    pub stored_vote_grows :
        (ops : List (Op T Share)) (c : Consensus T Share Sig)
        → get compare voter c.votes ≡ some v
        → IsAtLeast voter v (run x elders ops c)
    stored_vote_grows ops c e =
        run_induction x elders (IsAtLeast voter v)
          (record { logs = log_one-IsAtLeast; accuses = λ w m memo c h. h; decides = λ d c h. h })
          ops c (v, e, supersedes_refl x law v)
