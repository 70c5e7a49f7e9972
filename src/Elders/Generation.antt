-- ===== src/Elders/Generation.antt =====
-- src/consensus.rs: the state of the agreement of one generation, and its methods. A vote that a
-- node casts is handled as one that it received, so the methods call each other; the fuel bounds
-- how deep. The key set of the elders, the parameter, is the source's field `elders`.
use Prim.Native.Nat.{compare}
use sn_consensus.Prelude.{
  ℕ, Bool, List, [], ◌∷◌, map, Option, none, some, Map, if◌then◌else◌, Outcome, ok, stop, raised,
}
use sn_consensus.Prelude.Ordered.{collect, add, has, get, put, keys, values}
use sn_consensus.Prelude.Results.{and_then, collect_results}
use sn_consensus.Keys.{SecretKeyShare, Format}
use sn_consensus.Vote.Types.{
  NodeId, Generation, super_majority, Vote, vote, SignedVote, signed, Fault, Error, encoding,
  to_votes, to_faults, voter_of, sig_of, voter_at_fault,
}
use sn_consensus.Vote.Extern.{Extern, order_votes, order_faults}
use sn_consensus.Vote.Ballots.{unpack_votes, simplify}
use sn_consensus.Vote.Count.{count, newer, winner}
use sn_consensus.Vote.Decision.{Decision}

pub record Consensus (T : Type 0) (Share : Type 0) (Sig : Type 0) : Type 0 where
  pub n_elders : ℕ
  pub id : NodeId
  pub secret_key : SecretKeyShare Share
  pub processed_votes_cache : List Share
  pub votes : Map (SignedVote T Share)
  pub faults : Map (Fault T Share)
  pub decision : Option (Decision T Share Sig)

pub data VoteResponse (T : Type 0) (Share : Type 0) : Type 0 where
  waiting_for_more_votes : VoteResponse T Share
  broadcast : SignedVote T Share → VoteResponse T Share

module _ {T Share Sig : Type 0} where
  abbrev pub new : NodeId → SecretKeyShare Share → ℕ → Consensus T Share Sig
  new id secret_key n_elders = record {
    n_elders = n_elders;
    id = id;
    secret_key = secret_key;
    processed_votes_cache = [];
    votes = [];
    faults = [];
    decision = none;
  }

  abbrev pub sign : {M : Type 0} → Consensus T Share Sig → Format M → M → Outcome Error Share
  sign c format msg = elim (format.serialize msg) [
    | none ↦ stop (raised encoding)
    | some bytes ↦ ok (c.secret_key.sign bytes)
  ]

  -- Consensus::faulty_ids
  abbrev pub known_faulty : Consensus T Share Sig → List NodeId
  known_faulty c = collect compare (keys c.faults)

module _ {T Share Sig : Type 0} (x : Extern T Share) where
  -- Consensus::faults
  abbrev pub fault_set : Consensus T Share Sig → List (Fault T Share)
  fault_set c = collect (order_faults x) (values c.faults)

  -- `self.votes.values().cloned().collect()`
  abbrev pub vote_set : Consensus T Share Sig → List (SignedVote T Share)
  vote_set c = collect (order_votes x) (values c.votes)

  abbrev pub is_processed : Consensus T Share Sig → Share → Bool
  is_processed c sig = has x.cmp_share sig c.processed_votes_cache

  abbrev pub have_we_processed_vote : Consensus T Share Sig → SignedVote T Share → Bool
  have_we_processed_vote c v = is_processed c (sig_of v)

  abbrev pub sign_vote : Consensus T Share Sig → Vote T Share → Outcome Error (SignedVote T Share)
  sign_vote c v = and_then (sign c x.vote_format v) λ sig. ok (signed v c.id sig)

  abbrev pub sign_proposal : Consensus T Share Sig → T → Outcome Error (T × (NodeId × Share))
  sign_proposal c p = and_then (sign c x.proposal_format p) λ sig. ok (p, (c.id, sig))

  abbrev pub build_super_majority_vote :
      Consensus T Share Sig
      → List (SignedVote T Share)
      → List (Fault T Share)
      → Generation
      → Outcome Error (SignedVote T Share)
  build_super_majority_vote c votes faults gen =
      let faulty = collect compare (map voter_at_fault faults) in
      and_then (collect_results (sign_proposal c) (winner (count x votes faulty)).proposals) λ ps.
        sign_vote c (vote gen (simplify x (super_majority (to_votes votes) ps)) (to_faults faults))

  -- The vote takes its voter's entry if it supersedes the one there, and is noted as processed.
  abbrev pub store_vote : SignedVote T Share → Consensus T Share Sig → Consensus T Share Sig
  store_vote v c = record c {
    processed_votes_cache = add x.cmp_share (sig_of v) c.processed_votes_cache;
    votes = put compare (voter_of v) (newer x v (get compare (voter_of v) c.votes)) c.votes;
  }

  -- One vote of `log_processed_signed_vote`.
  abbrev pub log_one : SignedVote T Share → Consensus T Share Sig → Consensus T Share Sig
  log_one v c = if have_we_processed_vote c v then c else store_vote v c

  abbrev pub log_all : List (SignedVote T Share) → Consensus T Share Sig → Consensus T Share Sig
  log_all [] c = c
  log_all (v ∷ more) c = log_all more (log_one v c)

  abbrev pub log_processed_signed_vote :
      SignedVote T Share → Consensus T Share Sig → Consensus T Share Sig
  log_processed_signed_vote v = log_all (unpack_votes v)
