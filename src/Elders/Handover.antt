-- ===== src/Elders/Handover.antt =====
-- src/sn_handover.rs: the agreement of one section on a handover.
use Prim.Native.Nat.{Ordering}
use Prim.Native.Nat.Ordering.{gt}
use sn_consensus.Prelude.{
  ℕ, not, List, [], ◌∷◌, Option, none, some, ◌==◌, if◌then◌else◌, Outcome, ok, stop, raised, Exec,
  halt, lift, reading, ◌>>=◌, ◌>>◌, is_empty,
}
use sn_consensus.Prelude.Ordered.{keys, values}
use sn_consensus.Prelude.Results.{and_then, for_each}
use sn_consensus.Keys.{PublicKeySet, SecretKeyShare}
use sn_consensus.Vote.Types.{
  NodeId, Ballot, Vote, vote, SignedVote, Error, bad_generation, attempted_faulty_proposal,
  to_faults, gen_of, vote_of,
}
use sn_consensus.Vote.Extern.{Extern}
use sn_consensus.Vote.Ballots.{vote_proposals}
use sn_consensus.Vote.Validity.{detect_byzantine_faults}
use sn_consensus.Elders.Generation.{
  Consensus, new, fault_set, is_processed, sign_vote as sign_in_generation,
  build_super_majority_vote, VoteResponse,
}
use sn_consensus.Elders.Handlers.{handle_signed_vote, cast_vote as cast_in_generation}

pub record Handover (T : Type 0) (Share : Type 0) (Sig : Type 0) : Type 0 where
  pub consensus : Consensus T Share Sig
  pub gen : ℕ

module _ {T Share Sig : Type 0} where
  abbrev pub from : NodeId → SecretKeyShare Share → ℕ → ℕ → Handover T Share Sig
  from id secret_key n_elders gen = record { consensus = new id secret_key n_elders; gen = gen }

  -- A method of the instance.
  abbrev pub inner :
      {A : Type 0} → Exec (Consensus T Share Sig) Error A → Exec (Handover T Share Sig) Error A
  inner m s = let (r, c) = m s.consensus in (r, record s { consensus = c })

  -- Any proposal is accepted.
  abbrev pub validate_proposal : Handover T Share Sig → T → Outcome Error (Unit {0})
  validate_proposal s proposal = ok tt

module _ {T : Type 0} (cmp : T → T → Ordering) where
  -- Iterator::max, which returns the last of several maxima.
  abbrev pub max_of : T → List T → T
  max_of a [] = a
  max_of a (b ∷ more) = max_of (elim (cmp a b) [ gt ↦ a | _ ↦ b ]) more

  abbrev pub max : List T → Option T
  max [] = none
  max (a ∷ more) = some (max_of a more)

  abbrev pub resolve_votes : {Sig : Type 0} → List (T × Sig) → Option T
  resolve_votes proposals = max (keys proposals)

module _ {T Share Sig : Type 0} (x : Extern T Share) where
  abbrev pub anti_entropy : Handover T Share Sig → Outcome Error (List (SignedVote T Share))
  anti_entropy s = elim s.consensus.decision [
    | none ↦ ok (values s.consensus.votes)
    | some d ↦
        and_then (build_super_majority_vote x s.consensus d.votes d.faults s.gen) (λ v. ok (v ∷ []))
  ]

  abbrev pub validate_proposals :
      Handover T Share Sig → SignedVote T Share → Outcome Error (Unit {0})
  validate_proposals s v =
      if not (gen_of (vote_of v) == s.gen)
      then stop (raised (bad_generation (gen_of (vote_of v)) s.gen))
      else for_each (validate_proposal s) (vote_proposals x (vote_of v))

module _ {T Share Sig : Type 0} (x : Extern T Share) (elders : PublicKeySet Sig Share) where
  abbrev pub Method : Type 0 → Type 0
  Method = Exec (Handover T Share Sig) Error

  unfoldable pub handle_vote : ℕ → SignedVote T Share → Method (VoteResponse T Share)
  handle_vote fuel v =
      reading λ s. do lift (validate_proposals x s v); inner (handle_signed_vote x elders fuel v)

  unfoldable pub sign_vote :
      Handover T Share Sig → Vote T Share → Outcome Error (SignedVote T Share)
  sign_vote s v = sign_in_generation x s.consensus v

  unfoldable pub cast_vote : ℕ → SignedVote T Share → Method (SignedVote T Share)
  cast_vote fuel v = inner (cast_in_generation x elders fuel v)

  -- The proposal is ours to make if nobody could take it for a fault.
  unfoldable pub cast_proposal : ℕ → SignedVote T Share → Method (SignedVote T Share)
  cast_proposal fuel v = reading λ s.
      if is_empty
        (detect_byzantine_faults x elders v s.consensus.votes (is_processed x s.consensus))
      then cast_vote fuel v
      else halt (raised attempted_faulty_proposal)

  unfoldable pub propose : ℕ → T → Method (SignedVote T Share)
  propose fuel proposal = reading λ s. do
    v ←
        lift
          (sign_vote s (vote s.gen (Ballot.propose proposal) (to_faults (fault_set x s.consensus))))
    lift (validate_proposals x s v)
    cast_proposal fuel v
