-- ===== src/Elders/Membership/Checks.antt =====
-- src/sn_membership.rs: the members of a generation, the checks of proposals, and anti-entropy.
use Prim.Native.Nat.{compare}
use sn_consensus.Prelude.{
  not, List, [], ◌∷◌, ◌++◌, none, some, length, leb, ltb, ◌==◌, ◌-◌, if◌then◌else◌, Outcome, ok,
  stop, raised, panicked,
}
use sn_consensus.Prelude.Ordered.{has, add, remove, get, keys, values}
use sn_consensus.Prelude.Results.{and_then, collect_results, for_each}
use sn_consensus.Vote.Types.{
  Generation, SignedVote, Error, members_at_capacity, join_request_for_existing_member,
  leave_request_for_non_member, invalid_generation, gen_of, vote_of,
}
use sn_consensus.Vote.Ballots.{vote_proposals}
use sn_consensus.Vote.Count.{or_default}
use sn_consensus.Elders.Generation.{Consensus, build_super_majority_vote}
use sn_consensus.Elders.Membership.State.{
  soft_max_members, Reconfig, MemberExtern, votes_extern, Membership, consensus_at_gen, join, leave,
}

module _ {T Share : Type 0} (x : MemberExtern T Share) where
  -- Reconfig::apply
  abbrev pub apply : Reconfig T → List T → List T
  apply (join p) members = add x.cmp p members
  apply (leave p) members = remove x.cmp p members

  abbrev pub apply_all : List (Reconfig T) → List T → List T
  apply_all [] members = members
  apply_all (r ∷ more) members = apply_all more (apply r members)

  abbrev pub check_reconfig : Reconfig T → List T → Outcome Error (Unit {0})
  check_reconfig (join actor) known =
      if has x.cmp actor known
      then stop (raised join_request_for_existing_member)
      else if leb soft_max_members (length known)
      then stop (raised members_at_capacity)
      else ok tt
  check_reconfig (leave actor) known =
      if not (has x.cmp actor known) then stop (raised leave_request_for_non_member) else ok tt

module _ {T Share Sig : Type 0} (x : MemberExtern T Share) where
  abbrev pub forced_at : Membership T Share Sig → Generation → List (Reconfig T)
  forced_at s gen = or_default [] (get compare gen s.forced_reconfigs)

  -- The loop of `members` over the history.
  abbrev pub members_in :
      Membership T Share Sig
      → Generation
      → List T
      → List (Generation × Consensus (Reconfig T) Share Sig)
      → Outcome Error (List T)
  members_in s gen members [] = stop (raised (invalid_generation gen))
  members_in s gen members ((g, c) ∷ more) = elim c.decision [
    | none ↦ stop panicked
    | some d ↦
        let after = apply_all x (keys d.proposals) (apply_all x (forced_at s g) members) in
        let rest = members_in s gen after more in if g == gen then ok after else rest
  ]

  abbrev pub members : Membership T Share Sig → Generation → Outcome Error (List T)
  members s gen =
      let start = apply_all x (forced_at s 0) [] in
      if gen == 0 then ok start else members_in s gen start s.history

  -- The source asserts that the generation is not 0.
  abbrev pub validate_reconfig :
      Membership T Share Sig → Generation → Reconfig T → Outcome Error (Unit {0})
  validate_reconfig s gen reconfig =
      if gen == 0 then stop panicked else and_then (members s (gen - 1)) (check_reconfig x reconfig)

  abbrev pub validate_proposals :
      Membership T Share Sig → SignedVote (Reconfig T) Share → Outcome Error (Unit {0})
  validate_proposals s v = and_then (consensus_at_gen s (gen_of (vote_of v))) λ _.
      for_each (validate_reconfig s (gen_of (vote_of v)))
        (vote_proposals (votes_extern x) (vote_of v))

  -- A decided instance of the history proves its decision.
  abbrev pub proof_of :
      Generation × Consensus (Reconfig T) Share Sig
      → List (Outcome Error (SignedVote (Reconfig T) Share))
  proof_of (g, c) = elim c.decision [
    | none ↦ []
    | some d ↦ build_super_majority_vote (votes_extern x) c d.votes d.faults g ∷ []
  ]

  abbrev pub proofs_from :
      Generation
      → List (Generation × Consensus (Reconfig T) Share Sig)
      → List (Outcome Error (SignedVote (Reconfig T) Share))
  proofs_from from_gen [] = []
  proofs_from from_gen ((g, c) ∷ more) =
      let rest = proofs_from from_gen more in
      if ltb from_gen g then proof_of (g, c) ++ rest else rest

  abbrev pub anti_entropy :
      Membership T Share Sig → Generation → Outcome Error (List (SignedVote (Reconfig T) Share))
  anti_entropy s from_gen =
      and_then (collect_results (λ proof. proof) (proofs_from from_gen s.history))
        λ msgs. ok (msgs ++ values s.consensus.votes)
