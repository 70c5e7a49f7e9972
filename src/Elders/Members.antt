-- ===== src/Elders/Members.antt =====
-- The members of a generation, and the checks of proposals, in src/sn_membership.rs.
use Prim.Native.Nat.{compare}
use sn_consensus.Prelude.{
  ℕ, ◌+◌, ◌-◌, ◌≤◌, ◌<◌, ◌≢◌, ◌⊎◌, true, ◌≡◌, refl, List, [], ◌∷◌, is_some, All, arith, inl, inr,
  Bool-cases, Option-cases, ◌==◌, ok, stop, raised, panicked,
}
use sn_consensus.Prelude.Ordered.{compare-IsFaithful, get, get-All, keys}
use sn_consensus.Prelude.Results.{and_then-never, for_each-never}
use sn_consensus.Keys.{PublicKeySet}
use sn_consensus.Vote.Types.{Generation, SignedVote, gen_of, vote_of, bad_generation}
use sn_consensus.Elders.Generation.{Consensus}
use sn_consensus.Elders.Membership.{
  Reconfig, join, leave, MemberExtern, Membership, consensus_at_gen, forced_at, apply_all,
  members_in, members, validate_reconfig, check_reconfig, validate_proposals, handle_vote, at_gen,
}
use sn_consensus.Elders.Generations.{IsHistory, IsPast}

module _ {T Share : Type 0} (x : MemberExtern T Share) where
  check_reconfig-never : (r : Reconfig T) (ms : List T) → check_reconfig x r ms ≢ stop panicked
  check_reconfig-never (join actor) ms = ground arith
  check_reconfig-never (leave actor) ms = ground arith

module _ {T Share Sig : Type 0} (x : MemberExtern T Share) where
  members_in_known :
      (s : Membership T Share Sig) (gen : Generation)
      → (m : List (Generation × Consensus (Reconfig T) Share Sig)) (ms : List T)
      → All (IsPast s.gen) m
      → is_some (get compare gen m) ≡ true
      → (result : List T) × (members_in x s gen ms m ≡ ok result)
  members_in_known s gen [] ms a h = cc
  members_in_known s gen ((g, c) ∷ m) ms a h = elim (Option-cases c.decision) [
    | inl e ↦ ground (arith, e)
    | inr (d, e) ↦ elim (Bool-cases (g == gen)) [
      | inl f ↦ (apply_all x (keys d.proposals) (apply_all x (forced_at x s g) ms), rw (e, f) refl)
      | inr f ↦
          let (result, k) =
            members_in_known s gen m
              (apply_all x (keys d.proposals) (apply_all x (forced_at x s g) ms)) a.1
              (ground arith) in
          (result, rw (e, f) k)
    ]
  ]

  -- A membership knows the members of every generation up to the current one.
  pub members_known :
      (s : Membership T Share Sig) (gen : Generation)
      → IsHistory s
      → gen ≤ s.gen
      → (result : List T) × (members x s gen ≡ ok result)
  members_known s gen h e = elim (Bool-cases (gen == 0)) [
    | inl z ↦ (apply_all x (forced_at x s 0) [], rw z refl)
    | inr z ↦
        let (result, k) =
          members_in_known s gen s.history (apply_all x (forced_at x s 0) []) h.past
            (h.complete gen (λ q. ground arith) e) in
        (result, rw z k)
  ]

  not_in_history :
      (s : Membership T Share Sig) (gen : Generation)
      → IsHistory s
      → (gen ≡ 0) ⊎ (s.gen + 1 < gen)
      → consensus_at_gen s gen ≡ stop (raised (bad_generation gen s.gen))
  not_in_history s gen h k = elim (Option-cases (get compare gen s.history)) [
    | inl n ↦ ground (arith, n)
    | inr (c, n) ↦
        ground (arith, get-All compare compare-IsFaithful (IsPast s.gen) gen s.history c h.past n)
  ]

  -- A vote for no generation from 1 to the one in progress is refused, and changes nothing.
  pub unknown_generation_refused :
      (elders : PublicKeySet Sig Share) (fuel : ℕ) (s : Membership T Share Sig)
      → (v : SignedVote (Reconfig T) Share) → IsHistory s
      → (gen_of (vote_of v) ≡ 0) ⊎ (s.gen + 1 < gen_of (vote_of v))
      → handle_vote x elders fuel v s
        ≡ (stop (raised (bad_generation (gen_of (vote_of v)) s.gen)), s)
  unfolding handle_vote at_gen
  unknown_generation_refused elders fuel s v h k =
      rw (not_in_history s (gen_of (vote_of v)) h k) refl

  known_generation :
      (s : Membership T Share Sig) (gen : Generation) (c : Consensus (Reconfig T) Share Sig)
      → IsHistory s
      → consensus_at_gen s gen ≡ ok c
      → (gen ≢ 0) × (gen ≤ s.gen + 1)
  known_generation s gen c h e = elim (Option-cases (get compare gen s.history)) [
    | inl n ↦ ground (arith, n)
    | inr (d, n) ↦
        ground
          (arith, n, get-All compare compare-IsFaithful (IsPast s.gen) gen s.history d h.past n)
  ]

  validate_reconfig-never :
      (s : Membership T Share Sig) (gen : Generation) (r : Reconfig T)
      → IsHistory s
      → (gen ≢ 0) × (gen ≤ s.gen + 1)
      → validate_reconfig x s gen r ≢ stop panicked
  validate_reconfig-never s gen r h k =
      let (ms, e) = members_known s (gen - 1) h (ground (arith, k)) in
      ground (arith, k.0, e, check_reconfig-never x r ms)

  -- The checks of a vote's proposals never panic: neither the assertion that the generation is not
  -- 0, nor the one that the generations of the history have decided, ever fails.
  pub validate_never_panics :
      (s : Membership T Share Sig) (v : SignedVote (Reconfig T) Share)
      → IsHistory s
      → validate_proposals x s v ≢ stop panicked
  validate_never_panics s v h =
      and_then-never (consensus_at_gen s (gen_of (vote_of v))) _ (ground arith) (λ c e.
        for_each-never (validate_reconfig x s (gen_of (vote_of v))) _ (λ r.
          validate_reconfig-never s (gen_of (vote_of v)) r h
            (known_generation s (gen_of (vote_of v)) c h e)))
