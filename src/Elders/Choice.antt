-- ===== src/Elders/Choice.antt =====
-- The choice among the decided proposals, and the checks of votes, in src/sn_handover.rs.
use Prim.Native.Nat.{Ordering}
use Prim.Native.Nat.Ordering.{lt, eq, gt}
use sn_consensus.Prelude.{
  ℕ, true, ◌≡◌, ◌≢◌, refl, subst, List, [], ◌∷◌, some, All, arith, ok, stop, raised, inl, inr, ◌⊎◌,
  ◌==◌, Bool-cases,
}
use sn_consensus.Prelude.Ordered.{keys, has}
use sn_consensus.Prelude.Results.{for_each}
use sn_consensus.Keys.{PublicKeySet}
use sn_consensus.Vote.Types.{SignedVote, gen_of, vote_of, bad_generation}
use sn_consensus.Vote.Extern.{Extern}
use sn_consensus.Vote.Ballots.{vote_proposals}
use sn_consensus.Elders.Handlers.{handle_signed_vote}
use sn_consensus.Elders.Handover.{
  Handover, max_of, resolve_votes, validate_proposal, handle_vote, inner,
}

-- A total order, by its comparison: what `Ord` asks of `cmp`.
pub record IsTotal {T : Type 0} (cmp : T → T → Ordering) : Type 0 where
  pub le_refl : (a : T) → cmp a a ≡ eq
  pub le_trans : (a b c : T) → cmp a b ≢ gt → cmp b c ≢ gt → cmp a c ≢ gt
  pub le_of_gt : (a b : T) → cmp a b ≡ gt → cmp b a ≢ gt

module _ {T : Type 0} (cmp : T → T → Ordering) (law : IsTotal cmp) where
  abbrev IsBound : T → T → Type 0
  IsBound m a = cmp a m ≢ gt

  IsMaxOf : T → List T → T → Type 0
  IsMaxOf a more m = (IsBound m a) × All (IsBound m) more

  max_of-step :
      (a b : T) (more : List T) (o : Ordering)
      → cmp a b ≡ o
      → ((c : T) → IsMaxOf c more (max_of cmp c more))
      → IsMaxOf a (b ∷ more) (max_of cmp (elim o [ gt ↦ a | _ ↦ b ]) more)
  unfolding IsMaxOf
  max_of-step a b more gt e rec =
      let (p, q) = rec a in (p, (law.le_trans b a _ (law.le_of_gt a b e) p, q))
  max_of-step a b more lt e rec =
      let (p, q) = rec b in (law.le_trans a b _ (λ h. ground arith) p, (p, q))
  max_of-step a b more eq e rec =
      let (p, q) = rec b in (law.le_trans a b _ (λ h. ground arith) p, (p, q))

  max_of-IsMaxOf : (more : List T) (a : T) → IsMaxOf a more (max_of cmp a more)
  unfolding IsMaxOf
  max_of-IsMaxOf [] a = (λ h. ground (arith, law.le_refl a), tt)
  max_of-IsMaxOf (b ∷ more) a = max_of-step a b more (cmp a b) refl (max_of-IsMaxOf more)

  keys-All :
      {Sig : Type 0} (P : T → Type 0) (ps : List (T × Sig)) → All P (keys ps) → All (λ e. P e.0) ps
  keys-All P [] a = tt
  keys-All P ((p, u) ∷ ps) a = (a.0, keys-All P ps a.1)

  max_of-has : (more : List T) (a : T) → has cmp (max_of cmp a more) (a ∷ more) ≡ true
  max_of-has [] a = ground (arith, law.le_refl a)
  max_of-has (b ∷ more) a = ground (arith, max_of-has more a, max_of-has more b)

  -- The proposal that a handover picks is one of those decided, and none of them exceeds it.
  pub resolve_votes-max :
      {Sig : Type 0} (ps : List (T × Sig)) (m : T)
      → resolve_votes cmp ps ≡ some m
      → (has cmp m (keys ps) ≡ true) × All (λ e. cmp e.0 m ≢ gt) ps
  unfolding IsMaxOf
  resolve_votes-max [] m e = cc
  resolve_votes-max ((p, u) ∷ ps) m e =
      let (h, a) = max_of-IsMaxOf (keys ps) p in
      subst (λ k. (has cmp k (p ∷ keys ps) ≡ true) × ((IsBound k p) × All (λ d. IsBound k d.0) ps))
        (same_max e) (max_of-has (keys ps) p, (h, keys-All (IsBound (max_of cmp p (keys ps))) ps a))
    where
      same_max : {a b : T} → some a ≡ some b → a ≡ b
      same_max e = cc

module _ {T Share Sig : Type 0} (x : Extern T Share) (elders : PublicKeySet Sig Share) where
  every_proposal :
      (s : Handover T Share Sig) (ps : List T) → for_each (validate_proposal s) ps ≡ ok tt
  every_proposal s [] = refl
  every_proposal s (p ∷ ps) = every_proposal s ps

  -- A handover hands every vote of its own generation to the agreement, and refuses any other with
  -- an error, unchanged.
  pub generation_decides :
      (fuel : ℕ) (v : SignedVote T Share) (s : Handover T Share Sig)
      → ((gen_of (vote_of v) ≡ s.gen)
          × (handle_vote x elders fuel v s ≡ inner (handle_signed_vote x elders fuel v) s))
        ⊎ ((gen_of (vote_of v) ≢ s.gen)
            × (handle_vote x elders fuel v s
                ≡ (stop (raised (bad_generation (gen_of (vote_of v)) s.gen)), s)))
  unfolding handle_vote
  generation_decides fuel v s = elim (Bool-cases (gen_of (vote_of v) == s.gen)) [
    | inl e ↦ inl (ground arith, rw (e, every_proposal s (vote_proposals x (vote_of v))) refl)
    | inr e ↦ inr (λ q. ground arith, rw e refl)
  ]
