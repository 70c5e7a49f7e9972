-- ===== src/Elders/Generations.antt =====
-- The generations of src/sn_membership.rs: which of them the history holds, whatever the callers do.
use Prim.Native.Nat.{compare}
use sn_consensus.Prelude.{
  ℕ, ◌+◌, ◌≤◌, ◌≢◌, Bool, true, false, ◌≡◌, refl, List, [], ◌∷◌, some, is_some, All, All-mono,
  arith, inl, inr, Bool-cases, Option-cases, ◌==◌, if◌then◌else◌, Outcome, ok, stop, Exec, Anyhow,
  Stops-Anyhow, Keeps, Keeps-lift, Keeps-reading, Keeps-bind, Keeps-pure, keeps_rules, lift,
}
use sn_consensus.Prelude.Ordered.{compare-IsFaithful, get, put, put-All, get-All, get-put}
use sn_consensus.Keys.{PublicKeySet, SecretKeyShare}
use sn_consensus.Vote.Types.{NodeId, Generation, SignedVote, Error, gen_of, vote_of}
use sn_consensus.Vote.Decision.{Decision}
use sn_consensus.Elders.Generation.{Consensus}
use sn_consensus.Elders.Handlers.{handle_signed_vote, cast_vote as cast_in_generation}
use sn_consensus.Elders.Outcome.{handle_decided}
use sn_consensus.Elders.Membership.{
  Reconfig, MemberExtern, Membership, votes_extern, from, consensus_at_gen, write_back, lend,
  at_gen, current, next_generation, is_decided_now, advance, force_join, force_leave,
  validate_proposals, handle_vote, cast_vote, cast_proposal, propose,
}

-- What the callers of a membership can do, with the fuel that a call is given.
pub data Op (T : Type 0) (Share : Type 0) : Type 0 where
  joins leaves : T → Op T Share
  handles casts : ℕ → SignedVote (Reconfig T) Share → Op T Share
  proposes : ℕ → Reconfig T → Op T Share

module _ {T Share Sig : Type 0} where
  -- An entry of the history: an instance that has decided, of a generation from 1 to the current.
  abbrev pub IsPast : Generation → Generation × Consensus (Reconfig T) Share Sig → Type 0
  IsPast gen (g, c) = (g ≢ 0) × (g ≤ gen) × (is_some c.decision ≡ true)

  -- The history holds exactly the generations from 1 to the current one, all decided.
  pub record IsHistory (s : Membership T Share Sig) : Type 0 where
    pub past : All (IsPast s.gen) s.history
    pub complete : (g : Generation) → g ≢ 0 → g ≤ s.gen → is_some (get compare g s.history) ≡ true

  put-IsPast :
      (gen g : Generation) (c : Consensus (Reconfig T) Share Sig)
      → (m : List (Generation × Consensus (Reconfig T) Share Sig)) → IsPast gen (g, c)
      → All (IsPast gen) m
      → All (IsPast gen) (put compare g c m)
  put-IsPast gen g c m = put-All compare compare-IsFaithful (IsPast gen) g c m

  put_complete :
      (k g : Generation) (c : Consensus (Reconfig T) Share Sig)
      → (m : List (Generation × Consensus (Reconfig T) Share Sig))
      → (k ≢ g → is_some (get compare g m) ≡ true)
      → is_some (get compare g (put compare k c m)) ≡ true
  put_complete k g c m h = ground (arith, get-put compare compare-IsFaithful k g c m)

  write_back-IsHistory :
      (gen : Generation) (c : Consensus (Reconfig T) Share Sig) (s : Membership T Share Sig)
      → IsHistory s
      → (gen ≢ s.gen + 1 → IsPast s.gen (gen, c))
      → IsHistory (write_back gen c s)
  write_back-IsHistory gen c s h k = go (gen == s.gen + 1) (λ e. k (ground arith))
    where
      go :
          (b : Bool)
          → (b ≡ false → IsPast s.gen (gen, c))
          → IsHistory (
              if b
              then record s { consensus = c }
              else record s { history = put compare gen c s.history })
      go true p = record { past = h.past; complete = h.complete }
      go false p = record {
        past = put-IsPast s.gen gen c s.history (p refl) h.past;
        complete = λ g q r. put_complete gen g c s.history (λ _. h.complete g q r);
      }

  -- An instance that has decided, and one that a method leaves alone once it has.
  abbrev Settles : {A : Type 0} → Exec (Consensus (Reconfig T) Share Sig) Error A → Type 0
  Settles m =
      (c : Consensus (Reconfig T) Share Sig) (d : Decision (Reconfig T) Share Sig)
      → c.decision ≡ some d
      → (m c).1 ≡ c

  settled_decision :
      {A : Type 0} (m : Exec (Consensus (Reconfig T) Share Sig) Error A)
      → Settles m
      → (c : Consensus (Reconfig T) Share Sig) → is_some c.decision ≡ true
      → is_some (m c).1.decision ≡ true
  settled_decision m k c e = elim (Option-cases c.decision) [
    | inl n ↦ ground (arith, n)
    | inr (d, n) ↦ rw (k c d n) e
  ]

  at_gen-IsHistory :
      {A : Type 0} (gen : Generation) (m : Exec (Consensus (Reconfig T) Share Sig) Error A)
      → Settles m
      → (s : Membership T Share Sig) → IsHistory s
      → IsHistory (at_gen gen m s).1
  unfolding at_gen
  at_gen-IsHistory gen m k s h = go (consensus_at_gen s gen) refl
    where
      past_instance :
          (c : Consensus (Reconfig T) Share Sig)
          → get compare gen s.history ≡ some c
          → IsPast s.gen (gen, (m c).1)
      past_instance c n =
          let (p, q, e) =
            get-All compare compare-IsFaithful (IsPast s.gen) gen s.history c h.past n in
          (p, q, settled_decision m k c e)

      go :
          (o : Outcome Error (Consensus (Reconfig T) Share Sig))
          → consensus_at_gen s gen ≡ o
          → IsHistory (lend o gen m s).1
      go (stop e) n = h
      go (ok c) n = write_back-IsHistory gen (m c).1 s h (λ q. past_instance c (found_past c n q))
        where
          found_past :
              (c : Consensus (Reconfig T) Share Sig)
              → consensus_at_gen s gen ≡ ok c
              → gen ≢ s.gen + 1
              → get compare gen s.history ≡ some c
          found_past c n q = ground arith

  next-IsHistory :
      (gen : Generation) (s : Membership T Share Sig)
      → IsHistory s
      → is_decided_now gen s ≡ true
      → IsHistory (next_generation gen s)
  next-IsHistory gen s h e = record {
    past =
        put-IsPast gen gen s.consensus s.history (ground arith)
          (All-mono s.history (λ p q. (q.0, ground arith, q.2)) h.past);
    complete =
        λ g p q. put_complete gen g s.consensus s.history (λ n. h.complete g p (ground arith));
  }

  when-IsHistory :
      (gen : Generation) (s : Membership T Share Sig)
      → IsHistory s
      → IsHistory (if is_decided_now gen s then next_generation gen s else s)
  when-IsHistory gen s h = elim (Bool-cases (is_decided_now gen s)) [
    | inl e ↦ rw e (next-IsHistory gen s h e)
    | inr e ↦ rw e h
  ]

  advance-Good : (gen : Generation) → Keeps IsHistory Anyhow (advance gen)
  unfolding advance
  advance-Good gen = record { at = λ s h. (when-IsHistory gen s h, tt) }

  at_gen-Good :
      {A : Type 0} (gen : Generation) (m : Exec (Consensus (Reconfig T) Share Sig) Error A)
      → Settles m
      → Keeps IsHistory Anyhow (at_gen gen m)
  at_gen-Good gen m k = record { at = λ s h. (at_gen-IsHistory gen m k s h, Stops-Anyhow _) }

  current-Good :
      {A : Type 0} (m : Exec (Consensus (Reconfig T) Share Sig) Error A)
      → Keeps IsHistory Anyhow (current m)
  unfolding current
  current-Good m = record {
    at = λ s h. (record { past = h.past; complete = h.complete }, Stops-Anyhow _);
  }

module _ {T Share Sig : Type 0} (x : MemberExtern T Share) (elders : PublicKeySet Sig Share) where
  handle-Settles :
      (fuel : ℕ) (v : SignedVote (Reconfig T) Share)
      → Settles (handle_signed_vote (votes_extern x) elders fuel v)
  unfolding handle_signed_vote
  handle-Settles fuel v c d e =
      handle_decided (votes_extern x) elders (cast_in_generation (votes_extern x) elders fuel) v c d
        e

  handled-Good :
      (fuel : ℕ) (v : SignedVote (Reconfig T) Share)
      → Keeps IsHistory Anyhow
          (at_gen (gen_of (vote_of v)) (handle_signed_vote (votes_extern x) elders fuel v))
  handled-Good fuel v =
      at_gen-Good (gen_of (vote_of v)) (handle_signed_vote (votes_extern x) elders fuel v)
        (handle-Settles fuel v)

  handle_vote-Good :
      (fuel : ℕ) (v : SignedVote (Reconfig T) Share)
      → Keeps IsHistory Anyhow (handle_vote x elders fuel v)
  unfolding handle_vote
  handle_vote-Good fuel v = Keeps-reading _ λ s.
      Keeps-bind (lift (validate_proposals x s v)) _ (Keeps-lift (validate_proposals x s v)) λ _.
        Keeps-bind _ _ (handled-Good fuel v)
          λ response. Keeps-bind _ _ (advance-Good (gen_of (vote_of v))) λ _. Keeps-pure response

  cast_vote-Good :
      (fuel : ℕ) (v : SignedVote (Reconfig T) Share)
      → Keeps IsHistory Anyhow (cast_vote x elders fuel v)
  unfolding cast_vote
  cast_vote-Good fuel v = current-Good (cast_in_generation (votes_extern x) elders fuel v)

  propose-Good : (fuel : ℕ) (r : Reconfig T) → Keeps IsHistory Anyhow (propose x elders fuel r)
  unfolding propose cast_proposal
  propose-Good fuel r = search (keeps_rules, Keeps-lift, cast_vote-Good) depth 12

  unfoldable pub apply : Op T Share → Membership T Share Sig → Membership T Share Sig
  apply (joins actor) s = force_join x actor s
  apply (leaves actor) s = force_leave x actor s
  apply (handles fuel v) s = (handle_vote x elders fuel v s).1
  apply (casts fuel v) s = (cast_vote x elders fuel v s).1
  apply (proposes fuel r) s = (propose x elders fuel r s).1

  unfoldable pub run : List (Op T Share) → Membership T Share Sig → Membership T Share Sig
  run [] s = s
  run (o ∷ more) s = run more (apply o s)

  apply-IsHistory :
      (o : Op T Share) (s : Membership T Share Sig) → IsHistory s → IsHistory (apply o s)
  unfolding apply
  apply-IsHistory (joins actor) s h = record { past = h.past; complete = h.complete }
  apply-IsHistory (leaves actor) s h = record { past = h.past; complete = h.complete }
  apply-IsHistory (handles fuel v) s h = ((handle_vote-Good fuel v).at s h).0
  apply-IsHistory (casts fuel v) s h = ((cast_vote-Good fuel v).at s h).0
  apply-IsHistory (proposes fuel r) s h = ((propose-Good fuel r).at s h).0

  run_from-IsHistory :
      (ops : List (Op T Share)) (s : Membership T Share Sig) → IsHistory s → IsHistory (run ops s)
  unfolding run
  run_from-IsHistory [] s h = h
  run_from-IsHistory (o ∷ more) s h = run_from-IsHistory more (apply o s) (apply-IsHistory o s h)

  -- Whatever a membership's callers do, its history holds exactly the generations from 1 to the
  -- current one, and each of them has decided.
  pub run-IsHistory :
      (id : NodeId) (key : SecretKeyShare Share) (n_elders : ℕ) (ops : List (Op T Share))
      → IsHistory (run ops (from id key n_elders))
  run-IsHistory id key n_elders ops =
      run_from-IsHistory ops _ (record { past = tt; complete = λ g p q. absurd (p (omega arith)) })
