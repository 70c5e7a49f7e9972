-- ===== src/Elders/Outcome.antt =====
-- What the agreement of one generation answers: after a decision, and on votes whose signatures it
-- has processed.
use sn_consensus.Prelude.{
  ℕ, zero, suc, Bool, true, false, ◌≡◌, refl, List, [], ◌∷◌, none, some, All, Outcome, ok, stop,
  arith, inl, inr, Option-cases, Map, ◌∙◌, ap, if◌then◌else◌,
}
use Prim.Native.Nat.{compare}
use sn_consensus.Vote.Ballots.{unpack_votes, unpack_all}
use sn_consensus.Vote.Validity.{
  detect_in, accuse, accuse_changed, is_valid_fault, validate_fault, validate,
  detect_byzantine_faults, validate_child_votes, validate_signature, verify_sig_share,
}
use sn_consensus.Vote.Types.{
  Ballot, Fault, invalid_fault, no_faults, NodeId, Generation, merge, Vote, vote, SignedVote,
  signed, Votes, no_votes, and_vote, Faults, Error, vote_list, gen_of, vote_of, voter_of, sig_of,
}
use sn_consensus.Prelude.Ordered.{get, put_all}
use sn_consensus.Prelude.Results.{and_then}
use sn_consensus.Vote.Count.{vote_count, get_decision}
use sn_consensus.Keys.{PublicKeySet, Bytes}
use sn_consensus.Vote.Extern.{Extern}
use sn_consensus.Vote.Decision.{Decision}
use sn_consensus.Elders.Generation.{
  Consensus, sign_vote, have_we_processed_vote, is_processed, waiting_for_more_votes,
}
use sn_consensus.Elders.Handlers.{
  handle_signed_vote, cast_vote, handle, check_vote, process_signed_vote, accept_decision,
}
use sn_consensus.Elders.History.{Op, handles, casts, run, apply}

module _ {T Share Sig : Type 0} (x : Extern T Share) (elders : PublicKeySet Sig Share) where
  pub handle_decided :
      (cast : SignedVote T Share
        → Consensus T Share Sig
        → Outcome Error (SignedVote T Share) × Consensus T Share Sig)
      → (v : SignedVote T Share) (c : Consensus T Share Sig) (d : Decision T Share Sig)
      → c.decision ≡ some d
      → (handle x elders cast v c).1 ≡ c
  unfolding handle
  handle_decided cast v c d e = rw e refl

  apply_decided :
      (o : Op T Share) (c : Consensus T Share Sig) (d : Decision T Share Sig)
      → c.decision ≡ some d
      → apply x elders o c ≡ c
  unfolding apply handle_signed_vote cast_vote handle
  apply_decided (handles fuel v) c d e = handle_decided (cast_vote x elders fuel) v c d e
  apply_decided (casts zero v) c d e = refl
  apply_decided (casts (suc fuel) v) c d e = rw e refl

  -- Once decided, nothing that is handled or cast changes the agreement: the decision is final.
  pub decision_is_final :
      (ops : List (Op T Share)) (c : Consensus T Share Sig) (d : Decision T Share Sig)
      → c.decision ≡ some d
      → run x elders ops c ≡ c
  unfolding run
  decision_is_final [] c d e = refl
  decision_is_final (o ∷ more) c d e = rw (apply_decided o c d e) (decision_is_final more c d e)

  -- A vote of one generation whose signature has been processed.
  abbrev pub IsProcessed : (Share → Bool) → Generation → SignedVote T Share → Type 0
  IsProcessed memo gen v = (gen_of (vote_of v) ≡ gen) × (memo (sig_of v) ≡ true)

  skip_processed :
      (memo : Share → Bool) (gen : Generation) (vs : Votes T Share)
      → All (IsProcessed memo gen) (vote_list vs)
      → validate_child_votes x elders memo gen vs ≡ ok tt
  unfolding validate
  skip_processed memo gen no_votes a = refl
  skip_processed memo gen (and_vote (signed v i s) vs) a =
      ground (arith, skip_processed memo gen vs)

  -- A merge ballot over votes that carry processed signatures is valid as soon as its own signature
  -- is: the contents, the voters and the ballots of those votes are not looked at.
  pub processed_votes_unchecked :
      (memo : Share → Bool) (gen : Generation) (vs : Votes T Share) (fs : Faults T Share)
      → (voter : NodeId) (sig : Share) → All (IsProcessed memo gen) (vote_list vs)
      → validate x elders memo (signed (vote gen (merge vs) fs) voter sig)
        ≡ validate_signature x elders (signed (vote gen (merge vs) fs) voter sig)
  unfolding validate
  processed_votes_unchecked memo gen vs fs voter sig a =
      rw (skip_processed memo gen vs a)
        (unit_after (verify_sig_share x.vote_format (vote gen (merge vs) fs) sig voter elders))
    where
      unit_after : (r : Outcome Error (Unit {0})) → and_then r (λ _. ok tt) ≡ r
      unit_after (ok a) = refl
      unit_after (stop e) = refl

  -- What a node signs, the elders verify: if the key set accepts the shares of the node's key, then
  -- a vote that the node signs is that vote, in its name, with a valid signature.
  pub own_vote_verifies :
      (c : Consensus T Share Sig) (v : Vote T Share) (w : SignedVote T Share)
      → ((b : Bytes) → elders.verify_share c.id (c.secret_key.sign b) b ≡ true)
      → sign_vote x c v ≡ ok w
      → (vote_of w ≡ v) × (voter_of w ≡ c.id) × (validate_signature x elders w ≡ ok tt)
  unfolding verify_sig_share
  own_vote_verifies c v (signed u i s) k e = elim (Option-cases (x.vote_format.serialize v)) [
    | inl n ↦ ground arith
    | inr (b, h) ↦ ground (arith, k b)
  ]

  -- An undecided node that handles a new and valid vote, of a voter without a recorded fault, whose
  -- own count decides, has decided those proposals afterwards; whatever the fuel.
  proven_decision_adopted :
      (fuel : ℕ) (v : SignedVote T Share) (c : Consensus T Share Sig) (ps : List (T × Sig))
      → c.decision ≡ none
      → have_we_processed_vote x c v ≡ false
      → validate x elders (is_processed x c) v ≡ ok tt
      → get compare
          (voter_of v)
          (put_all compare c.faults (detect_byzantine_faults x elders v c.votes (is_processed x c)))
        ≡ none
      → get_decision (vote_count x v) elders ≡ ok (some ps)
      → let after = handle_signed_vote x elders fuel v c in
        (after.0 ≡ ok waiting_for_more_votes)
        × ((d : Decision T Share Sig) × (after.1.decision ≡ some d) × (d.proposals ≡ ps))
  unfolding handle_signed_vote handle check_vote process_signed_vote accept_decision
  proven_decision_adopted fuel v c ps undecided fresh valid faultless decided =
      rw (undecided, fresh, valid, faultless, decided) (refl, (_, refl, refl))

  -- Votes whose signatures have been processed are not looked at for faults.
  detect_none :
      (existing : Map (SignedVote T Share)) (memo : Share → Bool) (faults : Map (Fault T Share))
      → (vs : List (SignedVote T Share)) → All (λ w. memo (sig_of w) ≡ true) vs
      → detect_in x elders existing memo faults vs ≡ faults
  detect_none existing memo faults [] a = refl
  detect_none existing memo faults (v ∷ vs) a = rw a.0 (detect_none existing memo faults vs a.1)

  no_fault_named :
      (gen : Generation) (b : Ballot T Share) (voter : NodeId) (sig : Share)
      → is_valid_fault x elders (invalid_fault (signed (vote gen b no_faults) voter sig)) ≡ false
  unfolding validate_fault
  no_fault_named gen b voter sig = ground arith

  -- A vote of an elder of which there is no other vote, and which is not itself a fault.
  accuse-none :
      (v : SignedVote T Share) (c : Consensus T Share Sig) (f : Fault T Share)
      → have_we_processed_vote x c v ≡ false
      → get compare (voter_of v) c.votes ≡ none
      → is_valid_fault x elders f ≡ false
      → (if is_processed x c (sig_of v)
          then []
          else accuse x elders
              (voter_of v)
              f
              (accuse_changed x elders (get compare (voter_of v) c.votes) v []))
        ≡ []
  accuse-none v c f fresh unseen sound = rw (fresh, unseen, sound) refl

  -- An undecided node that handles a new vote of one elder, of which it has no vote and no fault,
  -- decides whatever the count of that vote says, if the votes below it carry processed signatures
  -- and the elder's own signature is valid: nothing ties those votes to their signatures.
  pub processed_votes_decide :
      (fuel : ℕ) (gen : Generation) (vs : Votes T Share) (voter : NodeId) (sig : Share)
      → (c : Consensus T Share Sig) (ps : List (T × Sig))
      → let v = signed (vote gen (merge vs) no_faults) voter sig in
        c.decision ≡ none
        → have_we_processed_vote x c v ≡ false
        → validate_signature x elders v ≡ ok tt
        → All (IsProcessed (is_processed x c) gen) (vote_list vs)
        → All (λ w. is_processed x c (sig_of w) ≡ true) (unpack_all vs)
        → get compare voter c.votes ≡ none
        → get compare voter c.faults ≡ none
        → get_decision (vote_count x v) elders ≡ ok (some ps)
        → let after = handle_signed_vote x elders fuel v c in
          (after.0 ≡ ok waiting_for_more_votes)
          × ((d : Decision T Share Sig) × (after.1.decision ≡ some d) × (d.proposals ≡ ps))
  unfolding unpack_votes
  processed_votes_decide fuel gen vs voter sig c ps undecided fresh valid children below unseen
        faultless decided =
      proven_decision_adopted fuel (signed (vote gen (merge vs) no_faults) voter sig) c ps undecided
        fresh
        (processed_votes_unchecked (is_processed x c) gen vs no_faults voter sig children ∙ valid)
        (ap (λ m. get compare voter (put_all compare c.faults m)) no_faults_found ∙ faultless)
        decided
    where
      no_faults_found :
          detect_byzantine_faults x elders
            (signed (vote gen (merge vs) no_faults) voter sig)
            c.votes
            (is_processed x c)
          ≡ []
      no_faults_found =
          detect_none c.votes (is_processed x c) _ (unpack_all vs) below
          ∙ accuse-none (signed (vote gen (merge vs) no_faults) voter sig) c
              (invalid_fault (signed (vote gen (merge vs) no_faults) voter sig)) fresh unseen
              (no_fault_named gen (merge vs) voter sig)
