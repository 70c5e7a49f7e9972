-- ===== src/Mvba/Mvba/Rounds.antt =====
-- The rounds of src/mvba/mvba/mod.rs: which proposer is voted on, and when a vote is complete.
use sn_consensus.Prelude.{
  lookup-All, lookup-insert_self, ℕ, suc, zero, ◌+◌, ◌≤◌, ◌<◌, ◌≡◌, ◌≢◌, refl, Bool, true, false,
  Option, none, some, List, [], ◌∷◌, lookup, insert, any, length, get_elem?, contains_key, Anyhow,
  arith, same→eq, same_refl, ok, stop, raised, ◌⊎◌,
}
use sn_consensus.Keys.{Bytes, PublicKeySet, SecretKeyShare}
use sn_consensus.Mvba.Tag.{Domain, NodeId, Proposal, Domain-discrete}
use sn_consensus.Mvba.Broadcaster.{Broadcaster}
use sn_consensus.Mvba.Mvba.Message.{Vote, Message, Extern, Error, Vote-discrete}
use sn_consensus.Mvba.Mvba.State.{
  Mvba, new, proposer_votes, current_proposer, build_tag, threshold, completed_vote,
}
use sn_consensus.Mvba.Mvba.Checks.{
  check_message, check_vote, check_proof, record_vote, repeat_vote, first_vote, add_vote,
}
use sn_consensus.Mvba.Mvba.Voting.{
  conclude, count_vote, receive_message, make_vote, sign_vote, set_voted, store_proposal,
  set_proposal, next_round, move_to_next_proposal,
}
use sn_consensus.Mvba.Mvba.Induction.{IsPreserved, check_unchanged, receive-Good, vote-Good}
use sn_consensus.Mvba.Mvba.Ballots.{
  Op, receives, offers, moves, apply, run, run_induction, IsValid, IsProven,
}

module _ {Sig Share : Type 0} (x : Extern Sig Share) where
  -- The index and the parties are those given.
  abbrev At : ℕ → List NodeId → Mvba Sig Share → Type 0
  At l ps s = (s.l ≡ l) × (s.parties ≡ ps)

  At-preserved : (l : ℕ) (ps : List NodeId) → IsPreserved x (At l ps) Anyhow
  unfolding conclude set_voted record_vote
  At-preserved l ps = record {
    raises = λ e. tt;
    sends = λ s b h. h;
    records = λ s msg c h. h;
    concludes = λ s p h. ground arith;
    marks = λ s h. h;
  }

  -- The index stays below the number of parties.
  pub InRange : Mvba Sig Share → Type 0
  InRange s = s.l < length s.parties

  apply-InRange : (o : Op Sig Share) (s : Mvba Sig Share) → InRange s → InRange (apply x o s)
  unfolding apply InRange set_proposal store_proposal move_to_next_proposal next_round
  apply-InRange (receives m) s h = ground (
    arith,
    (receive-Good x (At s.l s.parties) Anyhow (At-preserved s.l s.parties) m).at s (refl, refl),
  )
  apply-InRange (offers p m u) s h = ground (
    arith,
    (vote-Good x (At s.l s.parties) Anyhow (At-preserved s.l s.parties)).at
        (store_proposal x p m u s),
  )
  apply-InRange moves s h = ground (
    arith,
    (vote-Good x (At (s.l + 1) s.parties) Anyhow (At-preserved (s.l + 1) s.parties)).at
        (next_round x s),
  )

  get_elem?-in_range :
      {A : Type 0} (xs : List A) (n : ℕ) → n < length xs → (a : A) × (get_elem? xs n ≡ some a)
  get_elem?-in_range [] n h = elim h [ ]
  get_elem?-in_range (a ∷ xs) zero h = (a, refl)
  get_elem?-in_range (a ∷ xs) (suc n) h = get_elem?-in_range xs n (omega arith)

  -- With at least one party, there is a current proposer after any sequence of messages, offered
  -- proposals and moves: the index never passes the last party.
  pub current_proposer_exists :
      (d : Domain) (i : NodeId) (key : SecretKeyShare Share) (keys : PublicKeySet Sig Share)
      (parties : List NodeId) (b : Broadcaster) (os : List (Op Sig Share))
      → 0 < length parties
      → let s : Mvba Sig Share = run x os (new d i key keys parties b) in
        (p : NodeId) × (current_proposer s ≡ (ok p, s))
  unfolding current_proposer InRange
  current_proposer_exists d i key keys parties b os h =
      let s : Mvba Sig Share = run x os (new d i key keys parties b) in
      let found : (p : NodeId) × (get_elem? s.parties s.l ≡ some p) =
        get_elem?-in_range s.parties s.l (
          run_induction x InRange apply-InRange os (new d i key keys parties b)
            (unfold new in h)) in
      (found.0, rw found.1 refl)

  -- A voter who has voted for a proposer and sends another vote for it is refused: when the new
  -- vote passes the checks, it differs from the stored one, the call fails with the double-vote
  -- error, and the state is as it was.
  pub double_vote_refused :
      (msg : Message Sig Share) (s : Mvba Sig Share) (exist : Vote Sig)
      → (check_message x msg s).0 ≡ ok tt
      → lookup msg.voter (proposer_votes msg.vote.tag.proposer s) ≡ some exist
      → exist ≢ msg.vote
      → receive_message x msg s ≡ (stop (raised (Error.invalid_message "double vote detected")), s)
  unfolding receive_message count_vote add_vote repeat_vote
  double_vote_refused msg s exist c e n =
      ground
        (arith, check_unchanged x msg s, same→eq (Vote-discrete x.sig_eq.sig_eq) exist msg.vote)

  -- The same vote again changes nothing and is no error.
  pub same_vote_ignored :
      (msg : Message Sig Share) (s : Mvba Sig Share)
      → (check_message x msg s).0 ≡ ok tt
      → lookup msg.voter (proposer_votes msg.vote.tag.proposer s) ≡ some msg.vote
      → receive_message x msg s ≡ (ok tt, s)
  unfolding receive_message count_vote add_vote repeat_vote
  same_vote_ignored msg s c e =
      ground (arith, check_unchanged x msg s, same_refl (Vote-discrete x.sig_eq.sig_eq) msg.vote)

  abbrev HasCompleted : Bool → Mvba Sig Share → Type 0
  HasCompleted b s = s.v ≡ some b

  HasCompleted-preserved : (b : Bool) → IsPreserved x (HasCompleted b) Anyhow
  unfolding conclude set_voted record_vote
  HasCompleted-preserved b = record {
    raises = λ e. tt;
    sends = λ s b h. h;
    records = λ s msg c h. h;
    concludes = λ s p h. ground arith;
    marks = λ s h. h;
  }

  -- Once the vote of a round is complete, its value stays the same whatever messages arrive and
  -- whatever proposals are offered, until the component moves to the next proposer.
  pub completed_vote_stable :
      (s : Mvba Sig Share) (b : Bool) (o : Op Sig Share)
      → o ≢ moves
      → completed_vote s ≡ some b
      → completed_vote (apply x o s) ≡ some b
  unfolding completed_vote apply set_proposal store_proposal
  completed_vote_stable s b (receives m) n h =
      ((receive-Good x (HasCompleted b) Anyhow (HasCompleted-preserved b) m).at s h).0
  completed_vote_stable s b (offers p m u) n h = ground (
    arith,
    (vote-Good x (HasCompleted b) Anyhow (HasCompleted-preserved b)).at (store_proposal x p m u s),
  )
  completed_vote_stable s b moves n h = absurd (n refl)

  own_vote_ok :
      (d : Domain) (keys : PublicKeySet Sig Share) (s : Mvba Sig Share) (p : NodeId) (bytes : Bytes)
      (o : Option (Proposal × Sig))
      → ((e : Proposal × Sig) → o ≡ some e → IsProven x d keys (p, e))
      → IsValid x d keys s
      → ((b : Bytes) → s.pub_key_set.verify_share s.i (s.sec_key_share.sign b) b ≡ true)
      → x.vote_format.serialize (make_vote x (build_tag s p) o) ≡ some bytes
      → (check_message x (sign_vote x (make_vote x (build_tag s p) o) bytes s) s).0 ≡ ok tt
  unfolding check_message check_vote check_proof sign_vote make_vote build_tag
  own_vote_ok d keys s p bytes none proven h law e =
      ground (arith, law bytes, same_refl Domain-discrete s.domain)
  own_vote_ok d keys s p bytes (some (m, u)) proven h law e = ground (
    arith,
    law bytes,
    same_refl Domain-discrete s.domain,
    proven (m, u) refl,
    h.domain_fixed,
    h.keys_fixed,
  )

  -- The node's own vote passes its own checks, so casting it never fails there: for a valid state
  -- with a current proposer, if a share signed with the node's key verifies, and the vote and the
  -- c-ready bytes of the node's proposal can be serialized.
  pub own_vote_accepted :
      (d : Domain) (keys : PublicKeySet Sig Share) (s : Mvba Sig Share) (p : NodeId) (bytes : Bytes)
      → IsValid x d keys s
      → ((b : Bytes) → s.pub_key_set.verify_share s.i (s.sec_key_share.sign b) b ≡ true)
      → x.vote_format.serialize (make_vote x (build_tag s p) (lookup p s.proposals)) ≡ some bytes
      → (check_message x
          (sign_vote x (make_vote x (build_tag s p) (lookup p s.proposals)) bytes s)
          s).0
        ≡ ok tt
  own_vote_accepted d keys s p bytes h law e =
      own_vote_ok d keys s p bytes (lookup p s.proposals)
        (λ e f. lookup-All (IsProven x d keys) p s.proposals e h.proposals_proven f) h law e

  proposer_votes-record :
      (msg : Message Sig Share) (s : Mvba Sig Share)
      → proposer_votes msg.vote.tag.proposer (record_vote x msg s)
        ≡ insert msg.voter msg.vote (proposer_votes msg.vote.tag.proposer s)
  unfolding proposer_votes record_vote
  proposer_votes-record msg s = rw (lookup-insert_self msg.vote.tag.proposer _ s.votes_per_proposer)

  record_vote_frame :
      (msg : Message Sig Share) (s : Mvba Sig Share)
      → (threshold (record_vote x msg s) ≡ threshold s)
        × ((record_vote x msg s).proposals ≡ s.proposals)
        × ((record_vote x msg s).v ≡ s.v)
  unfolding threshold record_vote
  record_vote_frame msg s = (refl, refl, refl)

  conclude-record :
      (msg : Message Sig Share) (s : Mvba Sig Share)
      → s.v ≡ none
      → threshold s ≤ length s.proposals
      → threshold s ≤ length (insert msg.voter msg.vote (proposer_votes msg.vote.tag.proposer s))
      → (conclude x msg.vote.tag.proposer (record_vote x msg s)).v
        ≡ some (
            any
              (λ e. (e.1).value)
              (insert msg.voter msg.vote (proposer_votes msg.vote.tag.proposer s)))
  unfolding conclude
  conclude-record msg s n p q = ground (arith, proposer_votes-record msg s, record_vote_frame msg s)

  -- The votes of any proposer complete the round of the current one. When a no-vote for some
  -- proposer, or a yes-vote for one whose proposal is stored, is the voter's first for it and brings its
  -- votes to the threshold, with as many proposals and no result yet, the result is
  -- set to whether a vote for that proposer says yes, whoever the current proposer is.
  pub any_votes_complete :
      (msg : Message Sig Share) (s : Mvba Sig Share)
      → (check_message x msg s).0 ≡ ok tt
      → lookup msg.voter (proposer_votes msg.vote.tag.proposer s) ≡ none
      → (msg.vote.value ≡ false) ⊎ (contains_key msg.vote.tag.proposer s.proposals ≡ true)
      → s.v ≡ none
      → threshold s ≤ length s.proposals
      → threshold s ≤ length (insert msg.voter msg.vote (proposer_votes msg.vote.tag.proposer s))
      → completed_vote (receive_message x msg s).1
        ≡ some (
            any
              (λ e. (e.1).value)
              (insert msg.voter msg.vote (proposer_votes msg.vote.tag.proposer s)))
  unfolding receive_message count_vote add_vote first_vote completed_vote
  any_votes_complete msg s c f v n p q =
      ground (arith, check_unchanged x msg s, conclude-record msg s n p q, record_vote_frame msg s)
