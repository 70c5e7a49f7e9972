-- ===== src/Mvba/Abba/Stability.antt =====
-- What never changes back in src/mvba/abba: the round, a stored vote, the decision.
use sn_consensus.Prelude.{ℕ, suc, ◌≤◌, ◌≡◌, refl, none, some, Option, arith, ◌∙◌, subst, sym, subst}
use sn_consensus.Keys.{PublicKeySet}
use sn_consensus.Mvba.Tag.{Tag, NodeId}
use sn_consensus.Mvba.Hash.{Hash32}
use sn_consensus.Mvba.Abba.Message.{
  PreVoteJustification, first_round_zero, with_validity, hard, soft, PreVoteAction, MainVoteAction,
  DecisionAction, Extern,
}
use sn_consensus.Mvba.Abba.State.{Abba}
use sn_consensus.Mvba.Abba.Store.{grow_pre_votes, put_pre_vote, grow_main_votes, put_main_vote}
use sn_consensus.Mvba.Abba.Protocol.{
  set_decided, set_voted, next_round, set_validity, handle, receive_message, pre_vote_zero,
  pre_vote_one, start, broadcast, note,
}
use sn_consensus.Mvba.Abba.Induction.{IsPreserved}
use sn_consensus.Mvba.Abba.History.{
  vote_of, vote_of-grow, vote_of-put, Op, receives, votes_zero, votes_one, apply, apply-Good,
}

module _ {Sig Share : Type 0} (x : Extern Sig Share) where
  abbrev RoundFrom : Abba Sig Share → Abba Sig Share → Type 0
  RoundFrom s t = (t.pub_key_set ≡ s.pub_key_set) × (t.tag ≡ s.tag) × (s.r ≤ t.r)

  -- `set_validity` changes the validating data only.
  pub set_validity-record :
      (j : PreVoteJustification Sig) (s : Abba Sig Share)
      → (o : Option (Hash32 × Sig)) × (set_validity j s ≡ record s { weak_validity = o })
  unfolding set_validity
  set_validity-record first_round_zero s = (s.weak_validity, refl)
  set_validity-record (with_validity d u) s = (some (d, u), refl)
  set_validity-record (hard u) s = (s.weak_validity, refl)
  set_validity-record (soft u) s = (s.weak_validity, refl)

  RoundFrom-preserved : (s : Abba Sig Share) → IsPreserved x s.pub_key_set s.tag (RoundFrom s)
  unfolding grow_pre_votes put_pre_vote grow_main_votes put_main_vote set_decided set_voted
      next_round
  RoundFrom-preserved s = record {
    fixed = λ t h. (h.0, h.1);
    sends = λ t b h. h;
    grows_pre = λ t n h. h;
    grows_main = λ t n h. h;
    puts_pre = λ t n j a r c l h. h;
    puts_main = λ t n j a r c l h. h;
    adopts = λ t d c h. h;
    concludes = λ t k n v votes u i e l c h. h;
    learns = λ t j c h. subst (RoundFrom s) (sym (set_validity-record j t).1) h;
    marks = λ t h. h;
    advances = λ t h. (h.0, h.1, omega arith);
  }

  -- No message and no proposed value takes an instance back to an earlier round.
  pub round_monotone :
      (fuel : ℕ) (o : Op Sig Share) (s : Abba Sig Share) → s.r ≤ (apply x fuel o s).r
  round_monotone fuel o s =
      (apply-Good x fuel s.pub_key_set s.tag (RoundFrom s) (RoundFrom-preserved s) o s
        (refl, refl, omega arith)).2

  abbrev pub HasPreVote :
      PublicKeySet Sig Share → Tag → ℕ → NodeId → PreVoteAction Sig Share → Abba Sig Share → Type 0
  HasPreVote keys tag n p a s =
      (s.pub_key_set ≡ keys) × (s.tag ≡ tag) × (vote_of n p s.round_pre_votes ≡ some a)

  pub HasPreVote-preserved :
      (keys : PublicKeySet Sig Share) (tag : Tag) (n : ℕ) (p : NodeId) (a : PreVoteAction Sig Share)
      → IsPreserved x keys tag (HasPreVote keys tag n p a)
  unfolding grow_pre_votes put_pre_vote grow_main_votes put_main_vote set_decided set_voted
      next_round
  HasPreVote-preserved keys tag n p a = record {
    fixed = λ t h. (h.0, h.1);
    sends = λ t b h. h;
    grows_pre = λ t k h. (h.0, h.1, vote_of-grow k n p t.round_pre_votes ∙ h.2);
    grows_main = λ t n h. h;
    puts_pre = λ t k j v r c l h. (h.0, h.1, vote_of-put k n j p v a t.round_pre_votes l h.2);
    puts_main = λ t n j a r c l h. h;
    adopts = λ t d c h. h;
    concludes = λ t k m v votes u i e l c h. h;
    learns = λ t j c h. subst (HasPreVote keys tag n p a) (sym (set_validity-record j t).1) h;
    marks = λ t h. h;
    advances = λ t h. h;
  }

  abbrev HasMainVote :
      PublicKeySet Sig Share → Tag → ℕ → NodeId → MainVoteAction Sig Share → Abba Sig Share → Type 0
  HasMainVote keys tag n p a s =
      (s.pub_key_set ≡ keys) × (s.tag ≡ tag) × (vote_of n p s.round_main_votes ≡ some a)

  HasMainVote-preserved :
      (keys : PublicKeySet Sig Share) (tag : Tag) (n : ℕ) (p : NodeId)
      (a : MainVoteAction Sig Share)
      → IsPreserved x keys tag (HasMainVote keys tag n p a)
  unfolding grow_pre_votes put_pre_vote grow_main_votes put_main_vote set_decided set_voted
      next_round
  HasMainVote-preserved keys tag n p a = record {
    fixed = λ t h. (h.0, h.1);
    sends = λ t b h. h;
    grows_pre = λ t n h. h;
    grows_main = λ t k h. (h.0, h.1, vote_of-grow k n p t.round_main_votes ∙ h.2);
    puts_pre = λ t n j a r c l h. h;
    puts_main = λ t k j v r c l h. (h.0, h.1, vote_of-put k n j p v a t.round_main_votes l h.2);
    adopts = λ t d c h. h;
    concludes = λ t k m v votes u i e l c h. h;
    learns = λ t j c h. subst (HasMainVote keys tag n p a) (sym (set_validity-record j t).1) h;
    marks = λ t h. h;
    advances = λ t h. h;
  }

  -- A stored pre-vote is never replaced: whatever messages arrive and whatever is proposed, the
  -- vote of that party in that round stays.
  pub pre_vote_stable :
      (fuel : ℕ) (o : Op Sig Share) (s : Abba Sig Share) (n : ℕ) (p : NodeId)
      (a : PreVoteAction Sig Share)
      → vote_of n p s.round_pre_votes ≡ some a
      → vote_of n p (apply x fuel o s).round_pre_votes ≡ some a
  pre_vote_stable fuel o s n p a h =
      (apply-Good x fuel s.pub_key_set s.tag _ (HasPreVote-preserved s.pub_key_set s.tag n p a) o s
        (refl, refl, h)).2

  -- A stored main-vote is never replaced: whatever messages arrive and whatever is proposed, the
  -- vote of that party in that round stays.
  pub main_vote_stable :
      (fuel : ℕ) (o : Op Sig Share) (s : Abba Sig Share) (n : ℕ) (p : NodeId)
      (a : MainVoteAction Sig Share)
      → vote_of n p s.round_main_votes ≡ some a
      → vote_of n p (apply x fuel o s).round_main_votes ≡ some a
  main_vote_stable fuel o s n p a h =
      (apply-Good x fuel s.pub_key_set s.tag _ (HasMainVote-preserved s.pub_key_set s.tag n p a) o s
        (refl, refl, h)).2

  -- Once an instance has decided it keeps its decision, whatever messages arrive and whatever is
  -- proposed, with fuel for at least one call.
  pub decision_final :
      (fuel : ℕ) (d : DecisionAction Sig) (o : Op Sig Share) (s : Abba Sig Share)
      → s.decided_value ≡ some d
      → (apply x (suc fuel) o s).decided_value ≡ some d
  unfolding apply receive_message pre_vote_zero pre_vote_one handle start broadcast note set_voted
  decision_final fuel d (receives j m) s e = ground (arith, e)
  decision_final fuel d votes_zero s e = ground (arith, e)
  decision_final fuel d (votes_one h u) s e = ground (arith, e)

-- What was there is still there.
abbrev pub IsKept : {A : Type 0} → Option A → Option A → Type 0
IsKept none o = Unit
IsKept (some a) o = o ≡ some a

kept : {A : Type 0} (o p : Option A) → ((a : A) → o ≡ some a → p ≡ some a) → IsKept o p
kept none p h = tt
kept (some a) p h = h a refl

module _ {Sig Share : Type 0} (x : Extern Sig Share) where
  -- Whatever message arrives and whatever is proposed, an instance does not go back to an earlier
  -- round, and keeps its decision and the stored pre-vote and main-vote of each party in each round;
  -- with fuel for at least one call.
  pub nothing_taken_back :
      (fuel : ℕ) (o : Op Sig Share) (s : Abba Sig Share) (n : ℕ) (p : NodeId)
      → let t : Abba Sig Share = apply x (suc fuel) o s in
        IsKept (vote_of n p s.round_pre_votes) (vote_of n p t.round_pre_votes)
        × IsKept (vote_of n p s.round_main_votes) (vote_of n p t.round_main_votes)
        × IsKept s.decided_value t.decided_value
        × (s.r ≤ t.r)
  nothing_taken_back fuel o s n p = (
    kept _ _ (λ a. pre_vote_stable x (suc fuel) o s n p a),
    kept _ _ (λ a. main_vote_stable x (suc fuel) o s n p a),
    kept _ _ (λ d. decision_final x fuel d o s),
    round_monotone x (suc fuel) o s,
  )
