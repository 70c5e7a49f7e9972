-- ===== src/Mvba/Abba/Decision.antt =====
-- What a node of src/mvba/abba decides and stores, after any history of messages and proposals.
use sn_consensus.Prelude.{
  ℕ, suc, ◌≡◌, refl, none, some, Option, List, [], ◌∷◌, true, Map, All, length, leb, get_elem?,
  Option-cases, inl, inr, arith, same→eq, subst,
}
use sn_consensus.Keys.{Bytes, PublicKeySet, SecretKeyShare}
use sn_consensus.Mvba.Tag.{Tag, NodeId}
use sn_consensus.Mvba.Hash.{Hash32}
use sn_consensus.Mvba.Broadcaster.{Broadcaster}
use sn_consensus.Mvba.Abba.Message.{
  Value, MainVoteValue, value, PreVoteJustification, first_round_zero, with_validity, hard, soft,
  PreVoteAction, MainVoteAction, DecisionAction, Extern, MainVoteValue-discrete,
}
use sn_consensus.Mvba.Abba.State.{Abba, new, threshold, main_vote_bytes_to_sign}
use sn_consensus.Mvba.Abba.Store.{grow_pre_votes, put_pre_vote, grow_main_votes, put_main_vote}
use sn_consensus.Mvba.Abba.Protocol.{
  main_votes_for, main_shares, set_decided, set_voted, next_round, set_validity,
}
use sn_consensus.Mvba.Abba.Induction.{
  IsPreserved, sig_verifies, pre_ok, main_ok, decision_ok, validity_ok,
}
use sn_consensus.Mvba.Abba.History.{
  Op, run, run-Good, AllRounds, grow-AllRounds, set_at-AllRounds, get-AllRounds,
}

module _ {Sig Share : Type 0} (x : Extern Sig Share) (keys : PublicKeySet Sig Share)
    (tag : Tag) where
  -- An entry of the votes at an index: it is for that round, and its share verifies under the key
  -- of the party whose vote it is.
  abbrev pub IsPreVote : ℕ → NodeId × PreVoteAction Sig Share → Type 0
  IsPreVote n e = ((e.1).round ≡ suc n) × (pre_ok x keys tag e.0 e.1 ≡ true)

  abbrev pub IsMainVote : ℕ → NodeId × MainVoteAction Sig Share → Type 0
  IsMainVote n e = ((e.1).round ≡ suc n) × (main_ok x keys tag e.0 e.1 ≡ true)

  abbrev pub IsSigned : Option (DecisionAction Sig) → Type 0
  IsSigned none = Unit
  IsSigned (some d) = decision_ok x keys tag d ≡ true

  abbrev pub IsValidity : Option (Hash32 × Sig) → Type 0
  IsValidity none = Unit
  IsValidity (some (d, u)) = validity_ok x keys tag (with_validity d u) ≡ true

  pub record IsSound (s : Abba Sig Share) : Type 0 where
    pub keys_fixed : s.pub_key_set ≡ keys
    pub tag_fixed : s.tag ≡ tag
    pub pre_votes : AllRounds IsPreVote 0 s.round_pre_votes
    pub main_votes : AllRounds IsMainVote 0 s.round_main_votes
    pub decision_signed : IsSigned s.decided_value
    pub validity_signed : IsValidity s.weak_validity

  -- What the source relies on in blsttc: shares that all verify on some bytes combine, if they do,
  -- to a signature that verifies on them.
  abbrev pub Combines : Type 0
  Combines =
      (b : Bytes) (shares : Map Share) (u : Sig)
      → All (λ e. keys.verify_share e.0 e.1 b ≡ true) shares
      → keys.combine_signatures shares ≡ some u
      → keys.verify u b ≡ true

  main_share :
      (n : ℕ) (v : MainVoteValue) (b : Bytes) (j : NodeId) (w : MainVoteAction Sig Share)
      → main_vote_bytes_to_sign x tag (suc n) v ≡ some b
      → IsMainVote n (j, w)
      → w.value ≡ v
      → keys.verify_share j w.sig_share b ≡ true
  main_share n v b j w e h f = ground (arith, e, h)

  -- The shares of the votes for one value of one round are on the same bytes.
  chosen_shares :
      (n : ℕ) (v : MainVoteValue) (b : Bytes) (votes : Map (MainVoteAction Sig Share))
      → main_vote_bytes_to_sign x tag (suc n) v ≡ some b
      → All (IsMainVote n) votes
      → All (λ e. keys.verify_share e.0 e.1 b ≡ true) (main_shares (main_votes_for v votes))
  chosen_shares n v b [] e a = tt
  chosen_shares n v b ((j, w) ∷ votes) e a = ground (
    arith,
    chosen_shares n v b votes e,
    same→eq MainVoteValue-discrete w.value v,
    main_share n v b j w e,
  )

  -- Where the bytes do not exist, there are no such votes.
  no_bytes_no_votes :
      (n : ℕ) (v : MainVoteValue) (votes : Map (MainVoteAction Sig Share))
      → main_vote_bytes_to_sign x tag (suc n) v ≡ none
      → All (IsMainVote n) votes
      → main_votes_for v votes ≡ []
  no_bytes_no_votes n v [] e a = refl
  no_bytes_no_votes n v ((j, w) ∷ votes) e a =
      ground (arith, no_bytes_no_votes n v votes e, same→eq MainVoteValue-discrete w.value v)

  combined_signed :
      Combines
      → (s : Abba Sig Share) (k n : ℕ) (v : Value) (votes : Map (MainVoteAction Sig Share))
        (u : Sig)
      → k ≡ suc n
      → get_elem? s.round_main_votes n ≡ some votes
      → leb (threshold s) (length (main_votes_for (value v) votes)) ≡ true
      → keys.combine_signatures (main_shares (main_votes_for (value v) votes)) ≡ some u
      → IsSound s
      → sig_verifies x keys tag u (main_vote_bytes_to_sign x tag k (value v)) ≡ true
  unfolding threshold
  combined_signed law s k n v votes u i e l c h =
      let stored : All (IsMainVote n) votes =
        subst (λ r. All (IsMainVote r) votes) (omega arith)
          (get-AllRounds IsMainVote 0 n s.round_main_votes votes e h.main_votes) in
      elim (Option-cases (main_vote_bytes_to_sign x tag (suc n) (value v))) [
        | inl q ↦ absurd (ground (arith, l, no_bytes_no_votes n (value v) votes q stored))
        | inr (b, q) ↦ rw i (rw q (law b _ u (chosen_shares n (value v) b votes q stored) c))
      ]

  set_validity-IsSound :
      (s : Abba Sig Share) (j : PreVoteJustification Sig)
      → validity_ok x keys tag j ≡ true
      → IsSound s
      → IsSound (set_validity j s)
  unfolding set_validity
  set_validity-IsSound s first_round_zero c h = h
  set_validity-IsSound s (with_validity d u) c h = record {
    keys_fixed = h.keys_fixed;
    tag_fixed = h.tag_fixed;
    pre_votes = h.pre_votes;
    main_votes = h.main_votes;
    decision_signed = h.decision_signed;
    validity_signed = c;
  }
  set_validity-IsSound s (hard u) c h = h
  set_validity-IsSound s (soft u) c h = h

  pub IsSound-preserved : Combines → IsPreserved x keys tag IsSound
  unfolding grow_pre_votes put_pre_vote grow_main_votes put_main_vote set_decided set_voted
      next_round
  IsSound-preserved law = record {
    fixed = λ s h. (h.keys_fixed, h.tag_fixed);
    sends = λ s b h. ground arith;
    grows_pre = λ s n h. record {
      keys_fixed = h.keys_fixed;
      tag_fixed = h.tag_fixed;
      pre_votes = grow-AllRounds IsPreVote 0 n s.round_pre_votes h.pre_votes;
      main_votes = h.main_votes;
      decision_signed = h.decision_signed;
      validity_signed = h.validity_signed;
    };
    grows_main = λ s n h. record {
      keys_fixed = h.keys_fixed;
      tag_fixed = h.tag_fixed;
      pre_votes = h.pre_votes;
      main_votes = grow-AllRounds IsMainVote 0 n s.round_main_votes h.main_votes;
      decision_signed = h.decision_signed;
      validity_signed = h.validity_signed;
    };
    puts_pre = λ s n j a r c l h. record {
      keys_fixed = h.keys_fixed;
      tag_fixed = h.tag_fixed;
      pre_votes =
          set_at-AllRounds IsPreVote 0 n j a s.round_pre_votes (ground (arith, r, c)) h.pre_votes;
      main_votes = h.main_votes;
      decision_signed = h.decision_signed;
      validity_signed = h.validity_signed;
    };
    puts_main = λ s n j a r c l h. record {
      keys_fixed = h.keys_fixed;
      tag_fixed = h.tag_fixed;
      pre_votes = h.pre_votes;
      main_votes =
          set_at-AllRounds IsMainVote 0 n j a s.round_main_votes (ground (arith, r, c))
            h.main_votes;
      decision_signed = h.decision_signed;
      validity_signed = h.validity_signed;
    };
    adopts = λ s d c h. ground arith;
    concludes = λ s k n v votes u i e l c h. record {
      keys_fixed = h.keys_fixed;
      tag_fixed = h.tag_fixed;
      pre_votes = h.pre_votes;
      main_votes = h.main_votes;
      decision_signed = combined_signed law s k n v votes u i e l c h;
      validity_signed = h.validity_signed;
    };
    learns = λ s j c h. set_validity-IsSound s j c h;
    marks = λ s h. ground arith;
    advances = λ s h. ground arith;
  }

module _ {Sig Share : Type 0} (x : Extern Sig Share) (keys : PublicKeySet Sig Share) (tag : Tag)
    (i : NodeId) (key : SecretKeyShare Share) (b : Broadcaster) where
  pub new-IsSound : IsSound x keys tag (new tag i keys key b)
  unfolding new
  new-IsSound = record {
    keys_fixed = refl;
    tag_fixed = refl;
    pre_votes = tt;
    main_votes = tt;
    decision_signed = tt;
    validity_signed = tt;
  }

  -- After any history of messages, honest or not, and of proposed values at a new instance: each
  -- stored pre-vote and main-vote is for the round under which it is stored, with a share that
  -- verifies under the key of its party; the decision, if there is one, carries a signature that
  -- verifies on the main-vote bytes of its round and value; and the validating data, if there is
  -- any, a signature that verifies on the c-ready bytes of its digest. This holds where shares that
  -- verify combine to a signature that verifies.
  pub decisions_signed :
      Combines x keys tag
      → (fuel : ℕ) (os : List (Op Sig Share))
      → IsSound x keys tag (run x fuel os (new tag i keys key b))
  decisions_signed law fuel os =
      run-Good x fuel keys tag (IsSound x keys tag) (IsSound-preserved x keys tag law) os _
        new-IsSound
