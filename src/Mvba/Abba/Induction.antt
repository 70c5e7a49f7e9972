-- ===== src/Mvba/Abba/Induction.antt =====
-- Every way in which a message or a proposed value changes the state of src/mvba/abba/mod.rs, as
-- one principle: what is preserved by each elementary change is preserved on every path.
use sn_consensus.Prelude.{
  ℕ, zero, suc, ◌≡◌, refl, none, some, Option, true, false, Bool, Map, lookup, length, leb,
  get_elem?, ok, arith,
}
use sn_consensus.Keys.{Bytes, PublicKeySet}
use sn_consensus.Mvba.Tag.{Tag, NodeId}
use sn_consensus.Mvba.Broadcaster.{Broadcaster}
use sn_consensus.Mvba.Vcbc.Message.{c_ready_bytes_to_sign}
use sn_consensus.Mvba.Abba.Message.{
  Value, MainVoteValue, value, PreVoteJustification, first_round_zero, with_validity, hard, soft,
  MainVoteJustification, abstains, no_abstain, PreVoteAction, MainVoteAction, DecisionAction,
  Action, pre_vote, main_vote, decision, Message, Extern,
}
use sn_consensus.Mvba.Abba.State.{
  Abba, threshold, pred_round, pre_vote_bytes_to_sign, main_vote_bytes_to_sign,
}
use sn_consensus.Mvba.Abba.Checks.{
  check_sig, check_share, check_validity, check_pre_justification, check_pre_vote, check_just_0,
  check_just_1, check_main_justification, check_main_vote, check_decision, check_action,
  check_message,
}
use sn_consensus.Mvba.Abba.Store.{
  votes_at, grow_pre_votes, put_pre_vote, grow_main_votes, put_main_vote,
}
use sn_consensus.Mvba.Abba.Protocol.{
  main_votes_for, main_shares, set_decided, set_voted, next_round, set_validity,
}

module _ {Sig Share : Type 0} (x : Extern Sig Share) (keys : PublicKeySet Sig Share)
    (tag : Tag) where
  -- Signatures that verify, of a share and of a combined signature, on bytes that may not exist.
  abbrev pub share_verifies : NodeId → Share → Option Bytes → Bool
  share_verifies j sh none = false
  share_verifies j sh (some b) = keys.verify_share j sh b

  abbrev pub sig_verifies : Sig → Option Bytes → Bool
  sig_verifies u none = false
  sig_verifies u (some b) = keys.verify u b

  abbrev pub pre_ok : NodeId → PreVoteAction Sig Share → Bool
  pre_ok j a = share_verifies j a.sig_share (pre_vote_bytes_to_sign x tag a.round a.value)

  abbrev pub main_ok : NodeId → MainVoteAction Sig Share → Bool
  main_ok j a = share_verifies j a.sig_share (main_vote_bytes_to_sign x tag a.round a.value)

  abbrev pub decision_ok : DecisionAction Sig → Bool
  decision_ok d = sig_verifies d.sig (main_vote_bytes_to_sign x tag d.round (value d.value))

  -- The validating data of a pre-vote for 1; the other justifications have none.
  abbrev pub validity_ok : PreVoteJustification Sig → Bool
  validity_ok (with_validity digest u) =
      sig_verifies u (c_ready_bytes_to_sign x.ready_format tag digest)
  validity_ok _ = true

  -- What the checks of a message establish.
  abbrev pub Checked : NodeId → Action Sig Share → Type 0
  Checked j (pre_vote a) = (pre_ok j a ≡ true) × (validity_ok a.justification ≡ true)
  Checked j (main_vote a) = main_ok j a ≡ true
  Checked j (decision d) = decision_ok d ≡ true

  pub record IsPreserved (P : Abba Sig Share → Type 0) : Type 0 where
    pub fixed : (s : Abba Sig Share) → P s → (s.pub_key_set ≡ keys) × (s.tag ≡ tag)
    pub sends : (s : Abba Sig Share) (b : Broadcaster) → P s → P (record s { broadcaster = b })
    pub grows_pre : (s : Abba Sig Share) (n : ℕ) → P s → P (grow_pre_votes x n s)
    pub grows_main : (s : Abba Sig Share) (n : ℕ) → P s → P (grow_main_votes x n s)
    pub puts_pre :
        (s : Abba Sig Share) (n : ℕ) (j : NodeId) (a : PreVoteAction Sig Share)
        → a.round ≡ suc n
        → pre_ok j a ≡ true
        → lookup j (votes_at n s.round_pre_votes) ≡ none
        → P s
        → P (put_pre_vote x n j a s)
    pub puts_main :
        (s : Abba Sig Share) (n : ℕ) (j : NodeId) (a : MainVoteAction Sig Share)
        → a.round ≡ suc n
        → main_ok j a ≡ true
        → lookup j (votes_at n s.round_main_votes) ≡ none
        → P s
        → P (put_main_vote x n j a s)
    pub adopts :
        (s : Abba Sig Share) (d : DecisionAction Sig)
        → decision_ok d ≡ true
        → P s
        → P (set_decided d s)
    pub concludes :
        (s : Abba Sig Share) (k n : ℕ) (v : Value) (votes : Map (MainVoteAction Sig Share))
        (u : Sig)
        → k ≡ suc n
        → get_elem? s.round_main_votes n ≡ some votes
        → leb (threshold s) (length (main_votes_for (value v) votes)) ≡ true
        → keys.combine_signatures (main_shares (main_votes_for (value v) votes)) ≡ some u
        → P s
        → P (set_decided (record { round = k; value = v; sig = u }) s)
    pub learns :
        (s : Abba Sig Share) (j : PreVoteJustification Sig)
        → validity_ok j ≡ true
        → P s
        → P (set_validity j s)
    pub marks : (s : Abba Sig Share) → P s → P (set_voted s)
    pub advances : (s : Abba Sig Share) → P s → P (next_round s)

module _ {Sig Share : Type 0} (x : Extern Sig Share) where
  -- The checks write nothing.
  check_pre_unchanged :
      (r : ℕ) (v : Value) (j : PreVoteJustification Sig) (s : Abba Sig Share)
      → (check_pre_justification x r v j s).1 ≡ s
  unfolding check_pre_justification check_validity check_sig pred_round
  check_pre_unchanged r v first_round_zero s = ground arith
  check_pre_unchanged r v (with_validity d u) s = ground arith
  check_pre_unchanged zero v (hard u) s = ground arith
  check_pre_unchanged (suc r) v (hard u) s = ground arith
  check_pre_unchanged zero v (soft u) s = ground arith
  check_pre_unchanged (suc r) v (soft u) s = ground arith

  check_just_1_unchanged :
      (j : PreVoteJustification Sig) (s : Abba Sig Share) → (check_just_1 x j s).1 ≡ s
  unfolding check_just_1 check_validity check_sig
  check_just_1_unchanged first_round_zero s = refl
  check_just_1_unchanged (with_validity d u) s = ground arith
  check_just_1_unchanged (hard u) s = refl
  check_just_1_unchanged (soft u) s = refl

  check_just_0_unchanged :
      (r : ℕ) (j : PreVoteJustification Sig) (s : Abba Sig Share) → (check_just_0 x r j s).1 ≡ s
  unfolding check_just_0 check_sig pred_round
  check_just_0_unchanged r first_round_zero s = refl
  check_just_0_unchanged r (with_validity d u) s = refl
  check_just_0_unchanged zero (hard u) s = refl
  check_just_0_unchanged (suc r) (hard u) s = ground arith
  check_just_0_unchanged r (soft u) s = refl

  check_main_unchanged :
      (r : ℕ) (v : MainVoteValue) (j : MainVoteJustification Sig) (s : Abba Sig Share)
      → (check_main_justification x r v j s).1 ≡ s
  unfolding check_main_justification check_sig
  check_main_unchanged r (value v) (no_abstain u) s = ground arith
  check_main_unchanged r MainVoteValue.abstain (no_abstain u) s = refl
  check_main_unchanged r (value v) (abstains j k) s = refl
  check_main_unchanged r MainVoteValue.abstain (abstains j k) s =
      ground (arith, check_just_0_unchanged r j s, check_just_1_unchanged k s)

  check_action_unchanged :
      (j : NodeId) (a : Action Sig Share) (s : Abba Sig Share) → (check_action x j a s).1 ≡ s
  unfolding check_action check_pre_vote check_main_vote check_decision check_share check_sig
  check_action_unchanged j (pre_vote a) s =
      ground (arith, check_pre_unchanged a.round a.value a.justification s)
  check_action_unchanged j (main_vote a) s =
      ground (arith, check_main_unchanged a.round a.value a.justification s)
  check_action_unchanged j (decision a) s = ground arith

  pub check_unchanged :
      (j : NodeId) (m : Message Sig Share) (s : Abba Sig Share) → (check_message x j m s).1 ≡ s
  unfolding check_message
  check_unchanged j m s = ground (arith, check_action_unchanged j m.action s)

  -- A message that passes them is signed by its sender, or carries a signature that verifies.
  validity_checked :
      (r : ℕ) (v : Value) (j : PreVoteJustification Sig) (s : Abba Sig Share)
      → (check_pre_justification x r v j s).0 ≡ ok tt
      → validity_ok x s.pub_key_set s.tag j ≡ true
  unfolding check_pre_justification check_validity check_sig
  validity_checked r v first_round_zero s e = refl
  validity_checked r v (with_validity d u) s e = ground arith
  validity_checked r v (hard u) s e = refl
  validity_checked r v (soft u) s e = refl

  action-Checked :
      (j : NodeId) (a : Action Sig Share) (s : Abba Sig Share)
      → (check_action x j a s).0 ≡ ok tt
      → Checked x s.pub_key_set s.tag j a
  unfolding check_action check_pre_vote check_main_vote check_decision check_share check_sig
  action-Checked j (pre_vote a) s e =
      ground (arith, validity_checked a.round a.value a.justification s)
  action-Checked j (main_vote a) s e = ground arith
  action-Checked j (decision a) s e = ground arith

  pub message-Checked :
      (j : NodeId) (m : Message Sig Share) (s : Abba Sig Share)
      → (check_message x j m s).0 ≡ ok tt
      → Checked x s.pub_key_set s.tag j m.action
  unfolding check_message
  message-Checked j m s e = ground (arith, action-Checked j m.action s)
