-- ===== src/Mvba/Abba/Checking.antt =====
-- The checks of src/mvba/abba/mod.rs write nothing and take no fuel.
use sn_consensus.Prelude.{
  ℕ, zero, suc, Option, Keeps, Keeps-pure, Keeps-halt, InFuel, raised_InFuel, panicked_InFuel,
  keeps_rules, String,
}
use sn_consensus.Keys.{Bytes}
use sn_consensus.Mvba.Tag.{NodeId}
use sn_consensus.Mvba.Abba.Message.{
  Value, MainVoteValue, value, PreVoteJustification, first_round_zero, hard, soft, with_validity,
  MainVoteJustification, abstains, no_abstain, Action, pre_vote, main_vote, decision, Message,
  Extern,
}
use sn_consensus.Mvba.Abba.State.{Abba, pred_round}
use sn_consensus.Mvba.Abba.Checks.{
  check_sig, check_share, check_validity, check_pre_justification, check_pre_vote, check_just_0,
  check_just_1, check_main_justification, check_main_vote, check_decision, check_action,
  check_message,
}

module _ {Sig Share : Type 0} (x : Extern Sig Share) where
  pub pred_round-Keeps : (P : Abba Sig Share → Type 0) (n : ℕ) → Keeps P InFuel (pred_round n)
  unfolding pred_round
  pred_round-Keeps P zero = Keeps-halt _ panicked_InFuel
  pred_round-Keeps P (suc n) = Keeps-pure n

  module _ (P : Abba Sig Share → Type 0) where
    check_sig-Keeps : (e : String) (u : Sig) (b : Option Bytes) → Keeps P InFuel (check_sig x e u b)
    unfolding check_sig
    check_sig-Keeps e u b = search (keeps_rules, raised_InFuel) depth 8

    check_share-Keeps :
        (j : NodeId) (h : Share) (b : Option Bytes) → Keeps P InFuel (check_share x j h b)
    unfolding check_share
    check_share-Keeps j h b = search (keeps_rules, raised_InFuel) depth 8

    check_pre-Keeps :
        (r : ℕ) (v : Value) (j : PreVoteJustification Sig)
        → Keeps P InFuel (check_pre_justification x r v j)
    unfolding check_pre_justification check_validity
    check_pre-Keeps r v first_round_zero = search (keeps_rules, raised_InFuel) depth 8
    check_pre-Keeps r v (with_validity d u) =
        search (keeps_rules, raised_InFuel, check_sig-Keeps) depth 8
    check_pre-Keeps r v (hard u) = search (keeps_rules, pred_round-Keeps P, check_sig-Keeps) depth 8
    check_pre-Keeps r v (soft u) = search (keeps_rules, pred_round-Keeps P, check_sig-Keeps) depth 8

    check_just_0-Keeps :
        (r : ℕ) (j : PreVoteJustification Sig) → Keeps P InFuel (check_just_0 x r j)
    unfolding check_just_0
    check_just_0-Keeps r first_round_zero = search keeps_rules
    check_just_0-Keeps r (with_validity d u) = search (keeps_rules, raised_InFuel)
    check_just_0-Keeps r (hard u) =
        search (keeps_rules, pred_round-Keeps P, check_sig-Keeps) depth 8
    check_just_0-Keeps r (soft u) = search (keeps_rules, raised_InFuel)

    check_just_1-Keeps : (j : PreVoteJustification Sig) → Keeps P InFuel (check_just_1 x j)
    unfolding check_just_1 check_validity
    check_just_1-Keeps first_round_zero = search (keeps_rules, raised_InFuel)
    check_just_1-Keeps (with_validity d u) = search (keeps_rules, check_sig-Keeps) depth 8
    check_just_1-Keeps (hard u) = search (keeps_rules, raised_InFuel)
    check_just_1-Keeps (soft u) = search (keeps_rules, raised_InFuel)

    check_main-Keeps :
        (r : ℕ) (v : MainVoteValue) (j : MainVoteJustification Sig)
        → Keeps P InFuel (check_main_justification x r v j)
    unfolding check_main_justification
    check_main-Keeps r (value v) (no_abstain u) = search (keeps_rules, check_sig-Keeps) depth 8
    check_main-Keeps r MainVoteValue.abstain (no_abstain u) = search (keeps_rules, raised_InFuel)
    check_main-Keeps r (value v) (abstains j k) = search (keeps_rules, raised_InFuel)
    check_main-Keeps r MainVoteValue.abstain (abstains j k) =
        search (keeps_rules, check_just_0-Keeps, check_just_1-Keeps) depth 8

    check_action-Keeps : (j : NodeId) (a : Action Sig Share) → Keeps P InFuel (check_action x j a)
    unfolding check_action check_pre_vote check_main_vote check_decision
    check_action-Keeps j (pre_vote a) =
        search (keeps_rules, check_share-Keeps, check_pre-Keeps) depth 8
    check_action-Keeps j (main_vote a) =
        search (keeps_rules, check_share-Keeps, check_main-Keeps) depth 8
    check_action-Keeps j (decision a) = search (keeps_rules, check_sig-Keeps) depth 8

    pub check-Keeps : (j : NodeId) (m : Message Sig Share) → Keeps P InFuel (check_message x j m)
    unfolding check_message
    check-Keeps j m = search (keeps_rules, raised_InFuel, check_action-Keeps) depth 8
