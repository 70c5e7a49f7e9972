-- ===== src/Mvba/Abba/Termination.antt =====
-- How deep the calls of `receive_message` of src/mvba/abba/mod.rs by itself go.
use sn_consensus.Prelude.{
  ℕ, suc, ◌+◌, ◌≢◌, refl, true, Map, stop, out_of_fuel, Keeps, Keeps-pure, modify, Keeps-halt,
  InFuel, raised_InFuel, Stops-InFuel, Ends, Ends-Keeps, Ends-bind, Ends-if, ends_rules,
  keeps_rules, done, ◌>>◌,
}
use native.Mathlib.Numerals.{towards_suc}
use sn_consensus.Mvba.Tag.{Tag, NodeId}
use sn_consensus.Mvba.Hash.{Hash32}
use sn_consensus.Mvba.Abba.Message.{
  Value, PreVoteJustification, hard, soft, MainVoteJustification, abstains, no_abstain,
  MainVoteAction, DecisionAction, Action, pre_vote, main_vote, decision, Message, Extern,
}
use sn_consensus.Mvba.Abba.State.{Abba}
use sn_consensus.Mvba.Abba.Store.{add_message}
use sn_consensus.Mvba.Abba.Protocol.{
  Receiver, main_sig, set_decided, broadcast, send_pre_vote, decide, hard_pre_vote, soft_pre_vote,
  follow_main_votes, pre_vote_validity, choose_pre_vote, count_main_votes, on_main_vote,
  on_decision, on_action, receive_message,
}
use sn_consensus.Mvba.Abba.Checking.{pred_round-Keeps}
use sn_consensus.Mvba.Abba.Nesting.{
  Any, IsDecided, combine-Keeps, receive_pre-Ends, handle-Ends, add_main-Any, receive-IsDecided,
  note-Decided, note-Any,
}

module _ {Sig Share : Type 0} (x : Extern Sig Share) where
  -- Level 3: a main-vote, which may lead to a pre-vote or to a decision of this node.
  module _ (fuel : ℕ) where
    abbrev recv₂ : Receiver Sig Share
    recv₂ = receive_message x (suc (suc fuel))

    broadcast-Decided : (a : Action Sig Share) → Keeps IsDecided InFuel (broadcast x recv₂ a)
    unfolding broadcast
    broadcast-Decided a =
        search (keeps_rules, raised_InFuel, note-Decided x, receive-IsDecided x (suc fuel)) depth 10

    settle-Ends :
        (d : DecisionAction Sig) (a : Action Sig Share)
        → Ends Any (do modify (set_decided d); broadcast x recv₂ a)
    unfolding set_decided
    settle-Ends d a = record { at = λ s h. ((broadcast-Decided a).at (set_decided d s) refl).1 }

    decide-Ends :
        (r : ℕ) (v : Value) (m : Map (MainVoteAction Sig Share)) → Ends Any (decide x recv₂ r v m)
    unfolding decide
    decide-Ends r v m = Ends-bind _ _ (combine-Keeps x fuel Any _) λ u. settle-Ends _ _

    send_pre-Ends :
        (r : ℕ) (v : Value) (j : PreVoteJustification Sig) → Ends Any (send_pre_vote x recv₂ r v j)
    unfolding send_pre_vote broadcast
    send_pre-Ends r v j =
        search (ends_rules, keeps_rules, raised_InFuel, note-Any x, receive_pre-Ends x fuel) depth
          10

    main_sig-Any : (j : MainVoteJustification Sig) → Keeps Any InFuel (main_sig {Share = Share} j)
    unfolding main_sig
    main_sig-Any (no_abstain u) = Keeps-pure u
    main_sig-Any (abstains j k) = Keeps-halt _ (raised_InFuel _)

    hard-Ends :
        (r : ℕ) (v : Value) (a : MainVoteAction Sig Share) → Ends Any (hard_pre_vote x recv₂ r v a)
    unfolding hard_pre_vote
    hard-Ends r v a = Ends-bind _ _ (main_sig-Any a.justification) λ u. send_pre-Ends r v (hard u)

    soft-Ends : (r : ℕ) (m : Map (MainVoteAction Sig Share)) → Ends Any (soft_pre_vote x recv₂ r m)
    unfolding soft_pre_vote
    soft-Ends r m =
        Ends-if _ _ _
          (Ends-bind _ _ (combine-Keeps x fuel Any _) λ u. send_pre-Ends r Value.one (soft u))
          (Ends-Keeps _ (Keeps-halt _ (raised_InFuel _)))

    follow-Ends :
        (r : ℕ) (m : Map (MainVoteAction Sig Share)) → Ends Any (follow_main_votes x recv₂ r m)
    unfolding follow_main_votes
    follow-Ends r m = search (ends_rules, hard-Ends, soft-Ends) depth 6

    validity-Ends : (r : ℕ) (d : Hash32) (u : Sig) → Ends Any (pre_vote_validity x recv₂ r d u)
    unfolding pre_vote_validity
    validity-Ends r d u =
        search (ends_rules, pred_round-Keeps x, Ends-Keeps done (Keeps-pure tt), send_pre-Ends)
          depth 8

    choose_pre-Ends :
        (r : ℕ) (m : Map (MainVoteAction Sig Share)) → Ends Any (choose_pre_vote x recv₂ r m)
    unfolding choose_pre_vote
    choose_pre-Ends r m = search (ends_rules, follow-Ends, validity-Ends) depth 6

    count_main-Ends :
        (r : ℕ) (m : Map (MainVoteAction Sig Share)) → Ends Any (count_main_votes x recv₂ r m)
    unfolding count_main_votes
    count_main-Ends r m =
        search (ends_rules, Ends-Keeps done (Keeps-pure tt), decide-Ends, choose_pre-Ends) depth 8

    on_main-Ends : (a : MainVoteAction Sig Share) → Ends Any (on_main_vote x recv₂ a)
    unfolding on_main_vote
    on_main-Ends a =
        search (ends_rules, Ends-Keeps done (Keeps-pure tt), pred_round-Keeps x, count_main-Ends)
          depth 10

    on_decision-Ends : (d : DecisionAction Sig) → Ends Any (on_decision x recv₂ d)
    unfolding on_decision
    on_decision-Ends d =
        search
          (
            ends_rules,
            Ends-Keeps done (Keeps-pure tt),
            settle-Ends,
            Ends-Keeps,
            keeps_rules,
            raised_InFuel,
          )
          depth 8

  receive-Ends :
      (fuel : ℕ) (j : NodeId) (t : Tag) (a : Action Sig Share)
      → Ends Any (receive_message x (suc (suc (suc fuel))) j (record { tag = t; action = a }))
  unfolding receive_message add_message on_action
  receive-Ends fuel j t (pre_vote a) = receive_pre-Ends x (suc fuel) j t a
  receive-Ends fuel j t (main_vote a) =
      handle-Ends x Any (receive_message x (suc (suc fuel))) j
        (record { tag = t; action = main_vote a }) (add_main-Any x j a) (on_main-Ends fuel a)
  receive-Ends fuel j t (decision d) =
      handle-Ends x Any (receive_message x (suc (suc fuel))) j
        (record { tag = t; action = decision d }) (Keeps-pure true) (on_decision-Ends fuel d)

  -- Three nested calls of `receive_message` are enough for any message at any state: the call
  -- returns, fails or panics, and does not run out of fuel.
  pub receive_ends :
      (fuel : ℕ) (j : NodeId) (m : Message Sig Share) (s : Abba Sig Share)
      → (receive_message x (fuel + 3) j m s).0 ≢ stop out_of_fuel
  receive_ends fuel j m s =
      simp towards_suc (Stops-InFuel _ ((receive-Ends fuel j m.tag m.action).at s tt))
