-- ===== src/Mvba/Abba/Nesting.antt =====
-- The calls of `receive_message` of src/mvba/abba/mod.rs by itself: the first two levels, which are
-- those of a node's own main-vote and of a pre-vote.
use sn_consensus.Prelude.{
  ℕ, suc, ◌≡◌, refl, none, some, Option, true, Map, length, leb, get_elem?, is_some, Keeps,
  Keeps-bind, Keeps-pure, Keeps-halt, InFuel, raised_InFuel, Ends, Ends-Keeps, Ends-bind, Ends-if,
  ends_rules, keeps_rules, arith, if◌then◌else◌, done, on_option, ◌>>=◌,
}
use sn_consensus.Keys.{Bytes}
use sn_consensus.Mvba.Tag.{Tag, NodeId}
use sn_consensus.Mvba.Abba.Message.{
  Value, MainVoteValue, MainVoteJustification, PreVoteAction, MainVoteAction, Action, pre_vote,
  main_vote, Message, Extern,
}
use sn_consensus.Mvba.Abba.State.{Abba, pred_round}
use sn_consensus.Mvba.Abba.Checks.{check_message}
use sn_consensus.Mvba.Abba.Store.{
  add_pre_vote, add_main_vote, add_message, grow_pre_votes, put_pre_vote, grow_main_votes,
  put_main_vote,
}
use sn_consensus.Mvba.Abba.Protocol.{
  Receiver, combine, set_validity, note, broadcast, send_main_vote, main_vote_value,
  main_vote_abstain, choose_main_vote, count_pre_votes, on_pre_vote, on_main_vote, on_action,
  accept, handle, receive_message,
}
use sn_consensus.Mvba.Abba.Checking.{pred_round-Keeps, check-Keeps}

module _ {Sig Share : Type 0} where
  -- The round is the given one.
  abbrev InRound : ℕ → Abba Sig Share → Type 0
  InRound r s = s.r ≡ r

  abbrev pub Any : Abba Sig Share → Type 0
  Any s = Unit

  abbrev pub IsDecided : Abba Sig Share → Type 0
  IsDecided s = is_some s.decided_value ≡ true

module _ {Sig Share : Type 0} (x : Extern Sig Share) where
  add_pre-Keeps :
      (r : ℕ) (j : NodeId) (a : PreVoteAction Sig Share)
      → Keeps (InRound r) InFuel (add_pre_vote x j a)
  unfolding add_pre_vote grow_pre_votes put_pre_vote
  add_pre-Keeps r j a = search (keeps_rules, raised_InFuel, pred_round-Keeps x) depth 10

  add_main-Keeps :
      (r : ℕ) (j : NodeId) (a : MainVoteAction Sig Share)
      → Keeps (InRound r) InFuel (add_main_vote x j a)
  unfolding add_main_vote grow_main_votes put_main_vote
  add_main-Keeps r j a = search (keeps_rules, raised_InFuel, pred_round-Keeps x) depth 10

  note-Keeps : (r : ℕ) (p : Bytes) → Keeps (InRound r) InFuel (note x p)
  unfolding note
  note-Keeps r p = record { at = λ s h. (h, tt) }

  -- Level 1: a main-vote for the current round, which only goes to the store.
  on_main_own :
      (recv : Receiver Sig Share) (r : ℕ) (a : MainVoteAction Sig Share)
      → a.round ≡ r
      → Keeps (InRound r) InFuel (on_main_vote x recv a)
  unfolding on_main_vote
  on_main_own recv r a e = record { at = λ s h. ground (arith, e, h) }

  take-Keeps :
      (P : Abba Sig Share → Type 0) (recv : Receiver Sig Share) (j : NodeId) (a : Action Sig Share)
      → Keeps P InFuel (add_message x j a)
      → Keeps P InFuel (on_action x recv a)
      → Keeps P InFuel (do fresh ← add_message x j a; if fresh then on_action x recv a else done)
  take-Keeps P recv j a k l = search (keeps_rules, k, l) depth 8

  take-Ends :
      (P : Abba Sig Share → Type 0) (recv : Receiver Sig Share) (j : NodeId) (a : Action Sig Share)
      → Keeps P InFuel (add_message x j a)
      → Ends P (on_action x recv a)
      → Ends P (do fresh ← add_message x j a; if fresh then on_action x recv a else done)
  take-Ends P recv j a k l =
      Ends-bind _ _ k λ fresh. Ends-if fresh _ _ l (Ends-Keeps done (Keeps-pure tt))

  handle-Keeps :
      (P : Abba Sig Share → Type 0) (recv : Receiver Sig Share) (j : NodeId) (m : Message Sig Share)
      → Keeps P InFuel (add_message x j m.action)
      → Keeps P InFuel (on_action x recv m.action)
      → Keeps P InFuel (handle x recv j m)
  unfolding handle accept
  handle-Keeps P recv j m k l = record {
    at = λ s h. ground (
      arith,
      h,
      (Keeps-bind (check_message x j m) _ (check-Keeps x P j m)
            (λ _. take-Keeps P recv j m.action k l)).at
          s h,
    );
  }

  pub handle-Ends :
      (P : Abba Sig Share → Type 0) (recv : Receiver Sig Share) (j : NodeId) (m : Message Sig Share)
      → Keeps P InFuel (add_message x j m.action)
      → Ends P (on_action x recv m.action)
      → Ends P (handle x recv j m)
  unfolding handle accept
  handle-Ends P recv j m k l = record {
    at = λ s h. ground (
      arith,
      h,
      (Ends-bind (check_message x j m) _ (check-Keeps x P j m)
            (λ _. take-Ends P recv j m.action k l)).at
          s h,
    );
  }

  receive_main_own :
      (fuel r : ℕ) (j : NodeId) (t : Tag) (a : MainVoteAction Sig Share)
      → a.round ≡ r
      → Keeps
          (InRound r)
          InFuel
          (receive_message x (suc fuel) j (record { tag = t; action = main_vote a }))
  unfolding receive_message add_message on_action
  receive_main_own fuel r j t a e =
      handle-Keeps (InRound r) (receive_message x fuel) j (record { tag = t; action = main_vote a })
        (add_main-Keeps r j a) (on_main_own (receive_message x fuel) r a e)

  -- Level 2: a pre-vote, which may lead to a main-vote of this node.
  module _ (fuel : ℕ) where
    abbrev recv : Receiver Sig Share
    recv = receive_message x (suc fuel)

    pub combine-Keeps : (P : Abba Sig Share → Type 0) (m : Map Share) → Keeps P InFuel (combine m)
    unfolding combine
    combine-Keeps P m = search (keeps_rules, raised_InFuel)

    broadcast_main-Keeps :
        (r : ℕ) (a : MainVoteAction Sig Share)
        → a.round ≡ r
        → Keeps (InRound r) InFuel (broadcast x recv (main_vote a))
    unfolding broadcast
    broadcast_main-Keeps r a e = search (keeps_rules, raised_InFuel, note-Keeps, own) depth 10
      where
        own :
            (j : NodeId) (t : Tag)
            → Keeps (InRound r) InFuel (recv j (record { tag = t; action = main_vote a }))
        own j t = receive_main_own fuel r j t a e

    send_main-Ends :
        (r : ℕ) (v : MainVoteValue) (j : MainVoteJustification Sig)
        → Ends (InRound r) (send_main_vote x recv r v j)
    unfolding send_main_vote
    send_main-Ends r v j =
        search (ends_rules, keeps_rules, raised_InFuel, broadcast_main-Keeps) depth 10

    main_value-Ends :
        (r : ℕ) (v : Value) (m : Map (PreVoteAction Sig Share))
        → Ends (InRound r) (main_vote_value x recv r v m)
    unfolding main_vote_value
    main_value-Ends r v m = Ends-bind _ _ (combine-Keeps _ _) λ u. send_main-Ends r _ _

    abstain-Ends :
        (r : ℕ) (z o : Option (PreVoteAction Sig Share))
        → Ends (InRound r) (main_vote_abstain x recv r z o)
    unfolding main_vote_abstain
    abstain-Ends r none o = Ends-Keeps _ (Keeps-halt _ (raised_InFuel _))
    abstain-Ends r (some z) none = Ends-Keeps _ (Keeps-halt _ (raised_InFuel _))
    abstain-Ends r (some z) (some o) = send_main-Ends r _ _

    choose_main-Ends :
        (r : ℕ) (m : Map (PreVoteAction Sig Share)) → Ends (InRound r) (choose_main_vote x recv r m)
    unfolding choose_main_vote
    choose_main-Ends r m = search (ends_rules, main_value-Ends, abstain-Ends) depth 6

    count_rest-Ends :
        (r t : ℕ) (o : Option (Map (PreVoteAction Sig Share)))
        → Ends
            (InRound r)
            (on_option o done λ m. if leb t (length m) then choose_main_vote x recv r m else done)
    count_rest-Ends r t none = Ends-Keeps done (Keeps-pure tt)
    count_rest-Ends r t (some m) =
        Ends-if (leb t (length m)) _ _ (choose_main-Ends r m) (Ends-Keeps done (Keeps-pure tt))

    count_pre-Ends : Ends Any (count_pre_votes x recv)
    unfolding count_pre_votes
    count_pre-Ends = record {
      at = λ s h.
          (Ends-bind (pred_round s.r) _ (pred_round-Keeps x (InRound s.r) s.r)
              (λ n. count_rest-Ends s.r _ (get_elem? s.round_pre_votes n))).at
            s refl;
    }

    on_pre-Ends : (a : PreVoteAction Sig Share) → Ends Any (on_pre_vote x recv a)
    unfolding on_pre_vote
    on_pre-Ends a = record {
      at = λ s h. ground (arith, count_pre-Ends.at (set_validity a.justification s));
    }

  add_pre-Any : (j : NodeId) (a : PreVoteAction Sig Share) → Keeps Any InFuel (add_pre_vote x j a)
  unfolding add_pre_vote grow_pre_votes put_pre_vote
  add_pre-Any j a = search (keeps_rules, raised_InFuel, pred_round-Keeps x) depth 10

  pub add_main-Any :
      (j : NodeId) (a : MainVoteAction Sig Share) → Keeps Any InFuel (add_main_vote x j a)
  unfolding add_main_vote grow_main_votes put_main_vote
  add_main-Any j a = search (keeps_rules, raised_InFuel, pred_round-Keeps x) depth 10

  pub receive_pre-Ends :
      (fuel : ℕ) (j : NodeId) (t : Tag) (a : PreVoteAction Sig Share)
      → Ends Any (receive_message x (suc (suc fuel)) j (record { tag = t; action = pre_vote a }))
  unfolding receive_message add_message on_action
  receive_pre-Ends fuel j t a =
      handle-Ends Any (receive_message x (suc fuel)) j (record { tag = t; action = pre_vote a })
        (add_pre-Any j a) (on_pre-Ends fuel a)

  -- A node that has decided ignores a message.
  pub receive-IsDecided :
      (fuel : ℕ) (j : NodeId) (m : Message Sig Share)
      → Keeps IsDecided InFuel (receive_message x (suc fuel) j m)
  unfolding receive_message handle
  receive-IsDecided fuel j m = record { at = λ s h. ground (arith, h) }

  pub note-Decided : (p : Bytes) → Keeps IsDecided InFuel (note x p)
  unfolding note
  note-Decided p = record { at = λ s h. (h, tt) }

  pub note-Any : (p : Bytes) → Keeps Any InFuel (note x p)
  unfolding note
  note-Any p = record { at = λ s h. (tt, tt) }
