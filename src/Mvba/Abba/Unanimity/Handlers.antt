-- ===== src/Mvba/Abba/Unanimity/Handlers.antt =====
-- The handlers of src/mvba/abba/mod.rs at a party that has only had messages for one value.
use sn_consensus.Prelude.{
  ℕ, zero, suc, ◌<◌, ◌≡◌, refl, none, some, Option, Map, All, length, leb, not, get_elem?,
  Keeps-pure, Keeps-halt, Keeps-reading, Keeps-bind, Keeps-if, Keeps-option, ap, bind_at, Anyhow,
  Stops-Anyhow, keeps_rules, arith, done,
}
use sn_consensus.Mvba.Tag.{NodeId}
use sn_consensus.Mvba.Hash.{Hash32}
use sn_consensus.Mvba.Abba.Message.{
  Value, value, PreVoteJustification, with_validity, PreVoteAction, MainVoteAction, DecisionAction,
  Action, pre_vote, main_vote, decision, Message, Extern,
}
use sn_consensus.Mvba.Abba.State.{Method, threshold, pred_round}
use sn_consensus.Mvba.Abba.Checks.{check_message}
use sn_consensus.Mvba.Abba.Protocol.{
  Receiver, first, main_votes_for, start, main_vote_value, main_vote_abstain, choose_main_vote,
  count_pre_votes, on_pre_vote, decide, hard_pre_vote, soft_pre_vote, follow_main_votes,
  pre_vote_validity, choose_pre_vote, count_main_votes, on_main_vote, on_decision, on_action,
  accept, handle, receive_message,
}
use sn_consensus.Mvba.Abba.Induction.{check_unchanged}
use sn_consensus.Mvba.Abba.History.{get-AllRounds}
use sn_consensus.Mvba.Abba.Unanimity.{
  ReadsBack, IsJustFor, IsFor, IsUnanimous, Unanimous, raised_ok, pred_round-Unanimous,
  add_message-Unanimous, combine-Unanimous, sets_decided, learns,
}
use sn_consensus.Mvba.Abba.Unanimity.Votes.{
  two_values, only_value, first_for, enough_positive, some_for_value, first_main, enough_for,
  validity_for, just_hard,
}
use sn_consensus.Mvba.Abba.Unanimity.Sending.{
  main_sig-Good, broadcast-Good, send_pre_vote-Good, start-Good, send_main_vote-Good,
}

module _ {Sig Share : Type 0} (x : Extern Sig Share) (v : Value)
    (law : ReadsBack x.message_format) where
  abbrev Good : {A : Type 0} → Method Sig Share A → Type 0
  Good = Unanimous x v

  module _ (recv : Receiver Sig Share)
      (recv-Good : (j : NodeId) (m : Message Sig Share)
        → IsFor x v m.action
        → Good (recv j m)) where
    -- The main-vote.
    main_vote_value-Good :
        (r : ℕ) (w : Value) (m : Map (PreVoteAction Sig Share))
        → w ≡ v
        → Good (main_vote_value x recv r w m)
    unfolding main_vote_value
    main_vote_value-Good r w m e =
        search
          (keeps_rules, combine-Unanimous, send_main_vote-Good x v law recv recv-Good, ap value e)
          depth 10

    main_vote_abstain-Good :
        (r : ℕ) (z o : Option (PreVoteAction Sig Share))
        → ((a : PreVoteAction Sig Share) → z ≡ some a → Value.zero ≡ v)
        → ((a : PreVoteAction Sig Share) → o ≡ some a → Value.one ≡ v)
        → Good (main_vote_abstain x recv r z o)
    unfolding main_vote_abstain
    main_vote_abstain-Good r none o hz ho = Keeps-halt _ tt
    main_vote_abstain-Good r (some z) none hz ho = Keeps-halt _ tt
    main_vote_abstain-Good r (some z) (some o) hz ho = absurd (two_values (hz z refl) (ho o refl))

    choose_main_vote-Good :
        (r : ℕ) (m : Map (PreVoteAction Sig Share))
        → All (λ e. (e.1).value ≡ v) m
        → 0 < length m
        → Good (choose_main_vote x recv r m)
    unfolding choose_main_vote
    choose_main_vote-Good r m a n =
        Keeps-if _ _ _ (λ b. main_vote_value-Good r _ _ (only_value v Value.zero m a n b))
          λ _.
            Keeps-if _ _ _ (λ b. main_vote_value-Good r _ _ (only_value v Value.one m a n b))
              λ _.
                main_vote_abstain-Good r _ _ (first_for v Value.zero m a)
                  (first_for v Value.one m a)

    count_pre_votes-Good : Good (count_pre_votes x recv)
    unfolding count_pre_votes
    count_pre_votes-Good = record {
      at = λ s h.
          (Keeps-bind _ _ (pred_round-Unanimous x v s.r) (λ n.
              Keeps-option (get_elem? s.round_pre_votes n) _ _ (Keeps-pure tt) (λ votes e.
                Keeps-if _ _ _
                  (λ b.
                    choose_main_vote-Good s.r votes
                      (get-AllRounds (λ _ p. (p.1).value ≡ v) 0 n s.round_pre_votes votes e
                        h.pre_votes)
                      (enough_positive v s (length votes) b))
                  (λ _. Keeps-pure tt)))).at
            s h;
    }

    on_pre_vote-Good :
        (a : PreVoteAction Sig Share) → IsFor x v (pre_vote a) → Good (on_pre_vote x recv a)
    unfolding on_pre_vote
    on_pre_vote-Good a f = search (keeps_rules, count_pre_votes-Good, learns x v, f.1) depth 12

    -- The next pre-vote.
    hard_pre_vote-Good :
        (r : ℕ) (w : Value) (a : MainVoteAction Sig Share)
        → w ≡ v
        → Good (hard_pre_vote x recv r w a)
    unfolding hard_pre_vote
    hard_pre_vote-Good r w a e =
        search
          (
            keeps_rules,
            main_sig-Good x v law,
            send_pre_vote-Good x v law recv recv-Good,
            just_hard v,
            e,
          )
          depth 10

    soft_pre_vote-Good :
        (r : ℕ) (m : Map (MainVoteAction Sig Share))
        → All (λ e. (e.1).value ≡ value v) m
        → 0 < length m
        → Good (soft_pre_vote x recv r m)
    unfolding soft_pre_vote
    soft_pre_vote-Good r m a n =
        Keeps-if _ _ _ (λ b. absurd (some_for_value v m a n b)) λ _. Keeps-halt _ tt

    follow_main_votes-Good :
        (r : ℕ) (m : Map (MainVoteAction Sig Share))
        → All (λ e. (e.1).value ≡ value v) m
        → 0 < length m
        → Good (follow_main_votes x recv r m)
    unfolding follow_main_votes
    follow_main_votes-Good r m a n =
        Keeps-option (first (main_votes_for (value Value.zero) m)) _ _
          (Keeps-option (first (main_votes_for (value Value.one) m)) _ _
            (soft_pre_vote-Good r m a n)
            λ b e. hard_pre_vote-Good r Value.one b (first_main v Value.one m a b e))
          λ b e. hard_pre_vote-Good r Value.zero b (first_main v Value.zero m a b e)

    pre_vote_validity-Good :
        (r : ℕ) (d : Hash32) (u : Sig)
        → Value.one ≡ v
        → IsJustFor v (with_validity d u)
        → Good (pre_vote_validity x recv r d u)
    unfolding pre_vote_validity
    pre_vote_validity-Good r d u e f =
        search
          (keeps_rules, pred_round-Unanimous x v, send_pre_vote-Good x v law recv recv-Good, e, f)
          depth 10

    choose_pre_vote-Good :
        (r : ℕ) (m : Map (MainVoteAction Sig Share))
        → All (λ e. (e.1).value ≡ value v) m
        → 0 < length m
        → Good (choose_pre_vote x recv r m)
    unfolding choose_pre_vote
    choose_pre_vote-Good r m a n = record {
      at = λ s h.
          (Keeps-option s.weak_validity _ _ (follow_main_votes-Good r m a n) λ b e.
              let (is_one, just) = validity_for v b.0 b.1 s.weak_validity e h.validity in
              pre_vote_validity-Good r b.0 b.1 is_one just).at
            s h;
    }

    decide-Good :
        (r : ℕ) (w : Value) (m : Map (MainVoteAction Sig Share))
        → w ≡ v
        → Good (decide x recv r w m)
    unfolding decide
    decide-Good r w m e =
        search
          (
            keeps_rules,
            combine-Unanimous,
            sets_decided x v,
            broadcast-Good x v law recv recv-Good,
            e,
          )
          depth 12

    count_main_votes-Good :
        (r : ℕ) (m : Map (MainVoteAction Sig Share))
        → All (λ e. (e.1).value ≡ value v) m
        → Good (count_main_votes x recv r m)
    unfolding count_main_votes
    count_main_votes-Good r m a = Keeps-reading _ λ s.
        Keeps-if (not (leb (threshold s) (length m))) _ _ (λ _. Keeps-pure tt)
          λ enough.
            Keeps-if _ _ _ (λ b. decide-Good r _ _ (enough_for v Value.zero m a s b))
              λ _.
                Keeps-if _ _ _ (λ b. decide-Good r _ _ (enough_for v Value.one m a s b))
                  λ _.
                    choose_pre_vote-Good s.r m a
                      (enough_positive v s (length m) (ground (arith, enough)))

    on_main_vote-Good : (a : MainVoteAction Sig Share) → Good (on_main_vote x recv a)
    unfolding on_main_vote
    on_main_vote-Good a = record {
      at = λ s h. ground (
        arith,
        (Keeps-bind (pred_round s.r) _ (pred_round-Unanimous x v s.r) λ before.
              Keeps-bind (pred_round before) _ (pred_round-Unanimous x v before) λ n.
                Keeps-option (get_elem? s.round_main_votes n) done
                  (λ votes. count_main_votes x recv a.round votes) (Keeps-pure tt)
                  λ votes e. count_main_votes-Good a.round votes (
                    get-AllRounds (λ _ p. (p.1).value ≡ value v) 0 n s.round_main_votes votes e
                      h.main_votes)).at
            s h,
      );
    }

    on_decision-Good : (d : DecisionAction Sig) → d.value ≡ v → Good (on_decision x recv d)
    unfolding on_decision
    on_decision-Good d e =
        search (keeps_rules, raised_ok, sets_decided x v, broadcast-Good x v law recv recv-Good, e)
          depth 12

    on_action-Good : (a : Action Sig Share) → IsFor x v a → Good (on_action x recv a)
    unfolding on_action
    on_action-Good (pre_vote a) f = on_pre_vote-Good a f
    on_action-Good (main_vote a) f = on_main_vote-Good a
    on_action-Good (decision d) f = on_decision-Good d f

    accept-Good :
        (j : NodeId) (m : Message Sig Share) → IsFor x v m.action → Good (accept x recv j m)
    unfolding accept
    accept-Good j m f = record {
      at = λ s h.
          bind_at (IsUnanimous x v) Anyhow (check_message x j m) _ s (check_unchanged x j m s) h
            (Stops-Anyhow (check_message x j m s).0)
            λ u e.
              (Keeps-bind _ _ (add_message-Unanimous x v j m.action f) λ fresh.
                  Keeps-if fresh _ _ (λ _. on_action-Good m.action f) (λ _. Keeps-pure tt)).at
                s h;
    }

    handle-Good :
        (j : NodeId) (m : Message Sig Share) → IsFor x v m.action → Good (handle x recv j m)
    unfolding handle
    handle-Good j m f = search (keeps_rules, accept-Good, f) depth 8

  pub receive-Unanimous :
      (fuel : ℕ) (j : NodeId) (m : Message Sig Share)
      → IsFor x v m.action
      → Good (receive_message x fuel j m)
  unfolding receive_message
  receive-Unanimous zero j m f = Keeps-halt _ tt
  receive-Unanimous (suc fuel) j m f =
      handle-Good (receive_message x fuel) (receive-Unanimous fuel) j m f

  pub start-Unanimous :
      (fuel : ℕ) (w : Value) (j : PreVoteJustification Sig)
      → w ≡ v
      → IsJustFor v j
      → Good (start x (receive_message x fuel) w j)
  start-Unanimous fuel w j e f =
      start-Good x v law (receive_message x fuel) (receive-Unanimous fuel) w j e f
