-- ===== src/Mvba/Abba/Preservation.antt =====
-- `receive_message`, `pre_vote_zero` and `pre_vote_one` of src/mvba/abba/mod.rs change the state
-- only by the elementary changes of `IsPreserved`.
use sn_consensus.Prelude.{
  ℕ, zero, suc, ◌≡◌, refl, none, some, Option, true, Map, length, leb, get_elem?, raised, Keeps,
  Keeps-pure, Keeps-halt, bind_at, Stops, Anyhow, Stops-Anyhow, subst, Option-cases, inl, inr,
  keeps_rules, arith, if◌then◌else◌, done, ◌>>=◌,
}
use sn_consensus.Keys.{Bytes, PublicKeySet}
use sn_consensus.Mvba.Tag.{Tag, NodeId}
use sn_consensus.Mvba.Hash.{Hash32}
use sn_consensus.Mvba.Abba.Message.{
  Value, MainVoteValue, value, PreVoteJustification, MainVoteJustification, abstains, no_abstain,
  PreVoteAction, MainVoteAction, DecisionAction, Action, pre_vote, main_vote, decision, Message,
  Error, Extern,
}
use sn_consensus.Mvba.Abba.State.{Abba, Method, threshold, pred_round}
use sn_consensus.Mvba.Abba.Checks.{check_message}
use sn_consensus.Mvba.Abba.Store.{
  grow_pre_votes, add_pre_vote, grow_main_votes, add_main_vote, add_message,
}
use sn_consensus.Mvba.Abba.Protocol.{
  Receiver, main_votes_for, main_shares, combine, main_sig, set_decided, note, broadcast,
  send_pre_vote, start, send_main_vote, main_vote_value, main_vote_abstain, choose_main_vote,
  count_pre_votes, on_pre_vote, decide, hard_pre_vote, soft_pre_vote, follow_main_votes,
  pre_vote_validity, choose_pre_vote, count_main_votes, on_main_vote, on_decision, on_action,
  accept, handle, receive_message, pre_vote_zero, pre_vote_one,
}
use sn_consensus.Mvba.Abba.Induction.{
  IsPreserved, Checked, pre_ok, main_ok, decision_ok, validity_ok, check_unchanged, message-Checked,
}

module _ {Sig Share : Type 0} (x : Extern Sig Share) (keys : PublicKeySet Sig Share) (tag : Tag)
    (P : Abba Sig Share → Type 0) (w : IsPreserved x keys tag P) where
  abbrev Good : {A : Type 0} → Method Sig Share A → Type 0
  Good = Keeps P Anyhow

  raised_ok : (e : Error) → Anyhow (raised e)
  raised_ok e = tt

  pred_round-Good : (r : ℕ) → Good (pred_round r)
  unfolding pred_round
  pred_round-Good zero = Keeps-halt _ tt
  pred_round-Good (suc r) = Keeps-pure r

  put_pre-at :
      (j : NodeId) (a : PreVoteAction Sig Share) (r : ℕ) (s : Abba Sig Share)
      → a.round ≡ r
      → pre_ok x keys tag j a ≡ true
      → P s
      → P (add_pre_vote x j a s).1 × Stops Anyhow (add_pre_vote x j a s).0
  unfolding add_pre_vote pred_round
  put_pre-at j a zero s f e h = ground (arith, w.grows_pre s a.round h)
  put_pre-at j a (suc n) s f e h = ground (
    arith,
    w.grows_pre s a.round h,
    w.puts_pre (grow_pre_votes x a.round s) n j a f e,
    raised_ok (Error.invalid_message "double pre-vote detected"),
  )

  add_pre_vote-Good :
      (j : NodeId) (a : PreVoteAction Sig Share)
      → pre_ok x keys tag j a ≡ true
      → Good (add_pre_vote x j a)
  add_pre_vote-Good j a e = record { at = λ s h. put_pre-at j a a.round s refl e h }

  put_main-at :
      (j : NodeId) (a : MainVoteAction Sig Share) (r : ℕ) (s : Abba Sig Share)
      → a.round ≡ r
      → main_ok x keys tag j a ≡ true
      → P s
      → P (add_main_vote x j a s).1 × Stops Anyhow (add_main_vote x j a s).0
  unfolding add_main_vote pred_round
  put_main-at j a zero s f e h = ground (arith, w.grows_main s a.round h)
  put_main-at j a (suc n) s f e h = ground (
    arith,
    w.grows_main s a.round h,
    w.puts_main (grow_main_votes x a.round s) n j a f e,
    raised_ok (Error.invalid_message "double main-vote detected"),
  )

  add_main_vote-Good :
      (j : NodeId) (a : MainVoteAction Sig Share)
      → main_ok x keys tag j a ≡ true
      → Good (add_main_vote x j a)
  add_main_vote-Good j a e = record { at = λ s h. put_main-at j a a.round s refl e h }

  add_message-Good :
      (j : NodeId) (a : Action Sig Share) → Checked x keys tag j a → Good (add_message x j a)
  unfolding add_message
  add_message-Good j (pre_vote a) c = add_pre_vote-Good j a c.0
  add_message-Good j (main_vote a) c = add_main_vote-Good j a c
  add_message-Good j (decision a) c = Keeps-pure true

  combine-Good : (m : Map Share) → Good (combine m)
  unfolding combine
  combine-Good m = search (keeps_rules, raised_ok)

  main_sig-Good : (j : MainVoteJustification Sig) → Good (main_sig {Share = Share} j)
  unfolding main_sig
  main_sig-Good (no_abstain u) = Keeps-pure u
  main_sig-Good (abstains j k) = Keeps-halt _ tt

  module _ (recv : Receiver Sig Share)
      (recv-Good : (j : NodeId) (m : Message Sig Share) → Good (recv j m)) where
    note-Good : (p : Bytes) → Good (note x p)
    unfolding note
    note-Good p = search (keeps_rules, w.sends)

    broadcast-Good : (a : Action Sig Share) → Good (broadcast x recv a)
    unfolding broadcast
    broadcast-Good a = search (keeps_rules, raised_ok, recv-Good, note-Good) depth 10

    send_pre_vote-Good :
        (r : ℕ) (v : Value) (j : PreVoteJustification Sig) → Good (send_pre_vote x recv r v j)
    unfolding send_pre_vote
    send_pre_vote-Good r v j = search (keeps_rules, raised_ok, broadcast-Good) depth 10

    start-Good : (v : Value) (j : PreVoteJustification Sig) → Good (start x recv v j)
    unfolding start
    start-Good v j = search (keeps_rules, raised_ok, w.marks, broadcast-Good) depth 12

    send_main_vote-Good :
        (r : ℕ) (v : MainVoteValue) (j : MainVoteJustification Sig)
        → Good (send_main_vote x recv r v j)
    unfolding send_main_vote
    send_main_vote-Good r v j = search (keeps_rules, raised_ok, w.advances, broadcast-Good) depth 10

    main_vote_value-Good :
        (r : ℕ) (v : Value) (m : Map (PreVoteAction Sig Share))
        → Good (main_vote_value x recv r v m)
    unfolding main_vote_value
    main_vote_value-Good r v m = search (keeps_rules, combine-Good, send_main_vote-Good) depth 8

    main_vote_abstain-Good :
        (r : ℕ) (z o : Option (PreVoteAction Sig Share)) → Good (main_vote_abstain x recv r z o)
    unfolding main_vote_abstain
    main_vote_abstain-Good r none o = Keeps-halt _ tt
    main_vote_abstain-Good r (some z) none = Keeps-halt _ tt
    main_vote_abstain-Good r (some z) (some o) = send_main_vote-Good r _ _

    choose_main_vote-Good :
        (r : ℕ) (m : Map (PreVoteAction Sig Share)) → Good (choose_main_vote x recv r m)
    unfolding choose_main_vote
    choose_main_vote-Good r m =
        search (keeps_rules, main_vote_value-Good, main_vote_abstain-Good) depth 8

    count_pre_votes-Good : Good (count_pre_votes x recv)
    unfolding count_pre_votes
    count_pre_votes-Good = search (keeps_rules, pred_round-Good, choose_main_vote-Good) depth 10

    on_pre_vote-Good :
        (a : PreVoteAction Sig Share)
        → validity_ok x keys tag a.justification ≡ true
        → Good (on_pre_vote x recv a)
    unfolding on_pre_vote
    on_pre_vote-Good a e = search (keeps_rules, count_pre_votes-Good, w.learns, e) depth 10

    hard_pre_vote-Good :
        (r : ℕ) (v : Value) (a : MainVoteAction Sig Share) → Good (hard_pre_vote x recv r v a)
    unfolding hard_pre_vote
    hard_pre_vote-Good r v a = search (keeps_rules, main_sig-Good, send_pre_vote-Good) depth 8

    soft_pre_vote-Good :
        (r : ℕ) (m : Map (MainVoteAction Sig Share)) → Good (soft_pre_vote x recv r m)
    unfolding soft_pre_vote
    soft_pre_vote-Good r m =
        search (keeps_rules, raised_ok, combine-Good, send_pre_vote-Good) depth 8

    follow_main_votes-Good :
        (r : ℕ) (m : Map (MainVoteAction Sig Share)) → Good (follow_main_votes x recv r m)
    unfolding follow_main_votes
    follow_main_votes-Good r m =
        search (keeps_rules, hard_pre_vote-Good, soft_pre_vote-Good) depth 8

    pre_vote_validity-Good : (r : ℕ) (d : Hash32) (u : Sig) → Good (pre_vote_validity x recv r d u)
    unfolding pre_vote_validity
    pre_vote_validity-Good r d u = search (keeps_rules, pred_round-Good, send_pre_vote-Good) depth 8

    choose_pre_vote-Good :
        (r : ℕ) (m : Map (MainVoteAction Sig Share)) → Good (choose_pre_vote x recv r m)
    unfolding choose_pre_vote
    choose_pre_vote-Good r m =
        search (keeps_rules, follow_main_votes-Good, pre_vote_validity-Good) depth 8

    -- The main-votes are those stored at the index of the round.
    decide-at :
        (s : Abba Sig Share) (k n : ℕ) (v : Value) (votes : Map (MainVoteAction Sig Share))
        → k ≡ suc n
        → get_elem? s.round_main_votes n ≡ some votes
        → leb (threshold s) (length (main_votes_for (value v) votes)) ≡ true
        → P s
        → let m : Method Sig Share Unit = decide x recv k v (main_votes_for (value v) votes) in
          P (m s).1 × Stops Anyhow (m s).0
    unfolding decide combine
    decide-at s k n v votes i e l h =
        elim (Option-cases
          (s.pub_key_set.combine_signatures (main_shares (main_votes_for (value v) votes)))) [
            | inl q ↦ rw q (h, tt)
            | inr (u, q) ↦ rw q (
                let d : DecisionAction Sig = record { round = k; value = v; sig = u } in
                (broadcast-Good (decision d)).at (set_decided d s)
                  (w.concludes s k n v votes u i e l (ground (arith, w.fixed s h, q)) h))
          ]

    count_main_votes-at :
        (s : Abba Sig Share) (k n : ℕ) (votes : Map (MainVoteAction Sig Share))
        → k ≡ suc n
        → get_elem? s.round_main_votes n ≡ some votes
        → P s
        → P (count_main_votes x recv k votes s).1
          × Stops Anyhow (count_main_votes x recv k votes s).0
    unfolding count_main_votes
    count_main_votes-at s k n votes i e h = ground (
      arith,
      decide-at s k n Value.zero votes i e,
      decide-at s k n Value.one votes i e,
      (choose_pre_vote-Good s.r votes).at s h,
    )

    on_main_vote-at :
        (s : Abba Sig Share) (a : MainVoteAction Sig Share) (r : ℕ)
        → s.r ≡ r
        → P s
        → P (on_main_vote x recv a s).1 × Stops Anyhow (on_main_vote x recv a s).0
    unfolding on_main_vote pred_round
    on_main_vote-at s a zero e h = ground arith
    on_main_vote-at s a (suc zero) e h = ground arith
    on_main_vote-at s a (suc (suc r)) e h = elim (Option-cases (get_elem? s.round_main_votes r)) [
      | inl q ↦ ground arith
      | inr (votes, q) ↦ ground (arith, count_main_votes-at s a.round r votes)
    ]

    on_decision-Good :
        (d : DecisionAction Sig) → decision_ok x keys tag d ≡ true → Good (on_decision x recv d)
    unfolding on_decision
    on_decision-Good d e = search (keeps_rules, raised_ok, broadcast-Good, w.adopts, e) depth 10

    pub on_action-Good :
        (j : NodeId) (a : Action Sig Share) → Checked x keys tag j a → Good (on_action x recv a)
    unfolding on_action
    on_action-Good j (pre_vote a) c = on_pre_vote-Good a c.1
    on_action-Good j (main_vote a) c = record { at = λ s h. on_main_vote-at s a s.r refl h }
    on_action-Good j (decision d) c = on_decision-Good d c

    take-Good :
        (j : NodeId) (a : Action Sig Share)
        → Checked x keys tag j a
        → Good (do fresh ← add_message x j a; if fresh then on_action x recv a else done)
    take-Good j a c = search (keeps_rules, add_message-Good j a c, on_action-Good j a c) depth 8

    Checked-at :
        (j : NodeId) (a : Action Sig Share) (s : Abba Sig Share)
        → P s
        → Checked x s.pub_key_set s.tag j a
        → Checked x keys tag j a
    Checked-at j a s h c =
        subst (λ t. Checked x keys t j a) (w.fixed s h).1
          (subst (λ k. Checked x k s.tag j a) (w.fixed s h).0 c)

    accept-Good : (j : NodeId) (m : Message Sig Share) → Good (accept x recv j m)
    unfolding accept
    accept-Good j m = record {
      at = λ s h.
          bind_at P Anyhow (check_message x j m) _ s (check_unchanged x j m s) h
            (Stops-Anyhow (check_message x j m s).0)
            λ u e.
              (take-Good j m.action (Checked-at j m.action s h (message-Checked x j m s e))).at s h;
    }

    handle-Good : (j : NodeId) (m : Message Sig Share) → Good (handle x recv j m)
    unfolding handle
    handle-Good j m = search (keeps_rules, accept-Good) depth 8

  pub receive-Good :
      (fuel : ℕ) (j : NodeId) (m : Message Sig Share) → Good (receive_message x fuel j m)
  unfolding receive_message
  receive-Good zero j m = Keeps-halt _ tt
  receive-Good (suc fuel) j m = handle-Good (receive_message x fuel) (receive-Good fuel) j m

  pub pre_vote_zero-Good : (fuel : ℕ) → Good (pre_vote_zero x fuel)
  unfolding pre_vote_zero
  pre_vote_zero-Good fuel = start-Good (receive_message x fuel) (receive-Good fuel) _ _

  pub pre_vote_one-Good : (fuel : ℕ) (d : Hash32) (u : Sig) → Good (pre_vote_one x fuel d u)
  unfolding pre_vote_one
  pre_vote_one-Good fuel d u = start-Good (receive_message x fuel) (receive-Good fuel) _ _
