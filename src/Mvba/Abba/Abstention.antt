-- ===== src/Mvba/Abba/Abstention.antt =====
-- What becomes of an abstaining main-vote in src/mvba/abba/mod.rs.
use sn_consensus.Prelude.{
  ℕ, zero, suc, ◌<◌, ◌≡◌, refl, none, some, ok, stop, raised, true, false, Bool, Map, List, [], ◌∷◌,
  insert, Option, keep, length, leb, get_elem?, same, same_refl, arith, Outcome, ◌∙◌, ap,
}
use sn_consensus.Keys.{Bytes}
use sn_consensus.Mvba.Broadcaster
use sn_consensus.Mvba.Tag.{NodeId, Tag-discrete}
use sn_consensus.Mvba.Hash.{Hash32}
use sn_consensus.Mvba.Abba.Message.{
  Value, MainVoteValue, PreVoteJustification, first_round_zero, with_validity, hard, soft, abstains,
  PreVoteAction, pre_vote, main_vote, Message, Error, Extern, Value-discrete,
}
use sn_consensus.Mvba.Abba.State.{Abba, module_name, threshold, pred_round, main_vote_bytes_to_sign}
use sn_consensus.Mvba.Abba.Checks.{
  check_message, check_action, check_main_vote, check_main_justification, check_share, check_just_0,
  check_just_1, check_sig,
}
use sn_consensus.Mvba.Abba.Store.{votes_at, grow_pre_votes, put_pre_vote, add_pre_vote, add_message}
use sn_consensus.Mvba.Abba.Protocol.{
  Receiver, first, pre_votes_for, set_validity, note, broadcast, send_main_vote, main_vote_abstain,
  choose_main_vote, count_pre_votes, on_pre_vote, on_action, accept, handle, receive_message,
}
use sn_consensus.Mvba.Abba.History.{vote_of, vote_of-grow, put_votes, votes_at-grow}
use sn_consensus.Mvba.Abba.Refusals.{accept_checked}
use sn_consensus.Mvba.Abba.Stability.{set_validity-record}

-- The justifications of pre-votes that follow main-votes.
abbrev pub FollowsMainVotes : {Sig : Type 0} → PreVoteJustification Sig → Type 0
FollowsMainVotes (hard u) = Unit
FollowsMainVotes (soft u) = Unit
FollowsMainVotes _ = ⊥

-- The error of a check.
abbrev unjustified : Outcome Error (Unit {0})
unjustified = stop (raised (Error.invalid_message "invalid justification for value 1 in round 1"))

one_not_zero :
    (v : Value) → same Value-discrete v Value.one ≡ true → same Value-discrete v Value.zero ≡ false
unfolding Value-discrete
one_not_zero Value.one h = refl
one_not_zero Value.zero h = cc

zero_not_one :
    (v : Value) → same Value-discrete v Value.zero ≡ true → same Value-discrete v Value.one ≡ false
unfolding Value-discrete
zero_not_one Value.one h = cc
zero_not_one Value.zero h = refl

first_positive : {V : Type 0} (m : Map V) (v : V) → first m ≡ some v → 0 < length m
first_positive [] v h = cc
first_positive (e ∷ m) v h = omega arith

module _ {A : Type 0} (p q : A → Bool) (apart : (a : A) → p a ≡ true → q a ≡ false) where
  keep-length-le : (xs : List A) → length (keep q xs) < suc (length xs)
  keep-length-le [] = omega arith
  keep-length-le (x ∷ xs) = ground (arith, keep-length-le xs)

  -- Where one list of what is kept is not empty, the other one is shorter than the whole.
  keep_shorter : (xs : List A) → 0 < length (keep p xs) → length (keep q xs) < length xs
  keep_shorter [] h = absurd (omega arith)
  keep_shorter (x ∷ xs) h = ground (arith, apart x, keep-length-le xs, keep_shorter xs)

module _ {Sig Share : Type 0} (x : Extern Sig Share) where
  just_0_same :
      (r : ℕ) (k : PreVoteJustification Sig) (s t : Abba Sig Share)
      → t.pub_key_set ≡ s.pub_key_set
      → t.tag ≡ s.tag
      → (check_just_0 x r k s).0 ≡ ok tt
      → check_just_0 x r k t ≡ (ok tt, t)
  unfolding check_just_0 check_sig pred_round
  just_0_same r first_round_zero s t e f h = refl
  just_0_same r (with_validity d u) s t e f h = cc
  just_0_same zero (hard u) s t e f h = cc
  just_0_same (suc r) (hard u) s t e f h = ground (arith, e, f)
  just_0_same r (soft u) s t e f h = cc

  just_1_refused :
      (k : PreVoteJustification Sig) (s : Abba Sig Share)
      → FollowsMainVotes k
      → check_just_1 x k s ≡ (unjustified, s)
  unfolding check_just_1
  just_1_refused first_round_zero s f = absurd f
  just_1_refused (with_validity d u) s f = absurd f
  just_1_refused (hard u) s f = refl
  just_1_refused (soft u) s f = refl

  -- The abstaining main-vote of a party in its round.
  abbrev pub abstention :
      PreVoteJustification Sig
      → PreVoteJustification Sig
      → Bytes
      → Abba Sig Share
      → Message Sig Share
  abstention k l b s = record {
    tag = s.tag;
    action = main_vote (record {
      round = s.r;
      value = MainVoteValue.abstain;
      justification = abstains k l;
      sig_share = s.sec_key_share.sign b;
    });
  }

  check_refuses :
      (k l : PreVoteJustification Sig) (b : Bytes) (s t : Abba Sig Share)
      → t.pub_key_set ≡ s.pub_key_set
      → t.tag ≡ s.tag
      → (check_just_0 x s.r k s).0 ≡ ok tt
      → FollowsMainVotes l
      → main_vote_bytes_to_sign x s.tag s.r MainVoteValue.abstain ≡ some b
      → s.pub_key_set.verify_share s.i (s.sec_key_share.sign b) b ≡ true
      → check_message x s.i (abstention k l b s) t ≡ (unjustified, t)
  unfolding check_message check_action check_main_vote check_share check_main_justification
  check_refuses k l b s t e f zero_ok follows bytes own = ground (
    arith,
    same_refl Tag-discrete s.tag,
    just_0_same s.r k s t e f zero_ok,
    just_1_refused l t follows,
    bytes,
    own,
  )

  receive_refuses :
      (fuel : ℕ) (k l : PreVoteJustification Sig) (b : Bytes) (s t : Abba Sig Share)
      → t.pub_key_set ≡ s.pub_key_set
      → t.tag ≡ s.tag
      → t.decided_value ≡ none
      → (check_just_0 x s.r k s).0 ≡ ok tt
      → FollowsMainVotes l
      → main_vote_bytes_to_sign x s.tag s.r MainVoteValue.abstain ≡ some b
      → s.pub_key_set.verify_share s.i (s.sec_key_share.sign b) b ≡ true
      → receive_message x (suc fuel) s.i (abstention k l b s) t ≡ (unjustified, t)
  unfolding receive_message handle accept
  receive_refuses fuel k l b s t e f undecided zero_ok follows bytes own =
      ground (arith, check_refuses k l b s t e f zero_ok follows bytes own)

  -- The party hands its abstention to the broadcaster, and its own check refuses it.
  send_refused :
      (fuel : ℕ) (k l : PreVoteJustification Sig) (b p : Bytes) (s : Abba Sig Share)
      → s.decided_value ≡ none
      → (check_just_0 x s.r k s).0 ≡ ok tt
      → FollowsMainVotes l
      → main_vote_bytes_to_sign x s.tag s.r MainVoteValue.abstain ≡ some b
      → s.pub_key_set.verify_share s.i (s.sec_key_share.sign b) b ≡ true
      → x.message_format.serialize (abstention k l b s) ≡ some p
      → send_main_vote x (receive_message x (suc fuel)) s.r MainVoteValue.abstain (abstains k l) s
        ≡ (unjustified, (note x p s).1)
  unfolding send_main_vote broadcast note
  send_refused fuel k l b p s undecided zero_ok follows bytes own written = ground (
    arith,
    receive_refuses fuel k l b s (note x p s).1 refl refl undecided zero_ok follows bytes own,
  )

  choose_abstains :
      (recv : Receiver Sig Share) (votes : Map (PreVoteAction Sig Share))
      (z o : PreVoteAction Sig Share) (s : Abba Sig Share)
      → first (pre_votes_for Value.zero votes) ≡ some z
      → first (pre_votes_for Value.one votes) ≡ some o
      → choose_main_vote x recv s.r votes s
        ≡ send_main_vote x recv s.r MainVoteValue.abstain
            (abstains z.justification o.justification)
            s
  unfolding choose_main_vote main_vote_abstain
  choose_abstains recv votes z o s ez eo = ground (
    arith,
    keep_shorter _ _ (λ e. one_not_zero (e.1).value) votes
        (first_positive (pre_votes_for Value.one votes) o eo),
    keep_shorter _ _ (λ e. zero_not_one (e.1).value) votes
        (first_positive (pre_votes_for Value.zero votes) z ez),
  )

  -- The state once a pre-vote has been stored at an index, and the validating data learned.
  abbrev with_pre_vote : ℕ → NodeId → PreVoteAction Sig Share → Abba Sig Share → Abba Sig Share
  with_pre_vote n j a s =
      set_validity a.justification (put_pre_vote x n j a (grow_pre_votes x a.round s))

  count_new :
      (recv : Receiver Sig Share) (n : ℕ) (votes : Map (PreVoteAction Sig Share))
      (t : Abba Sig Share)
      → t.r ≡ suc n
      → get_elem? t.round_pre_votes n ≡ some votes
      → leb (threshold t) (length votes) ≡ true
      → count_pre_votes x recv t ≡ choose_main_vote x recv t.r votes t
  unfolding count_pre_votes pred_round
  count_new recv n votes t r at_n enough = ground (arith, r, at_n, enough)

  receive_new :
      (fuel : ℕ) (s : Abba Sig Share) (j : NodeId) (m : Message Sig Share)
      (a : PreVoteAction Sig Share) (n : ℕ)
      → s.decided_value ≡ none
      → s.r ≡ suc n
      → (check_message x j m s).0 ≡ ok tt
      → m.action ≡ pre_vote a
      → a.round ≡ suc n
      → vote_of n j s.round_pre_votes ≡ none
      → receive_message x (suc fuel) j m s
        ≡ count_pre_votes x (receive_message x fuel) (with_pre_vote n j a s)
  unfolding add_message add_pre_vote pred_round grow_pre_votes put_pre_vote on_action on_pre_vote
  receive_new fuel s j m a n undecided r checked is_pre at_n new_vote = ground (
    arith,
    accept_checked x fuel j m s undecided checked,
    vote_of-grow a.round n j s.round_pre_votes,
  )

  stored_there :
      (a : PreVoteAction Sig Share) (j : NodeId) (n : ℕ) (s : Abba Sig Share)
      → a.round ≡ suc n
      → get_elem? (put_pre_vote x n j a (grow_pre_votes x a.round s)).round_pre_votes n
        ≡ some (insert j a (votes_at n s.round_pre_votes))
  unfolding put_pre_vote grow_pre_votes
  stored_there a j n s e =
      rw (votes_at-grow a.round n s.round_pre_votes) (rw e (put_votes n _ s.round_pre_votes))

  -- The whole call, with the state in which the main-vote is chosen.
  refused_at :
      (fuel : ℕ) (votes : Map (PreVoteAction Sig Share)) (z o : PreVoteAction Sig Share) (n : ℕ)
      (b p : Bytes) (s : Abba Sig Share) (w : Option (Hash32 × Sig))
      (pre : List (Map (PreVoteAction Sig Share)))
      → let t : Abba Sig Share = record s { weak_validity = w; round_pre_votes = pre } in
        s.decided_value ≡ none
        → s.r ≡ suc n
        → get_elem? pre n ≡ some votes
        → leb (threshold s) (length votes) ≡ true
        → first (pre_votes_for Value.zero votes) ≡ some z
        → first (pre_votes_for Value.one votes) ≡ some o
        → FollowsMainVotes o.justification
        → (check_just_0 x s.r z.justification s).0 ≡ ok tt
        → main_vote_bytes_to_sign x s.tag s.r MainVoteValue.abstain ≡ some b
        → s.pub_key_set.verify_share s.i (s.sec_key_share.sign b) b ≡ true
        → x.message_format.serialize (abstention z.justification o.justification b s) ≡ some p
        → count_pre_votes x (receive_message x (suc fuel)) t ≡ (unjustified, (note x p t).1)
  unfolding threshold
  refused_at fuel votes z o n b p s w pre undecided r at_n enough ez eo follows zero_ok bytes own
        written =
      count_new recv n votes t r at_n enough
      ∙ choose_abstains recv votes z o t ez eo
      ∙ send_refused fuel z.justification o.justification b p t undecided
          (ap (λ q. q.0) (just_0_same s.r z.justification s t refl refl zero_ok)) follows bytes own
          written
    where
      recv : Receiver Sig Share
      recv = receive_message x (suc fuel)

      t : Abba Sig Share
      t = record s { weak_validity = w; round_pre_votes = pre }

  -- An undecided party whose pre-votes of its round reach the threshold with a new and checked one,
  -- and are for 0 and for 1, sends a main-vote that abstains, which its own check then refuses:
  -- where the first pre-vote for 1 follows main-votes and the justification of the first one for 0
  -- passes its check. The call fails with the error of that check, the main-vote is with the
  -- broadcaster, and the round and the stored main-votes are those from before.
  pub mixed_round_stuck :
      (fuel : ℕ) (s : Abba Sig Share) (j : NodeId) (m : Message Sig Share)
      (a z o : PreVoteAction Sig Share) (n : ℕ) (votes : Map (PreVoteAction Sig Share))
      (b p : Bytes)
      → s.decided_value ≡ none
      → s.r ≡ suc n
      → (check_message x j m s).0 ≡ ok tt
      → m.action ≡ pre_vote a
      → a.round ≡ suc n
      → vote_of n j s.round_pre_votes ≡ none
      → insert j a (votes_at n s.round_pre_votes) ≡ votes
      → leb (threshold s) (length votes) ≡ true
      → first (pre_votes_for Value.zero votes) ≡ some z
      → first (pre_votes_for Value.one votes) ≡ some o
      → FollowsMainVotes o.justification
      → (check_just_0 x s.r z.justification s).0 ≡ ok tt
      → main_vote_bytes_to_sign x s.tag s.r MainVoteValue.abstain ≡ some b
      → s.pub_key_set.verify_share s.i (s.sec_key_share.sign b) b ≡ true
      → x.message_format.serialize (abstention z.justification o.justification b s) ≡ some p
      → let (result, t) = receive_message x (suc (suc fuel)) j m s in
        (result
          ≡ stop (raised (Error.invalid_message "invalid justification for value 1 in round 1")))
        × (t.broadcaster ≡ Broadcaster.broadcast s.broadcaster module_name (some s.tag.proposer) p)
        × (t.r ≡ s.r)
        × (t.round_main_votes ≡ s.round_main_votes)
  unfolding note put_pre_vote grow_pre_votes
  mixed_round_stuck fuel s j m a z o n votes b p undecided r checked is_pre at_n new_vote is_votes
        enough ez eo follows zero_ok bytes own written =
      rw
        (
          receive_new (suc fuel) s j m a n undecided r checked is_pre at_n new_vote,
          (set_validity-record x a.justification stored).1,
          refused_at fuel votes z o n b p s _ stored.round_pre_votes undecided r
              (stored_there a j n s at_n ∙ ap some is_votes) enough ez eo follows zero_ok bytes own
              written,
        )
        (refl, refl, refl, refl)
    where
      stored : Abba Sig Share
      stored = put_pre_vote x n j a (grow_pre_votes x a.round s)
