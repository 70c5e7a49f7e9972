-- ===== src/Mvba/Abba/Progress.antt =====
-- Enough main-votes of the last round decide in src/mvba/abba/mod.rs.
use sn_consensus.Prelude.{
  ℕ, suc, ◌≤◌, ◌≡◌, refl, none, some, ok, true, Bool, Map, List, [], ◌∷◌, insert, keep, length, leb,
  same, arith, ◌>>=◌, ◌∙◌, Outcome, ap, zero, Option, or_raise, ◌>>◌,
}
use sn_consensus.Keys.{Bytes}
use sn_consensus.Mvba.Tag.{NodeId}
use sn_consensus.Mvba.Abba.Message.{
  Value, value, DecisionAction, MainVoteAction, Action, main_vote, Message, Extern, Value-discrete,
  MainVoteValue-discrete, Error,
}
use sn_consensus.Mvba.Abba.State.{Abba, threshold}
use sn_consensus.Mvba.Abba.Checks.{check_message}
use sn_consensus.Mvba.Abba.Store.{votes_at, grow_main_votes, put_main_vote}
use sn_consensus.Mvba.Abba.Protocol.{
  Receiver, main_votes_for, main_shares, combine, set_decided, note, broadcast, decide,
  count_main_votes, on_action, handle, receive_message,
}
use sn_consensus.Mvba.Abba.History.{vote_of}
use sn_consensus.Mvba.Abba.Refusals.{accept_checked}
use sn_consensus.Mvba.Abba.Conflict.{with_main_vote, add_new, there, on_new}

keep-length-le : {A : Type 0} (p : A → Bool) (xs : List A) → length (keep p xs) ≤ length xs
keep-length-le p [] = omega arith
keep-length-le p (x ∷ xs) = ground (arith, keep-length-le p xs)

module _ {Sig Share : Type 0} (x : Extern Sig Share) where
  decided_ignores :
      (fuel : ℕ) (j : NodeId) (m : Message Sig Share) (d : DecisionAction Sig) (s : Abba Sig Share)
      → s.decided_value ≡ some d
      → (receive_message x fuel j m s).1 ≡ s
  unfolding receive_message handle
  decided_ignores zero j m d s e = refl
  decided_ignores (suc fuel) j m d s e = ground (arith, e)

  -- A party that has decided keeps its decision while it sends.
  written_decided :
      (fuel : ℕ) (m : Message Sig Share) (o : Option Bytes) (d : DecisionAction Sig)
      (s : Abba Sig Share)
      → s.decided_value ≡ some d
      → ((do payload ← or_raise Error.encoding o; note x payload; receive_message x fuel s.i m)
          s).1.decided_value
        ≡ some d
  unfolding note
  written_decided fuel m none d s e = e
  written_decided fuel m (some p) d s e =
      ap (λ t. t.decided_value) (decided_ignores fuel s.i m d _ e) ∙ e

  broadcast_decided :
      (fuel : ℕ) (a : Action Sig Share) (d : DecisionAction Sig) (s : Abba Sig Share)
      → s.decided_value ≡ some d
      → (broadcast x (receive_message x fuel) a s).1.decided_value ≡ some d
  unfolding broadcast
  broadcast_decided fuel a d s e = written_decided fuel (record { tag = s.tag; action = a }) _ d s e

  decide_sets :
      (fuel r : ℕ) (v : Value) (votes : Map (MainVoteAction Sig Share)) (u : Sig)
      (s : Abba Sig Share)
      → s.pub_key_set.combine_signatures (main_shares votes) ≡ some u
      → (decide x (receive_message x fuel) r v votes s).1.decided_value
        ≡ some (record { round = r; value = v; sig = u })
  unfolding decide combine set_decided
  decide_sets fuel r v votes u s e = rw e (broadcast_decided fuel _ _ _ refl)

  count_decides :
      (recv : Receiver Sig Share) (r : ℕ) (v : Value) (votes : Map (MainVoteAction Sig Share))
      (s : Abba Sig Share)
      → leb (threshold s) (length (main_votes_for (value v) votes)) ≡ true
      → leb (threshold s) (length (main_votes_for (value Value.zero) votes))
        ≡ same Value-discrete v Value.zero
      → count_main_votes x recv r votes s ≡ decide x recv r v (main_votes_for (value v) votes) s
  unfolding count_main_votes Value-discrete
  count_decides recv r Value.zero votes s e f = ground (
    arith,
    keep-length-le (λ p. same MainVoteValue-discrete (p.1).value (value Value.zero)) votes,
    e,
    f,
  )
  count_decides recv r Value.one votes s e f = ground (
    arith,
    keep-length-le (λ p. same MainVoteValue-discrete (p.1).value (value Value.one)) votes,
    e,
    f,
  )

  -- An undecided party that has, with a new and checked main-vote of the round before its own,
  -- enough main-votes for a value decides that value in that round, where the shares of those votes
  -- combine; the votes for 0 are looked at first.
  pub enough_main_votes_decide :
      (fuel : ℕ) (s : Abba Sig Share) (j : NodeId) (m : Message Sig Share)
      (a : MainVoteAction Sig Share) (n : ℕ) (v : Value) (votes : Map (MainVoteAction Sig Share))
      (u : Sig)
      → s.decided_value ≡ none
      → s.r ≡ suc (suc n)
      → (check_message x j m s).0 ≡ ok tt
      → m.action ≡ main_vote a
      → a.round ≡ suc n
      → vote_of n j s.round_main_votes ≡ none
      → insert j a (votes_at n s.round_main_votes) ≡ votes
      → leb (threshold s) (length (main_votes_for (value v) votes)) ≡ true
      → leb (threshold s) (length (main_votes_for (value Value.zero) votes))
        ≡ same Value-discrete v Value.zero
      → s.pub_key_set.combine_signatures (main_shares (main_votes_for (value v) votes)) ≡ some u
      → (receive_message x (suc fuel) j m s).1.decided_value
        ≡ some (record { round = a.round; value = v; sig = u })
  unfolding on_action put_main_vote grow_main_votes threshold
  enough_main_votes_decide fuel s j m a n v votes u undecided r checked is_main at_n new_vote
        is_votes enough zeros shares =
      ap (λ (p : Outcome Error Unit × Abba Sig Share). (p.1).decided_value) counted
      ∙ decide_sets fuel a.round v (main_votes_for (value v) votes) u t shares
    where
      recv : Receiver Sig Share
      recv = receive_message x fuel

      t : Abba Sig Share
      t = with_main_vote x n j a s

      counted :
          receive_message x (suc fuel) j m s
          ≡ decide x recv a.round v (main_votes_for (value v) votes) t
      counted =
          accept_checked x fuel j m s undecided checked
          ∙ rw is_main (
              rw (add_new x j a n s at_n new_vote) (
                on_new x recv n votes a t at_n r (there x a j n s votes at_n is_votes)
                ∙ count_decides recv a.round v votes t enough zeros))
