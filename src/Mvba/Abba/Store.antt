-- ===== src/Mvba/Abba/Store.antt =====
-- `add_message` of src/mvba/abba/mod.rs: one pre-vote and one main-vote of each party and round.
-- `get_mut_pre_votes_by_round` and `get_mut_main_votes_by_round` make the votes of the rounds up to
-- the given one, so their error for a round without votes is left out: only the index `round - 1` of
-- round 0 could reach it, which is a panic here (State.antt).
use sn_consensus.Prelude.{
  ℕ, Bool, true, false, not, List, [], Map, lookup, insert, same, get_elem?, on_option,
  if◌then◌else◌, reading, pure, modify, ◌>>=◌, ◌>>◌,
}
use sn_consensus.Mvba.Tag.{NodeId}
use sn_consensus.Mvba.Abba.Message.{
  PreVoteAction, MainVoteAction, Action, pre_vote, main_vote, decision, Extern,
  PreVoteAction-discrete, MainVoteAction-discrete,
}
use sn_consensus.Mvba.Abba.State.{Abba, Method, grow, set_at, pred_round}
use sn_consensus.Mvba.Abba.Checks.{invalid}

-- The votes at an index; no votes where there is no entry.
unfoldable pub votes_at : {V : Type 0} → ℕ → List (Map V) → Map V
votes_at n xs = on_option (get_elem? xs n) [] (λ m. m)

module _ {Sig Share : Type 0} (x : Extern Sig Share) where
  unfoldable pub grow_pre_votes : ℕ → Abba Sig Share → Abba Sig Share
  grow_pre_votes round s = record s { round_pre_votes = grow round s.round_pre_votes }

  unfoldable pub put_pre_vote :
      ℕ → NodeId → PreVoteAction Sig Share → Abba Sig Share → Abba Sig Share
  put_pre_vote n initiator a s = record s {
    round_pre_votes =
        set_at n (insert initiator a (votes_at n s.round_pre_votes)) s.round_pre_votes;
  }

  unfoldable pub add_pre_vote : NodeId → PreVoteAction Sig Share → Method Sig Share Bool
  add_pre_vote initiator a = do
    modify (grow_pre_votes a.round)
    n ← pred_round a.round
    reading λ s.
        on_option (lookup initiator (votes_at n s.round_pre_votes))
          (do modify (put_pre_vote n initiator a); pure true)
          λ exist.
            if not (same (PreVoteAction-discrete x.sig_eq) exist a)
            then invalid "double pre-vote detected"
            else pure false

  unfoldable pub grow_main_votes : ℕ → Abba Sig Share → Abba Sig Share
  grow_main_votes round s = record s { round_main_votes = grow round s.round_main_votes }

  unfoldable pub put_main_vote :
      ℕ → NodeId → MainVoteAction Sig Share → Abba Sig Share → Abba Sig Share
  put_main_vote n initiator a s = record s {
    round_main_votes =
        set_at n (insert initiator a (votes_at n s.round_main_votes)) s.round_main_votes;
  }

  unfoldable pub add_main_vote : NodeId → MainVoteAction Sig Share → Method Sig Share Bool
  add_main_vote initiator a = do
    modify (grow_main_votes a.round)
    n ← pred_round a.round
    reading λ s.
        on_option (lookup initiator (votes_at n s.round_main_votes))
          (do modify (put_main_vote n initiator a); pure true)
          λ exist.
            if not (same (MainVoteAction-discrete x.sig_eq) exist a)
            then invalid "double main-vote detected"
            else pure false

  unfoldable pub add_message : NodeId → Action Sig Share → Method Sig Share Bool
  add_message initiator (pre_vote a) = add_pre_vote initiator a
  add_message initiator (main_vote a) = add_main_vote initiator a
  add_message initiator (decision a) = pure true
