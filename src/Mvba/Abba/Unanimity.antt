-- ===== src/Mvba/Abba/Unanimity.antt =====
-- A party of src/mvba/abba that has only had messages for one value: what it holds and what it
-- sends is for that value.
pub mod Votes
pub mod Sending
pub mod Handlers
use sn_consensus.Prelude.{
  ℕ, zero, suc, ◌≡◌, ◌≢◌, refl, none, some, Option, true, false, Map, List, [], ◌∷◌, All, All-++,
  length, leb, get_elem?, on_option, raised, Keeps, Keeps-pure, Keeps-halt, Keeps-or_raise, bind_at,
  Stops, Anyhow, Stops-Anyhow, Option-cases, inl, inr, keeps_rules, arith, same, same→eq, ◌==◌,
  if◌then◌else◌, done, ◌>>=◌,
}
use sn_consensus.Keys.{Bytes, Format}
use sn_consensus.Mvba.Tag.{NodeId}
use sn_consensus.Mvba.Hash.{Hash32}
use sn_consensus.Mvba.Broadcaster.{Bundle, Outgoing, gossip, direct}
use sn_consensus.Mvba.Broadcaster
use sn_consensus.Mvba.Abba.Message.{
  Value, MainVoteValue, value, PreVoteJustification, first_round_zero, with_validity, hard, soft,
  MainVoteJustification, abstains, no_abstain, PreVoteAction, MainVoteAction, DecisionAction,
  Action, pre_vote, main_vote, decision, Message, Error, Extern, Value-discrete,
  MainVoteValue-discrete,
}
use sn_consensus.Mvba.Abba.State.{Abba, Method, threshold, pred_round}
use sn_consensus.Mvba.Abba.Store.{
  grow_pre_votes, put_pre_vote, add_pre_vote, grow_main_votes, put_main_vote, add_main_vote,
  add_message,
}
use sn_consensus.Mvba.Abba.Protocol.{
  Receiver, first, pre_votes_for, main_votes_for, combine, set_decided, set_voted, next_round,
  set_validity,
}
use sn_consensus.Mvba.Abba.History.{AllRounds, grow-AllRounds, set_at-AllRounds, get-AllRounds}

-- What the source relies on in `bincode`: what it writes, it reads back.
abbrev pub ReadsBack : {A : Type 0} → Format A → Type 0
ReadsBack {A} f = (a : A) (b : Bytes) → f.serialize a ≡ some b → f.deserialize b ≡ some a

-- Validating data goes with the value 1 only.
abbrev pub IsJustFor : {Sig : Type 0} → Value → PreVoteJustification Sig → Type 0
IsJustFor Value.zero (with_validity d u) = ⊥
IsJustFor _ _ = Unit

abbrev pub IsValidityFor : {Sig : Type 0} → Value → Option (Hash32 × Sig) → Type 0
IsValidityFor Value.zero (some _) = ⊥
IsValidityFor _ _ = Unit

module _ {Sig Share : Type 0} (x : Extern Sig Share) (v : Value) where
  -- A message for the value.
  abbrev pub IsFor : Action Sig Share → Type 0
  IsFor (pre_vote a) = (a.value ≡ v) × IsJustFor v a.justification
  IsFor (main_vote a) = a.value ≡ value v
  IsFor (decision d) = d.value ≡ v

  -- What stands in the broadcaster can be read, and is a message for the value.
  abbrev pub IsSending : Outgoing → Type 0
  IsSending (gossip b) =
      (m : Message Sig Share) × (x.message_format.deserialize b.payload ≡ some m) × IsFor m.action
  IsSending (direct _ b) = ⊥

  abbrev pub IsDecidedFor : Option (DecisionAction Sig) → Type 0
  IsDecidedFor none = Unit
  IsDecidedFor (some d) = d.value ≡ v

  abbrev PreFor : ℕ → NodeId × PreVoteAction Sig Share → Type 0
  PreFor n e = (e.1).value ≡ v

  abbrev MainFor : ℕ → NodeId × MainVoteAction Sig Share → Type 0
  MainFor n e = (e.1).value ≡ value v

  pub record IsUnanimous (s : Abba Sig Share) : Type 0 where
    pub pre_votes : AllRounds PreFor 0 s.round_pre_votes
    pub main_votes : AllRounds MainFor 0 s.round_main_votes
    pub decided : IsDecidedFor s.decided_value
    pub validity : IsValidityFor v s.weak_validity
    pub sent : All IsSending s.broadcaster.outgoings

  abbrev pub Unanimous : {A : Type 0} → Method Sig Share A → Type 0
  Unanimous = Keeps IsUnanimous Anyhow

  pub raised_ok : (e : Error) → Anyhow (raised e)
  raised_ok e = tt

  -- Storing votes for the value.
  grows_pre : (s : Abba Sig Share) (n : ℕ) → IsUnanimous s → IsUnanimous (grow_pre_votes x n s)
  unfolding grow_pre_votes
  grows_pre s n h = record {
    pre_votes = grow-AllRounds PreFor 0 n s.round_pre_votes h.pre_votes;
    main_votes = h.main_votes;
    decided = h.decided;
    validity = h.validity;
    sent = h.sent;
  }

  grows_main : (s : Abba Sig Share) (n : ℕ) → IsUnanimous s → IsUnanimous (grow_main_votes x n s)
  unfolding grow_main_votes
  grows_main s n h = record {
    pre_votes = h.pre_votes;
    main_votes = grow-AllRounds MainFor 0 n s.round_main_votes h.main_votes;
    decided = h.decided;
    validity = h.validity;
    sent = h.sent;
  }

  puts_pre :
      (s : Abba Sig Share) (n : ℕ) (j : NodeId) (a : PreVoteAction Sig Share)
      → a.value ≡ v
      → IsUnanimous s
      → IsUnanimous (put_pre_vote x n j a s)
  unfolding put_pre_vote
  puts_pre s n j a e h = record {
    pre_votes = set_at-AllRounds PreFor 0 n j a s.round_pre_votes e h.pre_votes;
    main_votes = h.main_votes;
    decided = h.decided;
    validity = h.validity;
    sent = h.sent;
  }

  puts_main :
      (s : Abba Sig Share) (n : ℕ) (j : NodeId) (a : MainVoteAction Sig Share)
      → a.value ≡ value v
      → IsUnanimous s
      → IsUnanimous (put_main_vote x n j a s)
  unfolding put_main_vote
  puts_main s n j a e h = record {
    pre_votes = h.pre_votes;
    main_votes = set_at-AllRounds MainFor 0 n j a s.round_main_votes e h.main_votes;
    decided = h.decided;
    validity = h.validity;
    sent = h.sent;
  }

  pub pred_round-Unanimous : (r : ℕ) → Unanimous (pred_round r)
  unfolding pred_round
  pred_round-Unanimous zero = Keeps-halt _ tt
  pred_round-Unanimous (suc r) = Keeps-pure r

  add_pre-Unanimous :
      (j : NodeId) (a : PreVoteAction Sig Share) → a.value ≡ v → Unanimous (add_pre_vote x j a)
  unfolding add_pre_vote
  add_pre-Unanimous j a e =
      search (keeps_rules, pred_round-Unanimous, grows_pre, puts_pre, e) depth 12

  add_main-Unanimous :
      (j : NodeId) (a : MainVoteAction Sig Share)
      → a.value ≡ value v
      → Unanimous (add_main_vote x j a)
  unfolding add_main_vote
  add_main-Unanimous j a e =
      search (keeps_rules, pred_round-Unanimous, grows_main, puts_main, e) depth 12

  pub add_message-Unanimous :
      (j : NodeId) (a : Action Sig Share) → IsFor a → Unanimous (add_message x j a)
  unfolding add_message
  add_message-Unanimous j (pre_vote a) f = add_pre-Unanimous j a f.0
  add_message-Unanimous j (main_vote a) f = add_main-Unanimous j a f
  add_message-Unanimous j (decision a) f = Keeps-pure true

  pub combine-Unanimous : (m : Map Share) → Unanimous (combine m)
  unfolding combine
  combine-Unanimous m = search (keeps_rules, raised_ok)

  -- The other changes of a party's state.
  pub sets_decided :
      (s : Abba Sig Share) (d : DecisionAction Sig)
      → d.value ≡ v
      → IsUnanimous s
      → IsUnanimous (set_decided d s)
  unfolding set_decided
  sets_decided s d e h = record {
    pre_votes = h.pre_votes;
    main_votes = h.main_votes;
    decided = e;
    validity = h.validity;
    sent = h.sent;
  }

  pub sets_voted : (s : Abba Sig Share) → IsUnanimous s → IsUnanimous (set_voted s)
  unfolding set_voted
  sets_voted s h = ground arith

  pub goes_on : (s : Abba Sig Share) → IsUnanimous s → IsUnanimous (next_round s)
  unfolding next_round
  goes_on s h = ground arith

  with_any :
      (w : Value) (d : Hash32) (u : Sig)
      → IsJustFor w (with_validity d u)
      → IsValidityFor w (some (d, u))
  with_any Value.zero d u f = f
  with_any Value.one d u f = tt

  pub learns :
      (j : PreVoteJustification Sig) (s : Abba Sig Share)
      → IsJustFor v j
      → IsUnanimous s
      → IsUnanimous (set_validity j s)
  unfolding set_validity
  learns first_round_zero s f h = h
  learns (with_validity d u) s f h = record {
    pre_votes = h.pre_votes;
    main_votes = h.main_votes;
    decided = h.decided;
    validity = with_any v d u f;
    sent = h.sent;
  }
  learns (hard u) s f h = h
  learns (soft u) s f h = h
