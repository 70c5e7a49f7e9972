-- ===== src/Mvba/Abba/State.antt =====
-- The state of src/mvba/abba/mod.rs, the bytes that are signed, and the votes of a round. A round
-- is a `usize` that starts from 1; `round - 1` at round 0 overflows, which is a panic here, as in a
-- build with overflow checks. Without them it is the largest index, past the end of the votes.
use sn_consensus.Prelude.{
  ℕ, zero, suc, ◌+◌, Bool, true, false, Option, none, some, List, [], ◌∷◌, Map, String, on_option,
  Exec, Stop, halt, pure,
}
use sn_consensus.Keys.{Bytes, PublicKeySet, SecretKeyShare}
use sn_consensus.Mvba.Tag.{Tag, NodeId}
use sn_consensus.Mvba.Hash.{Hash32}
use sn_consensus.Mvba.Broadcaster.{Broadcaster}
use sn_consensus.Mvba.Abba.Message.{
  Value, MainVoteValue, PreVoteAction, MainVoteAction, DecisionAction, Error, Extern,
}

abbrev pub module_name : String
module_name = "abba"

pub record Abba (Sig : Type 0) (Share : Type 0) : Type 0 where
  pub tag : Tag
  pub i : NodeId
  pub r : ℕ
  pub voted : Bool
  pub weak_validity : Option (Hash32 × Sig)
  pub decided_value : Option (DecisionAction Sig)
  pub pub_key_set : PublicKeySet Sig Share
  pub sec_key_share : SecretKeyShare Share
  pub broadcaster : Broadcaster
  pub round_pre_votes : List (Map (PreVoteAction Sig Share))
  pub round_main_votes : List (Map (MainVoteAction Sig Share))

abbrev pub Method : Type 0 → Type 0 → Type 0 → Type 0
Method Sig Share A = Exec (Abba Sig Share) Error A

-- 1 is `true`.
abbrev pub value_bool : Value → Bool
value_bool Value.one = true
value_bool Value.zero = false

-- The rounds up to the n-th, with no votes where there were none: the `while` loop of the source.
unfoldable pub grow : {V : Type 0} → ℕ → List (Map V) → List (Map V)
grow zero xs = xs
grow (suc n) [] = [] ∷ grow n []
grow (suc n) (m ∷ xs) = m ∷ grow n xs

-- A write to the n-th entry; past the end it changes nothing.
unfoldable pub set_at : {V : Type 0} → ℕ → Map V → List (Map V) → List (Map V)
set_at n v [] = []
set_at zero v (_ ∷ xs) = v ∷ xs
set_at (suc n) v (m ∷ xs) = m ∷ set_at n v xs

module _ {Sig Share : Type 0} where
  unfoldable pub new :
      Tag → NodeId → PublicKeySet Sig Share → SecretKeyShare Share → Broadcaster → Abba Sig Share
  new tag self_id pub_key_set sec_key_share broadcaster = record {
    tag = tag;
    i = self_id;
    r = 1;
    voted = false;
    weak_validity = none;
    decided_value = none;
    pub_key_set = pub_key_set;
    sec_key_share = sec_key_share;
    broadcaster = broadcaster;
    round_pre_votes = [];
    round_main_votes = [];
  }

  unfoldable pub threshold : Abba Sig Share → ℕ
  threshold s = s.pub_key_set.threshold + 1

  -- `round - 1`, in a build with overflow checks
  unfoldable pub pred_round : ℕ → Method Sig Share ℕ
  pred_round zero = halt Stop.panicked
  pred_round (suc n) = pure n

  unfoldable pub decided : Abba Sig Share → Option Bool
  decided s = on_option s.decided_value none (λ v. some (value_bool v.value))

module _ {Sig Share : Type 0} (x : Extern Sig Share) where
  unfoldable pub pre_vote_bytes_to_sign : Tag → ℕ → Value → Option Bytes
  pre_vote_bytes_to_sign tag round v = x.pre_vote_format.serialize (tag, "pre-vote", round, v)

  unfoldable pub main_vote_bytes_to_sign : Tag → ℕ → MainVoteValue → Option Bytes
  main_vote_bytes_to_sign tag round v = x.main_vote_format.serialize (tag, "main-vote", round, v)
