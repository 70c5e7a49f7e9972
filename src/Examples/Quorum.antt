-- ===== src/Examples/Quorum.antt =====
-- Stand-ins for the third-party code in a network of four parties, of which three make a quorum. A
-- share is the number of its party with a code of the signed bytes, a signature is that code, and
-- the messages that are sent are written as their place in a table.
use Prim.Native.Nat.{◌*◌, ◌%◌}
use sn_consensus.Prelude.{
  ℕ, zero, suc, ◌+◌, ◌≡◌, Bool, true, Option, none, some, List, [], ◌∷◌, Map, length, leb,
  get_elem?, same, ◌==◌, ◌&&◌, if◌then◌else◌, on_option, arith, same→eq, Option-cases, inl, inr,
}
use sn_consensus.Keys.{Bytes, PublicKeySet, SecretKeyShare}
use sn_consensus.Mvba.Tag.{NodeId, Tag-discrete}
use sn_consensus.Mvba.Hash.{Hash32}
use sn_consensus.Mvba.Abba.Message.{
  Value, MainVoteValue, value, PreVoteJustification, first_round_zero, with_validity,
  MainVoteJustification, abstains, no_abstain, Action, pre_vote, main_vote, decision, Message,
  Extern, PreVoteAction-discrete, MainVoteAction-discrete, DecisionAction-discrete,
}
use sn_consensus.Mvba.Abba.Unanimity.{ReadsBack}
use sn_consensus.Examples.Toy.{sig_eq, tag}

-- The code of the bytes that are signed: three digits.
abbrev pub code : Bytes → ℕ
code (a ∷ b ∷ c ∷ _) = 100 * a + 10 * b + c
code _ = 0

abbrev pub digit : Value → ℕ
digit Value.zero = 0
digit Value.one = 1

abbrev pub main_digit : MainVoteValue → ℕ
main_digit (value v) = digit v
main_digit MainVoteValue.abstain = 2

abbrev pub agree : ℕ → Map ℕ → Bool
agree c [] = true
agree c ((_, h) ∷ m) = (h % 1000 == c) && agree c m

abbrev pub combined : Map ℕ → Option ℕ
combined [] = none
combined ((i, h) ∷ m) = if leb 2 (length m) && agree (h % 1000) m then some (h % 1000) else none

abbrev pub quorum_keys : PublicKeySet ℕ ℕ
quorum_keys = record {
  threshold = 2;
  verify_share = λ i s b. s == 1000 * i + code b;
  verify = λ u b. u == code b;
  combine_signatures = combined;
}

abbrev pub secret : NodeId → SecretKeyShare ℕ
secret i = record { sign = λ b. 1000 * i + code b }

abbrev pub digest : Hash32
digest = record { bytes = 5 ∷ [] }

-- The messages of the runs.
abbrev pub pre : ℕ → NodeId → Value → PreVoteJustification ℕ → Message ℕ ℕ
pre r i v j = record {
  tag = tag 0;
  action = pre_vote (record {
    round = r;
    value = v;
    justification = j;
    sig_share = 1000 * i + 100 + 10 * r + digit v;
  });
}

abbrev pub main : ℕ → NodeId → MainVoteValue → MainVoteJustification ℕ → Message ℕ ℕ
main r i v j = record {
  tag = tag 0;
  action = main_vote (record {
    round = r;
    value = v;
    justification = j;
    sig_share = 1000 * i + 200 + 10 * r + main_digit v;
  });
}

abbrev pub final : ℕ → Value → Message ℕ ℕ
final r v = record {
  tag = tag 0;
  action = decision (record { round = r; value = v; sig = 200 + 10 * r + digit v });
}

abbrev pub valid : PreVoteJustification ℕ
valid = with_validity digest 0

abbrev pub zero_main : NodeId → Message ℕ ℕ
zero_main i = main 1 i (value Value.zero) (no_abstain 110)

abbrev pub one_main : NodeId → Message ℕ ℕ
one_main i = main 2 i (value Value.one) (no_abstain 121)

abbrev pub table : List (Message ℕ ℕ)
table =
    pre 1 1 Value.zero first_round_zero
    ∷ pre 1 2 Value.zero first_round_zero
    ∷ pre 1 3 Value.zero first_round_zero
    ∷ pre 1 4 Value.one valid
    ∷ zero_main 1
    ∷ zero_main 2
    ∷ zero_main 3
    ∷ main 1 4 MainVoteValue.abstain (abstains first_round_zero valid)
    ∷ pre 2 2 Value.one valid
    ∷ pre 2 3 Value.one valid
    ∷ pre 2 4 Value.one valid
    ∷ one_main 2
    ∷ one_main 3
    ∷ one_main 4
    ∷ final 1 Value.zero
    ∷ final 2 Value.one
    ∷ []

unfoldable pub Action-discrete : Discrete (Action ℕ ℕ)
Action-discrete =
    hlevel (
      PreVoteAction-discrete sig_eq,
      MainVoteAction-discrete sig_eq,
      DecisionAction-discrete sig_eq,
    )

unfoldable pub Message-discrete : Discrete (Message ℕ ℕ)
Message-discrete = hlevel (Action-discrete, Tag-discrete)

-- The place of a message in a table, and what stands there.
unfoldable pub place : Message ℕ ℕ → List (Message ℕ ℕ) → Option ℕ
place m [] = none
place m (n ∷ more) =
    let rest = place m more in
    if same Message-discrete n m then some 0 else on_option rest none λ k. some (suc k)

abbrev pub read_in : List (Message ℕ ℕ) → Bytes → Option (Message ℕ ℕ)
read_in ms (k ∷ []) = get_elem? ms k
read_in ms _ = none

abbrev pub write_in : List (Message ℕ ℕ) → Message ℕ ℕ → Option Bytes
write_in ms m = on_option (place m ms) none λ k. some (k ∷ [])

place-get :
    (m : Message ℕ ℕ) (ms : List (Message ℕ ℕ)) (k : ℕ)
    → place m ms ≡ some k
    → get_elem? ms k ≡ some m
unfolding place
place-get m [] k e = cc
place-get m (n ∷ more) zero e =
    ground (arith, same→eq Message-discrete n m, Option-cases (place m more))
place-get m (n ∷ more) (suc k) e = ground (arith, Option-cases (place m more), place-get m more k)

abbrev pub table_extern : Extern ℕ ℕ
table_extern = record {
  sig_eq = sig_eq;
  ready_format = record { serialize = λ _. some (0 ∷ 0 ∷ 0 ∷ []); deserialize = λ _. none };
  pre_vote_format = record {
    serialize = λ (t, name, r, v). some (1 ∷ r ∷ digit v ∷ []);
    deserialize = λ _. none;
  };
  main_vote_format = record {
    serialize = λ (t, name, r, v). some (2 ∷ r ∷ main_digit v ∷ []);
    deserialize = λ _. none;
  };
  message_format = record { serialize = write_in table; deserialize = read_in table };
}

read-write :
    (ms : List (Message ℕ ℕ)) (m : Message ℕ ℕ) (b : Bytes)
    → write_in ms m ≡ some b
    → read_in ms b ≡ some m
read-write ms m b e = elim (Option-cases (place m ms)) [
  | inl q ↦ ground arith
  | inr (k, q) ↦ ground (arith, q, e, place-get m ms k q)
]

pub table-ReadsBack : ReadsBack table_extern.message_format
table-ReadsBack = read-write table
