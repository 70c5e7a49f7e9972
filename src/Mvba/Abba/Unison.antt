-- ===== src/Mvba/Abba/Unison.antt =====
-- What a network of src/mvba/abba decides when every party starts with the same value.
use sn_consensus.Prelude.{
  ℕ, zero, suc, ◌≡◌, some, none, List, [], ◌∷◌, ◌++◌, All, get_elem?, ◌==◌, Bool-cases, inl, inr,
  arith, subst, Option, Bool, on_option,
}
use sn_consensus.Keys.{PublicKeySet, SecretKeyShare}
use sn_consensus.Mvba.Tag.{Tag, NodeId}
use sn_consensus.Mvba.Broadcaster.{Bundle, Outgoing, gossip}
use sn_consensus.Mvba.Broadcaster
use sn_consensus.Mvba.Abba.Message.{
  Value, first_round_zero, with_validity, Message, DecisionAction, Extern,
}
use sn_consensus.Mvba.Abba.State.{Abba, new, decided, value_bool}
use sn_consensus.Mvba.Abba.Protocol.{pre_vote_zero, pre_vote_one}
use sn_consensus.Mvba.Abba.Unanimity.{
  ReadsBack, IsFor, IsSending, IsUnanimous, IsValidityFor, IsJustFor, IsDecidedFor,
}
use sn_consensus.Mvba.Abba.Unanimity.Handlers.{receive-Unanimous, start-Unanimous}
use sn_consensus.Mvba.Abba.Network.{
  Network, update, initial, Step, starts_zero, starts_one, delivers, Reach, here, later,
}

get-All :
    {A : Type 0} (P : A → Type 0) (k : ℕ) (xs : List A) (a : A)
    → get_elem? xs k ≡ some a
    → All P xs
    → P a
get-All P k [] a e h = cc
get-All P zero (x ∷ xs) a e h = subst P (ground (arith, e)) h.0
get-All P (suc k) (x ∷ xs) a e h = get-All P k xs a e h.1

All-split : {A : Type 0} (P : A → Type 0) (xs ys : List A) → All P (xs ++ ys) → All P xs × All P ys
All-split P [] ys h = (tt, h)
All-split P (x ∷ xs) ys h = let (a, b) = All-split P xs ys h.1 in ((h.0, a), b)

just_zero : (Sig : Type 0) (v : Value) → IsJustFor {Sig = Sig} v first_round_zero
just_zero Sig Value.zero = tt
just_zero Sig Value.one = tt

no_validity : (Sig : Type 0) (v : Value) → IsValidityFor {Sig = Sig} v none
no_validity Sig Value.zero = tt
no_validity Sig Value.one = tt

module _ {Sig Share : Type 0} (x : Extern Sig Share) (v : Value) (law : ReadsBack x.message_format)
    (fuel : ℕ) where
  decided_value_is :
      (o : Option (DecisionAction Sig)) {b : Bool}
      → IsDecidedFor x v o
      → on_option o none (λ d. some (value_bool d.value)) ≡ some b
      → b ≡ value_bool v
  decided_value_is none h e = cc
  decided_value_is (some d) h e = ground (arith, h, e)

  updated :
      (i : NodeId) (s : Abba Sig Share) (net : Network Sig Share)
      → IsUnanimous x v s
      → ((k : NodeId) → IsUnanimous x v (net k))
      → (k : NodeId) → IsUnanimous x v (update i s net k)
  updated i s net h all k = elim (Bool-cases (k == i)) [ inl e ↦ rw e h | inr e ↦ rw e (all k) ]

  Step-Unanimous :
      {ws : List Value} {net next : Network Sig Share}
      → Step x fuel net ws next
      → All (λ w. w ≡ v) ws
      → ((k : NodeId) → IsUnanimous x v (net k))
      → (k : NodeId) → IsUnanimous x v (next k)
  unfolding pre_vote_zero pre_vote_one
  Step-Unanimous {net} (starts_zero i) e h =
      updated i _ net
        ((start-Unanimous x v law fuel Value.zero first_round_zero e.0 (just_zero Sig v)).at (net i)
          (h i)).0
        h
  Step-Unanimous {net} (starts_one i d u) e h =
      updated i _ net
        ((start-Unanimous x v law fuel Value.one (with_validity d u) e.0
            (subst (λ w. IsJustFor w (with_validity d u)) e.0 tt)).at
          (net i) (h i)).0
        h
  Step-Unanimous {net} (delivers i j k b m e f) _ h =
      updated i _ net ((receive-Unanimous x v law fuel j m is_for).at (net i) (h i)).0 h
    where
      is_for : IsFor x v m.action
      is_for =
          let (n, r, g) = get-All (IsSending x v) k _ (gossip b) e (h j).sent in
          let same_message : n ≡ m = ground (arith, r, f) in
          subst (λ (a : Message Sig Share). IsFor x v a.action) same_message g

  module _ (tag : Tag) (keys : PublicKeySet Sig Share)
      (secrets : NodeId → SecretKeyShare Share) where
    initial-Unanimous : (k : NodeId) → IsUnanimous x v (initial tag keys secrets k)
    unfolding new Broadcaster.new
    initial-Unanimous k = record {
      pre_votes = tt;
      main_votes = tt;
      decided = tt;
      validity = no_validity Sig v;
      sent = tt;
    }

    Reach-Unanimous :
        {vs : List Value} {net : Network Sig Share}
        → Reach x fuel (initial tag keys secrets) vs net
        → All (λ w. w ≡ v) vs
        → (k : NodeId) → IsUnanimous x v (net k)
    Reach-Unanimous here e = initial-Unanimous
    Reach-Unanimous (later {vs} {ws} r st) e =
        let (now, before) = All-split (λ w. w ≡ v) ws vs e in
        Step-Unanimous st now (Reach-Unanimous r before)

    -- In a network of parties that all follow the code, where every party that has started did so
    -- with the same value, no party ever decides another one, in whatever order messages are
    -- delivered, and however often; where what is serialized is read back as it was.
    pub unanimous_start_decides :
        {vs : List Value} {net : Network Sig Share} {b : Bool}
        → Reach x fuel (initial tag keys secrets) vs net
        → All (λ w. w ≡ v) vs
        → (i : NodeId) → decided (net i) ≡ some b
        → b ≡ value_bool v
    unfolding decided
    unanimous_start_decides {net} r e i d =
        decided_value_is (net i).decided_value (Reach-Unanimous r e i).decided d
