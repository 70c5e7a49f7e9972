-- ===== src/Mvba/Abba/Unanimity/Votes.antt =====
-- The votes of a round that are all for one value, in src/mvba/abba.
use sn_consensus.Prelude.{
  ◌<◌, subst, ℕ, ◌≡◌, ◌≢◌, refl, some, Option, true, Map, [], ◌∷◌, All, length, leb, arith, same→eq,
  ◌==◌,
}
use sn_consensus.Mvba.Hash.{Hash32}
use sn_consensus.Mvba.Abba.Message.{
  Value, MainVoteValue, value, with_validity, hard, soft, PreVoteAction, MainVoteAction,
  Value-discrete, MainVoteValue-discrete,
}
use sn_consensus.Mvba.Abba.State.{Abba, threshold}
use sn_consensus.Mvba.Abba.Protocol.{first, pre_votes_for, main_votes_for}
use sn_consensus.Mvba.Abba.Unanimity.{IsJustFor, IsValidityFor}

pub just_hard : {Sig : Type 0} (w : Value) (u : Sig) → IsJustFor w (hard u)
just_hard Value.zero u = tt
just_hard Value.one u = tt

pub just_soft : {Sig : Type 0} (w : Value) (u : Sig) → IsJustFor w (soft u)
just_soft Value.zero u = tt
just_soft Value.one u = tt

pub two_values : {v : Value} → Value.zero ≡ v → Value.one ≡ v → ⊥
two_values e f = cc

pub validity_for :
    {Sig : Type 0} (w : Value) (d : Hash32) (u : Sig) (o : Option (Hash32 × Sig))
    → o ≡ some (d, u)
    → IsValidityFor w o
    → (Value.one ≡ w) × IsJustFor w (with_validity d u)
validity_for Value.zero d u o e h = absurd (subst (IsValidityFor Value.zero) e h)
validity_for Value.one d u o e h = (refl, tt)

module _ {Sig Share : Type 0} (v : Value) where
  -- The votes for the other value are none.
  pre_none :
      (w : Value) (m : Map (PreVoteAction Sig Share))
      → w ≢ v
      → All (λ e. (e.1).value ≡ v) m
      → pre_votes_for w m ≡ []
  pre_none w [] n a = refl
  pre_none w (e ∷ m) n a = ground (arith, pre_none w m n a.1, same→eq Value-discrete (e.1).value w)

  main_none :
      (w : Value) (m : Map (MainVoteAction Sig Share))
      → w ≢ v
      → All (λ e. (e.1).value ≡ value v) m
      → main_votes_for (value w) m ≡ []
  main_none w [] n a = refl
  main_none w (e ∷ m) n a =
      ground (arith, main_none w m n a.1, same→eq MainVoteValue-discrete (e.1).value (value w))

  -- So a value of which there are votes is the one value.
  pre_value :
      (w : Value) (m : Map (PreVoteAction Sig Share))
      → All (λ e. (e.1).value ≡ v) m
      → pre_votes_for w m ≢ []
      → w ≡ v
  pre_value w m a h = elim (Value-discrete w v) [ yes e ↦ e | no n ↦ absurd (h (pre_none w m n a)) ]

  main_value :
      (w : Value) (m : Map (MainVoteAction Sig Share))
      → All (λ e. (e.1).value ≡ value v) m
      → main_votes_for (value w) m ≢ []
      → w ≡ v
  main_value w m a h = elim (Value-discrete w v) [
    | yes e ↦ e
    | no n ↦ absurd (h (main_none w m n a))
  ]

  pub only_value :
      (w : Value) (m : Map (PreVoteAction Sig Share))
      → All (λ e. (e.1).value ≡ v) m
      → 0 < length m
      → (length (pre_votes_for w m) == length m) ≡ true
      → w ≡ v
  only_value w m a n b = pre_value w m a (λ e. ground (arith, e))

  pub first_for :
      (w : Value) (m : Map (PreVoteAction Sig Share))
      → All (λ e. (e.1).value ≡ v) m
      → (a : PreVoteAction Sig Share) → first (pre_votes_for w m) ≡ some a
      → w ≡ v
  first_for w m h a b = pre_value w m h (λ e. ground (arith, e))

  pub enough_positive : (s : Abba Sig Share) (n : ℕ) → leb (threshold s) n ≡ true → 0 < n
  unfolding threshold
  enough_positive s n b = ground arith

  no_abstention :
      (m : Map (MainVoteAction Sig Share))
      → All (λ e. (e.1).value ≡ value v) m
      → main_votes_for MainVoteValue.abstain m ≡ []
  no_abstention [] a = refl
  no_abstention (e ∷ m) a =
      ground (
        arith,
        no_abstention m a.1,
        same→eq MainVoteValue-discrete (e.1).value MainVoteValue.abstain,
      )

  pub some_for_value :
      (m : Map (MainVoteAction Sig Share))
      → All (λ e. (e.1).value ≡ value v) m
      → 0 < length m
      → (length (main_votes_for MainVoteValue.abstain m) == length m) ≡ true
      → ⊥
  some_for_value m a n b = ground (arith, no_abstention m a)

  pub first_main :
      (w : Value) (m : Map (MainVoteAction Sig Share))
      → All (λ e. (e.1).value ≡ value v) m
      → (a : MainVoteAction Sig Share) → first (main_votes_for (value w) m) ≡ some a
      → w ≡ v
  first_main w m h a b = main_value w m h (λ e. ground (arith, e))

  pub enough_for :
      (w : Value) (m : Map (MainVoteAction Sig Share))
      → All (λ e. (e.1).value ≡ value v) m
      → (s : Abba Sig Share) → leb (threshold s) (length (main_votes_for (value w) m)) ≡ true
      → w ≡ v
  enough_for w m h s b = main_value w m h (λ e. ground (arith, e, enough_positive s _ b))
