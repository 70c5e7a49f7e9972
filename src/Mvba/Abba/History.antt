-- ===== src/Mvba/Abba/History.antt =====
-- Histories of the calls of src/mvba/abba/mod.rs, and properties of the votes of every round.
use sn_consensus.Prelude.{
  insert-All, lookup-insert_ne, lookup-insert_self, ℕ, zero, suc, ◌+◌, ◌≡◌, refl, none, some,
  Option, List, [], ◌∷◌, Map, All, lookup, insert, get_elem?, arith, subst,
}
use sn_consensus.Keys.{PublicKeySet}
use sn_consensus.Mvba.Tag.{Tag, NodeId}
use sn_consensus.Mvba.Hash.{Hash32}
use sn_consensus.Mvba.Abba.Message.{Message, Extern}
use sn_consensus.Mvba.Abba.State.{Abba, grow, set_at}
use sn_consensus.Mvba.Abba.Store.{votes_at}
use sn_consensus.Mvba.Abba.Protocol.{receive_message, pre_vote_zero, pre_vote_one}
use sn_consensus.Mvba.Abba.Induction.{IsPreserved}
use sn_consensus.Mvba.Abba.Preservation.{receive-Good, pre_vote_zero-Good, pre_vote_one-Good}

-- What the rest of the program asks of the component.
pub data Op (Sig : Type 0) (Share : Type 0) : Type 0 where
  receives : NodeId → Message Sig Share → Op Sig Share
  votes_zero : Op Sig Share
  votes_one : Hash32 → Sig → Op Sig Share

module _ {Sig Share : Type 0} (x : Extern Sig Share) (fuel : ℕ) where
  unfoldable pub apply : Op Sig Share → Abba Sig Share → Abba Sig Share
  apply (receives j m) s = (receive_message x fuel j m s).1
  apply votes_zero s = (pre_vote_zero x fuel s).1
  apply (votes_one d u) s = (pre_vote_one x fuel d u s).1

  unfoldable pub run : List (Op Sig Share) → Abba Sig Share → Abba Sig Share
  run [] s = s
  run (o ∷ os) s = run os (apply o s)

  module _ (keys : PublicKeySet Sig Share) (tag : Tag) (P : Abba Sig Share → Type 0)
      (w : IsPreserved x keys tag P) where
    pub apply-Good : (o : Op Sig Share) (s : Abba Sig Share) → P s → P (apply o s)
    unfolding apply
    apply-Good (receives j m) s h = ((receive-Good x keys tag P w fuel j m).at s h).0
    apply-Good votes_zero s h = ((pre_vote_zero-Good x keys tag P w fuel).at s h).0
    apply-Good (votes_one d u) s h = ((pre_vote_one-Good x keys tag P w fuel d u).at s h).0

    pub run-Good : (os : List (Op Sig Share)) (s : Abba Sig Share) → P s → P (run os s)
    unfolding run
    run-Good [] s h = h
    run-Good (o ∷ os) s h = run-Good os (apply o s) (apply-Good o s h)

-- A property of the votes of every round, at the round's index.
abbrev pub AllRounds : {V : Type 0} → (ℕ → NodeId × V → Type 0) → ℕ → List (Map V) → Type 0
AllRounds P n [] = Unit
AllRounds P n (m ∷ ms) = All (P n) m × AllRounds P (suc n) ms

module _ {V : Type 0} where
  pub grow-AllRounds :
      (P : ℕ → NodeId × V → Type 0) (k n : ℕ) (ms : List (Map V))
      → AllRounds P k ms
      → AllRounds P k (grow n ms)
  unfolding grow
  grow-AllRounds P k zero ms a = a
  grow-AllRounds P k (suc n) [] a = (tt, grow-AllRounds P (suc k) n [] tt)
  grow-AllRounds P k (suc n) (m ∷ ms) a = (a.0, grow-AllRounds P (suc k) n ms a.1)

  pub set_at-AllRounds :
      (P : ℕ → NodeId × V → Type 0) (k n : ℕ) (j : NodeId) (v : V) (ms : List (Map V))
      → P (n + k) (j, v)
      → AllRounds P k ms
      → AllRounds P k (set_at n (insert j v (votes_at n ms)) ms)
  unfolding set_at votes_at
  set_at-AllRounds P k n j v [] p a = tt
  set_at-AllRounds P k zero j v (m ∷ ms) p a =
      (insert-All (P k) j v m (subst (λ r. P r (j, v)) (omega arith) p) a.0, a.1)
  set_at-AllRounds P k (suc n) j v (m ∷ ms) p a =
      (a.0, set_at-AllRounds P (suc k) n j v ms (subst (λ r. P r (j, v)) (omega arith) p) a.1)

  pub get-AllRounds :
      (P : ℕ → NodeId × V → Type 0) (k n : ℕ) (ms : List (Map V)) (m : Map V)
      → get_elem? ms n ≡ some m
      → AllRounds P k ms
      → All (P (n + k)) m
  get-AllRounds P k n [] m e a = cc
  get-AllRounds P k zero (l ∷ ms) m e a =
      subst (λ r. All (P r) m) (omega arith) (subst (All (P k)) (ground arith) a.0)
  get-AllRounds P k (suc n) (l ∷ ms) m e a =
      subst (λ r. All (P r) m) (omega arith) (get-AllRounds P (suc k) n ms m e a.1)

-- The vote of the party `p` at the index `n`, among those of every round.
abbrev pub vote_of : {V : Type 0} → ℕ → NodeId → List (Map V) → Option V
vote_of n p ms = lookup p (votes_at n ms)

pub vote_of-grow :
    {V : Type 0} (k n : ℕ) (p : NodeId) (ms : List (Map V))
    → vote_of n p (grow k ms) ≡ vote_of n p ms
unfolding grow votes_at
vote_of-grow zero n p ms = refl
vote_of-grow (suc k) zero p [] = refl
vote_of-grow (suc k) (suc n) p [] = vote_of-grow k n p []
vote_of-grow (suc k) zero p (m ∷ ms) = refl
vote_of-grow (suc k) (suc n) p (m ∷ ms) = vote_of-grow k n p ms

-- A write of a vote where the party had none leaves every vote that was there.
pub vote_of-put :
    {V : Type 0} (k n : ℕ) (j p : NodeId) (v w : V) (ms : List (Map V))
    → vote_of k j ms ≡ none
    → vote_of n p ms ≡ some w
    → vote_of n p (set_at k (insert j v (votes_at k ms)) ms) ≡ some w
unfolding set_at votes_at
vote_of-put k n j p v w [] e f = f
vote_of-put zero zero j p v w (m ∷ ms) e f = ground (arith, lookup-insert_ne j p v m)
vote_of-put zero (suc n) j p v w (m ∷ ms) e f = f
vote_of-put (suc k) zero j p v w (m ∷ ms) e f = f
vote_of-put (suc k) (suc n) j p v w (m ∷ ms) e f = vote_of-put k n j p v w ms e f

module _ {V : Type 0} where
  -- The votes of a round after a vote for it has been stored.
  pub put_votes :
      (n : ℕ) (v : Map V) (ms : List (Map V)) → get_elem? (set_at n v (grow (suc n) ms)) n ≡ some v
  unfolding set_at grow
  put_votes zero v [] = refl
  put_votes zero v (m ∷ ms) = refl
  put_votes (suc n) v [] = put_votes n v []
  put_votes (suc n) v (m ∷ ms) = put_votes n v ms

  pub votes_at-grow : (k n : ℕ) (ms : List (Map V)) → votes_at n (grow k ms) ≡ votes_at n ms
  unfolding grow votes_at
  votes_at-grow zero n ms = refl
  votes_at-grow (suc k) zero [] = refl
  votes_at-grow (suc k) (suc n) [] = votes_at-grow k n []
  votes_at-grow (suc k) zero (m ∷ ms) = refl
  votes_at-grow (suc k) (suc n) (m ∷ ms) = votes_at-grow k n ms

  -- A vote that has been stored is the party's vote of that round.
  pub vote_of-put_self :
      (n : ℕ) (j : NodeId) (v : V) (m : Map V) (ms : List (Map V))
      → vote_of n j (set_at n (insert j v m) (grow (suc n) ms)) ≡ some v
  unfolding votes_at
  vote_of-put_self n j v m ms = rw (put_votes n (insert j v m) ms) (lookup-insert_self j v m)
