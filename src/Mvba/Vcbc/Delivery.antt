-- ===== src/Mvba/Vcbc/Delivery.antt =====
-- What a node delivers by src/mvba/vcbc carries a valid threshold signature, and never changes.
use sn_consensus.Prelude.{
  ℕ, ◌≡◌, ◌≢◌, NoPanic, Stops-NoPanic, stop, refl, Option, none, some, List, [], ◌∷◌, Bool, true,
  false, Stop, panicked, Anyhow, arith,
}
use sn_consensus.Keys.{PublicKeySet, SecretKeyShare}
use sn_consensus.Mvba.Tag.{Tag, NodeId, Proposal, MessageValidity}
use sn_consensus.Mvba.Hash.{Hash32, calculate}
use sn_consensus.Mvba.Broadcaster.{Broadcaster}
use sn_consensus.Mvba.Vcbc.Message.{Message, Extern, c_ready_bytes_to_sign, Error}
use sn_consensus.Mvba.Vcbc.State.{Vcbc, new_state, read_delivered}
use sn_consensus.Mvba.Vcbc.Handlers.{accept, add_share, receive_message}
use sn_consensus.Mvba.Vcbc.Induction.{IsPreserved, receive_message-Good}

-- A node that takes the messages of a history one after another, whatever each returns.
unfoldable pub run :
    {Sig Share : Type 0}
    → Extern Sig Share
    → ℕ
    → List (NodeId × Message Sig Share)
    → Vcbc Sig Share
    → Vcbc Sig Share
run x fuel [] v = v
run x fuel ((j, m) ∷ rest) v = run x fuel rest (receive_message x fuel j m v).1

module _ {Sig Share : Type 0} (x : Extern Sig Share) (P : Vcbc Sig Share → Type 0)
    (X : Stop Error → Type 0) (w : IsPreserved x P X) where
  pub run-Good :
      (fuel : ℕ) (ms : List (NodeId × Message Sig Share)) (v : Vcbc Sig Share)
      → P v
      → P (run x fuel ms v)
  unfolding run
  run-Good fuel [] v h = h
  run-Good fuel ((j, m) ∷ rest) v h =
      run-Good fuel rest _ ((receive_message-Good x P X w fuel j m).at v h).0

module _ {Sig Share : Type 0} (x : Extern Sig Share) (keys : PublicKeySet Sig Share)
    (tag : Tag) where
  -- `u` is a threshold signature on the c-ready bytes of the proposal `m`.
  abbrev pub signed : Proposal → Sig → Bool
  signed m u = elim (c_ready_bytes_to_sign x.ready_format tag (calculate x.sha3 m)) [
    | none ↦ false
    | some b ↦ keys.verify u b
  ]

  -- How m̄, µ̄ and the digest belong together.
  abbrev pub Consistent : Option Proposal → Option Sig → Option Hash32 → Type 0
  Consistent (some m) (some u) _ = signed m u ≡ true
  Consistent none (some _) _ = ⊥
  Consistent (some m) none d = d ≡ some (calculate x.sha3 m)
  Consistent none none d = d ≡ none

  pub record IsSound (v : Vcbc Sig Share) : Type 0 where
    pub tag_fixed : v.tag ≡ tag
    pub keys_fixed : v.pub_key_set ≡ keys
    pub consistent : Consistent v.m_bar v.u_bar v.d

  pub IsSound-preserved : IsPreserved x IsSound NoPanic
  unfolding accept add_share
  IsSound-preserved = record {
    raises = λ e. λ p. cc;
    runs_out = λ p. cc;
    asserts = λ s u p q h. ground arith;
    sends = λ s b h. ground arith;
    accepts = λ s m p h. ground arith;
    adds = λ s j sh d b p q r t h. ground arith;
    parks = λ s j m h. ground arith;
    takes = λ s h. ground arith;
    proves = λ s u d b p q r t h. ground arith;
    learns = λ s m u b p q r h. ground arith;
  }

module _ {Sig Share : Type 0} (x : Extern Sig Share) where
  abbrev Delivers : Proposal × Sig → Vcbc Sig Share → Type 0
  Delivers p v = (v.m_bar ≡ some p.0) × (v.u_bar ≡ some p.1)

  Delivers-preserved : (p : Proposal × Sig) → IsPreserved x (Delivers p) Anyhow
  unfolding accept add_share
  Delivers-preserved d = record {
    raises = λ e. tt;
    runs_out = tt;
    asserts = λ s u p q h. tt;
    sends = λ s b h. h;
    accepts = λ s m p h. ground arith;
    adds = λ s j sh d b p q r t h. h;
    parks = λ s j m h. h;
    takes = λ s h. h;
    proves = λ s u d b p q r t h. ground arith;
    learns = λ s m u b p q r h. ground arith;
  }

  Delivers-read :
      (p : Proposal × Sig) (v : Vcbc Sig Share) → Delivers p v → read_delivered v ≡ some p
  unfolding read_delivered
  Delivers-read p v h = ground arith

  read-Delivers :
      (p : Proposal × Sig) (v : Vcbc Sig Share) → read_delivered v ≡ some p → Delivers p v
  unfolding read_delivered
  read-Delivers p v h = ground arith

module _ {Sig Share : Type 0} (x : Extern Sig Share) (tag : Tag) (i : NodeId)
    (keys : PublicKeySet Sig Share) (key : SecretKeyShare Share) (valid : MessageValidity)
    (b : Broadcaster) where
  pub new-IsSound : IsSound x keys tag (new_state tag i keys key valid b)
  unfolding new_state
  new-IsSound = record { tag_fixed = refl; keys_fixed = refl; consistent = refl }

module _ {Sig Share : Type 0} (x : Extern Sig Share) where
  -- After any history of messages to a new instance, honest or not, a proposal that
  -- `read_delivered` returns comes with a signature that the key set's public key verifies on the
  -- c-ready bytes of that proposal's digest, under the instance's tag.
  pub delivered_signed :
      (tag : Tag) (i : NodeId) (keys : PublicKeySet Sig Share) (key : SecretKeyShare Share)
      (valid : MessageValidity) (b : Broadcaster) (fuel : ℕ)
      (ms : List (NodeId × Message Sig Share)) (m : Proposal) (u : Sig)
      → read_delivered (run x fuel ms (new_state tag i keys key valid b)) ≡ some (m, u)
      → signed x keys tag m u ≡ true
  unfolding read_delivered
  delivered_signed tag i keys key valid b fuel ms m u e = ground (
    arith,
    run-Good x (IsSound x keys tag) NoPanic (IsSound-preserved x keys tag) fuel ms
        (new_state tag i keys key valid b) (new-IsSound x tag i keys key valid b),
  )

  -- Once `read_delivered` returns a proposal and its proof, it returns the same ones after any
  -- further message, whatever that message is and however its handling ends.
  pub delivered_stable :
      (fuel : ℕ) (j : NodeId) (m : Message Sig Share) (v : Vcbc Sig Share) (p : Proposal × Sig)
      → read_delivered v ≡ some p
      → read_delivered (receive_message x fuel j m v).1 ≡ some p
  delivered_stable fuel j m v p e =
      Delivers-read x p _
        ((receive_message-Good x (Delivers x p) Anyhow (Delivers-preserved x p) fuel j m).at v
          (read-Delivers x p v e)).0

  -- From a new instance no history of messages makes the assertion in the c-request branch fail:
  -- the handling of a further message never panics.
  pub receive_never_panics :
      (tag : Tag) (i : NodeId) (keys : PublicKeySet Sig Share) (key : SecretKeyShare Share)
      (valid : MessageValidity) (b : Broadcaster) (fuel : ℕ)
      (ms : List (NodeId × Message Sig Share)) (j : NodeId) (m : Message Sig Share)
      → (receive_message x fuel j m (run x fuel ms (new_state tag i keys key valid b))).0
        ≢ stop panicked
  receive_never_panics tag i keys key valid b fuel ms j m =
      Stops-NoPanic _
        ((receive_message-Good x (IsSound x keys tag) NoPanic w fuel j m).at _ (
          run-Good x (IsSound x keys tag) NoPanic w fuel ms _
            (new-IsSound x tag i keys key valid b))).1
    where
      w : IsPreserved x (IsSound x keys tag) NoPanic
      w = IsSound-preserved x keys tag
