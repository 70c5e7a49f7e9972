-- ===== src/Mvba/Vcbc/Quorum.antt =====
-- The shares that a proposer of src/mvba/vcbc collects: how many, from whom, and on what.
use sn_consensus.Prelude.{
  insert-All, ℕ, ◌+◌, ◌≡◌, ◌≢◌, refl, Option, none, some, List, [], ◌∷◌, Bool, true, false, Map,
  All, length, insert, contains_key, NoPanic, Anyhow, arith,
}
use sn_consensus.Keys.{PublicKeySet, SecretKeyShare}
use sn_consensus.Mvba.Tag.{Tag, NodeId, MessageValidity}
use sn_consensus.Mvba.Hash.{Hash32}
use sn_consensus.Mvba.Broadcaster.{Broadcaster}
use sn_consensus.Mvba.Vcbc.Message.{Message, Extern, c_ready_bytes_to_sign}
use sn_consensus.Mvba.Vcbc.State.{Vcbc, new_state}
use sn_consensus.Mvba.Vcbc.Handlers.{accept, add_share}
use sn_consensus.Mvba.Vcbc.Induction.{IsPreserved}
use sn_consensus.Mvba.Vcbc.Delivery.{run, run-Good, IsSound, IsSound-preserved, new-IsSound}

module _ {V : Type 0} where
  -- No key occurs twice.
  abbrev pub Distinct : Map V → Type 0
  Distinct [] = Unit
  Distinct ((k, _) ∷ m) = (contains_key k m ≡ false) × Distinct m

  length-insert :
      (k : ℕ) (v : V) (m : Map V) → contains_key k m ≡ false → length (insert k v m) ≡ length m + 1
  length-insert k v [] h = refl
  length-insert k v ((j, w) ∷ m) h = ground (arith, length-insert k v m)

  contains-insert_ne :
      (k j : ℕ) (v : V) (m : Map V)
      → k ≢ j
      → contains_key j m ≡ false
      → contains_key j (insert k v m) ≡ false
  contains-insert_ne k j v [] n h = ground arith
  contains-insert_ne k j v ((i, w) ∷ m) n h = ground (arith, contains-insert_ne k j v m)

  insert-Distinct :
      (k : ℕ) (v : V) (m : Map V) → contains_key k m ≡ false → Distinct m → Distinct (insert k v m)
  insert-Distinct k v [] h d = (refl, tt)
  insert-Distinct k v ((j, w) ∷ m) h d =
      ground (arith, insert-Distinct k v m, contains-insert_ne k j v m)

module _ {Sig Share : Type 0} (x : Extern Sig Share) (keys : PublicKeySet Sig Share)
    (tag : Tag) where
  -- The share verifies, under its sender's key, on the c-ready bytes of the digest.
  abbrev pub share_ok : Hash32 → NodeId × Share → Bool
  share_ok d (j, s) = elim (c_ready_bytes_to_sign x.ready_format tag d) [
    | none ↦ false
    | some b ↦ keys.verify_share j s b
  ]

  abbrev pub ValidShares : Option Hash32 → Map Share → Type 0
  ValidShares none m = m ≡ []
  ValidShares (some d) m = All (λ e. share_ok d e ≡ true) m

  pub record IsCounted (v : Vcbc Sig Share) : Type 0 where
    pub sound : IsSound x keys tag v
    pub counted : v.rd ≡ length v.wd
    pub distinct : Distinct v.wd
    pub shares : ValidShares v.d v.wd

  add-ValidShares :
      (s : Vcbc Sig Share) (j : NodeId) (sh : Share) (d : Hash32)
      → s.d ≡ some d
      → share_ok d (j, sh) ≡ true
      → ValidShares s.d s.wd
      → ValidShares s.d (insert j sh s.wd)
  add-ValidShares s j sh d e h v = ground (arith, insert-All (λ e. share_ok d e ≡ true) j sh s.wd)

  IsCounted-preserved : IsPreserved x IsCounted Anyhow
  unfolding accept add_share
  IsCounted-preserved = record {
    raises = λ e. tt;
    runs_out = tt;
    asserts = λ s u p q h. tt;
    sends = λ s b h. record {
      sound = w.sends s b h.sound;
      counted = h.counted;
      distinct = h.distinct;
      shares = h.shares;
    };
    accepts = λ s m p h. record {
      sound = w.accepts s m p h.sound;
      counted = h.counted;
      distinct = h.distinct;
      shares = ground arith;
    };
    adds = λ s j sh d b p q r t h. record {
      sound = w.adds s j sh d b p q r t h.sound;
      counted = ground (arith, length-insert j sh s.wd);
      distinct = insert-Distinct j sh s.wd t h.distinct;
      shares = add-ValidShares s j sh d p (ground arith) h.shares;
    };
    parks = λ s j m h. record {
      sound = w.parks s j m h.sound;
      counted = h.counted;
      distinct = h.distinct;
      shares = h.shares;
    };
    takes = λ s h. record {
      sound = w.takes s h.sound;
      counted = h.counted;
      distinct = h.distinct;
      shares = h.shares;
    };
    proves = λ s u d b p q r t h. record {
      sound = w.proves s u d b p q r t h.sound;
      counted = h.counted;
      distinct = h.distinct;
      shares = h.shares;
    };
    learns = λ s m u b p q r h. record {
      sound = w.learns s m u b p q r h.sound;
      counted = h.counted;
      distinct = h.distinct;
      shares = h.shares;
    };
  }
    where
      w : IsPreserved x (IsSound x keys tag) NoPanic
      w = IsSound-preserved x keys tag

  -- After any history of messages to a new instance, r_d is the number of shares in W_d, no party
  -- has two of them, and each verifies under its sender's key on the c-ready bytes of the one
  -- digest that the instance holds (with no digest there are no shares).
  pub shares-IsCounted :
      (i : NodeId) (key : SecretKeyShare Share) (valid : MessageValidity) (b : Broadcaster)
      (fuel : ℕ) (ms : List (NodeId × Message Sig Share))
      → IsCounted (run x fuel ms (new_state tag i keys key valid b))
  unfolding new_state
  shares-IsCounted i key valid b fuel ms =
      run-Good x IsCounted Anyhow IsCounted-preserved fuel ms _ (record {
        sound = new-IsSound x tag i keys key valid b;
        counted = refl;
        distinct = tt;
        shares = refl;
      })
