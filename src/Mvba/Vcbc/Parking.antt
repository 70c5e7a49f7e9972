-- ===== src/Mvba/Vcbc/Parking.antt =====
-- The log of c-finals of src/mvba/vcbc/mod.rs, and what its delivery takes.
use sn_consensus.Prelude.{
  ℕ, suc, ◌≡◌, ◌≢◌, none, [], ◌∷◌, Bool, true, false, Map, All, insert, is_some, InFuel, Keeps,
  Keeps-pure, Keeps-bind, arith, Option-cases, inl, inr,
}
use sn_consensus.Keys.{Bytes}
use sn_consensus.Mvba.Tag.{Tag, NodeId}
use sn_consensus.Mvba.Vcbc.Message.{Message, Action, send, ready, final, request, answer, Extern}
use sn_consensus.Mvba.Vcbc.State.{Vcbc, try_insert}
use sn_consensus.Mvba.Vcbc.Handlers.{
  Method, Receiver, note, send_to, park_final, check_final, on_final, on_action, deliver_all,
  redeliver, handle, receive_message,
}

module _ {Sig Share : Type 0} where
  abbrev pub is_final : Action Sig Share → Bool
  is_final (final _ _) = true
  is_final _ = false

  -- A logged message: a c-final of another party.
  abbrev pub Parked : NodeId → NodeId × Message Sig Share → Type 0
  Parked i e = (e.0 ≢ i) × (is_final (e.1).action ≡ true)

  -- The instance is that of party `i`, and has logged only c-finals of other parties.
  pub record IsParked (i : NodeId) (v : Vcbc Sig Share) : Type 0 where
    pub owner : v.i ≡ i
    pub parked : All (Parked i) v.final_messages

  abbrev pub Knows : NodeId → Vcbc Sig Share → Type 0
  Knows i v = IsParked i v × (is_some v.d ≡ true)

  abbrev pub Waits : NodeId → Vcbc Sig Share → Type 0
  Waits i v = IsParked i v × (v.d ≡ none)

  insert-Parked :
      (i j : NodeId) (m : Message Sig Share) (l : Map (Message Sig Share))
      → Parked i (j, m)
      → All (Parked i) l
      → All (Parked i) (insert j m l)
  insert-Parked i j m [] p a = (p, tt)
  insert-Parked i j m ((k, n) ∷ l) p a = ground (arith, insert-Parked i j m l)

module _ {Sig Share : Type 0} (x : Extern Sig Share) (i : NodeId) where
  -- The method ends in fuel from every state in `P`, and stays in `P`.
  abbrev Ends : (Vcbc Sig Share → Type 0) → {A : Type 0} → Method Sig Share A → Type 0
  Ends P = Keeps P InFuel

  note-Ends : (p : Bytes) → Ends (IsParked i) (note x p)
  unfolding note
  note-Ends p = record { at = λ s h. ground arith }

  -- Level 1: a logged c-final, delivered again while the digest is not known, goes back to the log.
  handle-Waits :
      (recv : Receiver Sig Share) (j : NodeId) (t : Tag) (a : Action Sig Share)
      → is_final a ≡ true
      → j ≢ i
      → Ends (Waits i) (handle x recv j (record { tag = t; action = a }))
  unfolding handle on_action on_final park_final try_insert send_to
  handle-Waits recv j t (send m) f n = cc
  handle-Waits recv j t (ready d sh) f n = cc
  handle-Waits recv j t (final e u) f n = record {
    at = λ s h.
        ground (arith, insert-Parked i j (record { tag = t; action = final e u }) s.final_messages);
  }
  handle-Waits recv j t request f n = cc
  handle-Waits recv j t (answer m u) f n = cc

  -- And once it is known, it is checked, and the log is empty.
  abbrev Drained : Vcbc Sig Share → Type 0
  Drained v = (v.i ≡ i) × (is_some v.d ≡ true) × (v.final_messages ≡ [])

  handle-Drained :
      (recv : Receiver Sig Share) (j : NodeId) (t : Tag) (a : Action Sig Share)
      → is_final a ≡ true
      → Ends Drained (handle x recv j (record { tag = t; action = a }))
  unfolding handle on_action on_final check_final redeliver deliver_all
  handle-Drained recv j t (send m) f = cc
  handle-Drained recv j t (ready d sh) f = cc
  handle-Drained recv j t (final e u) f = record { at = λ s h. ground arith }
  handle-Drained recv j t request f = cc
  handle-Drained recv j t (answer m u) f = cc

  module _ (fuel : ℕ) where
    pub receive-Waits :
        (j : NodeId) (m : Message Sig Share)
        → Parked i (j, m)
        → Ends (Waits i) (receive_message x (suc fuel) j m)
    unfolding receive_message
    receive-Waits j m p = handle-Waits (receive_message x fuel) j m.tag m.action p.1 p.0

    receive-Drained :
        (j : NodeId) (m : Message Sig Share)
        → Parked i (j, m)
        → Ends Drained (receive_message x (suc fuel) j m)
    unfolding receive_message
    receive-Drained j m p = handle-Drained (receive_message x fuel) j m.tag m.action p.1

    deliver_all-Waits :
        (ms : Map (Message Sig Share))
        → All (Parked i) ms
        → Ends (Waits i) (deliver_all x (receive_message x (suc fuel)) ms)
    unfolding deliver_all
    deliver_all-Waits [] a = Keeps-pure tt
    deliver_all-Waits ((j, m) ∷ rest) a =
        Keeps-bind _ _ (receive-Waits j m a.0) (λ _. deliver_all-Waits rest a.1)

    deliver_all-Drained :
        (ms : Map (Message Sig Share))
        → All (Parked i) ms
        → Ends Drained (deliver_all x (receive_message x (suc fuel)) ms)
    unfolding deliver_all
    deliver_all-Drained [] a = Keeps-pure tt
    deliver_all-Drained ((j, m) ∷ rest) a =
        Keeps-bind _ _ (receive-Drained j m a.0) (λ _. deliver_all-Drained rest a.1)

    redeliver-Waits : Ends (Waits i) (redeliver x (receive_message x (suc fuel)))
    unfolding redeliver
    redeliver-Waits = record {
      at = λ s h.
          (deliver_all-Waits s.final_messages h.0.parked).at (record s { final_messages = [] })
            (ground arith);
    }

    pub redeliver-Knows : Ends (Knows i) (redeliver x (receive_message x (suc fuel)))
    unfolding redeliver
    redeliver-Knows = record {
      at = λ s h. ground (
        arith,
        (deliver_all-Drained s.final_messages h.0.parked).at (record s { final_messages = [] }),
      );
    }

    pub redeliver-Ends : Ends (IsParked i) (redeliver x (receive_message x (suc fuel)))
    redeliver-Ends = record {
      at = λ s h. elim (Option-cases s.d) [
        | inl e ↦ ground (arith, redeliver-Waits.at s)
        | inr (d, e) ↦ ground (arith, redeliver-Knows.at s)
      ];
    }
