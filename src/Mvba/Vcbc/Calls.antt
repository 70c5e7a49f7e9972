-- ===== src/Mvba/Vcbc/Calls.antt =====
-- Every call of src/mvba/vcbc/mod.rs ends, the proposer's own `c_broadcast` included.
use sn_consensus.Prelude.{
  ℕ, suc, ◌+◌, ◌≢◌, refl, List, [], ◌∷◌, All, out_of_fuel, stop, raised_InFuel, panicked_InFuel,
  Stops-InFuel, keeps_rules, arith,
}
use native.Mathlib.Numerals.{towards_suc}
use sn_consensus.Keys.{Bytes, PublicKeySet, SecretKeyShare}
use sn_consensus.Mvba.Tag.{Tag, NodeId, Proposal, MessageValidity}
use sn_consensus.Mvba.Broadcaster.{Broadcaster}
use sn_consensus.Mvba.Vcbc.Message.{Message, Action, send, ready, final, request, answer, Extern}
use sn_consensus.Mvba.Vcbc.State.{Vcbc, new_state}
use sn_consensus.Mvba.Vcbc.Handlers.{
  Method, note, broadcast, on_action, receive_message, c_broadcast,
}
use sn_consensus.Mvba.Vcbc.Parking.{IsParked, redeliver-Ends}
use sn_consensus.Mvba.Vcbc.Termination.{
  Ends, receive-Ends, receive_answer-Ends, on_request-Ends, receive_ready-Ends, on_send-Ends,
  receive_final-Ends,
}

-- What the rest of the program asks of the component.
pub data Op (Sig : Type 0) (Share : Type 0) : Type 0 where
  broadcasts : Proposal → Op Sig Share
  receives : NodeId → Message Sig Share → Op Sig Share

module _ {Sig Share : Type 0} (x : Extern Sig Share) (fuel : ℕ) where
  unfoldable pub call : Op Sig Share → Method Sig Share Unit
  call (broadcasts m) = c_broadcast x fuel m
  call (receives j m) = receive_message x fuel j m

  -- The calls one after another, whatever each returns.
  unfoldable pub run_calls : List (Op Sig Share) → Vcbc Sig Share → Vcbc Sig Share
  run_calls [] v = v
  run_calls (o ∷ os) v = run_calls os (call o v).1

module _ {Sig Share : Type 0} (i : NodeId) where
  -- A message is not a c-final that claims to come from the node itself.
  abbrev pub NotOwnFinal : NodeId → Action Sig Share → Type 0
  NotOwnFinal j (final e u) = j ≢ i
  NotOwnFinal j _ = Unit

  abbrev pub IsProper : Op Sig Share → Type 0
  IsProper (broadcasts m) = Unit
  IsProper (receives j m) = NotOwnFinal j m.action

module _ {Sig Share : Type 0} (x : Extern Sig Share) (i : NodeId) where
  receive-IsParked :
      (fuel : ℕ) (j : NodeId) (t : Tag) (a : Action Sig Share)
      → NotOwnFinal i j a
      → Ends x i
          (IsParked i)
          (receive_message x (suc (suc (suc (suc fuel)))) j (record { tag = t; action = a }))
  unfolding on_action
  receive-IsParked fuel j t (send m) n =
      receive-Ends x i (IsParked i) (suc (suc fuel)) j _ (on_send-Ends x i fuel j m)
        (redeliver-Ends x i (suc (suc fuel)))
  receive-IsParked fuel j t (ready e sh) n = receive_ready-Ends x i (suc fuel) j t e sh
  receive-IsParked fuel j t (final e u) n = receive_final-Ends x i (suc (suc fuel)) j t e u n
  receive-IsParked fuel j t request n =
      receive-Ends x i (IsParked i) (suc (suc fuel)) j _ (on_request-Ends x i (suc fuel) j)
        (redeliver-Ends x i (suc (suc fuel)))
  receive-IsParked fuel j t (answer m u) n = receive_answer-Ends x i (suc (suc fuel)) j t m u

  note-Ends : (p : Bytes) → Ends x i (IsParked i) (note x p)
  unfolding note
  note-Ends p = record { at = λ s h. ground arith }

  receive_send-Ends :
      (fuel : ℕ) (j : NodeId) (t : Tag) (m : Proposal)
      → Ends x i
          (IsParked i)
          (receive_message x (suc (suc (suc (suc fuel)))) j (record { tag = t; action = send m }))
  receive_send-Ends fuel j t m = receive-IsParked fuel j t (send m) tt

  c_broadcast-Ends :
      (fuel : ℕ) (m : Proposal)
      → Ends x i (IsParked i) (c_broadcast x (suc (suc (suc (suc fuel)))) m)
  unfolding c_broadcast broadcast
  c_broadcast-Ends fuel m =
      search (keeps_rules, raised_InFuel, panicked_InFuel, note-Ends, receive_send-Ends) depth 12

  call-Ends :
      (fuel : ℕ) (o : Op Sig Share)
      → IsProper i o
      → Ends x i (IsParked i) (call x (suc (suc (suc (suc fuel)))) o)
  unfolding call
  call-Ends fuel (broadcasts m) n = c_broadcast-Ends fuel m
  call-Ends fuel (receives j m) n = receive-IsParked fuel j m.tag m.action n

  run-IsParked :
      (fuel : ℕ) (os : List (Op Sig Share)) (v : Vcbc Sig Share)
      → All (IsProper i) os
      → IsParked i v
      → IsParked i (run_calls x (suc (suc (suc (suc fuel)))) os v)
  unfolding run_calls
  run-IsParked fuel [] v p h = h
  run-IsParked fuel (o ∷ os) v p h = run-IsParked fuel os _ p.1 ((call-Ends fuel o p.0).at v h).0

  -- Four nested calls of `receive_message` are enough for any call of an instance, `c_broadcast` of
  -- the proposer included, on any path and after any calls since it was new: the call returns, fails
  -- or panics, and does not run out of fuel. This is where no message, in this call and before, is a
  -- c-final in the node's own name.
  pub every_call_ends :
      (tag : Tag) (keys : PublicKeySet Sig Share) (key : SecretKeyShare Share)
      (valid : MessageValidity) (b : Broadcaster) (fuel : ℕ) (os : List (Op Sig Share))
      (o : Op Sig Share)
      → All (IsProper i) os
      → IsProper i o
      → (call x (fuel + 4) o (run_calls x (fuel + 4) os (new_state tag i keys key valid b))).0
        ≢ stop out_of_fuel
  unfolding new_state
  every_call_ends tag keys key valid b fuel os o p n = simp towards_suc (
      Stops-InFuel _
        ((call-Ends fuel o n).at _
          (run-IsParked fuel os _ p (record { owner = refl; parked = tt }))).1)
