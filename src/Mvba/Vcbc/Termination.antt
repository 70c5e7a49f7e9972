-- ===== src/Mvba/Vcbc/Termination.antt =====
-- How deep the calls of `receive_message` by itself go in src/mvba/vcbc/mod.rs.
use sn_consensus.Prelude.{
  same_refl, ℕ, zero, suc, ◌≡◌, ◌≢◌, refl, none, some, [], out_of_fuel, stop, InFuel, raised_InFuel,
  panicked_InFuel, Keeps, Keeps-known, keeps_rules, arith, Option-cases, inl, inr,
}
use sn_consensus.Keys.{Bytes}
use sn_consensus.Mvba.Tag.{Tag, NodeId, Proposal, Tag-discrete}
use sn_consensus.Mvba.Hash.{Hash32, calculate}
use sn_consensus.Mvba.Vcbc.Message.{Message, ready, final, request, answer, Extern}
use sn_consensus.Mvba.Vcbc.State.{Vcbc, try_insert}
use sn_consensus.Mvba.Vcbc.Handlers.{
  Method, Receiver, note, send_to, broadcast, accept, on_send, add_share, conclude, check_ready,
  on_ready, send_ready, park_final, check_final, on_final, on_request, check_request, supply,
  on_answer, on_action, deliver_all, redeliver, handle, receive_message,
}
use sn_consensus.Mvba.Vcbc.Parking.{IsParked, Knows, redeliver-Knows, redeliver-Ends, receive-Waits}

module _ {Sig Share : Type 0} (x : Extern Sig Share) (i : NodeId) where
  -- The method ends in fuel from every state in `P`, and stays in `P`.
  abbrev pub Ends : (Vcbc Sig Share → Type 0) → {A : Type 0} → Method Sig Share A → Type 0
  Ends P = Keeps P InFuel

  handle-Ends :
      (P : Vcbc Sig Share → Type 0) (recv : Receiver Sig Share) (j : NodeId) (m : Message Sig Share)
      → Ends P (on_action x recv j m.tag m.action)
      → Ends P (redeliver x recv)
      → Ends P (handle x recv j m)
  unfolding handle
  handle-Ends P recv j m ka kr = search (keeps_rules, raised_InFuel, ka, kr) depth 8

  pub receive-Ends :
      (P : Vcbc Sig Share → Type 0) (fuel : ℕ) (j : NodeId) (m : Message Sig Share)
      → Ends P (on_action x (receive_message x (suc fuel)) j m.tag m.action)
      → Ends P (redeliver x (receive_message x (suc fuel)))
      → Ends P (receive_message x (suc (suc fuel)) j m)
  unfolding receive_message
  receive-Ends P fuel j m ka kr = handle-Ends P (receive_message x (suc fuel)) j m ka kr

  -- Level 2: a c-final to a node that knows the digest, and a c-answer.
  on_final-Knows :
      (recv : Receiver Sig Share) (j : NodeId) (t : Tag) (e : Hash32) (u : Sig)
      → Ends (Knows i) (on_final x recv j t e u)
  unfolding on_final check_final
  on_final-Knows recv j t e u = record { at = λ s h. ground arith }

  on_answer-Ends : (m : Proposal) (u : Sig) → Ends (IsParked i) (on_answer x m u)
  unfolding on_answer
  on_answer-Ends m u = record { at = λ s h. ground arith }

  send_to-Ends :
      (recv : Receiver Sig Share) (m : Message Sig Share) (to : NodeId)
      → ((j : NodeId) → Ends (IsParked i) (recv j m))
      → Ends (IsParked i) (send_to x recv m to)
  unfolding send_to
  send_to-Ends recv m to k = record { at = λ s h. ground (arith, (k s.i).at s) }

  module _ (fuel : ℕ) where
    receive_final-Knows :
        (j : NodeId) (t : Tag) (e : Hash32) (u : Sig)
        → Ends
            (Knows i)
            (receive_message x (suc (suc fuel)) j (record { tag = t; action = final e u }))
    unfolding on_action
    receive_final-Knows j t e u =
        receive-Ends (Knows i) fuel j _ (on_final-Knows _ j t e u) (redeliver-Knows x i fuel)

    pub receive_answer-Ends :
        (j : NodeId) (t : Tag) (m : Proposal) (u : Sig)
        → Ends
            (IsParked i)
            (receive_message x (suc (suc fuel)) j (record { tag = t; action = answer m u }))
    unfolding on_action
    receive_answer-Ends j t m u =
        receive-Ends (IsParked i) fuel j _ (on_answer-Ends m u) (redeliver-Ends x i fuel)

    -- Level 3: a c-request, and a c-ready.
    send_answer-Ends :
        (v : Vcbc Sig Share) (j : NodeId) (m : Proposal) (u : Sig)
        → Ends (IsParked i) (supply x (receive_message x (suc (suc fuel))) v j m u)
    unfolding supply send_to
    send_answer-Ends v j m u = record {
      at = λ s h. ground (arith, (receive_answer-Ends s.i v.tag m u).at s);
    }

    pub on_request-Ends :
        (j : NodeId) → Ends (IsParked i) (on_request x (receive_message x (suc (suc fuel))) j)
    unfolding on_request check_request
    on_request-Ends j = search (keeps_rules, panicked_InFuel, send_answer-Ends) depth 8

    note-Knows : (p : Bytes) → Ends (Knows i) (note x p)
    unfolding note
    note-Knows p = record { at = λ s h. ground arith }

    conclude-Knows :
        (d : Hash32) → Ends (Knows i) (conclude x (receive_message x (suc (suc fuel))) d)
    unfolding conclude broadcast
    conclude-Knows d = search (keeps_rules, raised_InFuel, note-Knows, receive_final-Knows) depth 10

    check_ready-Knows :
        (j : NodeId) (t : Tag) (e : Hash32) (sh : Share) (d : Hash32)
        → Ends (Knows i) (check_ready x (receive_message x (suc (suc fuel))) j t e sh d)
    unfolding check_ready add_share
    check_ready-Knows j t e sh d = record {
      at = λ s h. ground (arith, (conclude-Knows d).at (add_share x j sh s));
    }

    on_ready-Ends :
        (j : NodeId) (t : Tag) (e : Hash32) (sh : Share)
        → Ends (IsParked i) (on_ready x (receive_message x (suc (suc fuel))) j t e sh)
    unfolding on_ready
    on_ready-Ends j t e sh =
        Keeps-known _ (λ s. s.d) _ (search (keeps_rules, raised_InFuel))
          λ d s known h. ground (arith, (check_ready-Knows j t e sh d).at s)

    pub receive_ready-Ends :
        (j : NodeId) (t : Tag) (e : Hash32) (sh : Share)
        → Ends
            (IsParked i)
            (receive_message x (suc (suc (suc fuel))) j (record { tag = t; action = ready e sh }))
    unfolding on_action
    receive_ready-Ends j t e sh =
        receive-Ends (IsParked i) (suc fuel) j _ (on_ready-Ends j t e sh)
          (redeliver-Ends x i (suc fuel))

    -- Level 4: a c-send.
    send_ready-Ends :
        (v : Vcbc Sig Share) (d : Hash32)
        → Ends (IsParked i) (send_ready x (receive_message x (suc (suc (suc fuel)))) v d)
    unfolding send_ready send_to
    send_ready-Ends v d =
        search (keeps_rules, raised_InFuel, send_to-Ends, receive_ready-Ends) depth 10

    pub on_send-Ends :
        (j : NodeId) (m : Proposal)
        → Ends (IsParked i) (on_send x (receive_message x (suc (suc (suc fuel)))) j m)
    unfolding on_send accept
    on_send-Ends j m = record {
      at = λ s h. ground (arith, (send_ready-Ends s (calculate x.sha3 m)).at (accept x m s));
    }

    -- A c-final of another party, known digest or not.
    pub receive_final-Ends :
        (j : NodeId) (t : Tag) (e : Hash32) (u : Sig)
        → j ≢ i
        → Ends
            (IsParked i)
            (receive_message x (suc (suc fuel)) j (record { tag = t; action = final e u }))
    receive_final-Ends j t e u n = record {
      at = λ s h. elim (Option-cases s.d) [
        | inl p ↦ ground (
          arith,
          (receive-Waits x i (suc fuel) j (record { tag = t; action = final e u }) (n, refl)).at s,
        )
        | inr (d, p) ↦ ground (arith, (receive_final-Knows j t e u).at s)
      ];
    }

module _ {Sig Share : Type 0} (x : Extern Sig Share) where
  -- A c-final that claims to come from the node itself, before the node knows the digest, is put
  -- back in the log and delivered again without end: with any fuel the call runs out of it. The
  -- node has no c-final signature and no logged message, and can serialize its request.
  pub self_final_diverges :
      (fuel : ℕ) (v : Vcbc Sig Share) (e : Hash32) (u : Sig) (p : Bytes)
      → v.d ≡ none
      → v.u_bar ≡ none
      → v.final_messages ≡ []
      → x.message_format.serialize (record { tag = v.tag; action = request }) ≡ some p
      → (receive_message x fuel v.i (record { tag = v.tag; action = final e u }) v).0
        ≡ stop out_of_fuel
  unfolding receive_message handle on_action on_final park_final try_insert send_to redeliver
      deliver_all on_request
  self_final_diverges zero v e u p a b c d = refl
  self_final_diverges (suc zero) v e u p a b c d = ground (arith, same_refl Tag-discrete v.tag)
  self_final_diverges (suc (suc fuel)) v e u p a b c d = ground (
    arith,
    same_refl Tag-discrete v.tag,
    self_final_diverges fuel (record v { final_messages = [] }) e u p a b refl d,
  )
