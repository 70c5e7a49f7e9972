-- ===== src/Examples/Broadcasts.antt =====
-- Runs of src/mvba/vcbc.
use sn_consensus.Prelude.{
  ℕ, ◌≡◌, ◌≢◌, refl, Bool, true, none, some, List, [], ◌∷◌, stop, panicked, out_of_fuel,
  String_discrete, ℕ_discrete,
}
use sn_consensus.Mvba.Tag.{NodeId, Domain-discrete, Tag-discrete}
use sn_consensus.Mvba.Hash.{Hash32, Hash32-discrete, calculate}
use sn_consensus.Mvba.Vcbc.Message.{Message, send, ready, final, request, c_ready_bytes_to_sign}
use sn_consensus.Mvba.Vcbc.State.{Vcbc, new_state, threshold, read_delivered}
use sn_consensus.Mvba.Broadcaster
use sn_consensus.Mvba.Vcbc.Handlers.{
  receive_message, handle, on_action, on_send, on_ready, on_final, check_ready, check_final, accept,
  send_ready, send_to, redeliver, deliver_all, conclude, broadcast, note, add_share,
}
use sn_consensus.Mvba.Vcbc.Delivery.{
  run, signed, delivered_signed, delivered_stable, receive_never_panics,
}
use sn_consensus.Mvba.Vcbc.Quorum.{IsCounted, shares-IsCounted}
use sn_consensus.Mvba.Vcbc.Termination.{self_final_diverges}
use sn_consensus.Mvba.Vcbc.Calls.{Op, broadcasts, receives, call, run_calls, every_call_ends}
use sn_consensus.Examples.Toy.{keys, key, tag, silent, vcbc_extern}

abbrev anything : NodeId → List ℕ → Bool
anything _ _ = true

-- Party 1 in its own broadcast and in that of party 0.
abbrev own : Vcbc ℕ ℕ
own = new_state (tag 1) 1 keys key anything silent

abbrev other : Vcbc ℕ ℕ
other = new_state (tag 0) 1 keys key anything silent

abbrev digest : Hash32
digest = record { bytes = 5 ∷ [] }

-- What party 1 receives from party 0: the proposal, and a threshold signature on it.
abbrev history : List (NodeId × Message ℕ ℕ)
history =
    (0, record { tag = tag 0; action = send (5 ∷ []) })
    ∷ (0, record { tag = tag 0; action = final digest 7 })
    ∷ []

-- In its own broadcast: the proposal, and the share of party 2, with which there are enough.
abbrev own_history : List (NodeId × Message ℕ ℕ)
own_history =
    (1, record { tag = tag 1; action = send (5 ∷ []) })
    ∷ (2, record { tag = tag 1; action = ready digest 2 })
    ∷ []

abbrev asks : Message ℕ ℕ
asks = record { tag = tag 0; action = request }

history_delivers : read_delivered (run (vcbc_extern none) 8 history other) ≡ some (5 ∷ [], 7)
unfolding read_delivered run receive_message handle on_action on_send on_final check_final accept
    send_ready send_to redeliver deliver_all new_state Broadcaster.send_to Tag-discrete
    Hash32-discrete Domain-discrete String_discrete ℕ_discrete c_ready_bytes_to_sign calculate
history_delivers = refl

own_history_delivers : read_delivered (run (vcbc_extern none) 8 own_history own) ≡ some (5 ∷ [], 7)
unfolding read_delivered run receive_message handle on_action on_send on_ready on_final check_ready
    check_final accept send_ready send_to redeliver deliver_all new_state conclude broadcast note
    add_share threshold Broadcaster.send_to Broadcaster.broadcast Tag-discrete Hash32-discrete
    Domain-discrete String_discrete ℕ_discrete c_ready_bytes_to_sign calculate
own_history_delivers = refl

delivered_signed_example : signed (vcbc_extern none) keys (tag 0) (5 ∷ []) 7 ≡ true
delivered_signed_example =
    delivered_signed (vcbc_extern none) (tag 0) 1 keys key anything silent 8 history (5 ∷ []) 7
      history_delivers

delivered_stable_example :
    read_delivered
      (receive_message (vcbc_extern none) 8 2 asks (run (vcbc_extern none) 8 history other)).1
    ≡ some (5 ∷ [], 7)
delivered_stable_example =
    delivered_stable (vcbc_extern none) 8 2 asks (run (vcbc_extern none) 8 history other)
      (5 ∷ [], 7) history_delivers

receive_never_panics_example :
    (receive_message (vcbc_extern none) 8 2 asks (run (vcbc_extern none) 8 history other)).0
    ≢ stop panicked
receive_never_panics_example =
    receive_never_panics (vcbc_extern none) (tag 0) 1 keys key anything silent 8 history 2 asks

shares-IsCounted_example :
    IsCounted (vcbc_extern none) keys (tag 1) (run (vcbc_extern none) 8 own_history own)
shares-IsCounted_example =
    shares-IsCounted (vcbc_extern none) keys (tag 1) 1 key anything silent 8 own_history

-- Party 1 broadcasts, and completes its broadcast with the share of party 2.
abbrev own_calls : List (Op ℕ ℕ)
own_calls = broadcasts (5 ∷ []) ∷ receives 2 (record { tag = tag 1; action = ready digest 2 }) ∷ []

every_call_ends_example :
    (call
      (vcbc_extern none)
      4
      (receives 2 (record { tag = tag 1; action = request }))
      (run_calls (vcbc_extern none) 4 own_calls own)).0
    ≢ stop out_of_fuel
every_call_ends_example =
    every_call_ends (vcbc_extern none) 1 (tag 1) keys key anything silent 0 own_calls
      (receives 2 (record { tag = tag 1; action = request })) (tt, (tt, tt)) tt

self_final_diverges_example :
    (receive_message
      (vcbc_extern none)
      9
      1
      (record { tag = tag 0; action = final digest 7 })
      other).0
    ≡ stop out_of_fuel
unfolding new_state
self_final_diverges_example =
    self_final_diverges (vcbc_extern none) 9 other digest 7 [] refl refl refl refl
