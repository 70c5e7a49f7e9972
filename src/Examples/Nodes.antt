-- ===== src/Examples/Nodes.antt =====
-- Runs of src/mvba/consensus.rs.
use sn_consensus.Prelude.{
  ℕ, ◌≡◌, refl, Bool, true, some, List, [], ◌∷◌, String_discrete, ℕ_discrete,
}
use sn_consensus.Mvba.Tag.{NodeId, Domain-discrete, Tag-discrete}
use sn_consensus.Mvba.Broadcaster
use sn_consensus.Mvba.Broadcaster.{Bundle}
use sn_consensus.Mvba.Vcbc.Message.{Message, request}
use sn_consensus.Mvba.Vcbc.State.{Vcbc, read_delivered, new_state}
use sn_consensus.Mvba.Vcbc.Handlers.{
  receive_message, handle, on_action, on_request, check_request, supply, send_to, redeliver,
  deliver_all,
}
use sn_consensus.Mvba.Consensus.State.{Consensus, init}
use sn_consensus.Mvba.Consensus.Bundles.{process_bundle}
use sn_consensus.Mvba.Consensus.History.{proposes, takes, run}
use sn_consensus.Mvba.Consensus.Decision.{IsSound, decided-IsSound}
use sn_consensus.Mvba.Consensus.Outcome.{decided_proposal_final, any_delivery_decides}
use sn_consensus.Examples.Toy.{keys, key, domain, tag, silent, extern, toy-Combines}

abbrev parties : List NodeId
parties = 0 ∷ 1 ∷ 2 ∷ []

abbrev anything : NodeId → List ℕ → Bool
anything _ _ = true

abbrev start : Consensus ℕ ℕ
start = init domain 1 key keys parties anything

-- A message of party 2 to the broadcast of party 0.
abbrev asks : Message ℕ ℕ
asks = record { tag = tag 0; action = request }

abbrev bundle : Bundle
bundle = record { initiator = 2; target = some 0; module_name = "vcbc"; payload = [] }

-- The broadcast of party 0, with its proposal delivered.
abbrev delivered : Vcbc ℕ ℕ
delivered = record (new_state (tag 0) 1 keys key anything silent) {
  m_bar = some (5 ∷ []);
  u_bar = some 7;
  d = some (record { bytes = 5 ∷ [] });
}

-- Party 2 is the decided proposer, and its proposal is not known.
abbrev agreed : Consensus ℕ ℕ
agreed = record start { decided_proposer = some 2; vcbc_map = (0, delivered) ∷ [] }

decided-IsSound_example :
    IsSound
      (extern (some asks))
      keys
      domain
      (run (extern (some asks)) 4 (proposes (5 ∷ []) ∷ takes bundle ∷ []) start)
decided-IsSound_example =
    decided-IsSound (extern (some asks)) keys domain 1 key anything toy-Combines parties 4
      (proposes (5 ∷ []) ∷ takes bundle ∷ [])

decided_proposal_final_example :
    (run
      (extern (some asks))
      4
      (takes bundle ∷ proposes (6 ∷ []) ∷ [])
      (record start { decided_proposal = some (5 ∷ []) })).decided_proposal
    ≡ some (5 ∷ [])
decided_proposal_final_example =
    decided_proposal_final (extern (some asks)) 4 (takes bundle ∷ proposes (6 ∷ []) ∷ [])
      (record start { decided_proposal = some (5 ∷ []) }) (5 ∷ []) refl

-- The decided proposer is 2, and the decided proposal is that of 0.
any_delivery_decides_example :
    (process_bundle (extern (some asks)) 4 bundle agreed).1.decided_proposal ≡ some (5 ∷ [])
unfolding init new_state read_delivered receive_message handle on_action on_request check_request
    supply send_to redeliver deliver_all Broadcaster.send_to Tag-discrete Domain-discrete
    String_discrete ℕ_discrete
any_delivery_decides_example =
    any_delivery_decides (extern (some asks)) 4 agreed bundle 2 0 delivered asks (5 ∷ []) 7 refl
      refl refl refl refl refl refl refl
