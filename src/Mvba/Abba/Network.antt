-- ===== src/Mvba/Abba/Network.antt =====
-- A network of parties that run src/mvba/abba: each party starts with a value, and any message that
-- a party has handed to its broadcaster is delivered to any party, in any order and any number of
-- times. The parties share the key set, and each has a key share of its own.
use sn_consensus.Prelude.{ℕ, ◌≡◌, some, List, [], ◌∷◌, ◌++◌, get_elem?, ◌==◌, if◌then◌else◌}
use sn_consensus.Keys.{PublicKeySet, SecretKeyShare}
use sn_consensus.Mvba.Tag.{Tag, NodeId}
use sn_consensus.Mvba.Hash.{Hash32}
use sn_consensus.Mvba.Broadcaster.{Bundle, gossip}
use sn_consensus.Mvba.Broadcaster
use sn_consensus.Mvba.Abba.Message.{Value, Message, Extern}
use sn_consensus.Mvba.Abba.State.{Abba, new}
use sn_consensus.Mvba.Abba.Protocol.{receive_message, pre_vote_zero, pre_vote_one}

-- The state of every party.
abbrev pub Network : Type 0 → Type 0 → Type 0
Network Sig Share = NodeId → Abba Sig Share

module _ {Sig Share : Type 0} where
  abbrev pub update : NodeId → Abba Sig Share → Network Sig Share → Network Sig Share
  update i s net k = if k == i then s else net k

  abbrev pub initial :
      Tag → PublicKeySet Sig Share → (NodeId → SecretKeyShare Share) → Network Sig Share
  initial tag keys secrets i = new tag i keys (secrets i) (Broadcaster.new i)

  module _ (x : Extern Sig Share) (fuel : ℕ) where
    -- One call at the party `i`; with it the value that the call starts with, if it does.
    pub data Step (net : Network Sig Share) : List Value → Network Sig Share → Type 0 where
      starts_zero :
          (i : NodeId) → Step net (Value.zero ∷ []) (update i (pre_vote_zero x fuel (net i)).1 net)
      starts_one :
          (i : NodeId) (digest : Hash32) (sig : Sig)
          → Step net (Value.one ∷ []) (update i (pre_vote_one x fuel digest sig (net i)).1 net)
      delivers :
          (i j : NodeId) (k : ℕ) (b : Bundle) (m : Message Sig Share)
          → get_elem? (net j).broadcaster.outgoings k ≡ some (gossip b)
          → x.message_format.deserialize b.payload ≡ some m
          → Step net [] (update i (receive_message x fuel j m (net i)).1 net)

    -- With the values that the parties have started with, the last one first.
    pub data Reach (start : Network Sig Share) : List Value → Network Sig Share → Type 0 where
      here : Reach start [] start
      later :
          {vs ws : List Value} {net next : Network Sig Share}
          → Reach start vs net
          → Step net ws next
          → Reach start (ws ++ vs) next
