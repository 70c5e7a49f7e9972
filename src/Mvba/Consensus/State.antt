-- ===== src/Mvba/Consensus/State.antt =====
-- The state of src/mvba/consensus.rs, its start, and the calls of its components. The components
-- share one broadcaster: a call lends it to the component and takes it back.
use sn_consensus.Prelude.{
  Option, none, List, [], ◌∷◌, Map, String, insert, Exec, Outcome, ok, stop, raised, panicked,
  out_of_fuel,
}
use sn_consensus.Keys.{PublicKeySet, SecretKeyShare}
use sn_consensus.Mvba.Tag.{Domain, NodeId, Proposal, MessageValidity}
use sn_consensus.Mvba.Broadcaster
use sn_consensus.Mvba.Broadcaster.{Broadcaster as Shared, Outgoing}
use sn_consensus.Mvba.Vcbc.Message.{Extern as VcbcExtern, Error as VcbcError}
use sn_consensus.Mvba.Vcbc.State.{Vcbc, new_state as new_vcbc}
use sn_consensus.Mvba.Vcbc.Handlers.{Method as VcbcMethod}
use sn_consensus.Mvba.Abba.Message.{Extern as AbbaExtern, Error as AbbaError}
use sn_consensus.Mvba.Abba.State.{Abba, Method as AbbaMethod, new as new_abba}
use sn_consensus.Mvba.Mvba.Message.{Extern as MvbaExtern, Error as MvbaError}
use sn_consensus.Mvba.Mvba.State.{Mvba, Method as MvbaMethod, new as new_mvba}

-- src/mvba/error.rs.
pub data Error : Type 0 where
  encoding : Error
  vcbc : VcbcError → Error
  abba : AbbaError → Error
  mvba : MvbaError → Error
  invalid_message : String → Error
  generic : String → Error

-- The libraries that the components call.
pub record Extern (Sig : Type 0) (Share : Type 0) : Type 0 where
  pub vcbc : VcbcExtern Sig Share
  pub abba : AbbaExtern Sig Share
  pub mvba : MvbaExtern Sig Share

pub record Consensus (Sig : Type 0) (Share : Type 0) : Type 0 where
  pub domain : Domain
  pub self_id : NodeId
  pub abba_map : Map (Abba Sig Share)
  pub vcbc_map : Map (Vcbc Sig Share)
  pub mvba : Mvba Sig Share
  pub decided_proposer : Option NodeId
  pub decided_proposal : Option Proposal
  pub broadcaster : Shared

abbrev pub Method : Type 0 → Type 0 → Type 0 → Type 0
Method Sig Share A = Exec (Consensus Sig Share) Error A

-- A component's error as an error of the whole.
abbrev pub wrap : {E F A : Type 0} → (E → F) → Outcome E A → Outcome F A
wrap f (ok a) = ok a
wrap f (stop (raised e)) = stop (raised (f e))
wrap f (stop panicked) = stop panicked
wrap f (stop out_of_fuel) = stop out_of_fuel

module _ {Sig Share : Type 0} where
  -- The broadcaster is made for the same node, so the assertion of `Vcbc::new` holds.
  unfoldable pub init_vcbcs :
      Domain
      → NodeId
      → SecretKeyShare Share
      → PublicKeySet Sig Share
      → MessageValidity
      → Shared
      → List NodeId
      → Map (Vcbc Sig Share)
      → Map (Vcbc Sig Share)
  init_vcbcs domain i key keys valid b [] m = m
  init_vcbcs domain i key keys valid b (p ∷ ps) m =
      init_vcbcs domain i key keys valid b ps
        (insert p (new_vcbc (record { domain = domain; proposer = p }) i keys key valid b) m)

  unfoldable pub init_abbas :
      Domain
      → NodeId
      → SecretKeyShare Share
      → PublicKeySet Sig Share
      → Shared
      → List NodeId
      → Map (Abba Sig Share)
      → Map (Abba Sig Share)
  init_abbas domain i key keys b [] m = m
  init_abbas domain i key keys b (p ∷ ps) m =
      init_abbas domain i key keys b ps
        (insert p (new_abba (record { domain = domain; proposer = p }) i keys key b) m)

  unfoldable pub init :
      Domain
      → NodeId
      → SecretKeyShare Share
      → PublicKeySet Sig Share
      → List NodeId
      → MessageValidity
      → Consensus Sig Share
  init domain i key keys parties valid =
      let b : Shared = Broadcaster.new i in
      record {
        domain = domain;
        self_id = i;
        abba_map = init_abbas domain i key keys b parties [];
        vcbc_map = init_vcbcs domain i key keys valid b parties [];
        mvba = new_mvba domain i key keys parties b;
        decided_proposer = none;
        decided_proposal = none;
        broadcaster = b;
      }

  unfoldable pub store_vcbc : NodeId → Vcbc Sig Share → Consensus Sig Share → Consensus Sig Share
  store_vcbc p v s = record s { vcbc_map = insert p v s.vcbc_map; broadcaster = v.broadcaster }

  unfoldable pub store_abba : NodeId → Abba Sig Share → Consensus Sig Share → Consensus Sig Share
  store_abba p a s = record s { abba_map = insert p a s.abba_map; broadcaster = a.broadcaster }

  unfoldable pub store_mvba : Mvba Sig Share → Consensus Sig Share → Consensus Sig Share
  store_mvba m s = record s { mvba = m; broadcaster = m.broadcaster }

  -- A call of the instance of a proposer.
  unfoldable pub call_vcbc :
      {A : Type 0} → NodeId → Vcbc Sig Share → VcbcMethod Sig Share A → Method Sig Share A
  call_vcbc p v m s =
      let r = m (record v { broadcaster = s.broadcaster }) in
      (wrap Error.vcbc r.0, store_vcbc p r.1 s)

  unfoldable pub call_abba :
      {A : Type 0} → NodeId → Abba Sig Share → AbbaMethod Sig Share A → Method Sig Share A
  call_abba p a m s =
      let r = m (record a { broadcaster = s.broadcaster }) in
      (wrap Error.abba r.0, store_abba p r.1 s)

  unfoldable pub call_mvba : {A : Type 0} → MvbaMethod Sig Share A → Method Sig Share A
  call_mvba m s =
      let r = m (record (s.mvba) { broadcaster = s.broadcaster }) in
      (wrap Error.mvba r.0, store_mvba r.1 s)
