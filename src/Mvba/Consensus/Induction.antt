-- ===== src/Mvba/Consensus/Induction.antt =====
-- Every way in which `propose` and `process_bundle` change the state of src/mvba/consensus.rs, as
-- one principle.
use sn_consensus.Prelude.{ℕ, ◌≡◌, true, some, lookup, is_some}
use sn_consensus.Mvba.Tag.{NodeId, Proposal}
use sn_consensus.Mvba.Broadcaster.{Broadcaster}
use sn_consensus.Mvba.Vcbc.State.{Vcbc}
use sn_consensus.Mvba.Vcbc.Message.{Message as VcbcMessage}
use sn_consensus.Mvba.Vcbc.Handlers as VcbcHandlers
use sn_consensus.Mvba.Abba.State.{Abba}
use sn_consensus.Mvba.Abba.History as AbbaHistory
use sn_consensus.Mvba.Abba.History.{receives, votes_zero, votes_one}
use sn_consensus.Mvba.Mvba.State.{Mvba}
use sn_consensus.Mvba.Mvba.Ballots as MvbaBallots
use sn_consensus.Mvba.Mvba.Ballots.{offers, moves}
use sn_consensus.Mvba.Consensus.State.{Consensus, Extern, store_vcbc, store_abba, store_mvba}
use sn_consensus.Mvba.Consensus.Bundles.{
  set_decided_proposer, set_decided_proposal, delivered_by, decided_by,
}

module _ {Sig Share : Type 0} where
  -- A component as it runs: with the broadcaster of the whole.
  abbrev pub lent_vcbc : Consensus Sig Share → Vcbc Sig Share → Vcbc Sig Share
  lent_vcbc s v = record v { broadcaster = s.broadcaster }

  abbrev pub lent_abba : Consensus Sig Share → Abba Sig Share → Abba Sig Share
  lent_abba s a = record a { broadcaster = s.broadcaster }

  abbrev pub lent_mvba : Consensus Sig Share → Mvba Sig Share
  lent_mvba s = record (s.mvba) { broadcaster = s.broadcaster }

module _ {Sig Share : Type 0} (x : Extern Sig Share) (fuel : ℕ) where
  pub record IsPreserved (P : Consensus Sig Share → Type 0) : Type 0 where
    pub sends : (s : Consensus Sig Share) (b : Broadcaster) → P s → P (record s { broadcaster = b })
    pub runs_vcbc :
        (s : Consensus Sig Share) (p : NodeId) (v : Vcbc Sig Share) (j : NodeId)
        (m : VcbcMessage Sig Share)
        → lookup p s.vcbc_map ≡ some v
        → P s
        → P (store_vcbc p (VcbcHandlers.receive_message x.vcbc fuel j m (lent_vcbc s v)).1 s)
    pub runs_send :
        (s : Consensus Sig Share) (p : NodeId) (v : Vcbc Sig Share) (m : Proposal)
        → lookup p s.vcbc_map ≡ some v
        → P s
        → P (store_vcbc p (VcbcHandlers.c_broadcast x.vcbc fuel m (lent_vcbc s v)).1 s)
    pub runs_abba :
        (s : Consensus Sig Share) (p : NodeId) (a : Abba Sig Share) (o : AbbaHistory.Op Sig Share)
        → lookup p s.abba_map ≡ some a
        → P s
        → P (store_abba p (AbbaHistory.apply x.abba fuel o (lent_abba s a)) s)
    pub runs_mvba :
        (s : Consensus Sig Share) (o : MvbaBallots.Op Sig Share)
        → P s
        → P (store_mvba (MvbaBallots.apply x.mvba o (lent_mvba s)) s)
    pub reads_mvba : (s : Consensus Sig Share) → P s → P (store_mvba (lent_mvba s) s)
    pub accepts :
        (s : Consensus Sig Share) (p : NodeId)
        → decided_by p s ≡ some true
        → P s
        → P (set_decided_proposer p s)
    pub decides :
        (s : Consensus Sig Share) (p : NodeId) (m : Proposal) (u : Sig)
        → delivered_by p s ≡ some (m, u)
        → is_some s.decided_proposer ≡ true
        → P s
        → P (set_decided_proposal m s)
