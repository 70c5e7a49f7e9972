-- ===== src/Mvba/Consensus/History.antt =====
-- Histories of the calls of a node of src/mvba/consensus.rs.
use sn_consensus.Prelude.{ℕ, List, [], ◌∷◌}
use sn_consensus.Mvba.Tag.{Proposal}
use sn_consensus.Mvba.Broadcaster.{Bundle}
use sn_consensus.Mvba.Consensus.State.{Consensus, Extern}
use sn_consensus.Mvba.Consensus.Bundles.{process_bundle, propose}
use sn_consensus.Mvba.Consensus.Induction.{IsPreserved}
use sn_consensus.Mvba.Consensus.Preservation.{process_bundle-Good, propose-Good}

-- What the program asks of a node.
pub data Op : Type 0 where
  proposes : Proposal → Op
  takes : Bundle → Op

module _ {Sig Share : Type 0} (x : Extern Sig Share) (fuel : ℕ) where
  unfoldable pub apply : Op → Consensus Sig Share → Consensus Sig Share
  apply (proposes m) s = (propose x fuel m s).1
  apply (takes b) s = (process_bundle x fuel b s).1

  unfoldable pub run : List Op → Consensus Sig Share → Consensus Sig Share
  run [] s = s
  run (o ∷ os) s = run os (apply o s)

  module _ (P : Consensus Sig Share → Type 0) (w : IsPreserved x fuel P) where
    pub apply-Good : (o : Op) (s : Consensus Sig Share) → P s → P (apply o s)
    unfolding apply
    apply-Good (proposes m) s h = ((propose-Good x fuel P w m).at s h).0
    apply-Good (takes b) s h = ((process_bundle-Good x fuel P w b).at s h).0

    pub run-Good : (os : List Op) (s : Consensus Sig Share) → P s → P (run os s)
    unfolding run
    run-Good [] s h = h
    run-Good (o ∷ os) s h = run-Good os (apply o s) (apply-Good o s h)
