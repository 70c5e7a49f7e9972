-- ===== src/Elders/History.antt =====
-- Histories of the agreement of one generation: what its callers can do, one after another.
use sn_consensus.Prelude.{ℕ, List, [], ◌∷◌}
use sn_consensus.Keys.{PublicKeySet}
use sn_consensus.Vote.Types.{SignedVote}
use sn_consensus.Vote.Extern.{Extern}
use sn_consensus.Elders.Generation.{Consensus}
use sn_consensus.Elders.Handlers.{handle_signed_vote, cast_vote}
use sn_consensus.Elders.Induction.{IsPreserved, handle_signed_vote-Good, cast_vote-Good}

-- A vote that comes in, or one that the node casts; with the fuel that it is given.
pub data Op (T : Type 0) (Share : Type 0) : Type 0 where
  handles casts : ℕ → SignedVote T Share → Op T Share

module _ {T Share Sig : Type 0} (x : Extern T Share) (elders : PublicKeySet Sig Share) where
  unfoldable pub apply : Op T Share → Consensus T Share Sig → Consensus T Share Sig
  apply (handles fuel v) c = (handle_signed_vote x elders fuel v c).1
  apply (casts fuel v) c = (cast_vote x elders fuel v c).1

  unfoldable pub run : List (Op T Share) → Consensus T Share Sig → Consensus T Share Sig
  run [] c = c
  run (o ∷ more) c = run more (apply o c)

  pub run_induction :
      (P : Consensus T Share Sig → Type 0)
      → IsPreserved x elders P
      → (ops : List (Op T Share)) (c : Consensus T Share Sig) → P c
      → P (run ops c)
  unfolding run apply
  run_induction P w [] c h = h
  run_induction P w (handles fuel v ∷ more) c h =
      run_induction P w more _ ((handle_signed_vote-Good x elders P w fuel v).at c h).0
  run_induction P w (casts fuel v ∷ more) c h =
      run_induction P w more _ ((cast_vote-Good x elders P w fuel v).at c h).0
