-- ===== src/Mvba/Consensus/Decision.antt =====
-- What a node of src/mvba/consensus.rs decides, after any history of bundles and proposals.
use sn_consensus.Prelude.{
  insert-All, lookup-All, ℕ, ◌≡◌, refl, true, Option, none, some, List, [], ◌∷◌, Map, All, lookup,
  Anyhow, arith, Option-cases, inl, inr, subst,
}
use sn_consensus.Keys.{PublicKeySet, SecretKeyShare}
use sn_consensus.Mvba.Tag.{Domain, Tag, NodeId, Proposal, MessageValidity}
use sn_consensus.Mvba.Broadcaster.{Broadcaster}
use sn_consensus.Mvba.Vcbc.State.{Vcbc, read_delivered}
use sn_consensus.Mvba.Vcbc.Induction as VcbcInduction
use sn_consensus.Mvba.Vcbc.Delivery as Delivery
use sn_consensus.Mvba.Vcbc.Delivery.{signed, IsSound-preserved, new-IsSound}
use sn_consensus.Mvba.Abba.Message.{Value, DecisionAction}
use sn_consensus.Mvba.Abba.State.{Abba, decided, value_bool}
use sn_consensus.Mvba.Abba.Induction as AbbaInduction
use sn_consensus.Mvba.Abba.Induction.{decision_ok}
use sn_consensus.Mvba.Abba.History as AbbaHistory
use sn_consensus.Mvba.Abba.Decision as AbbaDecision
use sn_consensus.Mvba.Abba.Decision.{Combines}
use sn_consensus.Mvba.Mvba.State.{Mvba, new as new_mvba}
use sn_consensus.Mvba.Mvba.Ballots as Ballots
use sn_consensus.Mvba.Consensus.State.{
  Consensus, Extern, init, init_vcbcs, init_abbas, store_vcbc, store_abba, store_mvba,
}
use sn_consensus.Mvba.Consensus.Bundles.{
  set_decided_proposer, set_decided_proposal, delivered_by, decided_by,
}
use sn_consensus.Mvba.Consensus.Induction.{IsPreserved, lent_vcbc, lent_abba, lent_mvba}
use sn_consensus.Mvba.Consensus.History.{Op, run, run-Good}

module _ {Sig Share : Type 0} (x : Extern Sig Share) (keys : PublicKeySet Sig Share)
    (d : Domain) where
  abbrev pub tag_of : NodeId → Tag
  tag_of p = record { domain = d; proposer = p }

  -- The instance of a proposer, and what it holds.
  abbrev pub VcbcSound : NodeId × Vcbc Sig Share → Type 0
  VcbcSound e = Delivery.IsSound x.vcbc keys (tag_of e.0) e.1

  abbrev pub AbbaSound : NodeId × Abba Sig Share → Type 0
  AbbaSound e = AbbaDecision.IsSound x.abba keys (tag_of e.0) e.1

  -- A proposer that was decided: a signed decision for 1 in its binary agreement.
  abbrev pub Agreed : Option NodeId → Type 0
  Agreed none = Unit
  Agreed (some p) =
      (a : DecisionAction Sig) × (a.value ≡ Value.one)
      × (decision_ok x.abba keys (tag_of p) a ≡ true)

  -- A proposal that was decided: a signature on it, as the broadcast of some proposer.
  abbrev pub Proven : Option Proposal → Type 0
  Proven none = Unit
  Proven (some m) = (p : NodeId) × (u : Sig) × (signed x.vcbc keys (tag_of p) m u ≡ true)

  pub record IsSound (s : Consensus Sig Share) : Type 0 where
    pub broadcasts : All VcbcSound s.vcbc_map
    pub agreements : All AbbaSound s.abba_map
    pub votes : Ballots.IsValid x.mvba d keys s.mvba
    pub proposer_agreed : Agreed s.decided_proposer
    pub proposal_proven : Proven s.decided_proposal

  vcbc_w : (p : NodeId) → VcbcInduction.IsPreserved x.vcbc (λ v. VcbcSound (p, v)) Anyhow
  vcbc_w p = VcbcInduction.IsPreserved-Anyhow x.vcbc _ _ (IsSound-preserved x.vcbc keys (tag_of p))

  lent_vcbc-Sound :
      (s : Consensus Sig Share) (p : NodeId) (v : Vcbc Sig Share)
      → lookup p s.vcbc_map ≡ some v
      → IsSound s
      → VcbcSound (p, lent_vcbc s v)
  lent_vcbc-Sound s p v e h =
      (vcbc_w p).sends v s.broadcaster (lookup-All VcbcSound p s.vcbc_map v h.broadcasts e)

  store_vcbc-Sound :
      (s : Consensus Sig Share) (p : NodeId) (v : Vcbc Sig Share)
      → VcbcSound (p, v)
      → IsSound s
      → IsSound (store_vcbc p v s)
  unfolding store_vcbc
  store_vcbc-Sound s p v k h = record {
    broadcasts = insert-All VcbcSound p v s.vcbc_map k h.broadcasts;
    agreements = h.agreements;
    votes = h.votes;
    proposer_agreed = h.proposer_agreed;
    proposal_proven = h.proposal_proven;
  }

  store_abba-Sound :
      (s : Consensus Sig Share) (p : NodeId) (a : Abba Sig Share)
      → AbbaSound (p, a)
      → IsSound s
      → IsSound (store_abba p a s)
  unfolding store_abba
  store_abba-Sound s p a k h = record {
    broadcasts = h.broadcasts;
    agreements = insert-All AbbaSound p a s.abba_map k h.agreements;
    votes = h.votes;
    proposer_agreed = h.proposer_agreed;
    proposal_proven = h.proposal_proven;
  }

  store_mvba-Sound :
      (s : Consensus Sig Share) (m : Mvba Sig Share)
      → Ballots.IsValid x.mvba d keys m
      → IsSound s
      → IsSound (store_mvba m s)
  unfolding store_mvba
  store_mvba-Sound s m k h = record {
    broadcasts = h.broadcasts;
    agreements = h.agreements;
    votes = k;
    proposer_agreed = h.proposer_agreed;
    proposal_proven = h.proposal_proven;
  }

  decision_one :
      (p : NodeId) (v : Value) (a : DecisionAction Sig)
      → a.value ≡ v
      → decision_ok x.abba keys (tag_of p) a ≡ true
      → value_bool v ≡ true
      → Agreed (some p)
  decision_one p Value.one a q k e = (a, q, k)
  decision_one p Value.zero a q k e = cc

  Agreed-by :
      (p : NodeId) (a : Abba Sig Share) → AbbaSound (p, a) → decided a ≡ some true → Agreed (some p)
  unfolding decided
  Agreed-by p a k e = elim (Option-cases a.decided_value) [
    | inl q ↦ absurd (ground (arith, q, e))
    | inr (c, q) ↦
        decision_one p c.value c refl
          (subst (AbbaDecision.IsSigned x.abba keys (tag_of p)) q k.decision_signed)
          (ground (arith, q, e))
  ]

  Agreed-now :
      (s : Consensus Sig Share) (p : NodeId)
      → decided_by p s ≡ some true
      → IsSound s
      → Agreed (some p)
  unfolding decided_by
  Agreed-now s p e h = elim (Option-cases (lookup p s.abba_map)) [
    | inl q ↦ absurd (ground (arith, q, e))
    | inr (a, q) ↦
        Agreed-by p a (lookup-All AbbaSound p s.abba_map a h.agreements q) (ground (arith, q, e))
  ]

  proven_by :
      (p : NodeId) (v : Vcbc Sig Share) (m : Proposal) (u : Sig)
      → VcbcSound (p, v)
      → read_delivered v ≡ some (m, u)
      → signed x.vcbc keys (tag_of p) m u ≡ true
  unfolding read_delivered
  proven_by p v m u k e = ground (arith, k.consistent, e)

  Proven-now :
      (s : Consensus Sig Share) (p : NodeId) (m : Proposal) (u : Sig)
      → delivered_by p s ≡ some (m, u)
      → IsSound s
      → Proven (some m)
  unfolding delivered_by
  Proven-now s p m u e h = elim (Option-cases (lookup p s.vcbc_map)) [
    | inl q ↦ absurd (ground (arith, q, e))
    | inr (v, q) ↦ (
      p,
      u,
      proven_by p v m u (lookup-All VcbcSound p s.vcbc_map v h.broadcasts q) (ground (arith, q, e)),
    )
  ]

  lent_mvba-Valid :
      (s : Consensus Sig Share) → IsSound s → Ballots.IsValid x.mvba d keys (lent_mvba s)
  lent_mvba-Valid s h = record {
    domain_fixed = h.votes.domain_fixed;
    keys_fixed = h.votes.keys_fixed;
    ballots = h.votes.ballots;
    proposals_proven = h.votes.proposals_proven;
  }

  module _ (law : (p : NodeId) → Combines x.abba keys (tag_of p)) (fuel : ℕ) where
    abba_w : (p : NodeId) → AbbaInduction.IsPreserved x.abba keys (tag_of p) (λ a. AbbaSound (p, a))
    abba_w p = AbbaDecision.IsSound-preserved x.abba keys (tag_of p) (law p)

    IsSound-kept : IsPreserved x fuel IsSound
    unfolding set_decided_proposer set_decided_proposal
    IsSound-kept = record {
      sends = λ s b h. record {
        broadcasts = h.broadcasts;
        agreements = h.agreements;
        votes = h.votes;
        proposer_agreed = h.proposer_agreed;
        proposal_proven = h.proposal_proven;
      };
      runs_vcbc = λ s p v j m e h.
          store_vcbc-Sound s p _
            ((VcbcInduction.receive_message-Good x.vcbc _ Anyhow (vcbc_w p) fuel j m).at
              (lent_vcbc s v) (lent_vcbc-Sound s p v e h)).0
            h;
      runs_send = λ s p v m e h.
          store_vcbc-Sound s p _
            ((VcbcInduction.c_broadcast-Good x.vcbc _ Anyhow (vcbc_w p) fuel m tt).at
              (lent_vcbc s v) (lent_vcbc-Sound s p v e h)).0
            h;
      runs_abba = λ s p a o e h.
          store_abba-Sound s p _
            (AbbaHistory.apply-Good x.abba fuel keys (tag_of p) _ (abba_w p) o (lent_abba s a) (
              (abba_w p).sends a s.broadcaster
                (lookup-All AbbaSound p s.abba_map a h.agreements e)))
            h;
      runs_mvba = λ s o h.
          store_mvba-Sound s _
            (Ballots.apply-IsValid x.mvba d keys o (lent_mvba s) (lent_mvba-Valid s h)) h;
      reads_mvba = λ s h. store_mvba-Sound s (lent_mvba s) (lent_mvba-Valid s h) h;
      accepts = λ s p e h. record {
        broadcasts = h.broadcasts;
        agreements = h.agreements;
        votes = h.votes;
        proposer_agreed = Agreed-now s p e h;
        proposal_proven = h.proposal_proven;
      };
      decides = λ s p m u e q h. record {
        broadcasts = h.broadcasts;
        agreements = h.agreements;
        votes = h.votes;
        proposer_agreed = h.proposer_agreed;
        proposal_proven = Proven-now s p m u e h;
      };
    }

module _ {Sig Share : Type 0} (x : Extern Sig Share) (keys : PublicKeySet Sig Share) (d : Domain)
    (i : NodeId) (key : SecretKeyShare Share) (valid : MessageValidity) where
  init_vcbcs-Sound :
      (b : Broadcaster) (ps : List NodeId) (m : Map (Vcbc Sig Share))
      → All (VcbcSound x keys d) m
      → All (VcbcSound x keys d) (init_vcbcs d i key keys valid b ps m)
  unfolding init_vcbcs
  init_vcbcs-Sound b [] m h = h
  init_vcbcs-Sound b (p ∷ ps) m h = init_vcbcs-Sound b ps _ (
      insert-All (VcbcSound x keys d) p _ m
        (new-IsSound x.vcbc (tag_of x keys d p) i keys key valid b) h)

  init_abbas-Sound :
      (b : Broadcaster) (ps : List NodeId) (m : Map (Abba Sig Share))
      → All (AbbaSound x keys d) m
      → All (AbbaSound x keys d) (init_abbas d i key keys b ps m)
  unfolding init_abbas
  init_abbas-Sound b [] m h = h
  init_abbas-Sound b (p ∷ ps) m h = init_abbas-Sound b ps _ (
      insert-All (AbbaSound x keys d) p _ m
        (AbbaDecision.new-IsSound x.abba keys (tag_of x keys d p) i key b) h)

  -- After any history of bundles, honest or not, and of proposals at a new node: each broadcast and
  -- each binary agreement holds only what verifies under its own tag, the stored votes are checked,
  -- a decided proposer comes with a signed decision for 1 of its binary agreement, and a decided
  -- proposal with a signature on its c-ready bytes, as the broadcast of some proposer. This holds
  -- where shares that verify combine to a signature that verifies.
  pub decided-IsSound :
      ((p : NodeId) → Combines x.abba keys (tag_of x keys d p))
      → (parties : List NodeId) (fuel : ℕ) (os : List Op)
      → IsSound x keys d (run x fuel os (init d i key keys parties valid))
  unfolding init new_mvba
  decided-IsSound law parties fuel os =
      run-Good x fuel (IsSound x keys d) (IsSound-kept x keys d law fuel) os _ (record {
        broadcasts = init_vcbcs-Sound _ parties [] tt;
        agreements = init_abbas-Sound _ parties [] tt;
        votes = record {
          domain_fixed = refl;
          keys_fixed = refl;
          ballots = tt;
          proposals_proven = tt;
        };
        proposer_agreed = tt;
        proposal_proven = tt;
      })
