-- ===== src/Mvba/Mvba/Ballots.antt =====
-- What src/mvba/mvba stores: only votes that passed every check, and only proven proposals.
use sn_consensus.Mvba.Mvba.Induction.{IsPreserved, receive-Good, vote-Good}
use sn_consensus.Prelude.{
  insert-All, lookup-All, ◌≡◌, refl, Bool, true, false, Option, none, some, All, List, [], ◌∷◌,
  lookup, is_some, Keeps, Anyhow, arith, ok, Option-cases, inl, inr,
}
use sn_consensus.Mvba.Mvba.Voting.{
  set_voted, conclude, receive_message, vote, store_proposal, set_proposal, next_round,
  move_to_next_proposal,
}
use sn_consensus.Keys.{PublicKeySet, SecretKeyShare}
use sn_consensus.Mvba.Tag.{Domain, Tag, NodeId, Proposal}
use sn_consensus.Mvba.Hash.{Hash32, calculate}
use sn_consensus.Mvba.Broadcaster.{Broadcaster}
use sn_consensus.Mvba.Vcbc.Message.{c_ready_bytes_to_sign}
use sn_consensus.Mvba.Mvba.Message.{Vote, Message, Extern}
use sn_consensus.Mvba.Mvba.State.{Mvba, new, proposer_votes, build_tag}
use sn_consensus.Mvba.Mvba.Checks.{check_message, check_vote, check_proof, record_vote}

module _ {Sig Share : Type 0} (x : Extern Sig Share) (domain : Domain)
    (keys : PublicKeySet Sig Share) where
  -- `u` is a threshold signature on the c-ready bytes of the digest `d`, under the tag.
  abbrev pub proves : Tag → Hash32 → Sig → Bool
  proves tag d u = elim (c_ready_bytes_to_sign x.ready_format tag d) [
    | none ↦ false
    | some b ↦ keys.verify u b
  ]

  abbrev pub proof_ok : Tag → Option (Hash32 × Sig) → Bool
  proof_ok tag none = true
  proof_ok tag (some (d, u)) = proves tag d u

  abbrev pub share_ok : NodeId → Share → Vote Sig → Bool
  share_ok voter sh vote = elim (x.vote_format.serialize vote) [
    | none ↦ false
    | some b ↦ keys.verify_share voter sh b
  ]

  -- The voter signed the vote, it is for this domain, it has a proof exactly if it says yes, and
  -- its proof verifies.
  pub record Checked (voter : NodeId) (vote : Vote Sig) : Type 0 where
    pub signature : Share
    pub signed : share_ok voter signature vote ≡ true
    pub domain_ok : vote.tag.domain ≡ domain
    pub proof_iff : vote.value ≡ is_some vote.proof
    pub proven : proof_ok vote.tag vote.proof ≡ true

  -- An entry of the votes for `proposer`.
  abbrev pub IsBallot : NodeId → NodeId × Vote Sig → Type 0
  IsBallot proposer e = Checked e.0 e.1 × ((e.1).tag.proposer ≡ proposer)

  abbrev pub IsProven : NodeId × (Proposal × Sig) → Type 0
  IsProven e =
      proves (record { domain = domain; proposer = e.0 }) (calculate x.sha3 (e.1).0) (e.1).1 ≡ true

  pub record IsValid (s : Mvba Sig Share) : Type 0 where
    pub domain_fixed : s.domain ≡ domain
    pub keys_fixed : s.pub_key_set ≡ keys
    pub ballots : All (λ e. All (IsBallot e.0) e.1) s.votes_per_proposer
    pub proposals_proven : All IsProven s.proposals

  check_Checked :
      (msg : Message Sig Share) (s : Mvba Sig Share)
      → IsValid s
      → (check_message x msg s).0 ≡ ok tt
      → Checked msg.voter msg.vote
  unfolding check_message check_vote check_proof
  check_Checked msg s h e = record {
    signature = msg.signature;
    signed = ground arith;
    domain_ok = ground arith;
    proof_iff = ground arith;
    proven = ground arith;
  }

  proposer_votes-IsBallot :
      (p : NodeId) (s : Mvba Sig Share) → IsValid s → All (IsBallot p) (proposer_votes p s)
  unfolding proposer_votes
  proposer_votes-IsBallot p s h = elim (Option-cases (lookup p s.votes_per_proposer)) [
    | inl e ↦ rw e tt
    | inr (m, e) ↦
        rw e (lookup-All (λ e. All (IsBallot e.0) e.1) p s.votes_per_proposer m h.ballots e)
  ]

  record_vote-IsValid :
      (msg : Message Sig Share) (s : Mvba Sig Share)
      → Checked msg.voter msg.vote
      → IsValid s
      → IsValid (record_vote x msg s)
  unfolding record_vote
  record_vote-IsValid msg s c h =
      let p : NodeId = msg.vote.tag.proposer in
      record {
        domain_fixed = h.domain_fixed;
        keys_fixed = h.keys_fixed;
        ballots =
            insert-All (λ e. All (IsBallot e.0) e.1) p _ s.votes_per_proposer
              (insert-All (IsBallot p) msg.voter msg.vote (proposer_votes p s) (c, refl)
                (proposer_votes-IsBallot p s h))
              h.ballots;
        proposals_proven = h.proposals_proven;
      }

  IsValid-preserved : IsPreserved x IsValid Anyhow
  unfolding conclude set_voted
  IsValid-preserved = record {
    raises = λ e. tt;
    sends = λ s b h. ground arith;
    records = λ s msg c h. record_vote-IsValid msg s (check_Checked msg s h c) h;
    concludes = λ s p h. ground arith;
    marks = λ s h. ground arith;
  }

  -- Whatever message arrives, and however its handling ends: the stored votes stay checked, each
  -- under the proposer and the voter that it names, and the stored proposals stay proven.
  pub receive-IsValid :
      (msg : Message Sig Share) (s : Mvba Sig Share)
      → IsValid s
      → IsValid (receive_message x msg s).1
  receive-IsValid msg s h = ((receive-Good x IsValid Anyhow IsValid-preserved msg).at s h).0

  vote-IsValid : Keeps IsValid Anyhow (vote x)
  vote-IsValid = vote-Good x IsValid Anyhow IsValid-preserved

  store_proposal-IsValid :
      (p : NodeId) (m : Proposal) (u : Sig) (s : Mvba Sig Share)
      → IsProven (p, (m, u))
      → IsValid s
      → IsValid (store_proposal x p m u s)
  unfolding store_proposal
  store_proposal-IsValid p m u s e h = record {
    domain_fixed = h.domain_fixed;
    keys_fixed = h.keys_fixed;
    ballots = h.ballots;
    proposals_proven = insert-All IsProven p (m, u) s.proposals e h.proposals_proven;
  }

  -- So it is when a proposal is offered, proven or not,
  pub set_proposal-IsValid :
      (p : NodeId) (m : Proposal) (u : Sig) (s : Mvba Sig Share)
      → IsValid s
      → IsValid (set_proposal x p m u s).1
  unfolding set_proposal build_tag
  set_proposal-IsValid p m u s h =
      ground (arith, store_proposal-IsValid p m u s, vote-IsValid.at (store_proposal x p m u s))

  -- and when the node turns to the next proposer.
  pub move_to_next-IsValid :
      (s : Mvba Sig Share) → IsValid s → IsValid (move_to_next_proposal x s).1
  unfolding move_to_next_proposal next_round
  move_to_next-IsValid s h = ground (arith, vote-IsValid.at (next_round x s))

-- What the rest of the program asks of the component.
pub data Op (Sig : Type 0) (Share : Type 0) : Type 0 where
  receives : Message Sig Share → Op Sig Share
  offers : NodeId → Proposal → Sig → Op Sig Share
  moves : Op Sig Share

module _ {Sig Share : Type 0} (x : Extern Sig Share) where
  unfoldable pub apply : Op Sig Share → Mvba Sig Share → Mvba Sig Share
  apply (receives m) s = (receive_message x m s).1
  apply (offers p m u) s = (set_proposal x p m u s).1
  apply moves s = (move_to_next_proposal x s).1

  unfoldable pub run : List (Op Sig Share) → Mvba Sig Share → Mvba Sig Share
  run [] s = s
  run (o ∷ os) s = run os (apply o s)

  module _ (P : Mvba Sig Share → Type 0)
      (step : (o : Op Sig Share) (s : Mvba Sig Share) → P s → P (apply o s)) where
    pub run_induction : (os : List (Op Sig Share)) (s : Mvba Sig Share) → P s → P (run os s)
    unfolding run
    run_induction [] s h = h
    run_induction (o ∷ os) s h = run_induction os (apply o s) (step o s h)

  pub apply-IsValid :
      (d : Domain) (keys : PublicKeySet Sig Share) (o : Op Sig Share) (s : Mvba Sig Share)
      → IsValid x d keys s
      → IsValid x d keys (apply o s)
  unfolding apply
  apply-IsValid d keys (receives m) s h = receive-IsValid x d keys m s h
  apply-IsValid d keys (offers p m u) s h = set_proposal-IsValid x d keys p m u s h
  apply-IsValid d keys moves s h = move_to_next-IsValid x d keys s h

  -- After any sequence of messages, offered proposals and moves at a new component, each stored
  -- vote is signed by the voter under which it is stored, is for this domain and for the proposer
  -- under which it is stored, and has a proof exactly if it says yes, which then verifies; and each
  -- stored proposal comes with a signature that verifies on its own c-ready bytes.
  pub run-IsValid :
      (d : Domain) (i : NodeId) (key : SecretKeyShare Share) (keys : PublicKeySet Sig Share)
      (parties : List NodeId) (b : Broadcaster) (os : List (Op Sig Share))
      → IsValid x d keys (run os (new d i key keys parties b))
  unfolding new
  run-IsValid d i key keys parties b os =
      run_induction (IsValid x d keys) (apply-IsValid d keys) os _
        (record { domain_fixed = refl; keys_fixed = refl; ballots = tt; proposals_proven = tt })
