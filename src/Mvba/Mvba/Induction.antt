-- ===== src/Mvba/Mvba/Induction.antt =====
-- Every way in which a vote changes the state of src/mvba/mvba, as one principle: what each
-- elementary change preserves, `receive_message` and `vote` preserve on every path.
use sn_consensus.Mvba.Hash.{Hash32}
use sn_consensus.Mvba.Tag.{Tag, NodeId}
use sn_consensus.Mvba.Mvba.State.{proposer_votes, Mvba, Method, current_tag, current_proposer}
use sn_consensus.Prelude.{
  Bool, true, false, on_option_at, lookup, Keeps-modify, bind_then, Option, none, some,
  if◌then◌else◌, ◌≡◌, Stop, raised, ok, Keeps, keeps_rules, bind_at, Stops, arith,
}
use sn_consensus.Keys.{Bytes}
use sn_consensus.Mvba.Broadcaster.{Broadcaster}
use sn_consensus.Mvba.Mvba.Message.{Vote, Message, Extern, Error}
use sn_consensus.Mvba.Mvba.Checks.{
  check_message, check_vote, check_proof, record_vote, request_proposal, repeat_vote, first_vote,
  add_vote,
}
use sn_consensus.Mvba.Mvba.Voting.{
  conclude, count_vote, receive_message, note, broadcast, cast, set_voted, vote,
}

module _ {Sig Share : Type 0} (x : Extern Sig Share) where
  pub record IsPreserved (P : Mvba Sig Share → Type 0) (X : Stop Error → Type 0) : Type 0 where
    pub raises : (e : Error) → X (raised e)
    pub sends : (s : Mvba Sig Share) (b : Broadcaster) → P s → P (record s { broadcaster = b })
    pub records :
        (s : Mvba Sig Share) (msg : Message Sig Share)
        → (check_message x msg s).0 ≡ ok tt
        → P s
        → P (record_vote x msg s)
    pub concludes : (s : Mvba Sig Share) (p : NodeId) → P s → P (conclude x p s)
    pub marks : (s : Mvba Sig Share) → P s → P (set_voted x s)

  pub check_unchanged :
      (msg : Message Sig Share) (s : Mvba Sig Share) → (check_message x msg s).1 ≡ s
  unfolding check_message check_vote check_proof
  check_unchanged msg s = ground arith

module _ {Sig Share : Type 0} (x : Extern Sig Share) (P : Mvba Sig Share → Type 0)
    (X : Stop Error → Type 0) (w : IsPreserved x P X) where
  abbrev Good : {A : Type 0} → Method Sig Share A → Type 0
  Good = Keeps P X

  raised_ok : (e : Error) → X (raised e)
  raised_ok = w.raises

  current_tag-Good : Good current_tag
  unfolding current_tag current_proposer
  current_tag-Good = search (keeps_rules, raised_ok) depth 8

  check_proof-Good : (t : Tag) (o : Option (Hash32 × Sig)) → Good (check_proof x t o)
  unfolding check_proof
  check_proof-Good t none = search keeps_rules
  check_proof-Good t (some (d, u)) = search (keeps_rules, raised_ok) depth 8

  check-Good : (msg : Message Sig Share) → Good (check_message x msg)
  unfolding check_message check_vote
  check-Good msg = search (keeps_rules, raised_ok, check_proof-Good) depth 10

  request_proposal-Good : (msg : Message Sig Share) → Good (request_proposal x msg)
  unfolding request_proposal
  request_proposal-Good msg = search (keeps_rules, raised_ok, current_tag-Good, w.sends) depth 10

  repeat_vote-Good : (msg : Message Sig Share) (v : Vote Sig) → Good (repeat_vote x msg v)
  unfolding repeat_vote
  repeat_vote-Good msg v = search (keeps_rules, raised_ok)

  first_vote-at :
      (msg : Message Sig Share) (s : Mvba Sig Share)
      → (check_message x msg s).0 ≡ ok tt
      → P s
      → P (first_vote x msg s).1 × Stops X (first_vote x msg s).0
  unfolding first_vote
  first_vote-at msg s c h =
      ground (arith, w.records s msg c h, (request_proposal-Good msg).at (record_vote x msg s))

  add_vote-at :
      (msg : Message Sig Share) (s : Mvba Sig Share)
      → (check_message x msg s).0 ≡ ok tt
      → P s
      → P (add_vote x msg s).1 × Stops X (add_vote x msg s).0
  unfolding add_vote
  add_vote-at msg s c h =
      on_option_at P X (lookup msg.voter (proposer_votes msg.vote.tag.proposer s))
        (first_vote x msg) (repeat_vote x msg) s (λ _. first_vote-at msg s c h)
        (λ v _. (repeat_vote-Good msg v).at s h)

  conclude_if-Good :
      (p : NodeId) (fresh : Bool) (s : Mvba Sig Share)
      → P s
      → P (if fresh then conclude x p s else s)
  conclude_if-Good p true s h = w.concludes s p h
  conclude_if-Good p false s h = h

  count_vote-at :
      (msg : Message Sig Share) (s : Mvba Sig Share)
      → (check_message x msg s).0 ≡ ok tt
      → P s
      → P (count_vote x msg s).1 × Stops X (count_vote x msg s).0
  unfolding count_vote
  count_vote-at msg s c h =
      bind_then (add_vote x msg) _ s (add_vote-at msg s c h)
        λ fresh. Keeps-modify _ (conclude_if-Good msg.vote.tag.proposer fresh)

  pub receive-Good : (msg : Message Sig Share) → Good (receive_message x msg)
  unfolding receive_message
  receive-Good msg = record {
    at = λ s h.
        bind_at P X (check_message x msg) (λ _. count_vote x msg) s (check_unchanged x msg s) h
          ((check-Good msg).at s h).1 λ u e. count_vote-at msg s e h;
  }

  note-Good : (p : Bytes) → Good (note x p)
  unfolding note
  note-Good p = search (keeps_rules, w.sends)

  broadcast-Good : (v : Vote Sig) → Good (broadcast x v)
  unfolding broadcast
  broadcast-Good v = search (keeps_rules, raised_ok, note-Good, receive-Good) depth 10

  cast-Good : Good (cast x)
  unfolding cast
  cast-Good = search (keeps_rules, current_tag-Good, broadcast-Good, w.marks) depth 12

  pub vote-Good : Good (vote x)
  unfolding vote
  vote-Good = search (keeps_rules, cast-Good) depth 8
