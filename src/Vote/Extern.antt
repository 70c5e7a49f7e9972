-- ===== src/Vote/Extern.antt =====
-- What the modules on votes call of the type of proposals and of third-party code: the orders of
-- proposals and of signature shares, and `bincode` on what is signed.
use Prim.Native.Nat.{Ordering}
use sn_consensus.Prelude.{Bool}
use sn_consensus.Prelude.Ordered.{is_eq, IsFaithful}
use sn_consensus.Keys.{Format}
use sn_consensus.Vote.Types.{Ballot, Vote, SignedVote, Fault}
use sn_consensus.Vote.Compare.{cmp_ballot, cmp_signed, cmp_fault}

pub record Extern (T : Type 0) (Share : Type 0) : Type 0 where
  pub cmp : T → T → Ordering
  pub cmp_share : Share → Share → Ordering
  pub proposal_format : Format T
  pub vote_format : Format (Vote T Share)

-- What the source relies on in the two orders.
pub record IsOrdered {T Share : Type 0} (x : Extern T Share) : Type 0 where
  pub cmp-IsFaithful : IsFaithful x.cmp
  pub cmp_share-IsFaithful : IsFaithful x.cmp_share

module _ {T Share : Type 0} (x : Extern T Share) where
  abbrev pub order_votes : SignedVote T Share → SignedVote T Share → Ordering
  order_votes = cmp_signed x.cmp x.cmp_share

  abbrev pub order_faults : Fault T Share → Fault T Share → Ordering
  order_faults = cmp_fault x.cmp x.cmp_share

  -- `==` of signed votes and of ballots
  abbrev pub same_vote : SignedVote T Share → SignedVote T Share → Bool
  same_vote v w = is_eq (order_votes v w)

  abbrev pub same_ballot : Ballot T Share → Ballot T Share → Bool
  same_ballot b c = is_eq (cmp_ballot x.cmp x.cmp_share b c)
