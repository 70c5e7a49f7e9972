-- ===== src/Elders/Membership/State.antt =====
-- `Membership` of src/sn_membership.rs, its instances of the agreement, and forced reconfigurations.
use Prim.Native.Nat.{compare, Ordering}
use Prim.Native.Nat.Ordering.{lt, gt}
use sn_consensus.Prelude.{
  ℕ, Bool, false, List, [], Option, none, some, is_some, ◌==◌, ◌+◌, if◌then◌else◌, Outcome, ok,
  stop, raised, Exec, reading, when,
}
use sn_consensus.Prelude.Ordered.{add, remove, get, put}
use sn_consensus.Keys.{SecretKeyShare, Format}
use sn_consensus.Vote.Types.{NodeId, Generation, Vote, Error, bad_generation}
use sn_consensus.Vote.Extern.{Extern}
use sn_consensus.Vote.Count.{or_default}
use sn_consensus.Elders.Generation.{Consensus, new}

abbrev pub soft_max_members : ℕ
soft_max_members = 7

pub data Reconfig (T : Type 0) : Type 0 where
  join leave : T → Reconfig T

-- The derived `Ord`
abbrev pub cmp_reconfig : {T : Type 0} → (T → T → Ordering) → Reconfig T → Reconfig T → Ordering
cmp_reconfig cmp (join a) (join b) = cmp a b
cmp_reconfig cmp (join a) (leave b) = lt
cmp_reconfig cmp (leave a) (join b) = gt
cmp_reconfig cmp (leave a) (leave b) = cmp a b

-- As `Extern`, for the reconfigurations of members of one type.
pub record MemberExtern (T : Type 0) (Share : Type 0) : Type 0 where
  pub cmp : T → T → Ordering
  pub cmp_share : Share → Share → Ordering
  pub proposal_format : Format (Reconfig T)
  pub vote_format : Format (Vote (Reconfig T) Share)

abbrev pub votes_extern : {T Share : Type 0} → MemberExtern T Share → Extern (Reconfig T) Share
votes_extern x = record {
  cmp = cmp_reconfig x.cmp;
  cmp_share = x.cmp_share;
  proposal_format = x.proposal_format;
  vote_format = x.vote_format;
}

pub record Membership (T : Type 0) (Share : Type 0) (Sig : Type 0) : Type 0 where
  pub consensus : Consensus (Reconfig T) Share Sig
  pub gen : Generation
  pub forced_reconfigs : List (Generation × List (Reconfig T))
  pub history : List (Generation × Consensus (Reconfig T) Share Sig)

module _ {T Share Sig : Type 0} where
  abbrev pub from : NodeId → SecretKeyShare Share → ℕ → Membership T Share Sig
  from id secret_key n_elders = record {
    consensus = new id secret_key n_elders;
    gen = 0;
    forced_reconfigs = [];
    history = [];
  }

  -- `get(..).ok_or(Error::BadGeneration ..)`
  abbrev pub found :
      Generation
      → Generation
      → Option (Consensus (Reconfig T) Share Sig)
      → Outcome Error (Consensus (Reconfig T) Share Sig)
  found requested gen none = stop (raised (bad_generation requested gen))
  found requested gen (some c) = ok c

  abbrev pub consensus_at_gen :
      Membership T Share Sig → Generation → Outcome Error (Consensus (Reconfig T) Share Sig)
  consensus_at_gen s gen =
      if gen == s.gen + 1 then ok s.consensus else found gen s.gen (get compare gen s.history)

  -- What the instance of a generation has become.
  abbrev pub write_back :
      Generation
      → Consensus (Reconfig T) Share Sig
      → Membership T Share Sig
      → Membership T Share Sig
  write_back gen c s =
      if gen == s.gen + 1
      then record s { consensus = c }
      else record s { history = put compare gen c s.history }

  -- A method of the instance that was found.
  abbrev pub lend :
      {A : Type 0}
      → Outcome Error (Consensus (Reconfig T) Share Sig)
      → Generation
      → Exec (Consensus (Reconfig T) Share Sig) Error A
      → Exec (Membership T Share Sig) Error A
  lend (stop e) gen m s = (stop e, s)
  lend (ok c) gen m s = ((m c).0, write_back gen (m c).1 s)

  -- A method of the instance of a generation, as `consensus_at_gen_mut` lends it.
  unfoldable pub at_gen :
      {A : Type 0}
      → Generation
      → Exec (Consensus (Reconfig T) Share Sig) Error A
      → Exec (Membership T Share Sig) Error A
  at_gen gen m s = lend (consensus_at_gen s gen) gen m s

  -- A method of the current instance.
  unfoldable pub current :
      {A : Type 0}
      → Exec (Consensus (Reconfig T) Share Sig) Error A
      → Exec (Membership T Share Sig) Error A
  current m s = let (r, c) = m s.consensus in (r, record s { consensus = c })

  -- The history takes the decided instance, and a new one starts.
  abbrev pub next_generation : Generation → Membership T Share Sig → Membership T Share Sig
  next_generation gen s = record s {
    history = put compare gen s.consensus s.history;
    consensus = new s.consensus.id s.consensus.secret_key s.consensus.n_elders;
    gen = gen;
  }

  -- The instance of the generation has decided, and it is the one in progress.
  abbrev pub is_decided_now : Generation → Membership T Share Sig → Bool
  is_decided_now gen s = if gen == s.gen + 1 then is_some s.consensus.decision else false

  -- What follows a vote for a generation.
  unfoldable pub advance : Generation → Exec (Membership T Share Sig) Error (Unit {0})
  advance gen = reading λ s. when (is_decided_now gen s) (next_generation gen)

module _ {T Share Sig : Type 0} (x : MemberExtern T Share) where
  abbrev pub force : Reconfig T → Reconfig T → Membership T Share Sig → Membership T Share Sig
  force undo reconfig s =
      let known = or_default [] (get compare s.gen s.forced_reconfigs) in
      record s {
        forced_reconfigs =
            put compare s.gen
              (add (cmp_reconfig x.cmp) reconfig (remove (cmp_reconfig x.cmp) undo known))
              s.forced_reconfigs;
      }

  abbrev pub force_join : T → Membership T Share Sig → Membership T Share Sig
  force_join actor = force (leave actor) (join actor)

  abbrev pub force_leave : T → Membership T Share Sig → Membership T Share Sig
  force_leave actor = force (join actor) (leave actor)
