-- ===== src/Mvba/Mvba/State.antt =====
-- The state of src/mvba/mvba/mod.rs and what is read off it. The log messages are left out; two of
-- them would fail on an index `l` past the last party.
use sn_consensus.Prelude.{
  ℕ, Bool, false, Option, none, List, [], Map, String, lookup, get_elem?, on_option, Exec, reading,
  or_raise, pure, ◌+◌, ◌>>=◌,
}
use sn_consensus.Keys.{PublicKeySet, SecretKeyShare}
use sn_consensus.Mvba.Tag.{Domain, Tag, NodeId, Proposal}
use sn_consensus.Mvba.Broadcaster.{Broadcaster}
use sn_consensus.Mvba.Mvba.Message.{Vote, Error}

abbrev pub module_name : String
module_name = "mvba"

pub record Mvba (Sig : Type 0) (Share : Type 0) : Type 0 where
  pub domain : Domain
  pub i : NodeId
  pub l : ℕ
  pub v : Option Bool
  pub proposals : Map (Proposal × Sig)
  pub votes_per_proposer : Map (Map (Vote Sig))
  pub voted : Bool
  pub pub_key_set : PublicKeySet Sig Share
  pub sec_key_share : SecretKeyShare Share
  pub parties : List NodeId
  pub broadcaster : Broadcaster

abbrev pub Method : Type 0 → Type 0 → Type 0 → Type 0
Method Sig Share A = Exec (Mvba Sig Share) Error A

module _ {Sig Share : Type 0} where
  unfoldable pub new :
      Domain
      → NodeId
      → SecretKeyShare Share
      → PublicKeySet Sig Share
      → List NodeId
      → Broadcaster
      → Mvba Sig Share
  new domain self_id sec_key_share pub_key_set parties broadcaster = record {
    domain = domain;
    i = self_id;
    l = 0;
    v = none;
    proposals = [];
    votes_per_proposer = [];
    voted = false;
    pub_key_set = pub_key_set;
    sec_key_share = sec_key_share;
    parties = parties;
    broadcaster = broadcaster;
  }

  unfoldable pub build_tag : Mvba Sig Share → NodeId → Tag
  build_tag s proposer = record { domain = s.domain; proposer = proposer }

  unfoldable pub current_proposer : Method Sig Share NodeId
  current_proposer =
      reading λ s. or_raise (Error.generic "parties is not initialized") (get_elem? s.parties s.l)

  unfoldable pub current_tag : Method Sig Share Tag
  unfolding build_tag current_proposer
  current_tag = do p ← current_proposer; reading λ s. pure (build_tag s p)

  unfoldable pub completed_vote : Mvba Sig Share → Option Bool
  completed_vote s = s.v

  unfoldable pub completed_vote_value : Method Sig Share (Option (Proposal × Sig))
  unfolding current_proposer
  completed_vote_value = do p ← current_proposer; reading λ s. pure (lookup p s.proposals)

  -- The votes of one proposer; `entry(..).or_default()` starts with none.
  unfoldable pub proposer_votes : NodeId → Mvba Sig Share → Map (Vote Sig)
  proposer_votes p s = on_option (lookup p s.votes_per_proposer) [] (λ m. m)

  unfoldable pub threshold : Mvba Sig Share → ℕ
  threshold s = s.pub_key_set.threshold + 1
