-- ===== src/Mvba/Abba/Message.antt =====
-- src/mvba/abba/message.rs and src/mvba/abba/error.rs. An error's text is its fixed part.
use sn_consensus.Prelude.{ℕ, ℕ_discrete, String}
use sn_consensus.Keys.{Format, SigEq}
use sn_consensus.Mvba.Tag.{Tag}
use sn_consensus.Mvba.Hash.{Hash32, Hash32-discrete}

pub data Value : Type 0 where
  one zero : Value

pub data MainVoteValue : Type 0 where
  value : Value → MainVoteValue
  abstain : MainVoteValue

pub data PreVoteJustification (Sig : Type 0) : Type 0 where
  first_round_zero : PreVoteJustification Sig
  with_validity : Hash32 → Sig → PreVoteJustification Sig
  hard soft : Sig → PreVoteJustification Sig

pub data MainVoteJustification (Sig : Type 0) : Type 0 where
  abstains : PreVoteJustification Sig → PreVoteJustification Sig → MainVoteJustification Sig
  no_abstain : Sig → MainVoteJustification Sig

pub record PreVoteAction (Sig : Type 0) (Share : Type 0) : Type 0 where
  pub round : ℕ
  pub value : Value
  pub justification : PreVoteJustification Sig
  pub sig_share : Share

pub record MainVoteAction (Sig : Type 0) (Share : Type 0) : Type 0 where
  pub round : ℕ
  pub value : MainVoteValue
  pub justification : MainVoteJustification Sig
  pub sig_share : Share

pub record DecisionAction (Sig : Type 0) : Type 0 where
  pub round : ℕ
  pub value : Value
  pub sig : Sig

pub data Action (Sig : Type 0) (Share : Type 0) : Type 0 where
  pre_vote : PreVoteAction Sig Share → Action Sig Share
  main_vote : MainVoteAction Sig Share → Action Sig Share
  decision : DecisionAction Sig → Action Sig Share

pub record Message (Sig : Type 0) (Share : Type 0) : Type 0 where
  pub tag : Tag
  pub action : Action Sig Share

unfoldable pub action_str : {Sig Share : Type 0} → Message Sig Share → String
action_str m = elim m.action [
  | pre_vote _ ↦ "pre-vote"
  | main_vote _ ↦ "main-vote"
  | decision _ ↦ "decision"
]

pub data Error : Type 0 where
  encoding blsttc : Error
  invalid_message : String → Error
  generic : String → Error

-- The libraries that the component calls: bincode at the types that it writes.
pub record Extern (Sig : Type 0) (Share : Type 0) : Type 0 where
  pub sig_eq : SigEq Sig Share
  pub ready_format : Format (Tag × String × Hash32)
  pub pre_vote_format : Format (Tag × String × ℕ × Value)
  pub main_vote_format : Format (Tag × String × ℕ × MainVoteValue)
  pub message_format : Format (Message Sig Share)

unfoldable pub Value-discrete : Discrete Value
Value-discrete = hlevel

unfoldable pub MainVoteValue-discrete : Discrete MainVoteValue
MainVoteValue-discrete = hlevel

unfoldable pub PreVoteJustification-discrete :
    {Sig : Type 0} → Discrete Sig → Discrete (PreVoteJustification Sig)
PreVoteJustification-discrete d = hlevel (d, Hash32-discrete)

unfoldable pub MainVoteJustification-discrete :
    {Sig : Type 0} → Discrete Sig → Discrete (MainVoteJustification Sig)
MainVoteJustification-discrete d = hlevel (d, PreVoteJustification-discrete)

unfoldable pub PreVoteAction-discrete :
    {Sig Share : Type 0} → SigEq Sig Share → Discrete (PreVoteAction Sig Share)
PreVoteAction-discrete e =
    hlevel (ℕ_discrete, Value-discrete, e.share_eq, PreVoteJustification-discrete e.sig_eq)

unfoldable pub MainVoteAction-discrete :
    {Sig Share : Type 0} → SigEq Sig Share → Discrete (MainVoteAction Sig Share)
MainVoteAction-discrete e =
    hlevel (ℕ_discrete, MainVoteValue-discrete, e.share_eq, MainVoteJustification-discrete e.sig_eq)

unfoldable pub DecisionAction-discrete :
    {Sig Share : Type 0} → SigEq Sig Share → Discrete (DecisionAction Sig)
DecisionAction-discrete e = hlevel (ℕ_discrete, Value-discrete, e.sig_eq)
