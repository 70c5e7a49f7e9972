-- ===== src/Examples/Toy.antt =====
-- Stand-ins for the third-party code: a signature or a share is a number. Party i signs with i,
-- two shares combine to the signature 7, and every value serializes to the same bytes.
use sn_consensus.Prelude.{
  ℕ, Option, none, some, [], length, leb, ◌==◌, ℕ_discrete, if◌then◌else◌, arith,
}
use sn_consensus.Keys.{Bytes, PublicKeySet, SecretKeyShare, Format, SigEq}
use sn_consensus.Mvba.Tag.{Tag, Domain, NodeId}
use sn_consensus.Mvba.Broadcaster.{Broadcaster}
use sn_consensus.Mvba.Vcbc.Message.{Extern as VcbcExtern, Message as VcbcMessage}
use sn_consensus.Mvba.Abba.Message.{Extern as AbbaExtern}
use sn_consensus.Mvba.Abba.Decision.{Combines}
use sn_consensus.Mvba.Mvba.Message.{Extern as MvbaExtern}
use sn_consensus.Mvba.Consensus.State.{Extern}

abbrev pub keys : PublicKeySet ℕ ℕ
keys = record {
  threshold = 1;
  verify_share = λ i s b. s == i;
  verify = λ u b. u == 7;
  combine_signatures = λ shares. if leb 2 (length shares) then some 7 else none;
}

-- The key of party 1.
abbrev pub key : SecretKeyShare ℕ
key = record { sign = λ b. 1 }

-- `deserialize` gives back one fixed value.
abbrev pub format : {A : Type 0} → Option A → Format A
format a = record { serialize = λ _. some []; deserialize = λ _. a }

abbrev pub sig_eq : SigEq ℕ ℕ
sig_eq = record { sig_eq = ℕ_discrete; share_eq = ℕ_discrete }

abbrev pub sha3 : Bytes → Bytes
sha3 b = b

abbrev pub domain : Domain
domain = record { id = "example"; seq = 0 }

abbrev pub tag : NodeId → Tag
tag p = record { domain = domain; proposer = p }

abbrev pub silent : Broadcaster
silent = record { self_id = 1; outgoings = [] }

abbrev pub vcbc_extern : Option (VcbcMessage ℕ ℕ) → VcbcExtern ℕ ℕ
vcbc_extern m = record { sha3 = sha3; ready_format = format none; message_format = format m }

abbrev pub abba_extern : AbbaExtern ℕ ℕ
abba_extern = record {
  sig_eq = sig_eq;
  ready_format = format none;
  pre_vote_format = format none;
  main_vote_format = format none;
  message_format = format none;
}

abbrev pub mvba_extern : MvbaExtern ℕ ℕ
mvba_extern = record {
  sha3 = sha3;
  sig_eq = sig_eq;
  ready_format = format none;
  vote_format = format none;
  message_format = format none;
  request_format = format none;
}

abbrev pub extern : Option (VcbcMessage ℕ ℕ) → Extern ℕ ℕ
extern m = record { vcbc = vcbc_extern m; abba = abba_extern; mvba = mvba_extern }

pub toy-Combines : (p : NodeId) → Combines abba_extern keys (tag p)
toy-Combines p b shares u a e = ground (arith, e)
