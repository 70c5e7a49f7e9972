-- ===== src/Mvba/Tag.antt =====
-- src/mvba/tag.rs, and the plain types of src/mvba/mod.rs. A `usize` that is only compared or
-- copied is a number.
use Prim.Native.String.{◌++◌ as push_str}
use sn_consensus.Prelude.{ℕ, String, Bool, ℕ_discrete, String_discrete}
use sn_consensus.Keys.{Bytes}

-- usize
abbrev pub NodeId : Type 0
NodeId = ℕ

-- Vec<u8>
abbrev pub Proposal : Type 0
Proposal = Bytes

-- fn(NodeId, &Proposal) -> bool
abbrev pub MessageValidity : Type 0
MessageValidity = NodeId → Proposal → Bool

pub record Domain : Type 0 where
  pub id : String
  pub seq : ℕ

pub record Tag : Type 0 where
  pub domain : Domain
  pub proposer : NodeId

unfoldable pub new_domain : String → ℕ → Domain
new_domain id seq = record { id = id; seq = seq }

unfoldable pub new_tag : Domain → NodeId → Tag
new_tag domain proposer = record { domain = domain; proposer = proposer }

-- `Display`, and `Debug` of a tag. The decimal text of a number is a parameter.
unfoldable pub display_domain : (ℕ → String) → Domain → String
display_domain decimal d = push_str d.id (push_str "[" (push_str (decimal d.seq) "]"))

unfoldable pub display_tag : (ℕ → String) → Tag → String
display_tag decimal t =
    push_str (display_domain decimal t.domain) (push_str "." (decimal t.proposer))

unfoldable pub Domain-discrete : Discrete Domain
Domain-discrete = hlevel (ℕ_discrete, String_discrete)

unfoldable pub Tag-discrete : Discrete Tag
Tag-discrete = hlevel (ℕ_discrete, Domain-discrete)
