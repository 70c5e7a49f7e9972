-- ===== src/Lib.antt =====
-- The agreements of the repository. src/mvba is multi-valued Byzantine agreement: a node proposes a
-- value, exchanges bundles with the other nodes, and decides one of the proposals. The modules at
-- the root of src are the agreement of a section's elders: signed votes that contain votes, counted
-- until enough elders have seen that enough agree; its users are membership and handover.
--
-- Parts, and how they interact:
-- - Mvba.Vcbc (src/mvba/vcbc): the broadcast of one proposer's proposal. State.antt is `Vcbc`,
--   Handlers.antt is `receive_message`, one function for each kind of message, and `c_broadcast`.
-- - Mvba.Abba (src/mvba/abba): the binary agreement on one proposer. State.antt is `Abba`,
--   Checks.antt is `check_message`, Store.antt is `add_message`, Protocol.antt the rest of
--   `receive_message`, `pre_vote_zero` and `pre_vote_one`. Network.antt is several parties that start
--   with a value each and exchange messages: what a party has handed to its broadcaster is delivered
--   to any party, in any order and any number of times.
-- - Mvba.Mvba (src/mvba/mvba): the votes on one proposer after another. Checks.antt is
--   `check_message` and `add_vote`, Voting.antt is `receive_message`, `vote`, `set_proposal` and
--   `move_to_next_proposal`.
-- - Mvba.Consensus (src/mvba/consensus.rs): a node. State.antt is `init` and the calls of the
--   components, Bundles.antt is `propose` and `process_bundle`, which hands a bundle to a broadcast,
--   to a binary agreement or to the vote, and tells one of them what another has reached.
-- - Mvba.Broadcaster, Mvba.Tag, Mvba.Hash (src/mvba/broadcaster.rs, bundle.rs, tag.rs, hash.rs), and
--   Mvba.VoteMessage (src/mvba/message.rs, which no module includes).
-- - Crypto: the three kinds of keys, BadCrypto.antt (src/bad_crypto.rs), Ed25519.antt (src/ed25519.rs)
--   and Blsttc.antt (src/blsttc.rs), as implementations of one interface in Schemes.antt. The rest of
--   the program calls the third-party keys directly, and does not use them.
-- - Vote: Types.antt is the data of src/vote.rs, src/fault.rs and src/error.rs, Compare.antt its
--   derived order, Ballots.antt `unpack_votes`, `supersedes`, `simplify` and `proposals`. Count.antt
--   is src/vote_count.rs with `candidate`, Validity.antt `validate` and `detect_byzantine_faults` of
--   src/vote.rs, src/fault.rs and `verify_sig_share` of src/lib.rs, and Decision.antt src/decision.rs.
-- - Elders: Generation.antt and Handlers.antt are src/consensus.rs, the agreement on the votes of one
--   generation; Membership is src/sn_membership.rs, which runs one after another and keeps those
--   that have decided, with its state, its checks and its handlers; Handover.antt is src/sn_handover.rs, which runs one.
-- - Keys: the third-party keys, hash and serialization, as parameters. Nothing is assumed of them
--   but what a theorem names. Vote.Extern: what a type of proposals has to offer.
-- - Prelude: tests, maps, and methods that change an object and may stop early, with the rules by
--   which a property is kept by a method; Ordered.antt has `BTreeSet` and `BTreeMap`. In each
--   component, Induction.antt lists the elementary changes of the state, and that what they keep is
--   kept on every path.
-- - Examples: runs of the components on small stand-ins for the third-party code.
--
-- A `Result` is an outcome with the state as it was left; a panic and the end of the fuel are
-- outcomes of their own. The components of a node share one broadcaster: a call lends it to the
-- component and takes it back. The fuel bounds how deep the calls of `receive_message` by itself go.
-- Four is enough for the broadcast, `c_broadcast` included, where no message is a c-final in the
-- node's own name, and three for any message to
-- the binary agreement. In Vote, the fuel of `candidate` is the number of votes that a vote
-- contains, which is always enough. In Elders, it bounds how deep `handle_signed_vote` and
-- `cast_vote` call each other, and what is shown holds for any; how much is enough is open.
-- The model is of a build with debug assertions and overflow checks, as Cargo's dev profile has
-- them: an assertion that fails, `round - 1` at 0 and `n_voters - voters.len()` below 0 are panics.
-- Without the checks, `round - 1` at 0 is the largest index, at which `get_mut_pre_votes_by_round`
-- and `get_mut_main_votes_by_round` of src/mvba/abba/mod.rs return an error; that path is not
-- modelled, and it is the only one on which they return one. Numbers are unbounded otherwise. The
-- assertion of `Vcbc::new` is in `new`; `init` makes each broadcast by `new_state`, what `new` returns
-- where the assertion holds, as it does there. An iteration over a hash map is
-- in order of insertion, which the source leaves open; one over a `BTreeMap` is in order of the keys.
-- The comparison of proposals and of shares is a parameter; where a theorem needs it, it answers
-- `Equal` on equal values only.
--
-- The network of Mvba.Abba has the binary agreement alone, with a broadcaster of its own for each
-- party, which keeps what it has sent; Examples/Networks.antt has runs of it.
--
-- Not modelled: log calls; the printing of anything but tags, hashes and keys, which is for logs; the
-- methods that only tests use; and the third-party cryptography, which is a parameter.
mod Prelude
pub mod Keys
pub mod Mvba
pub mod Vote
pub mod Crypto
pub mod Elders
mod Examples
