-- ===== src/Mvba/Vcbc/Handlers.antt =====
-- The messages of src/mvba/vcbc/mod.rs. Each handler takes `recv`, the call of `receive_message`
-- that delivers a node's own messages to itself.
use sn_consensus.Prelude.{
  ℕ, zero, suc, some, [], ◌∷◌, Bool, true, false, not, ◌&&◌, ◌+◌, Map, contains_key, insert, leb,
  ◌==◌, same, is_some, if◌then◌else◌, Exec, Stop, halt, raise, pure, or_raise, reading, on_option,
  modify, when, done, ◌>>=◌, ◌>>◌,
}
use sn_consensus.Keys.{Bytes}
use sn_consensus.Mvba.Tag.{Tag, NodeId, Proposal, Tag-discrete}
use sn_consensus.Mvba.Hash.{Hash32, Hash32-discrete, calculate}
use sn_consensus.Mvba.Broadcaster
use sn_consensus.Mvba.Vcbc.Message.{
  Message, Action, send, ready, final, request, answer, Error, Extern, c_ready_bytes_to_sign,
}
use sn_consensus.Mvba.Vcbc.State.{Vcbc, module_name, threshold, try_insert}

abbrev pub Method : Type 0 → Type 0 → Type 0 → Type 0
Method Sig Share A = Exec (Vcbc Sig Share) Error A

-- The type of `receive_message`.
abbrev pub Receiver : Type 0 → Type 0 → Type 0
Receiver Sig Share = NodeId → Message Sig Share → Method Sig Share Unit

module _ {Sig Share : Type 0} (x : Extern Sig Share) where
  abbrev pub ready_bytes : Tag → Hash32 → Method Sig Share Bytes
  ready_bytes tag d = or_raise Error.encoding (c_ready_bytes_to_sign x.ready_format tag d)

  unfoldable pub send_to : Receiver Sig Share → Message Sig Share → NodeId → Method Sig Share Unit
  send_to recv msg to = do
    payload ← or_raise Error.encoding (x.message_format.serialize msg)
    reading λ v.
        if to == v.i
        then recv v.i msg
        else modify λ v. record v {
          broadcaster =
              Broadcaster.send_to v.broadcaster module_name (some v.tag.proposer) payload to;
        }

  -- Hand a payload for all the parties to the broadcaster.
  unfoldable pub note : Bytes → Method Sig Share Unit
  note payload = modify λ v. record v {
    broadcaster = Broadcaster.broadcast v.broadcaster module_name (some v.i) payload;
  }

  unfoldable pub broadcast : Receiver Sig Share → Message Sig Share → Method Sig Share Unit
  broadcast recv msg = do
    payload ← or_raise Error.encoding (x.message_format.serialize msg)
    note payload
    reading λ v. recv v.i msg

  -- m̄ ← m, and the digest with it
  unfoldable pub accept : Proposal → Vcbc Sig Share → Vcbc Sig Share
  accept m v = record v { m_bar = some m; d = some (calculate x.sha3 m) }

  -- Sign the digest and send c-ready to the proposer.
  unfoldable pub send_ready : Receiver Sig Share → Vcbc Sig Share → Hash32 → Method Sig Share Bool
  send_ready recv v d = do
    sign_bytes ← ready_bytes v.tag d
    send_to recv (record { tag = v.tag; action = ready d (v.sec_key_share.sign sign_bytes) })
        v.tag.proposer
    pure true

  -- The handlers return `false` where the source returns from the whole of `receive_message`.
  unfoldable pub on_send : Receiver Sig Share → NodeId → Proposal → Method Sig Share Bool
  on_send recv initiator m = reading λ v.
      if not ((initiator == v.tag.proposer) && not (is_some v.m_bar))
      then pure true
      else if not (v.message_validity initiator m)
      then raise (Error.invalid_message "invalid proposal")
      else do modify (accept m); send_ready recv v (calculate x.sha3 m)

  unfoldable pub add_share : NodeId → Share → Vcbc Sig Share → Vcbc Sig Share
  add_share initiator sig_share v = record v { wd = insert initiator sig_share v.wd; rd = v.rd + 1 }

  -- With enough shares in Wd, combine them and send c-final to all.
  unfoldable pub conclude : Receiver Sig Share → Hash32 → Method Sig Share Unit
  conclude recv d = reading λ v. if not (leb (threshold v) v.rd) then done else do
    sig ← or_raise Error.blsttc (v.pub_key_set.combine_signatures v.wd)
    broadcast recv (record { tag = v.tag; action = final d sig })

  -- c-ready, when the digest `d` is known.
  unfoldable pub check_ready :
      Receiver Sig Share → NodeId → Tag → Hash32 → Share → Hash32 → Method Sig Share Bool
  check_ready recv initiator msg_tag msg_d sig_share d = reading λ v. do
    sign_bytes ← ready_bytes v.tag d
    if not (same Hash32-discrete d msg_d)
        then raise (Error.generic "Invalid digest")
        else if contains_key initiator v.wd
        then pure true
        else if not
            ((v.i == msg_tag.proposer) && v.pub_key_set.verify_share initiator sig_share sign_bytes)
        then pure true
        else do modify (add_share initiator sig_share); conclude recv d; pure true

  unfoldable pub on_ready :
      Receiver Sig Share → NodeId → Tag → Hash32 → Share → Method Sig Share Bool
  on_ready recv initiator msg_tag msg_d sig_share = reading λ v.
      on_option v.d (raise (Error.generic "protocol violated. no digest"))
        λ d. check_ready recv initiator msg_tag msg_d sig_share d

  -- c-final, when the digest is not known: log the message and ask for the proposal.
  unfoldable pub park_final :
      Receiver Sig Share → NodeId → Tag → Hash32 → Sig → Method Sig Share Bool
  park_final recv initiator msg_tag msg_d sig = reading λ v. do
    try_insert initiator (record { tag = msg_tag; action = final msg_d sig })
    send_to recv (record { tag = v.tag; action = request }) initiator
    pure false

  unfoldable pub check_final : Hash32 → Sig → Hash32 → Method Sig Share Bool
  check_final msg_d sig d = reading λ v. do
    sign_bytes ← ready_bytes v.tag d
    when
        (same Hash32-discrete d msg_d
          && (not (is_some v.u_bar) && v.pub_key_set.verify sig sign_bytes))
        λ s. record s { u_bar = some sig }
    pure true

  unfoldable pub on_final : Receiver Sig Share → NodeId → Tag → Hash32 → Sig → Method Sig Share Bool
  on_final recv initiator msg_tag msg_d sig =
      reading λ v.
        on_option v.d (park_final recv initiator msg_tag msg_d sig) λ d. check_final msg_d sig d

  -- send (ID.j.s, c-answer, m̄, µ̄) to Pl
  unfoldable pub supply :
      Receiver Sig Share → Vcbc Sig Share → NodeId → Proposal → Sig → Method Sig Share Bool
  supply recv v initiator m u = do
    send_to recv (record { tag = v.tag; action = answer m u }) initiator
    pure true

  -- The source asserts here that m̄ is known.
  unfoldable pub check_request : Receiver Sig Share → NodeId → Sig → Method Sig Share Bool
  check_request recv initiator u =
      reading λ v. on_option v.m_bar (halt Stop.panicked) λ m. supply recv v initiator m u

  unfoldable pub on_request : Receiver Sig Share → NodeId → Method Sig Share Bool
  on_request recv initiator =
      reading λ v. on_option v.u_bar (pure true) λ u. check_request recv initiator u

  unfoldable pub on_answer : Proposal → Sig → Method Sig Share Bool
  on_answer m u = reading λ v. if is_some v.u_bar then pure true else do
    sign_bytes ← ready_bytes v.tag (calculate x.sha3 m)
    when (v.pub_key_set.verify u sign_bytes) λ s. record s { u_bar = some u; m_bar = some m }
    pure true

  unfoldable pub on_action :
      Receiver Sig Share → NodeId → Tag → Action Sig Share → Method Sig Share Bool
  on_action recv initiator msg_tag (send m) = on_send recv initiator m
  on_action recv initiator msg_tag (ready d s) = on_ready recv initiator msg_tag d s
  on_action recv initiator msg_tag (final d s) = on_final recv initiator msg_tag d s
  on_action recv initiator msg_tag request = on_request recv initiator
  on_action recv initiator msg_tag (answer m u) = on_answer m u

  unfoldable pub deliver_all : Receiver Sig Share → Map (Message Sig Share) → Method Sig Share Unit
  deliver_all recv [] = done
  deliver_all recv ((initiator, m) ∷ rest) = do recv initiator m; deliver_all recv rest

  -- The loop at the end of `receive_message`, over what `mem::take` moves out of the state.
  unfoldable pub redeliver : Receiver Sig Share → Method Sig Share Unit
  redeliver recv =
      reading
        λ v. do modify λ v. record v { final_messages = [] }; deliver_all recv v.final_messages

  unfoldable pub handle : Receiver Sig Share → Receiver Sig Share
  handle recv initiator msg = reading λ v.
      if not (same Tag-discrete msg.tag v.tag)
      then raise (Error.invalid_message "invalid tag")
      else do
        through ← on_action recv initiator msg.tag msg.action
        if through then redeliver recv else done

  -- The fuel bounds how deep the calls of `receive_message` by itself go.
  unfoldable pub receive_message : ℕ → Receiver Sig Share
  receive_message zero initiator msg = halt Stop.out_of_fuel
  receive_message (suc fuel) initiator msg = handle (receive_message fuel) initiator msg

  -- The source asserts here that the node is the proposer.
  unfoldable pub c_broadcast : ℕ → Proposal → Method Sig Share Unit
  c_broadcast fuel m = reading λ v.
      if v.i == v.tag.proposer
      then broadcast (receive_message fuel) (record { tag = v.tag; action = send m })
      else halt Stop.panicked
