-- ===== src/Mvba/Vcbc/Induction.antt =====
-- Every way in which `receive_message` changes the state, as one principle: what is preserved by
-- each elementary change is preserved by every message, on every path.
use sn_consensus.Prelude.{
  ℕ, zero, suc, ◌≡◌, none, some, [], ◌∷◌, true, false, Map, insert, is_some, contains_key, Stop,
  raised, panicked, out_of_fuel, Anyhow, Keeps, Keeps-bind, Keeps-pure, Keeps-halt, Keeps-known,
  on_option_at, Stops, Option-cases, inl, inr, keeps_rules, arith,
}
use sn_consensus.Keys.{Bytes}
use sn_consensus.Mvba.Tag.{Tag, NodeId, Proposal}
use sn_consensus.Mvba.Hash.{Hash32, calculate}
use sn_consensus.Mvba.Broadcaster.{Broadcaster}
use sn_consensus.Mvba.Vcbc.Message.{
  Message, Action, send, ready, final, request, answer, Extern, c_ready_bytes_to_sign, Error,
  action_str,
}
use sn_consensus.Mvba.Vcbc.State.{Vcbc, try_insert}
use sn_consensus.Mvba.Vcbc.Handlers.{
  Method, Receiver, note, send_to, broadcast, accept, on_send, add_share, conclude, check_ready,
  on_ready, send_ready, park_final, check_final, on_final, supply, check_request, on_request,
  on_answer, on_action, deliver_all, redeliver, handle, receive_message, c_broadcast,
}

module _ {Sig Share : Type 0} (x : Extern Sig Share) where
  -- The bytes `b` are those of the c-ready message for the digest `d`, under the state's tag.
  abbrev pub ReadyBytes : Vcbc Sig Share → Hash32 → Bytes → Type 0
  ReadyBytes s d b = c_ready_bytes_to_sign x.ready_format s.tag d ≡ some b

  pub record IsPreserved (P : Vcbc Sig Share → Type 0) (X : Stop Error → Type 0) : Type 0 where
    pub raises : (e : Error) → X (raised e)
    pub runs_out : X out_of_fuel
    pub asserts :
        (s : Vcbc Sig Share) (u : Sig) → s.u_bar ≡ some u → s.m_bar ≡ none → P s → X panicked
    pub sends : (s : Vcbc Sig Share) (b : Broadcaster) → P s → P (record s { broadcaster = b })
    pub accepts :
        (s : Vcbc Sig Share) (m : Proposal) → is_some s.m_bar ≡ false → P s → P (accept x m s)
    pub adds :
        (s : Vcbc Sig Share) (j : NodeId) (sh : Share) (d : Hash32) (b : Bytes)
        → s.d ≡ some d
        → ReadyBytes s d b
        → s.pub_key_set.verify_share j sh b ≡ true
        → contains_key j s.wd ≡ false
        → P s
        → P (add_share x j sh s)
    pub parks :
        (s : Vcbc Sig Share) (j : NodeId) (m : Message Sig Share)
        → P s
        → P (record s { final_messages = insert j m s.final_messages })
    pub takes : (s : Vcbc Sig Share) → P s → P (record s { final_messages = [] })
    pub proves :
        (s : Vcbc Sig Share) (u : Sig) (d : Hash32) (b : Bytes)
        → s.d ≡ some d
        → is_some s.u_bar ≡ false
        → ReadyBytes s d b
        → s.pub_key_set.verify u b ≡ true
        → P s
        → P (record s { u_bar = some u })
    pub learns :
        (s : Vcbc Sig Share) (m : Proposal) (u : Sig) (b : Bytes)
        → is_some s.u_bar ≡ false
        → ReadyBytes s (calculate x.sha3 m) b
        → s.pub_key_set.verify u b ≡ true
        → P s
        → P (record s { u_bar = some u; m_bar = some m })

module _ {Sig Share : Type 0} (x : Extern Sig Share) (P : Vcbc Sig Share → Type 0)
    (X : Stop Error → Type 0) (w : IsPreserved x P X) where
  abbrev Good : {A : Type 0} → Method Sig Share A → Type 0
  Good = Keeps P X

  raised_ok : (e : Error) → X (raised e)
  raised_ok = w.raises

  module _ (recv : Receiver Sig Share)
      (recv-Good : (j : NodeId) (m : Message Sig Share) → Good (recv j m)) where
    send_to-Good : (m : Message Sig Share) (to : NodeId) → Good (send_to x recv m to)
    unfolding send_to
    send_to-Good m to = search (keeps_rules, raised_ok, recv-Good, w.sends) depth 8

    note-Good : (p : Bytes) → Good (note x p)
    unfolding note
    note-Good p = search (keeps_rules, w.sends)

    broadcast-Good : (m : Message Sig Share) → Good (broadcast x recv m)
    unfolding broadcast
    broadcast-Good m = search (keeps_rules, raised_ok, recv-Good, note-Good) depth 8

    send_ready-Good : (v : Vcbc Sig Share) (d : Hash32) → Good (send_ready x recv v d)
    unfolding send_ready
    send_ready-Good v d = search (keeps_rules, raised_ok, send_to-Good) depth 8

    on_send-Good : (j : NodeId) (m : Proposal) → Good (on_send x recv j m)
    unfolding on_send
    on_send-Good j m = record {
      at = λ s h. ground (
        arith,
        w.accepts s m,
        raised_ok (Error.invalid_message "invalid proposal"),
        (send_ready-Good s (calculate x.sha3 m)).at (accept x m s),
      );
    }

    conclude-Good : (d : Hash32) → Good (conclude x recv d)
    unfolding conclude
    conclude-Good d = search (keeps_rules, raised_ok, broadcast-Good) depth 8

    check_ready-Good :
        (j : NodeId) (t : Tag) (e : Hash32) (sh : Share) (d : Hash32) (s : Vcbc Sig Share)
        → s.d ≡ some d
        → P s
        → P (check_ready x recv j t e sh d s).1 × Stops X (check_ready x recv j t e sh d s).0
    unfolding check_ready
    check_ready-Good j t e sh d s known h =
        elim (Option-cases (c_ready_bytes_to_sign x.ready_format s.tag d)) [
          | inl p ↦ rw p (h, raised_ok _)
          | inr (b, p) ↦ rw p (
              ground (
                arith,
                w.adds s j sh d b known p,
                raised_ok (Error.generic "Invalid digest"),
                (conclude-Good d).at (add_share x j sh s),
              ))
        ]

    on_ready-Good :
        (j : NodeId) (t : Tag) (e : Hash32) (sh : Share) → Good (on_ready x recv j t e sh)
    unfolding on_ready
    on_ready-Good j t e sh =
        Keeps-known _ (λ s. s.d) _ (Keeps-halt _ (raised_ok _)) λ d. check_ready-Good j t e sh d

    try_insert-Good : (j : NodeId) (m : Message Sig Share) → Good (try_insert j m)
    unfolding try_insert
    try_insert-Good j m = record {
      at = λ s h.
          ground
            (arith, w.parks s j m, raised_ok (Error.duplicated_message j (action_str m.action)));
    }

    park_final-Good :
        (j : NodeId) (t : Tag) (e : Hash32) (u : Sig) → Good (park_final x recv j t e u)
    unfolding park_final
    park_final-Good j t e u = search (keeps_rules, send_to-Good, try_insert-Good) depth 8

    check_final-Good :
        (e : Hash32) (u : Sig) (d : Hash32) (s : Vcbc Sig Share)
        → s.d ≡ some d
        → P s
        → P (check_final x e u d s).1 × Stops X (check_final x e u d s).0
    unfolding check_final
    check_final-Good e u d s known h =
        elim (Option-cases (c_ready_bytes_to_sign x.ready_format s.tag d)) [
          | inl p ↦ rw p (h, raised_ok _)
          | inr (b, p) ↦ rw p (ground (arith, w.proves s u d b known))
        ]

    on_final-Good : (j : NodeId) (t : Tag) (e : Hash32) (u : Sig) → Good (on_final x recv j t e u)
    unfolding on_final
    on_final-Good j t e u =
        Keeps-known _ (λ s. s.d) _ (park_final-Good j t e u) λ d. check_final-Good e u d

    supply-Good :
        (v : Vcbc Sig Share) (j : NodeId) (m : Proposal) (u : Sig) → Good (supply x recv v j m u)
    unfolding supply
    supply-Good v j m u = search (keeps_rules, send_to-Good) depth 8

    on_request-Good : (j : NodeId) → Good (on_request x recv j)
    unfolding on_request check_request
    on_request-Good j =
        Keeps-known _ (λ s. s.u_bar) (check_request x recv j) (Keeps-pure true)
          λ u s proven h.
            on_option_at P X s.m_bar _ (λ m. supply x recv s j m u) s
              (λ e. (h, w.asserts s u proven e h)) (λ m _. (supply-Good s j m u).at s h)

    on_answer-Good : (m : Proposal) (u : Sig) → Good (on_answer x m u)
    unfolding on_answer
    on_answer-Good m u = record {
      at = λ s h.
          elim (Option-cases (c_ready_bytes_to_sign x.ready_format s.tag (calculate x.sha3 m))) [
            | inl p ↦ rw p (ground (arith, raised_ok Error.encoding))
            | inr (b, p) ↦ rw p (ground (arith, w.learns s m u b))
          ];
    }

    on_action-Good : (j : NodeId) (t : Tag) (a : Action Sig Share) → Good (on_action x recv j t a)
    unfolding on_action
    on_action-Good j t (send m) = on_send-Good j m
    on_action-Good j t (ready d s) = on_ready-Good j t d s
    on_action-Good j t (final d s) = on_final-Good j t d s
    on_action-Good j t request = on_request-Good j
    on_action-Good j t (answer m u) = on_answer-Good m u

    deliver_all-Good : (ms : Map (Message Sig Share)) → Good (deliver_all x recv ms)
    unfolding deliver_all
    deliver_all-Good [] = Keeps-pure tt
    deliver_all-Good ((j, m) ∷ rest) = Keeps-bind _ _ (recv-Good j m) (λ _. deliver_all-Good rest)

    redeliver-Good : Good (redeliver x recv)
    unfolding redeliver
    redeliver-Good = search (keeps_rules, w.takes, deliver_all-Good) depth 8

    handle-Good : (j : NodeId) (m : Message Sig Share) → Good (handle x recv j m)
    unfolding handle
    handle-Good j m = search (keeps_rules, raised_ok, on_action-Good, redeliver-Good) depth 8

  pub receive_message-Good :
      (fuel : ℕ) (j : NodeId) (m : Message Sig Share) → Good (receive_message x fuel j m)
  unfolding receive_message
  receive_message-Good zero j m = Keeps-halt _ w.runs_out
  receive_message-Good (suc fuel) j m =
      handle-Good (receive_message x fuel) (receive_message-Good fuel) j m

  pub c_broadcast-Good : (fuel : ℕ) (m : Proposal) → X panicked → Good (c_broadcast x fuel m)
  unfolding c_broadcast
  c_broadcast-Good fuel m p =
      search (keeps_rules, broadcast-Good (receive_message x fuel) (receive_message-Good fuel), p)
        depth 8

module _ {Sig Share : Type 0} (x : Extern Sig Share) (P : Vcbc Sig Share → Type 0)
    (X : Stop Error → Type 0) (w : IsPreserved x P X) where
  -- With nothing claimed of the early stops.
  pub IsPreserved-Anyhow : IsPreserved x P Anyhow
  IsPreserved-Anyhow = record {
    raises = λ e. tt;
    runs_out = tt;
    asserts = λ s u p q h. tt;
    sends = w.sends;
    accepts = w.accepts;
    adds = w.adds;
    parks = w.parks;
    takes = w.takes;
    proves = w.proves;
    learns = w.learns;
  }
