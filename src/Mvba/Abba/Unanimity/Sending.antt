-- ===== src/Mvba/Abba/Unanimity/Sending.antt =====
-- What a party of src/mvba/abba sends, when it only says one value.
use sn_consensus.Prelude.{
  ℕ, ◌≡◌, refl, none, some, Option, All-++, Keeps-pure, Keeps-halt, Keeps-bind, keeps_rules, ◌>>=◌,
  ◌>>◌, or_raise,
}
use sn_consensus.Keys.{Bytes}
use sn_consensus.Mvba.Tag.{NodeId}
use sn_consensus.Mvba.Broadcaster
use sn_consensus.Mvba.Abba.Message.{
  Value, MainVoteValue, value, PreVoteJustification, MainVoteJustification, abstains, no_abstain,
  Action, Message, Error, Extern,
}
use sn_consensus.Mvba.Abba.State.{Method}
use sn_consensus.Mvba.Abba.Protocol.{
  Receiver, main_sig, note, broadcast, send_pre_vote, start, send_main_vote,
}
use sn_consensus.Mvba.Abba.Unanimity.{
  ReadsBack, IsJustFor, IsFor, IsSending, Unanimous, raised_ok, sets_voted, goes_on,
}

module _ {Sig Share : Type 0} (x : Extern Sig Share) (v : Value)
    (law : ReadsBack x.message_format) where
  abbrev Good : {A : Type 0} → Method Sig Share A → Type 0
  Good = Unanimous x v

  note-Good :
      (m : Message Sig Share) (p : Bytes)
      → x.message_format.serialize m ≡ some p
      → IsFor x v m.action
      → Good (note x p)
  unfolding note Broadcaster.broadcast Broadcaster.make_bundle
  note-Good m p e f = record {
    at = λ s h. (
      record {
        pre_votes = h.pre_votes;
        main_votes = h.main_votes;
        decided = h.decided;
        validity = h.validity;
        sent = All-++ (IsSending x v) s.broadcaster.outgoings _ h.sent ((m, law m p e, f), tt);
      },
      tt,
    );
  }

  pub main_sig-Good : (j : MainVoteJustification Sig) → Good (main_sig {Share = Share} j)
  unfolding main_sig
  main_sig-Good (no_abstain u) = Keeps-pure u
  main_sig-Good (abstains j k) = Keeps-halt _ tt

  module _ (recv : Receiver Sig Share)
      (recv-Good : (j : NodeId) (m : Message Sig Share)
        → IsFor x v m.action
        → Good (recv j m)) where
    written-Good :
        (i : NodeId) (m : Message Sig Share) (o : Option Bytes)
        → x.message_format.serialize m ≡ o
        → IsFor x v m.action
        → Good (do payload ← or_raise Error.encoding o; note x payload; recv i m)
    written-Good i m none e f = Keeps-halt _ tt
    written-Good i m (some p) e f = Keeps-bind _ _ (note-Good m p e f) (λ _. recv-Good i m f)

    pub broadcast-Good : (a : Action Sig Share) → IsFor x v a → Good (broadcast x recv a)
    unfolding broadcast
    broadcast-Good a f = record {
      at = λ s h. (written-Good s.i (record { tag = s.tag; action = a }) _ refl f).at s h;
    }

    pub send_pre_vote-Good :
        (r : ℕ) (w : Value) (j : PreVoteJustification Sig)
        → w ≡ v
        → IsJustFor v j
        → Good (send_pre_vote x recv r w j)
    unfolding send_pre_vote
    send_pre_vote-Good r w j e f = search (keeps_rules, raised_ok, broadcast-Good, e, f) depth 12

    pub start-Good :
        (w : Value) (j : PreVoteJustification Sig) → w ≡ v → IsJustFor v j → Good (start x recv w j)
    unfolding start
    start-Good w j e f = search (keeps_rules, raised_ok, sets_voted, broadcast-Good, e, f) depth 14

    pub send_main_vote-Good :
        (r : ℕ) (w : MainVoteValue) (j : MainVoteJustification Sig)
        → w ≡ value v
        → Good (send_main_vote x recv r w j)
    unfolding send_main_vote
    send_main_vote-Good r w j e =
        search (keeps_rules, raised_ok, goes_on, broadcast-Good, e) depth 12
