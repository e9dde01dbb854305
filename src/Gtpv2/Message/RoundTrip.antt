-- ===== src/Gtpv2/Message/RoundTrip.antt =====
-- Parse of gtpv2/message on what Marshal returns, for every type of message.
use go_gtp.Common.{
  ℕ, ◌^◌, ◌≤◌, ◌<◌, Bool, true, false, List, [], ◌∷◌, ◌++◌, ◌==◌, ==_iff, ◌≡◌, ◌⊎◌, inl, inr, refl,
  sym, subst, ap, ◌∙◌, Bool-cases, All, arith,
}
use go_gtp.Common.Outcome.{Outcome, ok, ◌>>=◌}
use go_gtp.Common.Bytes.{Bytes, index}
use go_gtp.Message
use go_gtp.Message.{Layout, Message, blank, marshal, marshal_len}
use go_gtp.Message.Collect.{collect-AllHeld}
use go_gtp.Message.Marshal.{marshal-wire_message, wire_message, filled_header}
use go_gtp.Message.RoundTrip.{IsConsistent}
use go_gtp.Gtpv2.Ie.{Ie, is_among}
use go_gtp.Gtpv2.Ie.Wire.{IsWf}
use go_gtp.Gtpv2.Header.{new_header, set_length}
use go_gtp.Gtpv2.Header.Codec.{head}
use go_gtp.Gtpv2.Message.{gtpv2, new_message}
use go_gtp.Gtpv2.Message.Laws.{laws, sent, parse-marshal_new}
use go_gtp.Gtpv2.Message.Generic.{generic-IsConsistent}
use go_gtp.Gtpv2.Message.Dispatch.{Kind, kind, kinds, select, kind_of, parse}
use go_gtp.Gtpv2.Message.EchoRequest.{echo_request-IsConsistent}
use go_gtp.Gtpv2.Message.EchoResponse.{echo_response-IsConsistent}
use go_gtp.Gtpv2.Message.VersionNotSupportedIndication.{
  version_not_supported_indication-IsConsistent,
}
use go_gtp.Gtpv2.Message.CreateSessionResponse.{create_session_response-IsConsistent}
use go_gtp.Gtpv2.Message.DeleteSessionRequest.{delete_session_request-IsConsistent}
use go_gtp.Gtpv2.Message.DeleteSessionResponse.{delete_session_response-IsConsistent}
use go_gtp.Gtpv2.Message.ModifyBearerCommand.{modify_bearer_command-IsConsistent}
use go_gtp.Gtpv2.Message.ModifyBearerFailureIndication.{
  modify_bearer_failure_indication-IsConsistent,
}
use go_gtp.Gtpv2.Message.DeleteBearerCommand.{delete_bearer_command-IsConsistent}
use go_gtp.Gtpv2.Message.DeleteBearerFailureIndication.{
  delete_bearer_failure_indication-IsConsistent,
}
use go_gtp.Gtpv2.Message.DeleteBearerRequest.{delete_bearer_request-IsConsistent}
use go_gtp.Gtpv2.Message.CreateBearerRequest.{create_bearer_request-IsConsistent}
use go_gtp.Gtpv2.Message.DeleteBearerResponse.{delete_bearer_response-IsConsistent}
use go_gtp.Gtpv2.Message.ModifyBearerRequest.{modify_bearer_request-IsConsistent}
use go_gtp.Gtpv2.Message.ModifyBearerResponse.{modify_bearer_response-IsConsistent}
use go_gtp.Gtpv2.Message.UpdateBearerRequest.{update_bearer_request-IsConsistent}
use go_gtp.Gtpv2.Message.UpdateBearerResponse.{update_bearer_response-IsConsistent}
use go_gtp.Gtpv2.Message.ContextRequest.{context_request-IsConsistent}
use go_gtp.Gtpv2.Message.ContextAcknowledge.{context_acknowledge-IsConsistent}
use go_gtp.Gtpv2.Message.ReleaseAccessBearersRequest.{release_access_bearers_request-IsConsistent}
use go_gtp.Gtpv2.Message.ReleaseAccessBearersResponse.{release_access_bearers_response-IsConsistent}
use go_gtp.Gtpv2.Message.StopPagingIndication.{stop_paging_indication-IsConsistent}
use go_gtp.Gtpv2.Message.ModifyAccessBearersRequest.{modify_access_bearers_request-IsConsistent}
use go_gtp.Gtpv2.Message.ModifyAccessBearersResponse.{modify_access_bearers_response-IsConsistent}
use go_gtp.Gtpv2.Message.DeletePdnConnectionSetRequest.{
  delete_pdn_connection_set_request-IsConsistent,
}
use go_gtp.Gtpv2.Message.DeletePdnConnectionSetResponse.{
  delete_pdn_connection_set_response-IsConsistent,
}
use go_gtp.Gtpv2.Message.UpdatePdnConnectionSetRequest.{
  update_pdn_connection_set_request-IsConsistent,
}
use go_gtp.Gtpv2.Message.UpdatePdnConnectionSetResponse.{
  update_pdn_connection_set_response-IsConsistent,
}
use go_gtp.Gtpv2.Message.PgwRestartNotification.{pgw_restart_notification-IsConsistent}
use go_gtp.Gtpv2.Message.PgwRestartNotificationAcknowledge.{
  pgw_restart_notification_acknowledge-IsConsistent,
}
use go_gtp.Gtpv2.Message.DetachNotification.{detach_notification-IsConsistent}
use go_gtp.Gtpv2.Message.DetachAcknowledge.{detach_acknowledge-IsConsistent}
use go_gtp.Gtpv2.Message.DownlinkDataNotification.{downlink_data_notification-IsConsistent}
use go_gtp.Gtpv2.Message.DownlinkDataNotificationAcknowledge.{
  downlink_data_notification_acknowledge-IsConsistent,
}
use go_gtp.Gtpv2.Message.DownlinkDataNotificationFailureIndication.{
  downlink_data_notification_failure_indication-IsConsistent,
}

-- CreateSessionRequest, CreateBearerResponse and ContextResponse lose elements.
unfoldable pub lossy : ℕ → Bool
lossy code = is_among (32 ∷ 96 ∷ 131 ∷ []) code

-- What the round trip needs of a type of message.
Sound : ℕ → Kind → Type 0
Sound code k =
    (k.flag < 2) × (k.layout.resets ≡ true) × ((lossy code ≡ true) ⊎ IsConsistent k.layout)

infixr 4 ◌⨾◌
data AllSound : List (ℕ × Kind) → Type 0 where
  done : AllSound []
  ◌⨾◌ :
      {code : ℕ} {k : Kind} {ks : List (ℕ × Kind)}
      → Sound code k
      → AllSound ks
      → AllSound ((code, k) ∷ ks)

good :
    (code flag : ℕ) (l : Layout)
    → flag < 2
    → l.resets ≡ true
    → IsConsistent l
    → Sound code (kind flag l)
unfolding Sound
good code flag l h r c = (h, r, inr c)

bad : (code : ℕ) (l : Layout) → l.resets ≡ true → lossy code ≡ true → Sound code (kind 1 l)
unfolding Sound
bad code l r e = (omega arith, r, inl e)

kinds-AllSound : AllSound kinds
unfolding lossy
kinds-AllSound =
    good _ 0 _ (omega arith) refl echo_request-IsConsistent
    ⨾ good _ 0 _ (omega arith) refl echo_response-IsConsistent
    ⨾ good _ 1 _ (omega arith) refl version_not_supported_indication-IsConsistent
    ⨾ bad _ _ refl refl
    ⨾ good _ 1 _ (omega arith) refl create_session_response-IsConsistent
    ⨾ good _ 1 _ (omega arith) refl delete_session_request-IsConsistent
    ⨾ good _ 1 _ (omega arith) refl delete_session_response-IsConsistent
    ⨾ good _ 1 _ (omega arith) refl modify_bearer_command-IsConsistent
    ⨾ good _ 1 _ (omega arith) refl modify_bearer_failure_indication-IsConsistent
    ⨾ good _ 1 _ (omega arith) refl delete_bearer_command-IsConsistent
    ⨾ good _ 1 _ (omega arith) refl delete_bearer_failure_indication-IsConsistent
    ⨾ good _ 1 _ (omega arith) refl delete_bearer_request-IsConsistent
    ⨾ good _ 1 _ (omega arith) refl create_bearer_request-IsConsistent
    ⨾ bad _ _ refl refl
    ⨾ good _ 1 _ (omega arith) refl delete_bearer_response-IsConsistent
    ⨾ good _ 1 _ (omega arith) refl modify_bearer_request-IsConsistent
    ⨾ good _ 1 _ (omega arith) refl modify_bearer_response-IsConsistent
    ⨾ good _ 1 _ (omega arith) refl update_bearer_request-IsConsistent
    ⨾ good _ 1 _ (omega arith) refl update_bearer_response-IsConsistent
    ⨾ good _ 1 _ (omega arith) refl context_request-IsConsistent
    ⨾ bad _ _ refl refl
    ⨾ good _ 1 _ (omega arith) refl context_acknowledge-IsConsistent
    ⨾ good _ 1 _ (omega arith) refl release_access_bearers_request-IsConsistent
    ⨾ good _ 1 _ (omega arith) refl release_access_bearers_response-IsConsistent
    ⨾ good _ 1 _ (omega arith) refl stop_paging_indication-IsConsistent
    ⨾ good _ 1 _ (omega arith) refl modify_access_bearers_request-IsConsistent
    ⨾ good _ 1 _ (omega arith) refl modify_access_bearers_response-IsConsistent
    ⨾ good _ 1 _ (omega arith) refl delete_pdn_connection_set_request-IsConsistent
    ⨾ good _ 1 _ (omega arith) refl delete_pdn_connection_set_response-IsConsistent
    ⨾ good _ 1 _ (omega arith) refl update_pdn_connection_set_request-IsConsistent
    ⨾ good _ 1 _ (omega arith) refl update_pdn_connection_set_response-IsConsistent
    ⨾ good _ 1 _ (omega arith) refl pgw_restart_notification-IsConsistent
    ⨾ good _ 1 _ (omega arith) refl pgw_restart_notification_acknowledge-IsConsistent
    ⨾ good _ 1 _ (omega arith) refl detach_notification-IsConsistent
    ⨾ good _ 1 _ (omega arith) refl detach_acknowledge-IsConsistent
    ⨾ good _ 1 _ (omega arith) refl downlink_data_notification-IsConsistent
    ⨾ good _ 1 _ (omega arith) refl downlink_data_notification_acknowledge-IsConsistent
    ⨾ good _ 1 _ (omega arith) refl downlink_data_notification_failure_indication-IsConsistent
    ⨾ done

select-Sound : (ks : List (ℕ × Kind)) (code : ℕ) → AllSound ks → Sound code (select ks code)
unfolding Sound
select-Sound [] code s = (omega arith, refl, inr generic-IsConsistent)
select-Sound ((c, k) ∷ ks) code (now ⨾ later) = elim (Bool-cases (c == code)) [
  | inl e ↦ rw e (subst (λ x. Sound x k) ((==_iff c code).0 e) now)
  | inr e ↦ rw e (select-Sound ks code later)
]

consistent : (code : ℕ) (k : Kind) → Sound code k → lossy code ≡ false → IsConsistent k.layout
unfolding Sound
consistent code k (h, r, inl e) f = cc
consistent code k (h, r, inr c) f = c

kind_of-Sound : (code : ℕ) → Sound code (kind_of code)
unfolding kind_of
kind_of-Sound code = select-Sound kinds code kinds-AllSound

abbrev pub made : ℕ → ℕ → ℕ → List Ie → Message gtpv2
made code teid seq is = new_message (kind_of code).flag code (kind_of code).layout teid seq is

module _ (flag code teid seq : ℕ) (l : Layout) (is : List Ie) where
  marshal_made :
      IsConsistent l
      → l.resets ≡ true
      → All IsWf is
      → marshal gtpv2 l (new_message flag code l teid seq is)
        ≡ ok (wire_message gtpv2 laws l (new_message flag code l teid seq is))
  unfolding new_message Message.new Message.set_length
  marshal_made c reset w =
      marshal-wire_message gtpv2 laws l (new_message flag code l teid seq is) c.same_order
        (collect-AllHeld gtpv2 IsWf l.new_rules is (blank gtpv2) w (λ f. tt)) (inl reset)

  second :
      (rest : Bytes)
      → index (head (filled_header gtpv2 laws l (new_message flag code l teid seq is)) ++ rest) 1
        ≡ ok code
  unfolding index new_message Message.new Message.set_length new_header set_length
  second rest = refl

parse-index :
    (b : Bytes) (code : ℕ) (m : Message gtpv2)
    → index b 1 ≡ ok code
    → Message.parse gtpv2 (kind_of code).layout b ≡ ok m
    → parse b ≡ ok (record { kind = kind_of code; message = m })
unfolding parse
parse-index b code m e e' = rw (e, e') refl

-- The constructors of all types give a flag of one bit.
pub kind_of-flag : (code : ℕ) → (kind_of code).flag < 2
unfolding Sound
kind_of-flag code = (kind_of-Sound code).0

pub marshal-made :
    (code teid seq : ℕ) (is : List Ie)
    → lossy code ≡ false
    → All IsWf is
    → marshal gtpv2 (kind_of code).layout (made code teid seq is)
      ≡ ok (wire_message gtpv2 laws (kind_of code).layout (made code teid seq is))
unfolding Sound
marshal-made code teid seq is faithful w =
    let k = kind_of code in
    let (hf, reset, alt) = kind_of-Sound code in
    marshal_made k.flag code teid seq k.layout is (consistent code k (kind_of-Sound code) faithful)
      reset w

-- Parse of what Marshal returns chooses the type of the message by its code, and finds the fields
-- that the constructor has filled, for every message type but the three lossy ones, a generic
-- message for an unknown code included: if the numbers fit their fields, a message without TEID is
-- given none, the elements are well formed, and the message takes 12 to 65535 octets.
pub parse-marshal-made :
    (code teid seq : ℕ) (is : List Ie)
    → code < 256
    → teid < 2 ^ 32
    → seq < 2 ^ 24
    → lossy code ≡ false
    → ((kind_of code).flag ≡ 0 → teid ≡ 0)
    → All IsWf is
    → marshal_len gtpv2 (kind_of code).layout (made code teid seq is) < 2 ^ 16
    → 12 ≤ marshal_len gtpv2 (kind_of code).layout (made code teid seq is)
    → (marshal gtpv2 (kind_of code).layout (made code teid seq is) >>= λ b. parse b)
      ≡ ok (record {
        kind = kind_of code;
        message = record {
          header = sent (kind_of code).flag code teid seq (kind_of code).layout is;
          fields = (made code teid seq is).fields;
        };
      })
unfolding Sound
parse-marshal-made code teid seq is hc ht hs faithful h0 w fits long =
    let k = kind_of code in
    let (hf, reset, alt) = kind_of-Sound code in
    let c = consistent code k (kind_of-Sound code) faithful in
    let e = marshal-made code teid seq is faithful w in
    let back =
      parse-marshal_new k.flag code teid seq k.layout is hf hc ht hs h0 c reset w fits long in
    ap (λ (o : Outcome Bytes). o >>= λ b. parse b) e
    ∙ parse-index _ code _ (second k.flag code teid seq k.layout is _)
        (sym (ap (λ (o : Outcome Bytes). o >>= λ b. Message.parse gtpv2 k.layout b) e) ∙ back)
