-- ===== src/Gtpv2/Conn/Handle.antt =====
-- gtpv2/conn.go and gtpv2/handlers.go: what is sent, and what is done with a message that comes in.
-- The encoder of the message package and the socket are one parameter, which takes a packet or fails,
-- and what a user's handler does is another.
pub mod Teids
use go_gtp.Common.{
  ℕ, zero, suc, ◌+◌, Bool, true, false, Option, none, some, List, [], ◌∷◌, ◌++◌, ◌==◌,
  if◌then◌else◌,
}
use go_gtp.Common.Outcome.{
  Outcome, Error, ok, err, panic, stuck, invalid_teid, handler_not_found, invalid_version,
  unexpected_type,
}
use go_gtp.Common.Maps.{Str, load, number_key}
use go_gtp.Gtpv2.Session.{Message}
use go_gtp.Gtpv2.Conn.{
  Conn, Handler, handle_echo_request, handle_echo_response, handle_version_not_supported_indication,
  user, inc_sequence, dec_sequence, get_session_by_teid,
}

abbrev pub message : ℕ → Message
message kind' = record { kind = kind'; teid = 0; sequence = 0 }

-- `Version()` of gtpv2/message/header.go, which every message has: the constant, whatever octets the
-- message was read from.
abbrev pub version : Message → ℕ
version m = 2

module _ (deliver : Message → Str → Option Error) where
  -- After the attempt to send, with the sequence number that the message has.
  abbrev pub after_send : Conn → Message → Str → Option Error → Conn × (ℕ × Option Error)
  after_send c m addr none = (record c { sent = c.sent ++ ((addr, m) ∷ []) }, (c.sequence, none))
  after_send c m addr (some e) = let d = dec_sequence c in (d, (d.sequence, some e))

  -- The number that it returns is the one of the message, or on an error the one of the Conn.
  unfoldable pub send_message_to : Conn → Message → Str → Conn × (ℕ × Option Error)
  unfolding inc_sequence dec_sequence
  send_message_to c m addr =
      let d = inc_sequence c in
      let m' = record m { sequence = d.sequence } in after_send d m' addr (deliver m' addr)

  abbrev pub after_respond : Conn → Message → Str → Option Error → Conn × Outcome Bool
  after_respond c m addr none = (record c { sent = c.sent ++ ((addr, m) ∷ []) }, ok true)
  after_respond c m addr (some e) = (c, err e)

  unfoldable pub respond_to : Conn → Str → Message → Message → Conn × Outcome Bool
  respond_to c addr received to_be_sent =
      let m = record to_be_sent { sequence = received.sequence } in
      after_respond c m addr (deliver m addr)

  unfoldable pub echo_request : Conn → Str → Conn × (ℕ × Option Error)
  unfolding send_message_to
  echo_request c addr = send_message_to c (message 1) addr

  unfoldable pub echo_response : Conn → Str → Message → Conn × Outcome Bool
  unfolding respond_to
  echo_response c addr req = respond_to c addr req (message 2)

  unfoldable pub version_not_supported_indication : Conn → Str → Message → Conn × Outcome Bool
  unfolding respond_to
  version_not_supported_indication c addr req = respond_to c addr req (message 3)

  abbrev pub known_teid : Outcome ℕ → Outcome Bool
  known_teid (ok r) = ok true
  known_teid (err e) = err invalid_teid
  known_teid panic = panic
  known_teid stuck = stuck

  -- An answer that could not be sent is an error of its own.
  abbrev pub refused : Conn × Outcome Bool → Conn × Outcome Bool
  refused (c, ok b) = (c, err invalid_version)
  refused (c, o) = (c, o)

  unfoldable pub validate : Conn → Str → Message → Conn × Outcome Bool
  unfolding version_not_supported_indication get_session_by_teid
  validate c addr m =
      if version m == 2
      then (c, if m.teid == 0 then ok true else known_teid (get_session_by_teid c m.teid addr))
      else refused (version_not_supported_indication c addr m)

  module _ (run_user : ℕ → Conn → Str → Message → Conn × Outcome Bool) where
    unfoldable pub handle : Handler → Conn → Str → Message → Conn × Outcome Bool
    unfolding echo_response
    handle handle_echo_request c addr m =
        if m.kind == 1 then echo_response c addr m else (c, err unexpected_type)
    handle handle_echo_response c addr m = (c, if m.kind == 2 then ok true else err unexpected_type)
    handle handle_version_not_supported_indication c addr m =
        (c, if m.kind == 3 then err invalid_version else err unexpected_type)
    handle (user f) c addr m = run_user f c addr m

    abbrev pub dispatch : Option Handler → Conn → Str → Message → Conn × Outcome Bool
    dispatch none c addr m = (c, err handler_not_found)
    dispatch (some h) c addr m = handle h c addr m

    -- Goes on where the validation has passed.
    abbrev pub if_valid : Conn × Outcome Bool → Str → Message → Conn × Outcome Bool
    if_valid (c, ok b) addr m = dispatch (load number_key c.handlers m.kind) c addr m
    if_valid (c, o) addr m = (c, o)

    unfoldable pub handle_message : Conn → Str → Message → Conn × Outcome Bool
    unfolding validate handle
    handle_message c addr m =
        if_valid (if c.validation_enabled then validate c addr m else (c, ok true)) addr m
