-- ===== src/Tests/Node.antt =====
-- A node with one session and one bearer, and messages for it.
use go_gtp.Common.{
  ℕ, ◌≡◌, refl, Bool, true, Option, none, some, [], ◌∷◌, ◌++◌, inl, arith, All, map,
}
use go_gtp.Common.Outcome.{Outcome, Error, ok, err, panic, ◌>>=◌, write_failed, invalid_teid}
use go_gtp.Common.Maps.{Str}
use go_gtp.Gtpv2.Session.{
  Session, Message, Bearer, new_session, new_bearer, no_qos, add_bearer, add_teid,
}
use go_gtp.Gtpv2.Session.Steps.{
  created, stepped, bearer_added, IsValid, Reachable-IsValid, receive, pass_all, receive-pass_all,
}
use go_gtp.Gtpv2.Conn.{
  Conn, user, add_handler, new_conn, register_session, get_session_by_teid, remove_session,
  new_sender_fteid, try_teids,
}
use go_gtp.Gtpv2.Conn.Sequence.{IsSequence, Fits, send_message_to-Fits}
use go_gtp.Gtpv2.Conn.Registry.{
  IsForgotten, IsReserved, Succeeds, get_session_by_teid-register_session, remove_session_lem,
  get_teid-register_session, get_session_by_teid-remove_session_stale, new_sender_fteid-IsReserved,
  new_sender_fteid-Succeeds,
}
use go_gtp.Gtpv2.Conn.Handle.{send_message_to, handle_message}
use go_gtp.Gtpv2.Conn.Handle.Teids.{
  handle_message-register_session, handle_message-remove_session, handle_message-new_sender_fteid,
}

abbrev peer : Str
peer = 49 ∷ []

abbrev alice : Session
alice = new_session peer (record { imsi = 52 ∷ 52 ∷ []; msisdn = []; imei = [] })

abbrev name : Str
name = 98 ∷ []

abbrev bearer : Bearer
bearer = new_bearer 6 [] no_qos

abbrev with_bearer : Session
with_bearer = add_bearer alice name bearer

-- The socket takes every packet, or none. The handler of the user does nothing.
abbrev takes : Message → Str → Option Error
takes m addr = none

abbrev fails : Message → Str → Option Error
fails m addr = some write_failed

abbrev ignore : ℕ → Conn → Str → Message → Conn × Outcome Bool
ignore f c addr m = (c, ok true)

-- The random numbers 0, 1, 2 and so on.
abbrev counting : ℕ → ℕ
counting k = k

abbrev node : Conn
node = new_conn (λ r. with_bearer) 10 1

abbrev registered : Conn
registered = register_session node 5 0

abbrev message_to : ℕ → ℕ → Message
message_to k t = record { kind = k; teid = t; sequence = 9 }

find_five : get_session_by_teid registered 5 peer ≡ ok 0
unfolding add_bearer
find_five = get_session_by_teid-register_session node 5 5 0 peer

remove_session_lem_five : IsForgotten registered 5 (52 ∷ 52 ∷ []) (remove_session registered 0)
unfolding register_session add_teid add_bearer
remove_session_lem_five = remove_session_lem registered 5 0 (get_teid-register_session node 5 0)

stale_five :
    (remove_session (register_session (register_session node 5 0) 6 0) 0 >>= λ d.
    get_session_by_teid d 5 peer)
    ≡ ok 0
unfolding add_bearer
stale_five = get_session_by_teid-remove_session_stale node 5 6 0 (λ e. omega (arith, e))

reserve_counting : IsReserved node (new_sender_fteid counting node)
reserve_counting = new_sender_fteid-IsReserved counting node

reserve_found : Succeeds (new_sender_fteid counting node)
reserve_found = new_sender_fteid-Succeeds counting node 1 (omega arith) refl refl

send_example :
    IsSequence ((send_message_to takes node (message_to 32 0) peer).0).sequence
    × All Fits ((send_message_to takes node (message_to 32 0) peer).0).sent
send_example = send_message_to-Fits takes node (message_to 32 0) peer (inl (omega arith)) tt

with_bearer-IsValid : IsValid with_bearer
with_bearer-IsValid = Reachable-IsValid (
    stepped (created peer (record { imsi = 52 ∷ 52 ∷ []; msisdn = []; imei = [] }))
      (bearer_added alice name bearer))

queue_two :
    (pass_all alice (message_to 33 0 ∷ message_to 35 0 ∷ []) >>= λ t.
    ok (receive t ([] ++ (message_to 33 0 ∷ message_to 35 0 ∷ []))))
    ≡ ok (alice, map ok ([] ++ (message_to 33 0 ∷ message_to 35 0 ∷ [])))
queue_two = receive-pass_all alice (message_to 33 0 ∷ message_to 35 0 ∷ []) (omega arith)

register_then_handle :
    let d = register_session (add_handler node 32 (user 7)) 5 0 in
    handle_message takes ignore d peer (message_to 32 5) ≡ ignore 7 d peer (message_to 32 5)
unfolding add_bearer
register_then_handle =
    handle_message-register_session takes ignore node 7 0 peer (message_to 32 5) refl
      (λ e. omega (arith, e))

remove_then_handle :
    (d : Conn) × (remove_session registered 0 ≡ ok d)
    × ((addr : Str) → handle_message takes ignore d addr (message_to 2 5) ≡ (d, err invalid_teid))
remove_then_handle =
    handle_message-remove_session takes ignore node 0 (message_to 2 5) refl (λ e. omega (arith, e))

-- The first number is 0, the second is given.
abbrev reserving : Conn
reserving = record node { itei_map = (1, none) ∷ [] }

reserve_then_handle :
    handle_message takes ignore reserving peer (message_to 2 1) ≡ (reserving, panic)
unfolding new_sender_fteid try_teids add_bearer
reserve_then_handle =
    handle_message-new_sender_fteid takes ignore counting node reserving peer (message_to 2 1) refl
      refl
