-- ===== src/Gtpv2/Conn/Handle/Teids.antt =====
-- What a Conn does with a message that comes in, by what has been done with its TEID (gtpv2/conn.go).
use go_gtp.Common.{
  ℕ, ◌≡◌, ◌≢◌, refl, ap, subst, ◌∙◌, Bool, true, false, Option, none, some, ◌==◌, ==_iff, ==_ne,
  if◌then◌else◌, Bool-cases, inl, inr,
}
use go_gtp.Common.Outcome.{Outcome, Error, ok, err, panic, invalid_teid}
use go_gtp.Common.Maps.{
  Str, str_eq, store, number_key, delete, str_key, load-store_self, load-delete_self,
}
use go_gtp.Gtpv2.Session.{Message, get_teid}
use go_gtp.Gtpv2.Conn.{
  Conn, Handler, user, add_handler, register_session, remove_session, new_sender_fteid,
  get_session_by_teid,
}
use go_gtp.Gtpv2.Conn.Registry.{
  IsReserved, get_session_by_teid-register_session, get_teid-register_session,
  new_sender_fteid-IsReserved,
}
use go_gtp.Gtpv2.Conn.Handle.{known_teid, validate, handle, dispatch, if_valid, handle_message}

-- What RemoveSession leaves of a Conn, for a session with a TEID.
abbrev without_session : Conn → ℕ → ℕ → Conn
without_session c t r = record c {
  imsi_map = delete str_key c.imsi_map ((c.heap r).subscriber).imsi;
  itei_map = delete number_key c.itei_map t;
}

remove_session-without :
    (c : Conn) (t r : ℕ)
    → get_teid (c.heap r) c.local_if_type ≡ ok t
    → remove_session c r ≡ ok (without_session c t r)
unfolding remove_session
remove_session-without c t r h = rw h refl

get_session_by_teid-without :
    (c : Conn) (t r : ℕ) (addr : Str)
    → get_session_by_teid (without_session c t r) t addr ≡ err invalid_teid
unfolding get_session_by_teid
get_session_by_teid-without c t r addr = rw (load-delete_self number_key c.itei_map t) refl

found :
    (c : Conn) (t r : ℕ) (addr : Str)
    → get_session_by_teid (register_session c t r) t addr
      ≡ (if str_eq addr (c.heap r).peer_addr then ok r else err invalid_teid)
found c t r addr =
    let e = get_session_by_teid-register_session c t t r addr in rw ((==_iff t t).1 refl) at e

get_session_by_teid-reserved :
    (c : Conn) (t : ℕ) (addr : Str)
    → get_session_by_teid (record c { itei_map = store number_key c.itei_map t none }) t addr
      ≡ panic
unfolding get_session_by_teid
get_session_by_teid-reserved c t addr = rw (load-store_self number_key c.itei_map t none) refl

module _ (deliver : Message → Str → Option Error)
    (run_user : ℕ → Conn → Str → Message → Conn × Outcome Bool) where
  -- With the validation on, a TEID that is not 0 is looked up.
  looked_up :
      (c : Conn) (addr : Str) (m : Message)
      → c.validation_enabled ≡ true
      → m.teid ≢ 0
      → handle_message deliver run_user c addr m
        ≡ if_valid deliver run_user
            (c, known_teid deliver (get_session_by_teid c m.teid addr))
            addr
            m
  unfolding handle_message validate
  looked_up c addr m on ne = let z : (m.teid == 0) ≡ false = ==_ne m.teid 0 ne in rw (on, z) refl

  -- With the validation on, and after AddHandler for a type and RegisterSession under a TEID that is
  -- not 0, a message of this type with this TEID runs the handler that was added, if it comes from
  -- the peer of the session; from any other address it changes nothing and ends with an error.
  pub handle_message-register_session :
      (c : Conn) (f r : ℕ) (addr : Str) (m : Message)
      → c.validation_enabled ≡ true
      → m.teid ≢ 0
      → let d = register_session (add_handler c m.kind (user f)) m.teid r in
        handle_message deliver run_user d addr m
        ≡ (if str_eq addr (c.heap r).peer_addr then run_user f d addr m else (d, err invalid_teid))
  unfolding register_session add_handler handle
  handle_message-register_session c f r addr m on ne =
      let b = add_handler c m.kind (user f) in
      let d = register_session b m.teid r in
      looked_up d addr m on ne
      ∙ ap (λ (o : Outcome ℕ). if_valid deliver run_user (d, known_teid deliver o) addr m)
          (found b m.teid r addr)
      ∙ elim (Bool-cases (str_eq addr (c.heap r).peer_addr)) [
        | inl e ↦ rw e (
            ap (λ (h : Option Handler). dispatch deliver run_user h d addr m)
              (load-store_self number_key c.handlers m.kind (user f)))
        | inr e ↦ rw e refl
      ]

  -- With the validation on, and after RegisterSession under a TEID that is not 0 and RemoveSession,
  -- which succeeds, a message with this TEID from any address changes nothing and ends with an
  -- error.
  pub handle_message-remove_session :
      (c : Conn) (r : ℕ) (m : Message)
      → c.validation_enabled ≡ true
      → m.teid ≢ 0
      → (d : Conn) × (remove_session (register_session c m.teid r) r ≡ ok d)
        × ((addr : Str) → handle_message deliver run_user d addr m ≡ (d, err invalid_teid))
  unfolding register_session
  handle_message-remove_session c r m on ne =
      let b = register_session c m.teid r in
      let d = without_session b m.teid r in
      (
        d,
        remove_session-without b m.teid r (get_teid-register_session c m.teid r),
        λ addr.
            looked_up d addr m on ne
            ∙ ap (λ (o : Outcome ℕ). if_valid deliver run_user (d, known_teid deliver o) addr m)
                (get_session_by_teid-without b m.teid r addr),
      )

  -- With the validation on, and after NewSenderFTEID has given a TEID, a message with this TEID
  -- from any address makes the validation dereference nil: it panics.
  pub handle_message-new_sender_fteid :
      (random : ℕ → ℕ) (c d : Conn) (addr : Str) (m : Message)
      → c.validation_enabled ≡ true
      → new_sender_fteid random c ≡ (d, some m.teid)
      → handle_message deliver run_user d addr m ≡ (d, panic)
  handle_message-new_sender_fteid random c d addr m on e =
      let (nz, free, made) = subst (IsReserved c) e (new_sender_fteid-IsReserved random c) in
      let b = record c { itei_map = store number_key c.itei_map m.teid none } in
      rw made (
        looked_up b addr m on (λ z. let t = (==_iff m.teid 0).1 z in cc)
        ∙ ap (λ (o : Outcome ℕ). if_valid deliver run_user (b, known_teid deliver o) addr m)
            (get_session_by_teid-reserved c m.teid addr))
