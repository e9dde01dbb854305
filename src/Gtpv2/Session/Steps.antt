-- ===== src/Gtpv2/Session/Steps.antt =====
-- The operations on a session as steps, and its message queue (gtpv2/session.go).
use go_gtp.Common.{
  ℕ, ◌+◌, ◌≤◌, ◌≡◌, refl, ap, subst, ◌∙◌, true, false, List, [], ◌∷◌, ◌++◌, ltb, ltb→lt, lt→ltb,
  ==_iff, map, append_assoc, append-nil, length, length-append, Bool-cases, inl, inr, arith,
}
use go_gtp.Common.Outcome.{Outcome, ok, err, panic, stuck, ok-injective, ◌>>=◌}
use go_gtp.Common.Maps.{Str, str_eq, number_key, str_key, Distinct, delete-Distinct, store-Distinct}
use go_gtp.Gtpv2.Session.{
  Session, Bearer, Message, Subscriber, new_session, activate, deactivate, add_teid,
  pass_message_to, next_message, wait_message, default_name, add_bearer, remove_bearer,
  removed_if_named, lookup_bearer_name_by_ebi, remove_bearer_by_ebi, set_default_bearer,
  update_peer_addr,
}

-- One operation on a session, where it returns without an error.
pub data Step : Session → Session → Type 0 where
  activated : {s t : Session} → activate s ≡ ok t → Step s t
  deactivated : (s : Session) → Step s (deactivate s)
  moved : (s : Session) (peer : Str) → Step s (update_peer_addr s peer)
  teid_added : (s : Session) (i t : ℕ) → Step s (add_teid s i t)
  passed : {s t : Session} (m : Message) → pass_message_to s m ≡ ok t → Step s t
  waited : (s : Session) (seq : ℕ) → Step s (wait_message s seq).0
  bearer_added : (s : Session) (name : Str) (br : Bearer) → Step s (add_bearer s name br)
  bearer_removed : (s : Session) (name : Str) → Step s (remove_bearer s name)
  ebi_removed : (s : Session) (e : ℕ) → Step s (remove_bearer_by_ebi s e)
  default_set : (s : Session) (br : Bearer) → Step s (set_default_bearer s br)

-- A session that NewSession and the operations lead to.
pub data Reachable : Session → Type 0 where
  created : (peer : Str) (sub : Subscriber) → Reachable (new_session peer sub)
  stepped : {s t : Session} → Reachable s → Step s t → Reachable t

-- No interface type has two TEIDs, no name has two bearers, the queue has a thousand places, and an
-- active session has an IMSI.
pub record IsValid (s : Session) : Type 0 where
  pub teids : Distinct number_key s.teid_map
  pub names : Distinct str_key s.bearer_map
  pub bounded : length s.msg_queue ≤ 1000
  pub named : s.active ≡ true → str_eq (s.subscriber).imsi [] ≡ false

activate-IsValid : (s t : Session) → activate s ≡ ok t → IsValid s → IsValid t
unfolding activate
activate-IsValid s t e v = elim (Bool-cases (str_eq (s.subscriber).imsi [])) [
  | inl none' ↦ let e' = rw none' at e in cc
  | inr some' ↦
      let e' = ok-injective (rw some' at e) in
      subst IsValid e'
        (record { teids = v.teids; names = v.names; bounded = v.bounded; named = λ _. some' })
]

pass-IsValid : (s t : Session) (m : Message) → pass_message_to s m ≡ ok t → IsValid s → IsValid t
unfolding pass_message_to
pass-IsValid s t m e v = elim (Bool-cases (ltb (length s.msg_queue) 1000)) [
  | inr full ↦ let e' = rw full at e in cc
  | inl room ↦
      let e' = ok-injective (rw room at e) in
      let lt = ltb→lt _ _ room in
      subst IsValid e' (record {
        teids = v.teids;
        names = v.names;
        named = v.named;
        bounded = omega (arith, length-append s.msg_queue (m ∷ []));
      })
]

next-IsValid :
    (s : Session) (seq : ℕ) (q : List Message)
    → length q ≤ 1000
    → IsValid s
    → IsValid (next_message s seq q).0
next-IsValid s seq [] b v = v
next-IsValid s seq (m ∷ q) b v = record {
  teids = v.teids;
  names = v.names;
  bounded = omega arith;
  named = v.named;
}

with_names :
    (s : Session) (m : List (Str × Bearer))
    → Distinct str_key m
    → IsValid s
    → IsValid (record s { bearer_map = m })
with_names s m d v = record { teids = v.teids; names = d; bounded = v.bounded; named = v.named }

-- Removing a bearer that was looked up, if it was found.
removed-IsValid : (s : Session) (o : Outcome Str) → IsValid s → IsValid (removed_if_named s o)
removed-IsValid s (ok name) v = with_names s _ (delete-Distinct str_key s.bearer_map name v.names) v
removed-IsValid s (err e) v = v
removed-IsValid s panic v = v
removed-IsValid s stuck v = v

-- Every operation keeps the invariant.
pub Step-IsValid : {s t : Session} → Step s t → IsValid s → IsValid t
unfolding deactivate add_teid wait_message add_bearer remove_bearer remove_bearer_by_ebi
    set_default_bearer
Step-IsValid (activated {s} {t} e) v = activate-IsValid s t e v
Step-IsValid (deactivated s) v = record {
  teids = v.teids;
  names = v.names;
  bounded = v.bounded;
  named = λ e. cc;
}
Step-IsValid (moved s peer) v = record {
  teids = v.teids;
  names = v.names;
  bounded = v.bounded;
  named = v.named;
}
Step-IsValid (teid_added s i t) v = record {
  teids = store-Distinct number_key s.teid_map i t v.teids;
  names = v.names;
  bounded = v.bounded;
  named = v.named;
}
Step-IsValid (passed {s} {t} m e) v = pass-IsValid s t m e v
Step-IsValid (waited s seq) v = next-IsValid s seq s.msg_queue v.bounded v
Step-IsValid (bearer_added s name br) v =
    with_names s _ (store-Distinct str_key s.bearer_map name br v.names) v
Step-IsValid (bearer_removed s name) v =
    with_names s _ (delete-Distinct str_key s.bearer_map name v.names) v
Step-IsValid (ebi_removed s e) v = removed-IsValid s (lookup_bearer_name_by_ebi s e) v
Step-IsValid (default_set s br) v =
    with_names s _ (store-Distinct str_key s.bearer_map default_name br v.names) v

-- In every session that NewSession and successful operations lead to, no interface type has two
-- TEIDs, no name has two bearers, the queue holds a thousand messages at most, and an active
-- session has an IMSI.
pub Reachable-IsValid : {s : Session} → Reachable s → IsValid s
Reachable-IsValid (created peer sub) = record {
  teids = tt;
  names = (refl, tt);
  bounded = omega arith;
  named = λ e. cc;
}
Reachable-IsValid (stepped r st) = Step-IsValid st (Reachable-IsValid r)

-- Waiting as often as messages stand in the queue, each time for the sequence number of the first.
abbrev pub receive : Session → List Message → Session × List (Outcome Message)
receive s [] = (s, [])
receive s (m ∷ ms) =
    let (t, o) = wait_message s m.sequence in let (u, os) = receive t ms in (u, o ∷ os)

abbrev pub pass_all : Session → List Message → Outcome Session
pass_all s [] = ok s
pass_all s (m ∷ ms) = pass_message_to s m >>= λ t. pass_all t ms

pass_all-queue :
    (s : Session) (ms : List Message)
    → length s.msg_queue + length ms ≤ 1000
    → pass_all s ms ≡ ok (record s { msg_queue = s.msg_queue ++ ms })
unfolding pass_message_to
pass_all-queue s [] h = rw (append-nil s.msg_queue) refl
pass_all-queue s (m ∷ ms) h = rw (lt→ltb (length s.msg_queue) 1000 (omega arith)) (
    pass_all-queue (record s { msg_queue = s.msg_queue ++ (m ∷ []) }) ms
      (omega (arith, length-append s.msg_queue (m ∷ [])))
    ∙ rw (append_assoc s.msg_queue (m ∷ []) ms) refl)

receive-queue :
    (s : Session) (ms rest : List Message)
    → receive (record s { msg_queue = ms ++ rest }) ms ≡ (record s { msg_queue = rest }, map ok ms)
unfolding wait_message
receive-queue s [] rest = refl
receive-queue s (m ∷ ms) rest =
    rw ((==_iff m.sequence m.sequence).1 refl, receive-queue s ms rest) refl

-- A session with room for them takes messages, and whoever then waits for the sequence numbers of
-- all that stand in its queue gets them all, the oldest first.
pub receive-pass_all :
    (s : Session) (ms : List Message)
    → length s.msg_queue + length ms ≤ 1000
    → (pass_all s ms >>= λ t. ok (receive t (s.msg_queue ++ ms)))
      ≡ ok (record s { msg_queue = [] }, map ok (s.msg_queue ++ ms))
receive-pass_all s ms h =
    let q = s.msg_queue ++ ms in
    rw (pass_all-queue s ms h) (ap ok (rw (append-nil q) at (receive-queue s q [])))
