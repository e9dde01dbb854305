-- ===== src/Gtpv2/Conn.antt =====
-- gtpv2/conn.go: the endpoint with its session maps and its sequence number. Sessions are shared by
-- pointer, so a map holds a reference and `heap` the session that it points to. Each operation runs
-- on its own, as under the mutex and the sync.Map of the code.
pub mod Handle
pub mod Sequence
pub mod Registry
use go_gtp.Common.{
  ℕ, zero, suc, ◌+◌, ◌-◌, ◌%◌, ◌^◌, Bool, true, false, Option, none, some, List, [], ◌∷◌, ◌++◌, ltb,
  ◌==◌, if◌then◌else◌, map,
}
use go_gtp.Common.Outcome.{Outcome, ok, err, panic, stuck, ◌>>=◌, fmap, invalid_teid, unknown_imsi}
use go_gtp.Common.Maps.{Str, str_eq, load, store, delete, number_key, str_key}
use go_gtp.Gtpv2.Session.{Session, Message, is_active, add_teid, get_teid, bearer_count}

-- A handler: one of the three of handlers.go, or one that a user registers.
pub data Handler : Type 0 where
  handle_echo_request : Handler
  handle_echo_response : Handler
  handle_version_not_supported_indication : Handler
  user : ℕ → Handler

-- `sent` keeps the packets that the socket has taken. The teid map holds nil for a TEID that is
-- reserved.
pub record Conn : Type 0 where
  pub heap : ℕ → Session
  pub imsi_map : List (Str × ℕ)
  pub itei_map : List (ℕ × Option ℕ)
  pub local_if_type : ℕ
  pub validation_enabled : Bool
  pub handlers : List (ℕ × Handler)
  pub sequence : ℕ
  pub restart_counter : ℕ
  pub sent : List (Str × Message)

-- `newDefaultMsgHandlerMap`, for the message types 1, 2 and 3.
abbrev pub default_handlers : List (ℕ × Handler)
default_handlers =
    (1, handle_echo_request)
    ∷ (2, handle_echo_response)
    ∷ (3, handle_version_not_supported_indication)
    ∷ []

-- `NewConn`. The heap holds the sessions that exist outside of the Conn.
abbrev pub new_conn : (ℕ → Session) → ℕ → ℕ → Conn
new_conn sessions if_type counter = record {
  heap = sessions;
  imsi_map = [];
  itei_map = [];
  local_if_type = if_type;
  validation_enabled = true;
  handlers = default_handlers;
  sequence = 0;
  restart_counter = counter;
  sent = [];
}

unfoldable pub add_handler : Conn → ℕ → Handler → Conn
add_handler c kind h = record c { handlers = store number_key c.handlers kind h }

unfoldable pub set_validation : Conn → Bool → Conn
set_validation c on = record c { validation_enabled = on }

-- The number wraps at 24 bits, and its store at 32.
abbrev pub next_sequence : ℕ → ℕ
next_sequence s = let n = (s + 1) % 2 ^ 32 in if ltb 0xffffff n then 0 else n

abbrev pub previous_sequence : ℕ → ℕ
previous_sequence s = (s + (2 ^ 32 - 1)) % 2 ^ 32

unfoldable pub inc_sequence : Conn → Conn
inc_sequence c = record c { sequence = next_sequence c.sequence }

unfoldable pub dec_sequence : Conn → Conn
dec_sequence c = record c { sequence = previous_sequence c.sequence }

abbrev pub update : (ℕ → Session) → ℕ → Session → ℕ → Session
update heap r s q = if r == q then s else heap q

unfoldable pub register_session : Conn → ℕ → ℕ → Conn
register_session c itei r = record c {
  itei_map = store number_key c.itei_map itei (some r);
  imsi_map = store str_key c.imsi_map (((c.heap r).subscriber).imsi) r;
  heap = update c.heap r (add_teid (c.heap r) c.local_if_type itei);
}

-- The entry is absent, reserved (nil, which the code dereferences), or a session, whose peer has to
-- be the sender.
abbrev pub check_peer : (ℕ → Session) → Str → Option (Option ℕ) → Outcome ℕ
check_peer heap peer none = err invalid_teid
check_peer heap peer (some none) = panic
check_peer heap peer (some (some r)) =
    if str_eq peer (heap r).peer_addr then ok r else err invalid_teid

unfoldable pub get_session_by_teid : Conn → ℕ → Str → Outcome ℕ
get_session_by_teid c teid peer = check_peer c.heap peer (load number_key c.itei_map teid)

abbrev pub known_imsi : Option ℕ → Outcome ℕ
known_imsi none = err unknown_imsi
known_imsi (some r) = ok r

unfoldable pub get_session_by_imsi : Conn → Str → Outcome ℕ
get_session_by_imsi c imsi = known_imsi (load str_key c.imsi_map imsi)

unfoldable pub get_imsi_by_teid : Conn → ℕ → Str → Outcome Str
unfolding get_session_by_teid
get_imsi_by_teid c teid peer =
    fmap (λ r. ((c.heap r).subscriber).imsi) (get_session_by_teid c teid peer)

-- The Range of `RemoveSession`, which deletes what belongs to the IMSI. It dereferences nil at a
-- reserved TEID.
abbrev pub purge : (ℕ → Session) → Str → List (ℕ × Option ℕ) → Outcome (List (ℕ × Option ℕ))
purge heap imsi [] = ok []
purge heap imsi ((t, none) ∷ m) = panic
purge heap imsi ((t, some r) ∷ m) =
    fmap (λ m'. if str_eq ((heap r).subscriber).imsi imsi then m' else ((t, some r) ∷ m'))
      (purge heap imsi m)

-- What `RemoveSession` does to the TEID map, with what `GetTEID` has returned.
abbrev pub forget_teid : Conn → Str → Outcome ℕ → Outcome Conn
forget_teid c imsi (ok itei) = ok (record c { itei_map = delete number_key c.itei_map itei })
forget_teid c imsi (err e) = fmap (λ m. record c { itei_map = m }) (purge c.heap imsi c.itei_map)
forget_teid c imsi panic = panic
forget_teid c imsi stuck = stuck

unfoldable pub remove_session : Conn → ℕ → Outcome Conn
unfolding get_teid
remove_session c r =
    let s = c.heap r in
    let imsi = (s.subscriber).imsi in
    forget_teid (record c { imsi_map = delete str_key c.imsi_map imsi }) imsi
      (get_teid s c.local_if_type)

abbrev pub remove_if_known : Conn → Option ℕ → Outcome Conn
remove_if_known c none = ok c
remove_if_known c (some r) = remove_session c r

unfoldable pub remove_session_by_imsi : Conn → Str → Outcome Conn
unfolding remove_session
remove_session_by_imsi c imsi = remove_if_known c (load str_key c.imsi_map imsi)

-- `tryStore` of nil: nothing if the TEID is taken.
abbrev pub try_reserve : Conn → ℕ → Option Conn
try_reserve c t = elim (load number_key c.itei_map t) [
  | none ↦ some (record c { itei_map = store number_key c.itei_map t none })
  | some taken ↦ none
]

-- The loop of `NewSenderFTEID` over the random numbers of the tries. It gives the TEID and leaves
-- the IE around it to the ie package.
module _ (random : ℕ → ℕ) where
  unfoldable pub try_teids : ℕ → ℕ → Conn → Conn × Option ℕ
  try_teids zero try c = (c, none)
  try_teids (suc left) try c =
      let t = random try in
      let rest = try_teids left (suc try) c in
      if t == 0 then rest else elim (try_reserve c t) [ none ↦ rest | some c' ↦ (c', some t) ]

  unfoldable pub new_sender_fteid : Conn → Conn × Option ℕ
  unfolding try_teids
  new_sender_fteid c = try_teids 0xffff 0 c

unfoldable pub sessions : Conn → List ℕ
sessions c = map (λ e. e.1) c.imsi_map

abbrev pub count_active : (ℕ → Session) → List (Str × ℕ) → ℕ
count_active heap [] = 0
count_active heap ((k, r) ∷ m) =
    if is_active (heap r) then 1 + count_active heap m else count_active heap m

unfoldable pub session_count : Conn → ℕ
session_count c = count_active c.heap c.imsi_map

abbrev pub sum_bearers : (ℕ → Session) → List (Str × ℕ) → ℕ
sum_bearers heap [] = 0
sum_bearers heap ((k, r) ∷ m) =
    if is_active (heap r) then bearer_count (heap r) + sum_bearers heap m else sum_bearers heap m

unfoldable pub all_bearer_count : Conn → ℕ
unfolding bearer_count
all_bearer_count c = sum_bearers c.heap c.imsi_map
