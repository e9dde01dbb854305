-- ===== src/Gtpv2/Session.antt =====
-- gtpv2/session.go and gtpv2/bearer.go: a session with its TEIDs, its bearers and its message queue.
-- Each operation runs on its own, as under the mutex and the sync.Map of the code. An address is
-- what its String method returns, and a message is the part of it that the two files read. A full
-- queue stays full and an empty one stays empty until the timeout.
pub mod Laws
pub mod Steps
use go_gtp.Common.{
  ℕ, ◌+◌, ◌<◌, Bool, true, false, ◌||◌, Option, none, some, List, [], ◌∷◌, ◌++◌, ltb, ◌==◌,
  if◌then◌else◌, length, map,
}
use go_gtp.Common.Outcome.{
  Outcome, ok, err, required_parameter_missing, teid_not_found, bearer_not_found, timeout,
  invalid_sequence,
}
use go_gtp.Common.Maps.{Str, str_eq, load, store, delete, number_key, str_key}

pub record QosProfile : Type 0 where
  pub pci : Bool
  pub pvi : Bool
  pub pl : ℕ
  pub qci : ℕ
  pub mbr_ul : ℕ
  pub mbr_dl : ℕ
  pub gbr_ul : ℕ
  pub gbr_dl : ℕ

pub record Bearer : Type 0 where
  pub raddr : Str
  pub teid_in : ℕ
  pub teid_out : ℕ
  pub ebi : ℕ
  pub subscriber_ip : Str
  pub apn : Str
  pub charging_id : ℕ
  pub qos_profile : QosProfile

abbrev pub no_qos : QosProfile
no_qos = record {
  pci = false;
  pvi = false;
  pl = 0;
  qci = 0;
  mbr_ul = 0;
  mbr_dl = 0;
  gbr_ul = 0;
  gbr_dl = 0;
}

-- `NewBearer`
abbrev pub new_bearer : ℕ → Str → QosProfile → Bearer
new_bearer e name qos = record {
  raddr = [];
  teid_in = 0;
  teid_out = 0;
  ebi = e;
  subscriber_ip = [];
  apn = name;
  charging_id = 0;
  qos_profile = qos;
}

abbrev pub set_remote_address : Str → Bearer → Bearer
set_remote_address raddr b = record b { raddr = raddr }

abbrev pub set_incoming_teid : ℕ → Bearer → Bearer
set_incoming_teid teid b = record b { teid_in = teid }

abbrev pub set_outgoing_teid : ℕ → Bearer → Bearer
set_outgoing_teid teid b = record b { teid_out = teid }

-- The identities of `Subscriber`.
pub record Subscriber : Type 0 where
  pub imsi : Str
  pub msisdn : Str
  pub imei : Str

-- `MessageType`, `TEID` and `Sequence` of a message.
pub record Message : Type 0 where
  pub kind : ℕ
  pub teid : ℕ
  pub sequence : ℕ

pub record Session : Type 0 where
  pub active : Bool
  pub teid_map : List (ℕ × ℕ)
  pub bearer_map : List (Str × Bearer)
  pub msg_queue : List Message
  pub peer_addr : Str
  pub subscriber : Subscriber

-- "default"
abbrev pub default_name : Str
default_name = 100 ∷ 101 ∷ 102 ∷ 97 ∷ 117 ∷ 108 ∷ 116 ∷ []

abbrev pub new_session : Str → Subscriber → Session
new_session peer sub = record {
  active = false;
  teid_map = [];
  bearer_map = (default_name, new_bearer 0 [] no_qos) ∷ [];
  msg_queue = [];
  peer_addr = peer;
  subscriber = sub;
}

unfoldable pub activate : Session → Outcome Session
activate s =
    if str_eq (s.subscriber).imsi []
    then err required_parameter_missing
    else ok (record s { active = true })

unfoldable pub deactivate : Session → Session
deactivate s = record s { active = false }

abbrev pub is_active : Session → Bool
is_active s = s.active

abbrev pub update_peer_addr : Session → Str → Session
update_peer_addr s peer = record s { peer_addr = peer }

unfoldable pub add_teid : Session → ℕ → ℕ → Session
add_teid s if_type teid = record s { teid_map = store number_key s.teid_map if_type teid }

abbrev pub found {ℓ} : {A : Type ℓ} → Option A → Outcome A
found none = err bearer_not_found
found (some a) = ok a

abbrev pub found_teid : Option ℕ → Outcome ℕ
found_teid none = err teid_not_found
found_teid (some t) = ok t

unfoldable pub get_teid : Session → ℕ → Outcome ℕ
get_teid s if_type = found_teid (load number_key s.teid_map if_type)

-- `PassMessageTo`, into a channel of a thousand messages.
unfoldable pub pass_message_to : Session → Message → Outcome Session
pass_message_to s m =
    if ltb (length s.msg_queue) 1000
    then ok (record s { msg_queue = s.msg_queue ++ (m ∷ []) })
    else err timeout

-- `WaitMessage`, on the queue. A message with another sequence number has left it.
abbrev pub next_message : Session → ℕ → List Message → Session × Outcome Message
next_message s seq [] = (s, err timeout)
next_message s seq (m ∷ q) =
    (record s { msg_queue = q }, if m.sequence == seq then ok m else err invalid_sequence)

unfoldable pub wait_message : Session → ℕ → Session × Outcome Message
wait_message s seq = next_message s seq s.msg_queue

unfoldable pub add_bearer : Session → Str → Bearer → Session
add_bearer s name br = record s { bearer_map = store str_key s.bearer_map name br }

unfoldable pub remove_bearer : Session → Str → Session
remove_bearer s name = record s { bearer_map = delete str_key s.bearer_map name }

-- The first entry of a Range that passes the test.
abbrev pub range_find {ℓ κ} : {K : Type ℓ} {V : Type κ} → (V → Bool) → List (K × V) → Option (K × V)
range_find test [] = none
range_find test ((k, v) ∷ m) = if test v then some (k, v) else range_find test m

abbrev pub value_of {ℓ κ} : {K : Type ℓ} {V : Type κ} → Option (K × V) → Option V
value_of none = none
value_of (some e) = some e.1

-- An empty name stands for no name, as in the code.
abbrev pub name_of {κ} : {V : Type κ} → Option (Str × V) → Outcome Str
name_of none = err bearer_not_found
name_of (some e) = if str_eq e.0 [] then err bearer_not_found else ok e.0

unfoldable pub lookup_bearer_by_name : Session → Str → Outcome Bearer
lookup_bearer_by_name s name = found (load str_key s.bearer_map name)

unfoldable pub lookup_bearer_by_ebi : Session → ℕ → Outcome Bearer
lookup_bearer_by_ebi s e = found (value_of (range_find (λ b. e == b.ebi) s.bearer_map))

unfoldable pub lookup_bearer_name_by_ebi : Session → ℕ → Outcome Str
lookup_bearer_name_by_ebi s e = name_of (range_find (λ b. e == b.ebi) s.bearer_map)

abbrev pub removed_if_named : Session → Outcome Str → Session
removed_if_named s (ok name) = record s { bearer_map = delete str_key s.bearer_map name }
removed_if_named s _ = s

unfoldable pub remove_bearer_by_ebi : Session → ℕ → Session
unfolding lookup_bearer_name_by_ebi
remove_bearer_by_ebi s e = removed_if_named s (lookup_bearer_name_by_ebi s e)

-- Zero where there is none.
abbrev pub ebi_of : Option Bearer → ℕ
ebi_of none = 0
ebi_of (some b) = b.ebi

unfoldable pub lookup_ebi_by_name : Session → Str → ℕ
lookup_ebi_by_name s name = ebi_of (load str_key s.bearer_map name)

unfoldable pub lookup_ebi_by_teid : Session → ℕ → ℕ
lookup_ebi_by_teid s teid =
    ebi_of (value_of (range_find (λ b. (teid == b.teid_in) || (teid == b.teid_out)) s.bearer_map))

unfoldable pub get_default_bearer : Session → Option Bearer
get_default_bearer s = load str_key s.bearer_map default_name

unfoldable pub set_default_bearer : Session → Bearer → Session
set_default_bearer s br = record s { bearer_map = store str_key s.bearer_map default_name br }

unfoldable pub bearers : Session → List Bearer
bearers s = map (λ e. e.1) s.bearer_map

unfoldable pub bearer_count : Session → ℕ
bearer_count s = length s.bearer_map
