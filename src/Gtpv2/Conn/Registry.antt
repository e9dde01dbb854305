-- ===== src/Gtpv2/Conn/Registry.antt =====
-- The sessions of a Conn: registering, finding, removing them and reserving TEIDs (gtpv2/conn.go).
use go_gtp.Common.{
  ℕ, zero, suc, ◌+◌, ◌<◌, ◌≡◌, ◌≢◌, refl, sym, ap, subst, ◌∙◌, ◌⊎◌, true, false, Option, none, some,
  Option-cases, ◌==◌, ==_iff, ==_ne, if◌then◌else◌, Bool-cases, inl, inr, arith,
}
use go_gtp.Common.Outcome.{Outcome, ok, err, panic, stuck, ◌>>=◌, invalid_teid, unknown_imsi}
use go_gtp.Common.Maps.{
  Str, str_eq, str_eq_self, load, store, number_key, str_key, load-store, load-delete,
  load-delete_self,
}
use go_gtp.Gtpv2.Session.{Session, add_teid, get_teid}
use go_gtp.Gtpv2.Session.Laws.{get_teid-add_teid}
use go_gtp.Gtpv2.Conn.{
  Conn, update, register_session, check_peer, get_session_by_teid, known_imsi, get_session_by_imsi,
  remove_session, try_teids, new_sender_fteid,
}

-- A new TEID of a session does not change its peer or its IMSI.
peer_addr-update :
    (heap : ℕ → Session) (r q i t : ℕ)
    → (update heap r (add_teid (heap r) i t) q).peer_addr ≡ (heap q).peer_addr
unfolding add_teid
peer_addr-update heap r q i t = elim (Bool-cases (r == q)) [
  | inl e ↦ rw (e, (==_iff r q).0 e) refl
  | inr e ↦ rw e refl
]

check_peer-update :
    (heap : ℕ → Session) (r i t : ℕ) (peer : Str) (o : Option (Option ℕ))
    → check_peer (update heap r (add_teid (heap r) i t)) peer o ≡ check_peer heap peer o
check_peer-update heap r i t peer none = refl
check_peer-update heap r i t peer (some none) = refl
check_peer-update heap r i t peer (some (some q)) =
    ap (λ a. if str_eq peer a then ok q else err invalid_teid) (peer_addr-update heap r q i t)

-- After RegisterSession the session is found under its TEID by its peer and by no other node, and
-- what is found under the other TEIDs is as before.
pub get_session_by_teid-register_session :
    (c : Conn) (t u r : ℕ) (peer : Str)
    → get_session_by_teid (register_session c t r) u peer ≡ (
        if t == u
        then if str_eq peer (c.heap r).peer_addr then ok r else err invalid_teid
        else get_session_by_teid c u peer)
unfolding get_session_by_teid register_session
get_session_by_teid-register_session c t u r peer =
    check_peer-update c.heap r c.local_if_type t peer
      (load number_key (store number_key c.itei_map t (some r)) u)
    ∙ rw (load-store number_key c.itei_map t u (some r))
        (elim (Bool-cases (t == u)) [ inl e ↦ rw e refl | inr e ↦ rw e refl ])

-- The TEID and the IMSI are unknown, and what is found under the other TEIDs is as before.
abbrev pub IsForgotten : Conn → ℕ → Str → Outcome Conn → Type 0
IsForgotten c t imsi (ok d) =
    ((u : ℕ) (peer : Str)
      → get_session_by_teid d u peer
        ≡ (if t == u then err invalid_teid else get_session_by_teid c u peer))
    × (get_session_by_imsi d imsi ≡ err unknown_imsi)
IsForgotten c t imsi (err e) = ⊥
IsForgotten c t imsi panic = ⊥
IsForgotten c t imsi stuck = ⊥

-- RemoveSession of a session with a TEID of the local interface succeeds; then its TEID and its
-- IMSI are unknown, and what is found under the other TEIDs is as before.
pub remove_session_lem :
    (c : Conn) (t r : ℕ)
    → get_teid (c.heap r) c.local_if_type ≡ ok t
    → IsForgotten c t ((c.heap r).subscriber).imsi (remove_session c r)
unfolding remove_session get_session_by_imsi get_session_by_teid
remove_session_lem c t r h =
    rw (h, IsForgotten)
      (
        λ u peer.
            rw (load-delete number_key c.itei_map t u)
              (elim (Bool-cases (t == u)) [ inl e ↦ rw e refl | inr e ↦ rw e refl ]),
        ap known_imsi (load-delete_self str_key c.imsi_map ((c.heap r).subscriber).imsi),
      )

-- RegisterSession gives the session the TEID that RemoveSession looks for.
pub get_teid-register_session :
    (c : Conn) (t r : ℕ)
    → get_teid ((register_session c t r).heap r) (register_session c t r).local_if_type ≡ ok t
unfolding register_session
get_teid-register_session c t r =
    rw
      (
        (==_iff r r).1 refl,
        get_teid-add_teid (c.heap r) c.local_if_type c.local_if_type t,
        (==_iff c.local_if_type c.local_if_type).1 refl,
      )
      refl

-- What another TEID leads to stays after a removal.
found_after :
    (c : Conn) (t u r : ℕ) (imsi peer : Str) (o : Outcome Conn)
    → IsForgotten c t imsi o
    → (t == u) ≡ false
    → get_session_by_teid c u peer ≡ ok r
    → (o >>= λ d. get_session_by_teid d u peer) ≡ ok r
found_after c t u r imsi peer (ok d) (same, gone) ne h = rw (same u peer, ne) h
found_after c t u r imsi peer (err e) f ne h = absurd f
found_after c t u r imsi peer panic f ne h = absurd f
found_after c t u r imsi peer stuck f ne h = absurd f

-- A session that was registered under two TEIDs is still found under the first after RemoveSession.
pub get_session_by_teid-remove_session_stale :
    (c : Conn) (t u r : ℕ)
    → t ≢ u
    → (remove_session (register_session (register_session c t r) u r) r >>= λ d.
        get_session_by_teid d t (c.heap r).peer_addr)
      ≡ ok r
get_session_by_teid-remove_session_stale c t u r ne =
    let c1 = register_session c t r in
    let c2 = register_session c1 u r in
    let other = ==_ne u t (λ e. ne (sym e)) in
    found_after c2 u t r ((c2.heap r).subscriber).imsi (c.heap r).peer_addr (remove_session c2 r)
      (remove_session_lem c2 u r (get_teid-register_session c1 u r)) other
      (rw
        (
          get_session_by_teid-register_session c1 u t r (c.heap r).peer_addr,
          other,
          get_session_by_teid-register_session c t t r (c.heap r).peer_addr,
          (==_iff t t).1 refl,
          str_eq_self (c.heap r).peer_addr,
        )
        refl)

-- A number that is not 0 and was not taken, and is taken now; or the same Conn.
abbrev pub IsReserved : Conn → Conn × Option ℕ → Type 0
IsReserved c (d, none) = d ≡ c
IsReserved c (d, some t) =
    ((t == 0) ≡ false)
    × (load number_key c.itei_map t ≡ none)
    × (d ≡ record c { itei_map = store number_key c.itei_map t none })

abbrev pub Succeeds : Conn × Option ℕ → Type 0
Succeeds (d, none) = ⊥
Succeeds (d, some t) = Unit {0}

module _ (random : ℕ → ℕ) where
  -- One try with a number that cannot be used, and with one that can.
  try_teids-unusable :
      (left try : ℕ) (c : Conn) (v : Option ℕ)
      → ((random try == 0) ≡ true) ⊎ (load number_key c.itei_map (random try) ≡ some v)
      → try_teids random (suc left) try c ≡ try_teids random left (suc try) c
  unfolding try_teids
  try_teids-unusable left try c v (inl z) = rw z refl
  try_teids-unusable left try c v (inr taken) = elim (Bool-cases (random try == 0)) [
    | inl z ↦ rw z refl
    | inr nz ↦ rw (nz, taken) refl
  ]

  try_teids-usable :
      (left try : ℕ) (c : Conn)
      → (random try == 0) ≡ false
      → load number_key c.itei_map (random try) ≡ none
      → try_teids random (suc left) try c
        ≡ (record c { itei_map = store number_key c.itei_map (random try) none }, some (random try))
  unfolding try_teids
  try_teids-usable left try c nz free = rw (nz, free) refl

  try_teids-IsReserved : (left try : ℕ) (c : Conn) → IsReserved c (try_teids random left try c)
  unfolding try_teids
  try_teids-IsReserved zero try c = refl
  try_teids-IsReserved (suc left) try c = elim (Bool-cases (random try == 0)) [
    | inl z ↦
        subst (IsReserved c) (sym (try_teids-unusable left try c none (inl z)))
          (try_teids-IsReserved left (suc try) c)
    | inr nz ↦ elim (Option-cases (load number_key c.itei_map (random try))) [
      | inl free ↦ subst (IsReserved c) (sym (try_teids-usable left try c nz free)) (nz, free, refl)
      | inr (v, taken) ↦
          subst (IsReserved c) (sym (try_teids-unusable left try c v (inr taken)))
            (try_teids-IsReserved left (suc try) c)
    ]
  ]

  -- NewSenderFTEID gives a number that is not 0 and was not taken, and reserves it; without one the
  -- Conn is as it was.
  pub new_sender_fteid-IsReserved : (c : Conn) → IsReserved c (new_sender_fteid random c)
  unfolding new_sender_fteid
  new_sender_fteid-IsReserved c = try_teids-IsReserved 0xffff 0 c

  -- A usable number among the tries is enough.
  try_teids-Succeeds :
      (left try k : ℕ) (c : Conn)
      → k < left
      → (random (try + k) == 0) ≡ false
      → load number_key c.itei_map (random (try + k)) ≡ none
      → Succeeds (try_teids random left try c)
  try_teids-Succeeds zero try k c h nz free = absurd (omega arith)
  try_teids-Succeeds (suc left) try zero c h nz free =
      let e : try + 0 ≡ try = omega arith in
      subst Succeeds (sym (try_teids-usable left try c (rw e at nz) (rw e at free))) tt
  try_teids-Succeeds (suc left) try (suc k) c h nz free =
      let e : try + suc k ≡ suc try + k = omega arith in
      let rest = try_teids-Succeeds left (suc try) k c (omega arith) (rw e at nz) (rw e at free) in
      elim (Bool-cases (random try == 0)) [
        | inl z ↦ subst Succeeds (sym (try_teids-unusable left try c none (inl z))) rest
        | inr nz' ↦ elim (Option-cases (load number_key c.itei_map (random try))) [
          | inl free' ↦ subst Succeeds (sym (try_teids-usable left try c nz' free')) tt
          | inr (v, taken) ↦ subst Succeeds (sym (try_teids-unusable left try c v (inr taken))) rest
        ]
      ]

  -- NewSenderFTEID finds a TEID if one of the first 0xffff random numbers is not 0 and not taken.
  pub new_sender_fteid-Succeeds :
      (c : Conn) (k : ℕ)
      → k < 0xffff
      → (random k == 0) ≡ false
      → load number_key c.itei_map (random k) ≡ none
      → Succeeds (new_sender_fteid random c)
  unfolding new_sender_fteid
  new_sender_fteid-Succeeds c k h nz free =
      let e : 0 + k ≡ k = omega arith in try_teids-Succeeds 0xffff 0 k c h (rw e nz) (rw e free)
