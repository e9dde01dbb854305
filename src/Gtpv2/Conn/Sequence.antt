-- ===== src/Gtpv2/Conn/Sequence.antt =====
-- The sequence numbers of the messages that a Conn sends (gtpv2/conn.go).
use go_gtp.Common.{
  ℕ, zero, suc, ◌+◌, ◌-◌, ◌%◌, ◌^◌, ◌<◌, ◌≡◌, refl, ◌∙◌, ◌⊎◌, Option, none, some, [], ◌∷◌, All,
  All-append, inl, inr, arith,
}
use go_gtp.Common.Outcome.{Error}
use go_gtp.Common.Maps.{Str}
use go_gtp.Gtpv2.Session.{Message}
use go_gtp.Gtpv2.Conn.{Conn, next_sequence, previous_sequence, inc_sequence, dec_sequence}
use go_gtp.Gtpv2.Conn.Handle.{send_message_to, after_send}

-- The numbers that a Conn holds: three octets, or the number that stepping back from 0 gives.
abbrev pub IsSequence : ℕ → Type 0
IsSequence s = (s < 2 ^ 24) ⊎ (s ≡ 2 ^ 32 - 1)

next_lem : (s : ℕ) → s < 2 ^ 24 → next_sequence s ≡ (s + 1) % 2 ^ 24
next_lem s h = ground arith

next_fits : (s : ℕ) → IsSequence s → next_sequence s < 2 ^ 24
next_fits s (inl h) = ground arith
next_fits s (inr e) = rw e (omega arith)

previous-IsSequence : (s : ℕ) → s < 2 ^ 24 → IsSequence (previous_sequence s)
previous-IsSequence zero h = inr refl
previous-IsSequence (suc s) h = inl (omega arith)

next_previous : (s : ℕ) → s < 2 ^ 24 → next_sequence (previous_sequence s) ≡ s
next_previous s h = ground arith

-- As many steps of IncSequence.
abbrev pub advance : ℕ → Conn → Conn
advance zero c = c
advance (suc n) c = advance n (inc_sequence c)

-- From a number of three octets, n calls of IncSequence lead to the number n further, modulo 2 ^ 24.
pub sequence-advance :
    (n : ℕ) (c : Conn) → c.sequence < 2 ^ 24 → (advance n c).sequence ≡ (c.sequence + n) % 2 ^ 24
unfolding inc_sequence
sequence-advance zero c h = omega arith
sequence-advance (suc n) c h =
    let e = next_lem c.sequence h in sequence-advance n (inc_sequence c) (omega arith) ∙ omega arith

-- The packet's number has three octets.
abbrev pub Fits : Str × Message → Type 0
Fits p = (p.1).sequence < 2 ^ 24

module _ (deliver : Message → Str → Option Error) where
  after_send-Fits :
      (c : Conn) (m : Message) (addr : Str) (o : Option Error)
      → c.sequence < 2 ^ 24
      → m.sequence < 2 ^ 24
      → All Fits c.sent
      → IsSequence ((after_send deliver c m addr o).0).sequence
        × All Fits ((after_send deliver c m addr o).0).sent
  unfolding dec_sequence
  after_send-Fits c m addr none h hm a =
      (inl h, All-append Fits c.sent ((addr, m) ∷ []) (a, (hm, tt)))
  after_send-Fits c m addr (some e) h hm a = (previous-IsSequence c.sequence h, a)

  -- If the number of a Conn has three octets or is the one before zero, and the numbers of all
  -- packets that the socket took have three octets, then both hold after SendMessageTo, whether it
  -- succeeds or not.
  pub send_message_to-Fits :
      (c : Conn) (m : Message) (addr : Str)
      → IsSequence c.sequence
      → All Fits c.sent
      → IsSequence ((send_message_to deliver c m addr).0).sequence
        × All Fits ((send_message_to deliver c m addr).0).sent
  unfolding send_message_to inc_sequence
  send_message_to-Fits c m addr h a =
      let n = next_fits c.sequence h in
      let m' = record m { sequence = next_sequence c.sequence } in
      after_send-Fits (inc_sequence c) m' addr (deliver m' addr) n n a

  -- If the number of a Conn has three octets or is the one before zero, a message that could not
  -- be sent does not use up a number: the next one gets the same.
  pub inc_sequence-send_message_to :
      (c : Conn) (m : Message) (addr : Str) (e : Error)
      → IsSequence c.sequence
      → deliver (record m { sequence = (inc_sequence c).sequence }) addr ≡ some e
      → (inc_sequence (send_message_to deliver c m addr).0).sequence ≡ (inc_sequence c).sequence
  unfolding send_message_to inc_sequence dec_sequence
  inc_sequence-send_message_to c m addr e h failed =
      rw failed (next_previous (next_sequence c.sequence) (next_fits c.sequence h))
