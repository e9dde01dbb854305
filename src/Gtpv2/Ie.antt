-- ===== src/Gtpv2/Ie.antt =====
-- gtpv2/ie/ie.go: the information element, its encoder and its decoder.
-- A child is a value and not a pointer: a nil child, at which the code panics, does not occur.
pub mod Types
pub mod Wire
pub mod Encode
pub mod Decode
pub mod RoundTrip
pub mod Group
pub mod Values
use go_gtp.Common.{
  ℕ, zero, suc, ◌+◌, ◌-◌, ◌*◌, ◌/◌, ◌%◌, ◌^◌, bit_and, Bool, true, false, List, [], ◌∷◌, ◌++◌, ltb,
  leb, ◌==◌, if◌then◌else◌, length,
}
use go_gtp.Common.Outcome.{
  Outcome, ok, err, panic, stuck, ◌>>=◌, guard, unexpected_eof, invalid_length,
}
use go_gtp.Common.Bytes.{Bytes, make, index, from, slice, put, copy_at}
use go_gtp.Common.Endian.{be16, be32, uint16_at}

-- `Type`, `Length`, `instance`, `Payload` and `ChildIEs`.
mutual
  pub data Ie : Type 0 where
    ie : ℕ → ℕ → ℕ → Bytes → Ies → Ie

  pub data Ies : Type 0 where
    nil : Ies
    cons : Ie → Ies → Ies

abbrev pub type_of : Ie → ℕ
type_of (ie t l n p cs) = t

abbrev pub length_of : Ie → ℕ
length_of (ie t l n p cs) = l

abbrev pub payload : Ie → Bytes
payload (ie t l n p cs) = p

abbrev pub children : Ie → Ies
children (ie t l n p cs) = cs

abbrev pub with_length : ℕ → Ie → Ie
with_length l' (ie t l n p cs) = ie t l' n p cs

-- BearerContext, PDNConnection, OverloadControlInformation, LoadControlInformation,
-- RemoteUEContext, SCEFPDNConnection, V2XContext, PC5QoSParameters.
abbrev pub grouped : List ℕ
grouped = 93 ∷ 109 ∷ 180 ∷ 181 ∷ 191 ∷ 195 ∷ 208 ∷ 209 ∷ []

abbrev pub is_among : List ℕ → ℕ → Bool
is_among [] t = false
is_among (x ∷ xs) t = if t == x then true else is_among xs t

-- `IsGrouped`, which reads the type alone.
unfoldable pub is_grouped : ℕ → Bool
is_grouped t = is_among grouped t

unfoldable mutual
  pub marshal_len : Ie → ℕ
  marshal_len (ie t l n p cs) = if is_grouped t then 4 + marshal_lens cs else 4 + length p

  pub marshal_lens : Ies → ℕ
  marshal_lens nil = 0
  marshal_lens (cons c cs) = marshal_len c + marshal_lens cs

-- The second assignment overwrites the first, as in the code.
unfoldable pub set_length : Ie → Ie
set_length i =
    let j =
      if is_grouped (type_of i) then with_length (marshal_lens (children i) % 2 ^ 16) i else i in
    with_length (length (payload i) % 2 ^ 16) j

unfoldable pub new : ℕ → ℕ → Bytes → Ie
unfolding set_length
new itype ins data' = set_length (ie itype 0 (bit_and ins 0x0f) data' nil)

-- `newUint8ValIE`, `newUint16ValIE` and `newUint32ValIE`. The latter two write into the payload of
-- the new element.
unfoldable pub new_uint8_val : ℕ → ℕ → Ie
unfolding new
new_uint8_val t v = new t 0 (v ∷ [])

abbrev pub with_payload : Bytes → Ie → Ie
with_payload p (ie t l n p' cs) = ie t l n p cs

abbrev pub filled : Ie → Bytes → Outcome Ie
filled i v = do p ← put (payload i) 0 v; ok (with_payload p i)

unfoldable pub new_uint16_val : ℕ → ℕ → Outcome Ie
unfolding new put
new_uint16_val t v = filled (new t 0 (make 2)) (be16 v)

unfoldable pub new_uint32_val : ℕ → ℕ → Outcome Ie
unfolding new put
new_uint32_val t v = filled (new t 0 (make 4)) (be32 v)

unfoldable pub set_instance : ℕ → Ie → Ie
set_instance ins (ie t l n p cs) = ie t l (bit_and ins 0x0f) p cs

-- `Instance()`
unfoldable pub get_instance : Ie → ℕ
get_instance (ie t l n p cs) = bit_and n 0x0f

-- `MarshalTo` returns the buffer that it has written into. A child that does not fit is left out,
-- with those behind it, and no error is returned.
unfoldable mutual
  pub marshal_to : Ie → Bytes → Outcome Bytes
  marshal_to (ie t l n p cs) b = if ltb (length b) 4 then err unexpected_eof else do
    b1 ← put b 0 (t ∷ [])
    b2 ← put b1 1 (be16 l)
    b3 ← put b2 3 (n ∷ [])
    let own = marshal_len (ie t l n p cs)
    let flat = if ltb (length b) own then err unexpected_eof else copy_at b3 4 own p
    if is_grouped t then marshal_children cs 4 (length b) b3 else flat

  -- The loop over `ChildIEs`, with `offset` and `l`.
  pub marshal_children : Ies → ℕ → ℕ → Bytes → Outcome Bytes
  marshal_children nil offset l b = ok b
  marshal_children (cons c cs) offset l b = if ltb l (offset + marshal_len c) then ok b else do
    sub ← slice b offset (offset + marshal_len c)
    written ← marshal_to c sub
    b' ← put b offset written
    marshal_children cs (offset + marshal_len c) l b'

unfoldable pub marshal : Ie → Outcome Bytes
marshal i = marshal_to i (make (marshal_len i))

-- `UnmarshalBinary` on a zero IE, and the loop of `ParseMultiIEs`, on one fuel.
unfoldable mutual
  pub unmarshal : ℕ → Bytes → Outcome Ie
  unmarshal zero b = stuck
  unmarshal (suc fuel) b = if ltb (length b) 4 then err unexpected_eof else do
    t ← index b 0
    l ← uint16_at b 1
    n ← guard (leb l (length b - 4)) invalid_length (index b 3)
    p ← slice b 4 (4 + l)
    elim (is_grouped t) [
      | true ↦ do cs ← parse_multi fuel p; ok (ie t l n p cs)
      | false ↦ ok (ie t l n p nil)
    ]

  pub parse_multi : ℕ → Bytes → Outcome Ies
  parse_multi zero b = stuck
  parse_multi (suc fuel) [] = ok nil
  parse_multi (suc fuel) (x ∷ b) = do
    i ← unmarshal fuel (x ∷ b)
    rest ← from (x ∷ b) (marshal_len i)
    is ← parse_multi fuel rest
    ok (cons i is)

-- An element is at least four bytes long, so a fuel above the length is enough.
unfoldable pub parse : Bytes → Outcome Ie
parse b = unmarshal (length b + 1) b

unfoldable pub parse_multi_ies : Bytes → Outcome Ies
parse_multi_ies b = parse_multi (length b + 1) b
