-- ===== src/Message.antt =====
-- The message packages gtpv0/message, gtpv1/message and gtpv2/message. Their messages are written
-- alike: a header, a field for each element, and five functions that go through the fields. A
-- message's own part of this is its layout: the cases of the switch in its constructor and in
-- UnmarshalBinary, and the fields in the order of MarshalTo and of MarshalLen. What the functions do
-- with a layout is here. A field is named as in the source; a nil field is an empty list, a pointer
-- a list of one element, and a slice the list of its elements, none of which is nil.
pub mod Collect
pub mod Write
pub mod Marshal
pub mod Stable
pub mod RoundTrip
pub mod Sound
pub mod Room
pub mod Loss
use Prim.Native.String.{String}
use text.Mathlib.Text.{◌==◌ as text_eq}
use go_gtp.Common.{
  ℕ, ◌+◌, ◌-◌, ◌%◌, ◌^◌, Bool, true, false, ◌&&◌, List, [], ◌∷◌, ◌++◌, ltb, ◌==◌, if◌then◌else◌,
  length,
}
use go_gtp.Common.Outcome.{Outcome, Error, ok, err, panic, stuck, ◌>>=◌, too_short_to_marshal}
use go_gtp.Common.Bytes.{Bytes, make, from, put}

-- What a case does with an element `i`: `m.F = i`, `m.F = append(m.F, i)`, nothing, or one of two
-- by `if m.F == nil`.
pub data Action : Type 0 where
  set : String → Action
  append : String → Action
  drop : Action
  if_nil : String → Action → Action → Action

-- A case on the type: an action, or a switch on the instance with its default.
pub data Choice : Type 0 where
  always : Action → Choice
  by_instance : List (ℕ × Action) → Action → Choice

-- `switch i.Type`, with its default.
pub record Rules : Type 0 where
  pub cases : List (ℕ × Choice)
  pub otherwise : Action

-- A field that MarshalTo writes. In one place of the code the offset is not moved behind it.
pub data Item : Type 0 where
  write : String → Item
  write_in_place : String → Item

-- A field behind the embedded header: `*ie.IE` or `[]*ie.IE`.
pub data FieldType : Type 0 where
  pointer : FieldType
  slice : FieldType

-- `checks`: MarshalTo checks the length of the buffer. `resets`: it drops an old payload before it
-- computes the length of the new one.
pub record Layout : Type 0 where
  pub struct : List (String × FieldType)
  pub new_rules : Rules
  pub checks : Bool
  pub resets : Bool
  pub items : List Item
  pub least : ℕ
  pub parse_rules : Rules
  pub counts : List String

-- What a version's ie package and its header provide. `base` is what SetLength takes off.
pub record Protocol : Type 1 where
  pub Ie : Type 0
  pub type_of : Ie → ℕ
  pub instance_of : Ie → ℕ
  pub element_len : Ie → ℕ
  pub element_to : Ie → Bytes → Outcome Bytes
  pub parse_elements : Bytes → Outcome (List Ie)
  pub Header : Type 0
  pub payload_of : Header → Bytes
  pub with_payload : Bytes → Header → Header
  pub with_size : ℕ → Header → Header
  pub header_len : Header → ℕ
  pub header_to : Header → Bytes → Outcome Bytes
  pub parse_header : Bytes → Outcome Header
  pub header_set_length : Header → Header
  pub base : ℕ

abbrev pub slices : List (String × FieldType) → List String
slices [] = []
slices ((f, pointer) ∷ fs) = slices fs
slices ((f, slice) ∷ fs) = f ∷ slices fs

abbrev pub choose_instance : List (ℕ × Action) → Action → ℕ → Action
choose_instance [] d n = d
choose_instance ((k, a) ∷ cs) d n = if k == n then a else choose_instance cs d n

abbrev pub decide_choice : Choice → ℕ → Action
decide_choice (always a) n = a
decide_choice (by_instance cs d) n = choose_instance cs d n

abbrev pub choose_case : List (ℕ × Choice) → Action → ℕ → ℕ → Action
choose_case [] d t n = d
choose_case ((k, c) ∷ cs) d t n = if k == t then decide_choice c n else choose_case cs d t n

-- The action for an element of a type and an instance.
abbrev pub choose : Rules → ℕ → ℕ → Action
choose r t n = choose_case r.cases r.otherwise t n

module _ (p : Protocol) where
  abbrev pub Fields : Type 0
  Fields = String → List p.Ie

  abbrev pub blank : Fields
  blank f = []

  abbrev pub assign : String → List p.Ie → Fields → Fields
  assign f xs s g = if text_eq f g then xs else s g

  abbrev pub is_nil : List p.Ie → Bool
  is_nil [] = true
  is_nil (x ∷ xs) = false

  abbrev pub run : Action → p.Ie → Fields → Fields
  run (set f) i s = assign f (i ∷ []) s
  run (append f) i s = assign f (s f ++ (i ∷ [])) s
  run drop i s = s
  run (if_nil f a b) i s =
      let filled = run b i s in let empty = run a i s in if is_nil (s f) then empty else filled

  -- The loop over the elements, from the front.
  unfoldable pub collect : Rules → List p.Ie → Fields → Fields
  collect r [] s = s
  collect r (i ∷ is) s = collect r is (run (choose r (p.type_of i) (p.instance_of i)) i s)

  pub record Message : Type 0 where
    pub header : p.Header
    pub fields : Fields

  abbrev pub elements_len : List p.Ie → ℕ
  elements_len [] = 0
  elements_len (i ∷ is) = p.element_len i + elements_len is

  abbrev pub fields_len : List String → Fields → ℕ
  fields_len [] s = 0
  fields_len (f ∷ fs) s = elements_len (s f) + fields_len fs s

  -- `MarshalLen`
  unfoldable pub marshal_len : Layout → Message → ℕ
  marshal_len l m =
      p.header_len m.header - length (p.payload_of m.header) + fields_len l.counts m.fields

  -- `SetLength`
  unfoldable pub set_length : Layout → Message → Message
  unfolding marshal_len
  set_length l m = record m { header = p.with_size ((marshal_len l m - p.base) % 2 ^ 16) m.header }

  -- The constructor, with the header that it makes.
  unfoldable pub new : Layout → p.Header → List p.Ie → Message
  unfolding set_length collect
  new l h is = set_length l (record { header = h; fields = collect l.new_rules is blank })

  -- `ie.MarshalTo(m.Payload[offset:])`, and the offset behind it, for the elements of a field.
  unfoldable pub write_elements : List p.Ie → ℕ → Bytes → Outcome (ℕ × Bytes)
  write_elements [] offset b = ok (offset, b)
  write_elements (i ∷ is) offset b = do
    sub ← from b offset
    written ← p.element_to i sub
    b' ← put b offset written
    write_elements is (offset + p.element_len i) b'

  unfoldable pub write_items : List Item → Fields → ℕ → Bytes → Outcome Bytes
  unfolding write_elements
  write_items [] s offset b = ok b
  write_items (write f ∷ is) s offset b = do
    w ← write_elements (s f) offset b
    write_items is s w.0 w.1
  write_items (write_in_place f ∷ is) s offset b = do
    w ← write_elements (s f) offset b
    write_items is s offset w.1

  -- The message as MarshalTo makes its payload: with none, or with the one it had.
  abbrev pub cleared : Layout → Message → Message
  cleared l m = if l.resets then record m { header = p.with_payload [] m.header } else m

  -- `MarshalTo`, which leaves the payload in the message; the buffer is the second result. A
  -- negative length of the payload panics.
  abbrev pub fill : Layout → Message → Bytes → Outcome (Message × Bytes)
  fill l m b =
      let size = p.header_len m.header in
      let payload = write_items l.items m.fields 0 (make (marshal_len l m - size)) in
      if ltb (marshal_len l m) size then panic else (do
        q ← payload
        let h = p.header_set_length (p.with_payload q m.header)
        b' ← p.header_to h b
        ok (record m { header = h }, b'))

  unfoldable pub marshal_to : Layout → Message → Bytes → Outcome (Message × Bytes)
  unfolding marshal_len write_items
  marshal_to l m b =
      if l.checks && ltb (length b) (marshal_len l m)
      then err too_short_to_marshal
      else fill l (cleared l m) b

  -- `Marshal`: the octets. The message that it leaves is the first result of `marshal_to`.
  unfoldable pub marshal : Layout → Message → Outcome Bytes
  unfolding marshal_to
  marshal l m = marshal_to l m (make (marshal_len l m)) >>= λ r. ok r.1

  -- `UnmarshalBinary` on a zero message.
  unfoldable pub parse : Layout → Bytes → Outcome Message
  unfolding collect
  parse l b = do
    h ← p.parse_header b
    let read = do
      is ← p.parse_elements (p.payload_of h)
      ok (record { header = h; fields = collect l.parse_rules is blank })
    if ltb (length (p.payload_of h)) l.least
        then ok (record { header = h; fields = blank })
        else read
