-- ===== src/Gtpv1/Message/Again.antt =====
-- Marshalling a message of gtpv1/message that has its payload already, as one that was parsed or
-- marshalled has. Most of the messages do not drop the old payload in MarshalTo.
use Prim.Native.String.{String}
use go_gtp.Common.{
  ℕ, ◌+◌, ◌-◌, ◌≤◌, ◌<◌, Bool, true, false, if◌then◌else◌, ◌&&◌, List, [], ◌∷◌, map, ◌≡◌, refl, ap,
  ◌∙◌, length, length-replicate, ltb, lt→ltb, le→ltb, arith,
}
use go_gtp.Common.Outcome.{Outcome, ok, err, ◌>>=◌, too_short_to_marshal}
use go_gtp.Common.Bytes.{Bytes, make, from}
use go_gtp.Message.{
  Item, write, Layout, Message, Fields, elements_len, fields_len, write_elements, write_items,
  marshal_len, marshal_to, cleared, fill, marshal,
}
use go_gtp.Message.Write.{marshal_len_lem}
use go_gtp.Tlv.{Ie}
use go_gtp.Tlv
use go_gtp.Gtpv1.Ie.{tv_length_map}
use go_gtp.Gtpv1.Header
use go_gtp.Gtpv1.Message.{gtpv1}
use go_gtp.Gtpv1.Message.Laws.{laws, head_len}

one_octet : (i : Ie) → 1 ≤ Tlv.marshal_len tv_length_map i
one_octet i = ground arith

no_room : (i : Ie) → Tlv.marshal_to tv_length_map i [] ≡ err too_short_to_marshal
unfolding Tlv.marshal_to
no_room i = rw (lt→ltb 0 (Tlv.marshal_len tv_length_map i) (omega (arith, one_octet i))) refl

by_field :
    (xs : List Ie) (fs : List String) (s : Fields gtpv1)
    → 0 < elements_len gtpv1 xs + fields_len gtpv1 fs s
    → (0 < fields_len gtpv1 fs s
        → write_items gtpv1 (map write fs) s 0 [] ≡ err too_short_to_marshal)
    → (write_elements gtpv1 xs 0 [] >>= λ w. write_items gtpv1 (map write fs) s w.0 w.1)
      ≡ err too_short_to_marshal
unfolding write_elements from
by_field [] fs s h later = later (omega arith)
by_field (x ∷ xs) fs s h later = rw (no_room x) refl

-- Into an empty payload nothing can be written.
write_items-empty :
    (fs : List String) (s : Fields gtpv1)
    → 0 < fields_len gtpv1 fs s
    → write_items gtpv1 (map write fs) s 0 [] ≡ err too_short_to_marshal
unfolding write_items from
write_items-empty [] s h = absurd (omega arith)
write_items-empty (f ∷ fs) s h = by_field (s f) fs s h (write_items-empty fs s)

-- MarshalTo behind its check.
fill-again :
    (l : Layout) (m : Message gtpv1) (b : Bytes)
    → l.items ≡ map write l.counts
    → length m.header.payload ≡ fields_len gtpv1 l.counts m.fields
    → 0 < fields_len gtpv1 l.counts m.fields
    → fill gtpv1 l m b ≡ err too_short_to_marshal
unfolding marshal_len
fill-again l m b plain same some' =
    let n = marshal_len gtpv1 l m in
    let size = Header.marshal_len m.header in
    let total : n ≡ size = omega (arith, marshal_len_lem gtpv1 laws l m, head_len m.header) in
    let none' : n - size ≡ 0 = omega arith in
    let failed : write_items gtpv1 l.items m.fields 0 (make 0) ≡ err too_short_to_marshal =
      ap (λ (x : List Item). write_items gtpv1 x m.fields 0 []) plain
      ∙ write_items-empty l.counts m.fields some' in
    rw (le→ltb n size (omega arith), none', failed) refl

unchecked_again :
    (checks short : Bool) (x : Outcome (Message gtpv1 × Bytes))
    → short ≡ false
    → (if checks && short then err too_short_to_marshal else x) ≡ x
unchecked_again true short x e = rw e refl
unchecked_again false short x e = refl

-- Marshal fails with ErrTooShortToMarshal on a message whose payload is as long already as its
-- fields, if they are not empty, for every message that keeps its payload and writes the fields that
-- MarshalLen counts.
pub marshal-again :
    (l : Layout) (m : Message gtpv1)
    → l.items ≡ map write l.counts
    → l.resets ≡ false
    → length m.header.payload ≡ fields_len gtpv1 l.counts m.fields
    → 0 < fields_len gtpv1 l.counts m.fields
    → marshal gtpv1 l m ≡ err too_short_to_marshal
unfolding marshal marshal_to
marshal-again l m plain keeps same some' =
    let n = marshal_len gtpv1 l m in
    let still : cleared gtpv1 l m ≡ m =
      ap (λ (r : Bool). if r then record m { header = record m.header { payload = [] } } else m)
        keeps in
    ap (λ (o : Outcome (Message gtpv1 × Bytes)). o >>= λ r. ok r.1)
      (unchecked_again l.checks (ltb (length (make n)) n) _
          (le→ltb _ n (omega (arith, length-replicate {A = ℕ} n 0)))
        ∙ ap (λ (x : Message gtpv1). fill gtpv1 l x (make n)) still
        ∙ fill-again l m (make n) plain same some')
