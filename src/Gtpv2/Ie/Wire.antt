-- ===== src/Gtpv2/Ie/Wire.antt =====
-- The octets of an information element, and which elements are well formed.
use go_gtp.Common.{
  ◌/◌, ◌%◌, ◌^◌, ◌<◌, ◌≡◌, refl, Bool, true, false, [], ◌∷◌, ◌++◌, arith, length, length-append,
  All, if◌then◌else◌,
}
use go_gtp.Common.Bytes.{Bytes, IsByte}
use go_gtp.Gtpv2.Ie.{Ie, ie, Ies, nil, cons, is_grouped, marshal_len, marshal_lens}

-- Type, two octets of length, instance, then the payload or the children.
unfoldable mutual
  pub wire : Ie → Bytes
  wire (ie t l n p cs) = t ∷ l / 256 % 256 ∷ l % 256 ∷ n ∷ (if is_grouped t then wires cs else p)

  pub wires : Ies → Bytes
  wires nil = []
  wires (cons c cs) = wire c ++ wires cs

mutual
  unfolding wire marshal_len

  pub length-wire : (i : Ie) → length (wire i) ≡ marshal_len i
  length-wire (ie t l n p cs) = ground (arith, length-wires cs)

  pub length-wires : (cs : Ies) → length (wires cs) ≡ marshal_lens cs
  length-wires nil = refl
  length-wires (cons c cs) =
      omega (arith, length-append (wire c) (wires cs), length-wire c, length-wires cs)

-- A grouped element carries its children's octets as its payload, any other has no child.
abbrev pub IsBody : Bool → Bytes → Ies → Type 0 → Type 0
IsBody true p cs deep = (p ≡ wires cs) × deep
IsBody false p cs deep = cs ≡ nil

-- The fields fit their widths, and the length field counts the payload.
abbrev mutual
  pub IsWf : Ie → Type 0
  IsWf (ie t l n p cs) =
      (t < 256)
      × (l ≡ length p)
      × (l < 2 ^ 16)
      × (n < 256)
      × All IsByte p
      × IsBody (is_grouped t) p cs (AllWf cs)

  pub AllWf : Ies → Type 0
  AllWf nil = Unit {0}
  AllWf (cons c cs) = IsWf c × AllWf cs
