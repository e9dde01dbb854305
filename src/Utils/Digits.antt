-- ===== src/Utils/Digits.antt =====
-- The swapped digits of utils.go and back.
use go_gtp.Common.{
  ℕ, suc, ◌+◌, ◌-◌, ◌*◌, ◌/◌, ◌%◌, ◌<◌, ◌≡◌, refl, sym, ap, ◌∙◌, true, false, List, [], ◌∷◌, ◌++◌,
  map, length, length-append, All, All-append, ◌==◌, ==_iff, suc_ne_zero, arith, Bool-cases, inl,
  inr,
}
use go_gtp.Common.Outcome.{ok, ◌>>=◌}
use go_gtp.Common.Bytes.{Bytes, IsByte, slice_front}
use go_gtp.Common.Bits.{table, table-row}
use mathlib.Core.List.{map-append}
use go_gtp.Utils.Hex.{hex_digit, decode_string, encode_to_string, decode_digits}
use go_gtp.Utils.{swap_byte, swap, str_to_swapped_bytes, swapped_bytes_to_str, filler_f}

swap_byte-table : table 256 (λ x. swap_byte x == x / 16 + x % 16 * 16) ≡ true
unfolding table swap_byte
swap_byte-table = refl

-- An octet's two digits change places.
pub swap_byte-digits : (x : ℕ) → x < 256 → swap_byte x ≡ x / 16 + x % 16 * 16
swap_byte-digits x h = (==_iff _ _).0 (table-row _ 256 x h swap_byte-table)

swap_byte_twice : (x : ℕ) → x < 256 → swap_byte (swap_byte x) ≡ x
swap_byte_twice x h =
    rw (swap_byte-digits x h, swap_byte-digits (x / 16 + x % 16 * 16) (omega arith)) (omega arith)

pub swap_twice : (b : Bytes) → All IsByte b → swap (swap b) ≡ b
unfolding swap
swap_twice [] h = refl
swap_twice (x ∷ b) (hx, hb) = rw (swap_byte_twice x hx, swap_twice b hb)

length-swap : (b : Bytes) → length (swap b) ≡ length b
unfolding swap
length-swap [] = refl
length-swap (x ∷ b) = ap suc (length-swap b)

length-digits : (ds : List ℕ) → length (map hex_digit ds) ≡ length ds
length-digits [] = refl
length-digits (d ∷ ds) = ap suc (length-digits ds)

back_whole :
    (raw : Bytes)
    → All IsByte raw
    → swapped_bytes_to_str (swap raw) false ≡ ok (encode_to_string raw)
unfolding swapped_bytes_to_str
back_whole [] h = unfold swap encode_to_string in refl
back_whole (x ∷ raw) h =
    rw (swap_twice (x ∷ raw) h, length-swap (x ∷ raw), suc_ne_zero (length raw)) refl

nothing : [] ≡ encode_to_string []
unfolding encode_to_string
nothing = refl

back_cut :
    (raw s : Bytes) (d : ℕ)
    → All IsByte raw
    → encode_to_string raw ≡ s ++ (d ∷ [])
    → swapped_bytes_to_str (swap raw) true ≡ ok s
unfolding swapped_bytes_to_str
back_cut [] s d h e = absurd (omega (arith, ap length (nothing ∙ e), length-append s (d ∷ [])))
back_cut (x ∷ raw) s d h e =
    let len : length (s ++ (d ∷ [])) - 1 ≡ length s = omega (arith, length-append s (d ∷ [])) in
    rw (length-swap (x ∷ raw), swap_twice (x ∷ raw) h, suc_ne_zero (length raw), e)
      (rw len (slice_front s (d ∷ [])))

pub swapped_even :
    (s raw : Bytes)
    → length s % 2 ≡ 0
    → decode_string s ≡ ok raw
    → str_to_swapped_bytes s filler_f ≡ ok (swap raw)
unfolding str_to_swapped_bytes
swapped_even s raw e d = rw (e, d) refl

pub swapped_odd :
    (s raw : Bytes)
    → length s % 2 ≡ 1
    → decode_string (s ++ filler_f) ≡ ok raw
    → str_to_swapped_bytes s filler_f ≡ ok (swap raw)
unfolding str_to_swapped_bytes
swapped_odd s raw e d = rw (e, d) refl

-- What StrToSwappedBytes makes of an even number of digits.
even_digits :
    (ds : List ℕ)
    → All (λ d. d < 16) ds
    → length ds % 2 ≡ 0
    → (raw : Bytes) × (str_to_swapped_bytes (map hex_digit ds) filler_f ≡ ok (swap raw))
      × (encode_to_string raw ≡ map hex_digit ds)
      × All IsByte raw
even_digits ds h e =
    let (raw, e1, e2, hb) = decode_digits ds h e in
    (raw, swapped_even _ raw (omega (arith, length-digits ds)) e1, e2, hb)

-- An odd number of digits is filled up by an `f`.
odd_digits :
    (ds : List ℕ)
    → All (λ d. d < 16) ds
    → length ds % 2 ≡ 1
    → (raw : Bytes) × (str_to_swapped_bytes (map hex_digit ds) filler_f ≡ ok (swap raw))
      × (encode_to_string raw ≡ map hex_digit ds ++ filler_f)
      × All IsByte raw
unfolding hex_digit
odd_digits ds h e =
    let full = All-append (λ d. d < 16) ds (15 ∷ []) (h, (omega arith, tt)) in
    let (raw, e1, e2, hb) =
      decode_digits (ds ++ (15 ∷ [])) full (omega (arith, length-append ds (15 ∷ []))) in
    let fill : map hex_digit (ds ++ (15 ∷ [])) ≡ map hex_digit ds ++ filler_f =
      map-append hex_digit ds (15 ∷ []) in
    (
      raw,
      swapped_odd _ raw (omega (arith, length-digits ds)) (ap decode_string (sym fill) ∙ e1),
      e2 ∙ fill,
      hb,
    )

-- Reading back what StrToSwappedBytes made of a string of hexadecimal digits, the last digit being
-- cut exactly when their number is odd.
pub swapped_bytes_to_str-str_to_swapped_bytes :
    (ds : List ℕ)
    → All (λ d. d < 16) ds
    → (str_to_swapped_bytes (map hex_digit ds) filler_f >>= λ b.
        swapped_bytes_to_str b (length ds % 2 == 1))
      ≡ ok (map hex_digit ds)
swapped_bytes_to_str-str_to_swapped_bytes ds h = elim (Bool-cases (length ds % 2 == 1)) [
  | inl odd ↦
      let (raw, e1, e2, hb) = odd_digits ds h ((==_iff _ _).0 odd) in
      rw (e1, odd) (back_cut raw (map hex_digit ds) 102 hb e2)
  | inr even ↦
      let (raw, e1, e2, hb) = even_digits ds h (ground arith) in
      rw (e1, even) (back_whole raw hb ∙ ap ok e2)
]
