-- ===== src/Tests/Elements.antt =====
-- GTPv2 elements: a bearer context with two children, and elements of GTPv1 and GTPv0.
use go_gtp.Common.{ℕ, ◌≡◌, ◌≢◌, ◌⊎◌, refl, [], ◌∷◌, arith}
use go_gtp.Common.Outcome.{ok, err, ◌>>=◌, Ensures, ie_not_found}
use go_gtp.Common.Bytes.{copy_at, put}
use go_gtp.Gtpv2.Ie.{
  Ie, ie, nil, cons, is_grouped, marshal_len, marshal_to, marshal, parse, parse_multi_ies, children,
}
use go_gtp.Gtpv2.Ie.Wire.{wire, IsWf}
use go_gtp.Gtpv2.Ie.Decode.{ReadsAll, parse_multi_ies_sound}
use go_gtp.Gtpv2.Ie.RoundTrip.{parse-marshal}
use go_gtp.Gtpv2.Ie.Group.{append_ies, add, remove, find_by_type}
use go_gtp.Gtpv2.Ie.Group.Laws.{add-IsWf}
use go_gtp.Gtpv2.Ie.Group.Remove.{others, remove-IsWf}
use go_gtp.Tlv
use go_gtp.Tlv.RoundTrip as Loop
use go_gtp.Tlv.New.{parse-marshal-new_unlisted}
use go_gtp.Gtpv1.Ie as V1

-- EPS Bearer ID 5 and a Bearer QoS of two octets.
abbrev bearer_id : Ie
bearer_id = ie 73 1 0 (5 ∷ []) nil

abbrev qos : Ie
qos = ie 80 2 0 (7 ∷ 9 ∷ []) nil

abbrev context : Ie
context =
    ie 93 11 0 (73 ∷ 0 ∷ 1 ∷ 0 ∷ 5 ∷ 80 ∷ 0 ∷ 2 ∷ 0 ∷ 7 ∷ 9 ∷ []) (cons bearer_id (cons qos nil))

bearer_id-IsWf : IsWf bearer_id
unfolding is_grouped wire
bearer_id-IsWf = (omega arith, refl, omega arith, omega arith, omega arith, refl)

qos-IsWf : IsWf qos
unfolding is_grouped wire
qos-IsWf = (omega arith, refl, omega arith, omega arith, omega arith, refl)

context-IsWf : IsWf context
unfolding is_grouped wire
context-IsWf = (
  omega arith,
  refl,
  omega arith,
  omega arith,
  omega arith,
  (refl, (bearer_id-IsWf, (qos-IsWf, tt))),
)

marshal_run : marshal bearer_id ≡ ok (73 ∷ 0 ∷ 1 ∷ 0 ∷ 5 ∷ [])
unfolding marshal marshal_to marshal_len is_grouped put copy_at
marshal_run = refl

parse-marshal_example : (marshal context >>= λ b. parse b) ≡ ok context
parse-marshal_example = parse-marshal context context-IsWf

parse_multi_ies_sound_two :
    Ensures
      (ReadsAll (73 ∷ 0 ∷ 1 ∷ 0 ∷ 5 ∷ 80 ∷ 0 ∷ 0 ∷ 0 ∷ []))
      (parse_multi_ies (73 ∷ 0 ∷ 1 ∷ 0 ∷ 5 ∷ 80 ∷ 0 ∷ 0 ∷ 0 ∷ []))
parse_multi_ies_sound_two =
    parse_multi_ies_sound (73 ∷ 0 ∷ 1 ∷ 0 ∷ 5 ∷ 80 ∷ 0 ∷ 0 ∷ 0 ∷ []) (omega arith)

add-IsWf_example :
    (j : Ie) × (add (cons qos nil) context ≡ ok j)
    × IsWf j
    × (children j ≡ append_ies (children context) (cons qos nil))
unfolding is_grouped marshal_len
add-IsWf_example = add-IsWf (cons qos nil) context refl context-IsWf (qos-IsWf, tt) (omega arith)

remove-IsWf_example :
    (j : Ie) × (remove 73 0 context ≡ ok j)
    × IsWf j
    × (children j ≡ others 73 0 (children context))
    × (find_by_type 73 0 j ≡ err ie_not_found)
    × ((typ' ins' : ℕ)
        → (73 ≢ typ') ⊎ (0 ≢ ins')
        → find_by_type typ' ins' j ≡ find_by_type typ' ins' context)
unfolding is_grouped
remove-IsWf_example = remove-IsWf 73 0 context refl context-IsWf

parse-marshal_v1_recovery :
    (V1.marshal (Tlv.ie 14 0 (3 ∷ [])) >>= λ b. V1.parse b) ≡ ok (Tlv.ie 14 0 (3 ∷ []))
parse-marshal_v1_recovery = V1.parse-marshal_v1 (Tlv.ie 14 0 (3 ∷ [])) (refl, refl) (omega arith)

parse_multi_ies_sound_v1_two :
    Ensures
      (Loop.ReadsAll V1.tv_length_map V1.tv_length_map-IsTvTable (14 ∷ 3 ∷ 131 ∷ 0 ∷ 1 ∷ 65 ∷ []))
      (V1.parse_multi_ies (14 ∷ 3 ∷ 131 ∷ 0 ∷ 1 ∷ 65 ∷ []))
parse_multi_ies_sound_v1_two =
    V1.parse_multi_ies_sound_v1 (14 ∷ 3 ∷ 131 ∷ 0 ∷ 1 ∷ 65 ∷ []) (omega arith)

-- Quality of Service, of GTPv0 only.
parse-marshal-new_unlisted_six :
    (Tlv.marshal V1.tv_length_map (Tlv.new V1.tv_length_map 6 (1 ∷ 2 ∷ [])) >>= λ b.
    Tlv.parse V1.tv_length_map b)
    ≡ ok (Tlv.ie 6 0 [])
parse-marshal-new_unlisted_six =
    parse-marshal-new_unlisted V1.tv_length_map V1.tv_length_map-IsTvTable 6 1 (2 ∷ [])
      (omega arith) refl
