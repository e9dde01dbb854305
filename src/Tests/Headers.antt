-- ===== src/Tests/Headers.antt =====
-- Headers of the three versions, and user packets.
use go_gtp.Common.{◌≡◌, refl, [], ◌∷◌, ◌++◌, arith}
use go_gtp.Common.Outcome.{ok, err, panic, ◌>>=◌, Ensures, too_short_to_parse}
use go_gtp.Common.Bytes.{Bytes}
use go_gtp.Gtpv2.Header as H2
use go_gtp.Gtpv2.Header.Codec as C2
use go_gtp.Gtpv2.Header.Sound as S2
use go_gtp.Gtpv2.Header.RoundTrip as R2
use go_gtp.Gtpv1.Header as H1
use go_gtp.Gtpv1.Header.Codec as C1
use go_gtp.Gtpv1.Header.RoundTrip as R1
use go_gtp.Gtpv1.Tpdu.{
  encapsulate, marshal_tpdu, decapsulate, decapsulate-encapsulate, decapsulate-encapsulate_short,
}
use go_gtp.Utils.{uint32_to_24}
use go_gtp.Gtpv0.Header as H0
use go_gtp.Gtpv0.Header.Codec as C0

-- An echo request with a recovery element, and a delete session request.
abbrev echo : H2.Header
echo = record {
  flags = 0x40;
  kind = 1;
  size = 9;
  teid = 0;
  sequence_number = 7;
  spare = 0;
  payload = 3 ∷ 0 ∷ 1 ∷ 0 ∷ 5 ∷ [];
}

echo-IsWf : R2.IsWf echo
unfolding H2.has_teid
echo-IsWf = record {
  flags_fit = omega arith;
  kind_fits = omega arith;
  size_counts = refl;
  size_fits = omega arith;
  teid_fits = omega arith;
  no_teid = λ e. refl;
  seq_fits = omega arith;
  spare_fits = omega arith;
}

marshal-wire_header_echo : H2.marshal echo ≡ ok (C2.wire echo)
marshal-wire_header_echo = C2.marshal-wire_header echo

parse_header-wire_example : H2.parse_header (C2.wire echo ++ []) ≡ ok echo
unfolding H2.has_teid uint32_to_24
parse_header-wire_example = R2.parse_header-wire echo [] echo-IsWf (omega arith)

abbrev packet : Bytes
packet = 0x48 ∷ 36 ∷ 0 ∷ 8 ∷ 0 ∷ 0 ∷ 1 ∷ 2 ∷ 0 ∷ 0 ∷ 9 ∷ 0 ∷ []

parse_header_sound_packet : Ensures (S2.Reads packet) (H2.parse_header packet)
parse_header_sound_packet = S2.parse_header_sound packet (omega arith)

abbrev numbered : H1.Header
numbered = record {
  flags = 0x32;
  kind = 255;
  size = 6;
  teid = 5;
  sequence_number = 300;
  reserved = 0;
  payload = 1 ∷ 2 ∷ [];
}

numbered-IsWf : R1.IsWf numbered
unfolding H1.has_sequence
numbered-IsWf = record {
  size_counts = refl;
  size_fits = omega arith;
  teid_fits = omega arith;
  seq_fits = omega arith;
  no_seq = λ e. cc;
  reserved_zero = refl;
}

parse_header-wire_v1_numbered : H1.parse_header (C1.wire numbered ++ (9 ∷ [])) ≡ ok numbered
unfolding H1.has_sequence
parse_header-wire_v1_numbered =
    R1.parse_header-wire_v1 numbered (9 ∷ []) numbered-IsWf (omega arith)

decapsulate-encapsulate_four :
    (marshal_tpdu (encapsulate 9 (1 ∷ 2 ∷ 3 ∷ 4 ∷ [])) >>= decapsulate) ≡ ok (9, 1 ∷ 2 ∷ 3 ∷ 4 ∷ [])
decapsulate-encapsulate_four =
    decapsulate-encapsulate 9 (1 ∷ 2 ∷ 3 ∷ 4 ∷ []) (omega arith) (omega arith) (omega arith)

decapsulate-encapsulate_short_one :
    (marshal_tpdu (encapsulate 9 (1 ∷ [])) >>= decapsulate) ≡ err too_short_to_parse
decapsulate-encapsulate_short_one = decapsulate-encapsulate_short 9 (1 ∷ []) (omega arith)

abbrev old : H0.Header
old = record {
  flags = 0x1e;
  kind = 1;
  size = 2;
  sequence_number = 7;
  sndcp_number = 4;
  flow_label = 3;
  tid = 99;
  payload = 14 ∷ 1 ∷ [];
}

old-IsWf : C0.IsWf old
old-IsWf = record {
  size_counts = refl;
  size_fits = omega arith;
  seq_fits = omega arith;
  label_fits = omega arith;
  sndcp_fits = omega arith;
  tid_fits = omega arith;
}

parse_header-wire_v0_old : H0.parse_header (C0.wire old) ≡ ok (record old { sndcp_number = 0xff })
parse_header-wire_v0_old = C0.parse_header-wire_v0 old old-IsWf

parse_header_panics_v0_twelve : H0.parse_header packet ≡ panic
parse_header_panics_v0_twelve = C0.parse_header_panics_v0 packet (omega arith) (omega arith)
