-- ===== src/Gtp.antt =====
-- gtp.go: Parse, which chooses the version by the three highest bits of the first octet.
pub mod Sound
pub mod RoundTrip
use go_gtp.Common.{ℕ, ◌/◌, ◌==◌, if◌then◌else◌, length, ltb}
use go_gtp.Common.Outcome.{Outcome, ok, err, ◌>>=◌, too_short_to_parse, invalid_version}
use go_gtp.Common.Bytes.{Bytes, index}
use go_gtp.Gtpv0.Message.Dispatch as V0
use go_gtp.Gtpv1.Message.Dispatch as V1
use go_gtp.Gtpv2.Message.Dispatch as V2

-- `Message`: a message of any version.
pub data Message : Type 0 where
  version_0 : V0.Parsed → Message
  version_1 : V1.Parsed → Message
  version_2 : V2.Parsed → Message

-- `switch b[0] >> 5`
abbrev pub by_version : ℕ → Bytes → Outcome Message
by_version v b =
    let old = V0.parse b >>= λ m. ok (version_0 m) in
    let first = V1.parse b >>= λ m. ok (version_1 m) in
    let second = V2.parse b >>= λ m. ok (version_2 m) in
    if v == 0 then old else if v == 1 then first else if v == 2 then second else err invalid_version

-- `Parse`
unfoldable pub parse : Bytes → Outcome Message
unfolding index V0.parse V1.parse V2.parse
parse b =
    let message = (do first ← index b 0; by_version (first / 32) b) in
    if ltb (length b) 8 then err too_short_to_parse else message
