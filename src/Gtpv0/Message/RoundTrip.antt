-- ===== src/Gtpv0/Message/RoundTrip.antt =====
-- Parse of gtpv0/message on what Marshal returns, by the type of the message.
use go_gtp.Common.{
  ℕ, ◌^◌, ◌<◌, Bool, true, false, ◌||◌, List, [], ◌∷◌, ◌++◌, ◌==◌, ==_iff, ◌≡◌, ◌⊎◌, inl, inr, refl,
  sym, subst, ap, ◌∙◌, Bool-cases, All,
}
use go_gtp.Common.Outcome.{Outcome, ok, ◌>>=◌}
use go_gtp.Common.Bytes.{Bytes, index}
use go_gtp.Message
use go_gtp.Message.{Layout, Message, blank, marshal, marshal_len}
use go_gtp.Message.Collect.{collect-AllHeld}
use go_gtp.Message.Marshal.{marshal-wire_message, wire_message, filled_header}
use go_gtp.Message.RoundTrip.{IsConsistent}
use go_gtp.Tlv.{Ie}
use go_gtp.Tlv.Write.{IsSent}
use go_gtp.Gtpv0.Ie.{tv_length_map}
use go_gtp.Gtpv0.Header.{new_header, set_length}
use go_gtp.Gtpv0.Header.Codec.{head}
use go_gtp.Gtpv0.Message.{gtpv0, new_message}
use go_gtp.Gtpv0.Message.Laws.{laws, sent_v0, parse-marshal_message_v0}
use go_gtp.Gtpv0.Message.Dispatch.{signalling, layouts, select, layout_of, unmarshal, parse}
use go_gtp.Gtpv0.Message.Generic.{generic-IsConsistent}
use go_gtp.Gtpv0.Message.EchoRequest.{echo_request-IsConsistent}
use go_gtp.Gtpv0.Message.EchoResponse.{echo_response-IsConsistent}
use go_gtp.Gtpv0.Message.DeletePdpContextRequest.{delete_pdp_context_request-IsConsistent}
use go_gtp.Gtpv0.Message.DeletePdpContextResponse.{delete_pdp_context_response-IsConsistent}

-- The requests and responses that create and update a PDP context have cases that look at a field.
unfoldable pub chained : ℕ → Bool
chained code = code == 16 || code == 17 || code == 18 || code == 19

infixr 4 ◌⨾◌
data AllRead : List (ℕ × Layout) → Type 0 where
  done : AllRead []
  ◌⨾◌ :
      {code : ℕ} {l : Layout} {ls : List (ℕ × Layout)}
      → (chained code ≡ true) ⊎ IsConsistent l
      → AllRead ls
      → AllRead ((code, l) ∷ ls)

layouts-AllRead : AllRead layouts
unfolding chained
layouts-AllRead =
    inr echo_request-IsConsistent
    ⨾ inr echo_response-IsConsistent
    ⨾ inl refl
    ⨾ inl refl
    ⨾ inl refl
    ⨾ inl refl
    ⨾ inr delete_pdp_context_request-IsConsistent
    ⨾ inr delete_pdp_context_response-IsConsistent
    ⨾ done

agreed :
    (code : ℕ) (l : Layout)
    → (chained code ≡ true) ⊎ IsConsistent l
    → chained code ≡ false
    → IsConsistent l
agreed code l (inl e) h = cc
agreed code l (inr c) h = c

select-IsConsistent :
    (ls : List (ℕ × Layout)) (code : ℕ)
    → AllRead ls
    → chained code ≡ false
    → IsConsistent (select ls code)
select-IsConsistent [] code s h = generic-IsConsistent
select-IsConsistent ((c, l) ∷ ls) code (now ⨾ later) h = elim (Bool-cases (c == code)) [
  | inl e ↦
      rw e (
        agreed code l (subst (λ x. (chained x ≡ true) ⊎ IsConsistent l) ((==_iff c code).0 e) now)
          h)
  | inr e ↦ rw e (select-IsConsistent ls code later h)
]

layout_of-IsConsistent : (code : ℕ) → chained code ≡ false → IsConsistent (layout_of code)
unfolding layout_of
layout_of-IsConsistent code h = select-IsConsistent layouts code layouts-AllRead h

module _ (code seq label tid : ℕ) (l : Layout) (is : List Ie) where
  marshal_made :
      IsConsistent l
      → All (IsSent tv_length_map) is
      → marshal gtpv0 l (new_message code l seq label tid is)
        ≡ ok (wire_message gtpv0 laws l (new_message code l seq label tid is))
  unfolding new_message Message.new Message.set_length new_header
  marshal_made c w =
      marshal-wire_message gtpv0 laws l (new_message code l seq label tid is) c.same_order
        (collect-AllHeld gtpv0 (IsSent tv_length_map) l.new_rules is (blank gtpv0) w (λ f. tt))
        (inr refl)

  second :
      (rest : Bytes)
      → index (head (filled_header gtpv0 laws l (new_message code l seq label tid is)) ++ rest) 1
        ≡ ok code
  unfolding index new_message Message.new Message.set_length new_header set_length
  second rest = refl

parse-index :
    (b : Bytes) (code : ℕ) (m : Message gtpv0)
    → index b 1 ≡ ok code
    → (code == 255) ≡ false
    → Message.parse gtpv0 (layout_of code) b ≡ ok m
    → parse b ≡ ok (signalling (layout_of code) m)
unfolding parse
parse-index b code m e ne e' =
    let chosen : unmarshal code b ≡ ok (signalling (layout_of code) m) =
      rw ne
        (ap (λ (o : Outcome (Message gtpv0)). o >>= λ x. ok (signalling (layout_of code) x)) e') in
    ap (λ (o : Outcome ℕ). o >>= λ c. unmarshal c b) e ∙ chosen

abbrev pub made : ℕ → ℕ → ℕ → ℕ → List Ie → Message gtpv0
made code seq label tid is = new_message code (layout_of code) seq label tid is

-- Parse of what Marshal returns chooses the type of the message by its code, and finds the fields
-- that the constructor has filled, with the header that MarshalTo left, for every code but 255 and
-- those that create or update a PDP context, a generic message for an unknown code included: if the
-- numbers fit, the elements are well formed and have two octets at least, and the message takes
-- fewer than 2 ^ 16 octets.
pub parse-marshal-made_v0 :
    (code seq label tid : ℕ) (is : List Ie)
    → seq < 2 ^ 16
    → label < 2 ^ 16
    → tid < 2 ^ 64
    → chained code ≡ false
    → (code == 255) ≡ false
    → All (IsSent tv_length_map) is
    → marshal_len gtpv0 (layout_of code) (made code seq label tid is) < 2 ^ 16
    → (marshal gtpv0 (layout_of code) (made code seq label tid is) >>= λ b. parse b)
      ≡ ok (
          signalling (layout_of code) (record {
            header = sent_v0 code seq label tid (layout_of code) is;
            fields = (made code seq label tid is).fields;
          }))
parse-marshal-made_v0 code seq label tid is hs hl ht faithful ne w fits =
    let l = layout_of code in
    let c = layout_of-IsConsistent code faithful in
    let e = marshal_made code seq label tid l is c w in
    let back = parse-marshal_message_v0 code seq label tid l is hs hl ht c w fits in
    ap (λ (o : Outcome Bytes). o >>= λ b. parse b) e
    ∙ parse-index _ code _ (second code seq label tid l is _) ne
        (sym (ap (λ (o : Outcome Bytes). o >>= λ b. Message.parse gtpv0 l b) e) ∙ back)
