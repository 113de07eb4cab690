-- ===== src/Utils/Cors/Origins.antt =====
-- `Origin::parse` (utils/src/http/cors.rs) brings every text into a normal form.
use jsonrpsee.Base.{◌++◌, none, some, true, ◌≡◌, refl, Option-cases, Bool-cases, inl, inr}
use jsonrpsee.Base.Text.{
  Text, text_beq, codes, lacks, to_lowercase, split_once, first_piece, second_piece,
}
use jsonrpsee.Base.Text.Schemes.{
  to_lowercase_idem, split_once-left-none, split_mark-lowercase, split_mark-append, scheme_mark,
}
use jsonrpsee.Base.Text.Splits.{split_once-lacks}
use jsonrpsee.Utils.Hosts.{Globs, host_parse}
use jsonrpsee.Utils.Hosts.Normal.{host_parse_twice, host_parse-no_slash}
use jsonrpsee.Utils.Cors.{
  OriginProtocol, http, https, protocol_text, protocol_of, origin_parts, small_protocol, with_host,
  origin_parse,
}

-- A protocol that is read back from its text: no `://`, and no capital letter.
pub record IsProtocol (p : OriginProtocol) : Type 0 where
  pub no_mark : split_once scheme_mark (protocol_text p) ≡ none
  pub again : protocol_of (some (to_lowercase (protocol_text p))) ≡ p

http-IsProtocol : IsProtocol http
unfolding protocol_text protocol_of split_once to_lowercase
http-IsProtocol = record { no_mark = refl; again = refl }

https-IsProtocol : IsProtocol https
unfolding protocol_text protocol_of split_once to_lowercase
https-IsProtocol = record { no_mark = refl; again = refl }

protocol_of-IsProtocol :
    (q : Text)
    → split_once scheme_mark q ≡ none
    → to_lowercase q ≡ q
    → IsProtocol (protocol_of (some q))
unfolding protocol_of protocol_text
protocol_of-IsProtocol q n s = elim (Bool-cases (text_beq q (codes "http"))) [
  | inl e ↦ rw (e, protocol_of) http-IsProtocol
  | inr e ↦ elim (Bool-cases (text_beq q (codes "https"))) [
    | inl e' ↦ rw (e, e', protocol_of) https-IsProtocol
    | inr e' ↦ rw (e, e', protocol_of) (record { no_mark = n; again = rw (s, e, e') refl })
  ]
]

parts-IsProtocol : (t : Text) → IsProtocol (protocol_of (small_protocol (origin_parts t).0))
unfolding origin_parts second_piece first_piece small_protocol
parts-IsProtocol t = elim (Option-cases (split_once scheme_mark t)) [
  | inl e ↦ rw (e, origin_parts) (unfold protocol_of in http-IsProtocol)
  | inr ((a, b), e) ↦
      rw (e, origin_parts)
        (rw (e, first_piece)
          (protocol_of-IsProtocol (to_lowercase a)
            (split_mark-lowercase a (split_once-left-none b':' (codes "//") t a b e))
            (to_lowercase_idem a)))
]

-- The parts of a protocol and a host with the separator between them.
origin_parts-append :
    (s t : Text)
    → split_once scheme_mark s ≡ none
    → lacks b'/' t ≡ true
    → origin_parts (s ++ (scheme_mark ++ t)) ≡ (some s, t)
unfolding origin_parts second_piece first_piece
origin_parts-append s t h k =
    rw (split_mark-append s t h, origin_parts)
      (rw (split_mark-append s t h, first_piece)
        (rw (split_once-lacks b'/' scheme_mark t (unfold lacks in refl) k, first_piece) refl))

module _ {Glob : Type 0} (globs : Globs Glob) where
  with_host_again :
      (p : OriginProtocol) (t : Text)
      → IsProtocol p
      → origin_parse globs (with_host globs p (host_parse globs t)).as_string
        ≡ with_host globs p (host_parse globs t)
  unfolding origin_parse with_host small_protocol
  with_host_again p t i =
      rw
        (
          origin_parts-append (protocol_text p) (host_parse globs t).as_string i.no_mark
              (host_parse-no_slash globs t),
          i.again,
          host_parse_twice globs t,
        )
        refl

  -- Parsing what a parsed origin is printed as gives that origin, its pattern included.
  pub origin_parse_twice :
      (text : Text)
      → origin_parse globs (origin_parse globs text).as_string ≡ origin_parse globs text
  unfolding origin_parse
  origin_parse_twice text =
      with_host_again (protocol_of (small_protocol (origin_parts text).0)) (origin_parts text).1
        (parts-IsProtocol text)
