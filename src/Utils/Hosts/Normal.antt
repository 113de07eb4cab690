-- ===== src/Utils/Hosts/Normal.antt =====
-- `Host::parse` (utils/src/http/hosts.rs) brings every text into a normal form.
use jsonrpsee.Base.{
  ℕ, ◌<◌, [], ◌∷◌, ◌++◌, Option, some, true, false, ◌≡◌, refl, ap, ◌∙◌, arith, Option-cases, inl,
  inr,
}
use mathlib.Core.List.{append-nil}
use jsonrpsee.Base.Text.{
  Text, codes, lacks, split_once, first_piece, second_piece, parse_unsigned, decimal,
}
use jsonrpsee.Base.Text.Numbers.{
  decimal-digits, parse_unsigned-decimal, parse_unsigned-lt, lacks-digits,
}
use jsonrpsee.Base.Text.Schemes.{
  small, small-append, small-to_lowercase, to_lowercase-small, small-digits, lacks-to_lowercase,
}
use jsonrpsee.Base.Text.Splits.{
  split_once-append, split_once-lacks, split_once-char-lacks, split_once-char-none,
  split_once-char-append, lacks-append,
}
use jsonrpsee.Utils.Hosts.{
  Globs, Host, Port, fixed, pattern, pre_process, host_to_string, parse_port, host_of, host_new,
  parse_name, host_parse, after_scheme,
}

-- A text that `pre_process` leaves as it is: no slash, and no capital letter.
pub record IsPlain (t : Text) : Type 0 where
  pub no_slash : lacks b'/' t ≡ true
  pub is_small : small t ≡ true

first_piece-char-lacks : (c : ℕ) (s : Text) → lacks c (first_piece (c ∷ []) s) ≡ true
unfolding first_piece
first_piece-char-lacks c s = elim (Option-cases (split_once (c ∷ []) s)) [
  | inl e ↦ rw (e, first_piece) (split_once-char-none c s e)
  | inr ((a, b), e) ↦ rw (e, first_piece) (split_once-char-lacks c s a b e)
]

first_piece-lacks :
    (c : ℕ) (p s : Text) → lacks c p ≡ false → lacks c s ≡ true → first_piece p s ≡ s
unfolding first_piece
first_piece-lacks c p s h k = rw (split_once-lacks c p s h k, first_piece) refl

second_piece-lacks :
    (c : ℕ) (p s : Text) → lacks c p ≡ false → lacks c s ≡ true → second_piece p s ≡ Option.none
unfolding second_piece
second_piece-lacks c p s h k = rw (split_once-lacks c p s h k, second_piece) refl

pub pre_process-IsPlain : (t : Text) → IsPlain (pre_process t)
unfolding pre_process
pre_process-IsPlain t = record {
  no_slash =
      lacks-to_lowercase b'/' (first_piece (codes "/") (after_scheme t)) (omega arith)
      ∙ first_piece-char-lacks b'/' (after_scheme t);
  is_small = small-to_lowercase (first_piece (codes "/") (after_scheme t));
}

pub after_scheme-lacks : (t : Text) → lacks b'/' t ≡ true → after_scheme t ≡ t
unfolding after_scheme
after_scheme-lacks t h =
    rw (second_piece-lacks b'/' (codes "://") t (unfold lacks in refl) h, after_scheme)
      (first_piece-lacks b'/' (codes "://") t (unfold lacks in refl) h)

pub pre_process_plain : (t : Text) → IsPlain t → pre_process t ≡ t
unfolding pre_process
pre_process_plain t p =
    rw
      (
        after_scheme-lacks t p.no_slash,
        first_piece-lacks b'/' (codes "/") t (unfold lacks in refl) p.no_slash,
      )
      (to_lowercase-small t p.is_small)

IsPlain-append_left : (a b : Text) → IsPlain (a ++ b) → IsPlain a
IsPlain-append_left a b p = ground (arith, lacks-append b'/' a b, small-append a b)

IsPlain-append_right : (a b : Text) → IsPlain (a ++ b) → IsPlain b
IsPlain-append_right a b p = ground (arith, lacks-append b'/' a b, small-append a b)

IsPlain-append : (a b : Text) → IsPlain a → IsPlain b → IsPlain (a ++ b)
IsPlain-append a b p q = ground (arith, lacks-append b'/' a b, small-append a b)

-- The port of a parsed host.
abbrev pub IsPort : Port → Type 0
IsPort Port.none = Unit
IsPort (fixed n) = n < 65536
IsPort (pattern q) = IsPlain q × (lacks b':' q ≡ true) × (parse_unsigned 65536 q ≡ Option.none)

parse_port-IsPort : (q : Text) → IsPlain q → lacks b':' q ≡ true → IsPort (parse_port (some q))
unfolding parse_port
parse_port-IsPort q p l = elim (Option-cases (parse_unsigned 65536 q)) [
  | inl e ↦ rw (e, parse_port) (p, l, e)
  | inr (n, e) ↦ rw (e, parse_port) (parse_unsigned-lt 65536 n q (omega arith) e)
]

second_piece-none : (c : ℕ) (s : Text) → second_piece (c ∷ []) s ≡ Option.none → lacks c s ≡ true
unfolding second_piece
second_piece-none c s h = elim (Option-cases (split_once (c ∷ []) s)) [
  | inl e ↦ split_once-char-none c s e
  | inr ((a, b), e) ↦ let g = rw (e, second_piece) at h in cc
]

IsPlain-first_piece : (c : ℕ) (s : Text) → IsPlain s → IsPlain (first_piece (c ∷ []) s)
unfolding first_piece
IsPlain-first_piece c s p = elim (Option-cases (split_once (c ∷ []) s)) [
  | inl e ↦ rw (e, first_piece) p
  | inr ((a, b), e) ↦
      rw (e, first_piece)
        (IsPlain-append_left a ((c ∷ []) ++ b) (rw (split_once-append (c ∷ []) s a b e) at p))
]

second_piece-IsPort : (s : Text) → IsPlain s → IsPort (parse_port (second_piece (codes ":") s))
unfolding second_piece
second_piece-IsPort s p = elim (Option-cases (split_once (codes ":") s)) [
  | inl e ↦ rw (e, second_piece) (unfold parse_port in tt)
  | inr ((a, b), e) ↦
      let q = IsPlain-append_right (codes ":") b (
        IsPlain-append_right a (codes ":" ++ b)
          (rw (split_once-append (codes ":") s a b e) at p)) in
      rw (e, second_piece)
        (parse_port-IsPort (first_piece (codes ":") b) (IsPlain-first_piece b':' b q)
          (first_piece-char-lacks b':' b))
]

self : (c : ℕ) → lacks c (c ∷ []) ≡ false
unfolding lacks
self c = ground arith

first_piece-char-append :
    (c : ℕ) (a b : Text) → lacks c a ≡ true → first_piece (c ∷ []) (a ++ (c ∷ b)) ≡ a
unfolding first_piece
first_piece-char-append c a b h = rw (split_once-char-append c a b h, first_piece) refl

second_piece-char-append :
    (c : ℕ) (a b : Text)
    → lacks c a ≡ true
    → lacks c b ≡ true
    → second_piece (c ∷ []) (a ++ (c ∷ b)) ≡ some b
unfolding second_piece
second_piece-char-append c a b h k =
    rw (split_once-char-append c a b h, second_piece)
      (ap (λ t. some t) (first_piece-lacks c (c ∷ []) b (self c) k))

colon-IsPlain : IsPlain (codes ":")
unfolding lacks small
colon-IsPlain = record { no_slash = refl; is_small = refl }

parse_port_pattern :
    (q : Text) → parse_unsigned 65536 q ≡ Option.none → parse_port (some q) ≡ pattern q
unfolding parse_port
parse_port_pattern q h = rw (h, parse_port) refl

parse_port_fixed : (n : ℕ) → n < 65536 → parse_port (some (decimal n)) ≡ fixed n
unfolding parse_port
parse_port_fixed n h = rw (parse_unsigned-decimal 65536 n h, parse_port) refl

decimal-IsPlain : (n : ℕ) → IsPlain (decimal n)
decimal-IsPlain n = record {
  no_slash = lacks-digits b'/' (decimal n) refl (decimal-digits n);
  is_small = small-digits (decimal n) (decimal-digits n);
}

module _ {Glob : Type 0} (globs : Globs Glob) where
  -- A host in normal form.
  pub data IsNormal : Host Glob → Type 0 where
    normal :
        (t : Text) (port : Port)
        → IsPlain t
        → lacks b':' t ≡ true
        → IsPort port
        → IsNormal (host_of globs t port)

  host_new_plain :
      (t : Text) (port : Port) → IsPlain t → host_new globs t port ≡ host_of globs t port
  unfolding host_new
  host_new_plain t port p = rw (pre_process_plain t p) refl

  host_parse-IsNormal : (t : Text) → IsNormal (host_parse globs t)
  unfolding host_parse parse_name
  host_parse-IsNormal t =
      let p = pre_process-IsPlain t in
      let q = IsPlain-first_piece b':' (pre_process t) p in
      rw
        (host_new_plain (first_piece (codes ":") (pre_process t))
          (parse_port (second_piece (codes ":") (pre_process t))) q)
        (normal (first_piece (codes ":") (pre_process t))
          (parse_port (second_piece (codes ":") (pre_process t))) q
          (first_piece-char-lacks b':' (pre_process t)) (second_piece-IsPort (pre_process t) p))

  host_parse_name :
      (t : Text) → IsPlain t → lacks b':' t ≡ true → host_parse globs t ≡ host_of globs t Port.none
  unfolding host_parse parse_name
  host_parse_name t p l =
      rw
        (
          pre_process_plain t p,
          first_piece-lacks b':' (codes ":") t (unfold lacks in refl) l,
          second_piece-lacks b':' (codes ":") t (unfold lacks in refl) l,
        )
        (unfold parse_port in host_new_plain t Port.none p)

  host_parse_port :
      (t q : Text)
      → IsPlain t
      → lacks b':' t ≡ true
      → IsPlain q
      → lacks b':' q ≡ true
      → host_parse globs (t ++ (codes ":" ++ q)) ≡ host_of globs t (parse_port (some q))
  unfolding host_parse parse_name
  host_parse_port t q p l p' l' =
      rw
        (
          pre_process_plain (t ++ (codes ":" ++ q))
              (IsPlain-append t (codes ":" ++ q) p (IsPlain-append (codes ":") q colon-IsPlain p')),
          first_piece-char-append b':' t q l,
          second_piece-char-append b':' t q l l',
        )
        (host_new_plain t (parse_port (some q)) p)

  host_parse_normal : (h : Host Glob) → IsNormal h → host_parse globs h.as_string ≡ h
  unfolding host_of host_to_string
  host_parse_normal h (normal t Port.none p l i) =
      ap (host_parse globs) (append-nil t) ∙ host_parse_name t p l
  host_parse_normal h (normal t (fixed n) p l i) =
      host_parse_port t (decimal n) p l (decimal-IsPlain n)
        (lacks-digits b':' (decimal n) refl (decimal-digits n))
      ∙ ap (host_of globs t) (parse_port_fixed n i)
  host_parse_normal h (normal t (pattern q) p l (i, j, k)) =
      host_parse_port t q p l i j ∙ ap (host_of globs t) (parse_port_pattern q k)

  -- Parsing what a parsed host is printed as gives that host, its port and its pattern included.
  pub host_parse_twice :
      (text : Text) → host_parse globs (host_parse globs text).as_string ≡ host_parse globs text
  host_parse_twice text = host_parse_normal (host_parse globs text) (host_parse-IsNormal text)

  IsNormal-no_slash : (h : Host Glob) → IsNormal h → lacks b'/' h.as_string ≡ true
  unfolding host_of host_to_string
  IsNormal-no_slash h (normal t Port.none p l i) = rw (append-nil t) p.no_slash
  IsNormal-no_slash h (normal t (fixed n) p l i) =
      (IsPlain-append t (codes ":" ++ decimal n) p
        (IsPlain-append (codes ":") (decimal n) colon-IsPlain (decimal-IsPlain n))).no_slash
  IsNormal-no_slash h (normal t (pattern q) p l (i, j, k)) =
      (IsPlain-append t (codes ":" ++ q) p (IsPlain-append (codes ":") q colon-IsPlain i)).no_slash

  -- A parsed host has no slash.
  pub host_parse-no_slash : (text : Text) → lacks b'/' (host_parse globs text).as_string ≡ true
  host_parse-no_slash text = IsNormal-no_slash (host_parse globs text) (host_parse-IsNormal text)
