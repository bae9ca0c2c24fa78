-- ===== src/Modules/Packages/Decode.antt =====
-- The two decoders of the program.
use miniweb.Prelude.{
  ℕ, ◌+◌, ◌≡◌, refl, true, Option, none, some, [], ◌∷◌, Bytes, ◌==◌, leb, arith, Bool-cases,
  Option-cases, inl, inr, is_some,
}
use miniweb.Http.Utils.{hex_pair, plus_to_space, put, url_decode_from, url_decode}
use miniweb.Modules.Packages.{url_decode_into_from, url_decode_into}

put_mono :
    (o : Option ℕ) (r r' : Option Bytes) (t : Bytes)
    → ((u : Bytes) → r ≡ some u → r' ≡ some u)
    → put o r ≡ some t
    → put o r' ≡ some t
put_mono none r r' t h e = cc
put_mono (some c) none r' t h e = cc
put_mono (some c) (some u) r' t h e = rw (h u refl) e

escape-known :
    (d e : ℕ) (r : Option Bytes) (t : Bytes)
    → put (hex_pair d e) r ≡ some t
    → is_some (hex_pair d e) ≡ true
escape-known d e r t h = elim (Option-cases (hex_pair d e)) [
  | inl missing ↦ absurd (ground (arith, missing))
  | inr (b, y) ↦ rw y refl
]

from-agrees :
    (n out : ℕ) (s t : Bytes)
    → url_decode_from n out s ≡ some t
    → url_decode_into_from n out s ≡ some t
unfolding url_decode_from url_decode_into_from
from-agrees n out [] t h = h
from-agrees n out (c ∷ []) t h = ground arith
from-agrees n out (c ∷ d ∷ []) t h = elim (Bool-cases (leb n (out + 1))) [
  | inl full ↦ absurd (ground (arith, full))
  | inr room ↦
      rw (room, url_decode_into_from)
        (put_mono (some (plus_to_space c)) _ _ t (λ u. from-agrees n (out + 1) (d ∷ []) u)
          (ground (arith, room)))
]
from-agrees n out (c ∷ d ∷ e ∷ s) t h = elim (Bool-cases (leb n (out + 1))) [
  | inl full ↦ absurd (ground (arith, full))
  | inr room ↦ elim (Bool-cases (c == b'%')) [
    | inl percent ↦
        let read : put (hex_pair d e) (url_decode_from n (out + 1) s) ≡ some t =
          ground (arith, room, percent) in
        rw (room, percent, escape-known d e _ t read, url_decode_into_from)
          (put_mono _ _ _ t (λ u. from-agrees n (out + 1) s u) read)
    | inr other ↦
        rw (room, other, url_decode_into_from)
          (put_mono (some (plus_to_space c)) _ _ t (λ u. from-agrees n (out + 1) (d ∷ e ∷ s) u)
            (ground (arith, room, other)))
  ]
]

-- Where the server's `url_decode` succeeds, the module's own decoder writes the same.
pub url_decode_into-agrees :
    (src : Option Bytes) (n : ℕ) (t : Bytes)
    → url_decode src n ≡ some t
    → url_decode_into src n ≡ some t
unfolding url_decode url_decode_into
url_decode_into-agrees none n t h = cc
url_decode_into-agrees (some s) n t h = ground (arith, from-agrees n 0 s t)
