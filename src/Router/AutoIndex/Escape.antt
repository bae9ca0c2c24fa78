-- ===== src/Router/AutoIndex/Escape.antt =====
-- The escaped text: its length, its bytes, and how to read it back.
use miniweb.Prelude.{
  ℕ, zero, suc, ◌≡◌, ◌≢◌, refl, Option, none, some, List, [], ◌∷◌, ◌++◌, Bytes, codes, strip_prefix,
  ◌==◌, length, length-append, All, arith, Bool-cases, inl, inr,
}
use miniweb.Router.AutoIndex.{escaped_size, escaped_len, escape_byte, escape_all}

length-escape_byte : (c : ℕ) → length (escape_byte c) ≡ escaped_size c
unfolding escape_byte escaped_size
length-escape_byte c = ground arith

-- The block that the first loop sizes is the one that the second fills.
pub length-escape_all : (s : Bytes) → length (escape_all s) ≡ escaped_len s
unfolding escape_all escaped_len escape_byte
length-escape_all [] = refl
length-escape_all (c ∷ s) =
    omega (
      arith,
      length-append (escape_byte c) (escape_all s),
      length-escape_all s,
      length-escape_byte c,
    )

-- A byte that cannot end a text or a quoted attribute, nor start a tag.
abbrev pub IsInert : ℕ → Type 0
IsInert c = (c ≢ b'<') × (c ≢ b'>') × (c ≢ b'"')

All-append : {A : Type 0} (P : A → Type 0) (xs ys : List A) → All P xs → All P ys → All P (xs ++ ys)
All-append P [] ys h k = k
All-append P (x ∷ xs) ys h k = (h.0, All-append P xs ys h.1 k)

escape_byte-IsInert : (c : ℕ) → All IsInert (escape_byte c)
unfolding escape_byte
escape_byte-IsInert c = elim (Bool-cases (c == b'&')) [
  | inl e ↦ rw e (omega arith)
  | inr amp ↦ rw amp (elim (Bool-cases (c == b'<')) [
    | inl e ↦ rw e (omega arith)
    | inr lt ↦ rw lt (elim (Bool-cases (c == b'>')) [
      | inl e ↦ rw e (omega arith)
      | inr gt ↦ rw gt (elim (Bool-cases (c == b'"')) [
        | inl e ↦ rw e (omega arith)
        | inr quot ↦ rw quot (
          (λ e. ground (arith, lt, e), λ e. ground (arith, gt, e), λ e. ground (arith, quot, e)),
          tt,
        )
      ])
    ])
  ])
]

pub escape_all-IsInert : (s : Bytes) → All IsInert (escape_all s)
unfolding escape_all
escape_all-IsInert [] = tt
escape_all-IsInert (c ∷ s) =
    All-append IsInert (escape_byte c) (escape_all s) (escape_byte-IsInert c) (escape_all-IsInert s)

-- What a browser reads at the front of an escaped text.
unescape_one : Bytes → Option (ℕ × Bytes)
unescape_one [] = none
unescape_one (c ∷ s) = elim (strip_prefix (codes "&amp;") (c ∷ s)) [
  | some rest ↦ some (b'&', rest)
  | none ↦ elim (strip_prefix (codes "&lt;") (c ∷ s)) [
    | some rest ↦ some (b'<', rest)
    | none ↦ elim (strip_prefix (codes "&gt;") (c ∷ s)) [
      | some rest ↦ some (b'>', rest)
      | none ↦ elim (strip_prefix (codes "&quot;") (c ∷ s)) [
        | some rest ↦ some (b'"', rest)
        | none ↦ some (c, s)
      ]
    ]
  ]
]

-- The first `n` characters.
pub unescape : ℕ → Bytes → Bytes
unescape zero t = []
unescape (suc n) t = elim (unescape_one t) [ none ↦ [] | some (c, rest) ↦ c ∷ unescape n rest ]
