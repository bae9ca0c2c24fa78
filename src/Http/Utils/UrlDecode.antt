-- ===== src/Http/Utils/UrlDecode.antt =====
-- `url_decode` against a grammar of encoded text.
use miniweb.Prelude.{ℕ, ◌+◌, ◌<◌, ◌≡◌, ◌≢◌, some, [], ◌∷◌, Bytes, length}
use miniweb.Http.Utils.{hex_pair, plus_to_space}

-- `Decodes s t`: the encoded text `s` stands for `t`.
pub data Decodes : Bytes → Bytes → Type 0 where
  end : Decodes [] []
  plain : {c : ℕ} {s t : Bytes} → c ≢ b'%' → Decodes s t → Decodes (c ∷ s) (plus_to_space c ∷ t)
  escape :
      {d e b : ℕ} {s t : Bytes}
      → hex_pair d e ≡ some b
      → Decodes s t
      → Decodes (b'%' ∷ d ∷ e ∷ s) (b ∷ t)

-- What one call yields: a reading of the text that leaves room for the NUL.
abbrev Reads : ℕ → ℕ → Bytes → Bytes → Type 0
Reads n out s t = Decodes s t × (out + length t < n)
