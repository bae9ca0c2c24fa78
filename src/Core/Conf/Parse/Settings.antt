-- ===== src/Core/Conf/Parse/Settings.antt =====
-- What the code that reads a line makes of each key with its value.
use miniweb.Prelude.{◌==◌, ◌≡◌, ◌≢◌, Bool, true, not, ◌&&◌, [], ◌∷◌, Bytes, isspace}
use miniweb.Core.Conf.Parse.Setting.{Setting}

solid : Bytes → Bool
solid [] = true
solid (c ∷ s) = not (isspace c) && not (c == 0) && solid s

abbrev IsKey : Bytes → Type 0
IsKey [] = ⊥
IsKey (k ∷ key) = (k ≢ b'#') × (solid (k ∷ key) ≡ true)
