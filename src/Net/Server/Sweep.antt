-- ===== src/Net/Server/Sweep.antt =====
-- What the sweep over the idle connections closes.
use miniweb.Prelude.{ℕ, Bool, false, ◌||◌, List, [], ◌∷◌, ◌==◌}

has : ℕ → List ℕ → Bool
has g [] = false
has g (fd ∷ fds) = fd == g || has g fds
