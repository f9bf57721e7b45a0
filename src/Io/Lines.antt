-- ===== src/Io/Lines.antt =====
-- The line and the column in the message of an exception.
use mopa.Base.{ℕ, ◌≢◌, List, [], ◌∷◌, ◌++◌}
use mopa.Io.Info.{Info}

-- No character of the line is a newline.
unfoldable pub IsLine : List ℕ → Type 0
IsLine [] = Unit
IsLine (c ∷ cs) = (c ≢ 10) × IsLine cs

unfoldable pub AllLines : List (List ℕ) → Type 0
AllLines [] = Unit
AllLines (l ∷ ls) = IsLine l × AllLines ls

-- The lines, each with its newline.
unfoldable pub unlines : List (List ℕ) → List ℕ
unlines [] = []
unlines (l ∷ ls) = l ++ 10 ∷ unlines ls
