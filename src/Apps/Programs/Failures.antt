-- ===== src/Apps/Programs/Failures.antt =====
-- The exceptions of calls that a program makes in turn.
use icelander.Prelude.{List, [], ◌∷◌, Option, none, some, Error}

-- The one that is thrown.
abbrev pub first_failure : List (Option Error) → Option Error
first_failure [] = none
first_failure (none ∷ rest) = first_failure rest
first_failure (some x ∷ rest) = some x
