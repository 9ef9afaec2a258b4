-- ===== src/Vfs/Split.antt =====
-- strsplit (common/cstd.c) on the texts between the delimiters, in place of pointers into the text.
use ko.Base.{ℕ, zero, suc, ◌+◌, if◌then◌else◌, List, [], ◌∷◌, length, has}
use ko.Base.Run.{Run, done, panic, out_of_fuel, ◌>>=◌}

-- `while (*str && strchr (delim, *str)) str++;`
unfoldable pub skip_delimiters : List ℕ → List ℕ → List ℕ
skip_delimiters delim [] = []
skip_delimiters delim (c ∷ cs) =
    let rest = skip_delimiters delim cs in if has c delim then rest else c ∷ cs

-- `while (*str && !strchr (delim, *str)) str++;`: the token, and what is from there on.
unfoldable pub token : List ℕ → List ℕ → List ℕ
token delim [] = []
token delim (c ∷ cs) = let rest = token delim cs in if has c delim then [] else c ∷ rest

unfoldable pub behind_token : List ℕ → List ℕ → List ℕ
behind_token delim [] = []
behind_token delim (c ∷ cs) =
    let rest = behind_token delim cs in if has c delim then c ∷ cs else rest

-- The loop of strsplit. strchr finds the end of the text too, so the loop that skips delimiters runs
-- out of a text that ends in a delimiter; that is `panic`.
unfoldable pub split_loop : ℕ → List ℕ → ℕ → List ℕ → Run (List (List ℕ))
split_loop zero delim room str = out_of_fuel
split_loop (suc rounds) delim room [] = done []
split_loop (suc rounds) delim zero (c ∷ cs) = done []
split_loop (suc rounds) delim (suc room) (c ∷ cs) = elim (behind_token delim (c ∷ cs)) [
  | [] ↦ done (token delim (c ∷ cs) ∷ [])
  | d ∷ ds ↦ elim (skip_delimiters delim ds) [
    | [] ↦ panic
    | e ∷ es ↦
        split_loop rounds delim room (e ∷ es) >>= λ tokens. done (token delim (c ∷ cs) ∷ tokens)
  ]
]

unfoldable pub strsplit : List ℕ → List ℕ → ℕ → Run (List (List ℕ))
strsplit str delim maxtoken = split_loop (length str + 1) delim maxtoken (skip_delimiters delim str)
