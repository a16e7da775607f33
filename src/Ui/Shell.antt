-- ===== src/Ui/Shell.antt =====
-- kernel/shell.c: the line editor, the split of a line into arguments and the search of the command. The commands
-- themselves print what other components compute.
pub mod Editing
pub mod Arguments
use trade_kernel.Base.{
  ℕ, zero, suc, ◌+◌, ◌-◌, Bool, true, false, ◌&&◌, ◌||◌, List, [], ◌∷◌, ◌++◌, Option, none, some,
  if◌then◌else◌, ltb, leb, ◌==◌, length, take, drop,
}

abbrev pub max_command_length : ℕ
max_command_length = 256

abbrev pub max_args : ℕ
max_args = 16

-- command_buffer up to buffer_pos
pub record Shell : Type 0 where
  pub buffer : List ℕ

unfoldable pub shell_init : Shell
shell_init = record { buffer = [] }

abbrev pub is_newline : ℕ → Bool
is_newline c = c == 10 || c == 13

-- The line that is executed, if the character ends one, and the state behind it
unfoldable pub shell_process_input : ℕ → Shell → Option (List ℕ) × Shell
shell_process_input c s =
    if is_newline c
    then (if ltb 0 (length s.buffer) then some s.buffer else none, record { buffer = [] })
    else (if c == 8
        then (none, record { buffer = take (length s.buffer - 1) s.buffer })
        else (if leb 32 c && leb c 126 && ltb (length s.buffer) (max_command_length - 1)
            then (none, record { buffer = s.buffer ++ (c ∷ []) })
            else (none, s)))

abbrev pub add_line : Option (List ℕ) → List (List ℕ) × Shell → List (List ℕ) × Shell
add_line none later = later
add_line (some line) (lines, s) = (line ∷ lines, s)

-- The lines that are executed while the characters are typed
unfoldable pub shell_inputs : List ℕ → Shell → List (List ℕ) × Shell
shell_inputs [] s = ([], s)
shell_inputs (c ∷ cs) s =
    let (line, t) = shell_process_input c s in add_line line (shell_inputs cs t)

-- `*token == ' ' || *token == '\t'`
abbrev pub is_blank : ℕ → Bool
is_blank c = c == 32 || c == 9

unfoldable pub skip_blank : List ℕ → List ℕ
skip_blank [] = []
skip_blank (c ∷ cs) = let rest = skip_blank cs in if is_blank c then rest else c ∷ cs

-- A token, and what stands behind the blank that ends it
unfoldable pub split_token : List ℕ → List ℕ × List ℕ
split_token [] = ([], [])
split_token (c ∷ cs) =
    let (token, rest) = split_token cs in if is_blank c then ([], cs) else (c ∷ token, rest)

unfoldable pub parse_from : ℕ → List ℕ → List (List ℕ)
parse_from zero text = []
parse_from (suc args) text = elim (skip_blank text) [
  | [] ↦ []
  | c ∷ cs ↦ let (token, rest) = split_token (c ∷ cs) in token ∷ parse_from args rest
]

abbrev pub parse_args : List ℕ → List (List ℕ)
parse_args text = parse_from (max_args - 1) text

-- `shell_strcmp(a, b) == 0`
unfoldable pub same_text : List ℕ → List ℕ → Bool
same_text [] [] = true
same_text [] (b ∷ bs) = false
same_text (a ∷ xs) [] = false
same_text (a ∷ xs) (b ∷ bs) = let rest = same_text xs bs in if a == b then rest else false

-- The names of the table, in its order
abbrev pub command_names : List (List ℕ)
command_names =
    -- help
    (104 ∷ 101 ∷ 108 ∷ 112 ∷ [])
    ∷
        -- clear
        (99 ∷ 108 ∷ 101 ∷ 97 ∷ 114 ∷ [])
    ∷
        -- info
        (105 ∷ 110 ∷ 102 ∷ 111 ∷ [])
    ∷
        -- mem
        (109 ∷ 101 ∷ 109 ∷ [])
    ∷
        -- memstats
        (109 ∷ 101 ∷ 109 ∷ 115 ∷ 116 ∷ 97 ∷ 116 ∷ 115 ∷ [])
    ∷
        -- memleak
        (109 ∷ 101 ∷ 109 ∷ 108 ∷ 101 ∷ 97 ∷ 107 ∷ [])
    ∷
        -- memcheck
        (109 ∷ 101 ∷ 109 ∷ 99 ∷ 104 ∷ 101 ∷ 99 ∷ 107 ∷ [])
    ∷
        -- pgstats
        (112 ∷ 103 ∷ 115 ∷ 116 ∷ 97 ∷ 116 ∷ 115 ∷ [])
    ∷
        -- ps
        (112 ∷ 115 ∷ [])
    ∷
        -- schedstat
        (115 ∷ 99 ∷ 104 ∷ 101 ∷ 100 ∷ 115 ∷ 116 ∷ 97 ∷ 116 ∷ [])
    ∷
        -- procinfo
        (112 ∷ 114 ∷ 111 ∷ 99 ∷ 105 ∷ 110 ∷ 102 ∷ 111 ∷ [])
    ∷
        -- testfork
        (116 ∷ 101 ∷ 115 ∷ 116 ∷ 102 ∷ 111 ∷ 114 ∷ 107 ∷ [])
    ∷
        -- testipc
        (116 ∷ 101 ∷ 115 ∷ 116 ∷ 105 ∷ 112 ∷ 99 ∷ [])
    ∷
        -- msgtest
        (109 ∷ 115 ∷ 103 ∷ 116 ∷ 101 ∷ 115 ∷ 116 ∷ [])
    ∷
        -- ls
        (108 ∷ 115 ∷ [])
    ∷
        -- mkdir
        (109 ∷ 107 ∷ 100 ∷ 105 ∷ 114 ∷ [])
    ∷
        -- touch
        (116 ∷ 111 ∷ 117 ∷ 99 ∷ 104 ∷ [])
    ∷
        -- rm
        (114 ∷ 109 ∷ [])
    ∷
        -- cat
        (99 ∷ 97 ∷ 116 ∷ [])
    ∷
        -- cp
        (99 ∷ 112 ∷ [])
    ∷
        -- mv
        (109 ∷ 118 ∷ [])
    ∷
        -- desktop
        (100 ∷ 101 ∷ 115 ∷ 107 ∷ 116 ∷ 111 ∷ 112 ∷ [])
    ∷
        -- fbinfo
        (102 ∷ 98 ∷ 105 ∷ 110 ∷ 102 ∷ 111 ∷ [])
    ∷
        -- fbdemo
        (102 ∷ 98 ∷ 100 ∷ 101 ∷ 109 ∷ 111 ∷ [])
    ∷
        -- reboot
        (114 ∷ 101 ∷ 98 ∷ 111 ∷ 111 ∷ 116 ∷ [])
    ∷
        -- wstest
        (119 ∷ 115 ∷ 116 ∷ 101 ∷ 115 ∷ 116 ∷ [])
    ∷ []

unfoldable pub find_command : List ℕ → List (List ℕ) → ℕ → Option ℕ
find_command name [] i = none
find_command name (n ∷ ns) i =
    let rest = find_command name ns (i + 1) in if same_text name n then some i else rest

-- What shell_execute_command runs: the place of the command in the table and its arguments
unfoldable pub shell_execute_command : List ℕ → Option (ℕ × List (List ℕ))
shell_execute_command line = elim (parse_args line) [
  | [] ↦ none
  | name ∷ args ↦ elim (find_command name command_names 0) [
    | none ↦ none
    | some i ↦ some (i, name ∷ args)
  ]
]
