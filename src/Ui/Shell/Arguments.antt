-- ===== src/Ui/Shell/Arguments.antt =====
-- kernel/shell.c: parse_args of words with one blank between them.
use trade_kernel.Base.{
  ℕ, zero, suc, ◌-◌, ◌<◌, ◌≤◌, ◌≡◌, refl, ap, false, List, [], ◌∷◌, ◌++◌, length, arith,
}
use trade_kernel.Ui.Shell.{parse_from, parse_args, max_args, skip_blank, split_token, is_blank}

abbrev pub IsWord : List ℕ → Type 0
IsWord [] = ⊥
IsWord (c ∷ []) = is_blank c ≡ false
IsWord (c ∷ d ∷ cs) = (is_blank c ≡ false) × IsWord (d ∷ cs)

abbrev pub AreWords : List (List ℕ) → Type 0
AreWords [] = Unit
AreWords (w ∷ ws) = IsWord w × AreWords ws

-- Each word with a blank behind it, the last one too
abbrev pub line_of : List (List ℕ) → List ℕ
line_of [] = []
line_of (w ∷ ws) = w ++ (32 ∷ line_of ws)

split_token-word : (w rest : List ℕ) → IsWord w → split_token (w ++ (32 ∷ rest)) ≡ (w, rest)
unfolding split_token
split_token-word [] rest h = absurd h
split_token-word (c ∷ []) rest h = rw h refl
split_token-word (c ∷ d ∷ cs) rest (f, h) = rw (split_token-word (d ∷ cs) rest h, f) refl

first_kept : (w rest : List ℕ) → IsWord w → skip_blank (w ++ rest) ≡ w ++ rest
unfolding skip_blank
first_kept [] rest h = absurd h
first_kept (c ∷ []) rest h = rw h refl
first_kept (c ∷ d ∷ cs) rest (f, h) = rw f refl

parse_from-line_of :
    (n : ℕ) (ws : List (List ℕ)) → AreWords ws → length ws ≤ n → parse_from n (line_of ws) ≡ ws
unfolding parse_from
parse_from-line_of zero [] a h = refl
parse_from-line_of zero (w ∷ ws) a h = absurd (omega arith)
parse_from-line_of (suc n) [] a h = unfold skip_blank in refl
parse_from-line_of (suc n) ([] ∷ ws) (i, a) h = absurd i
parse_from-line_of (suc n) ((c ∷ cs) ∷ ws) (i, a) h =
    rw
      (
        first_kept (c ∷ cs) (32 ∷ line_of ws) i,
        parse_from,
        split_token-word (c ∷ cs) (line_of ws) i,
      )
      (ap (◌∷◌ (c ∷ cs)) (parse_from-line_of n ws a (omega arith)))

-- At most 15 words, none of them empty and with a blank behind each, are the arguments in their order.
pub parse_args-line_of :
    (ws : List (List ℕ)) → AreWords ws → length ws < max_args → parse_args (line_of ws) ≡ ws
parse_args-line_of ws a h = parse_from-line_of (max_args - 1) ws a (omega arith)
