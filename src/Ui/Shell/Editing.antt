-- ===== src/Ui/Shell/Editing.antt =====
-- kernel/shell.c: lines that are typed with corrections.
use trade_kernel.Base.{
  ℕ, ◌+◌, ◌-◌, ◌<◌, ◌≤◌, ◌≡◌, ◌∙◌, refl, ap, true, false, ◌&&◌, List, [], ◌∷◌, ◌++◌, append_assoc,
  append-nil, none, some, ltb, leb, ◌==◌, length, length-append, take, arith,
}
use trade_kernel.Ui.Shell.{shell_process_input, shell_inputs, is_newline}

-- A character that is meant, or one that is taken back
pub data Key : Type 0 where
  key typo : ℕ → Key

abbrev pub bytes_of : List Key → List ℕ
bytes_of [] = []
bytes_of (key c ∷ ks) = c ∷ bytes_of ks
bytes_of (typo c ∷ ks) = c ∷ 8 ∷ bytes_of ks

abbrev pub text_of : List Key → List ℕ
text_of [] = []
text_of (key c ∷ ks) = c ∷ text_of ks
text_of (typo c ∷ ks) = text_of ks

abbrev pub IsPrintable : ℕ → Type 0
IsPrintable c = (32 ≤ c) × (c ≤ 126)

abbrev pub ArePrintable : List Key → Type 0
ArePrintable [] = Unit
ArePrintable (key c ∷ ks) = IsPrintable c × ArePrintable ks
ArePrintable (typo c ∷ ks) = IsPrintable c × ArePrintable ks

printed :
    (c : ℕ) (b : List ℕ)
    → IsPrintable c
    → length b < 255
    → shell_process_input c (record { buffer = b }) ≡ (none, record { buffer = b ++ (c ∷ []) })
unfolding shell_process_input
printed c b (lo, hi) room =
    let n : is_newline c ≡ false = ground arith in
    let e : (c == 8) ≡ false = ground arith in
    let p : (leb 32 c && leb c 126 && ltb (length b) 255) ≡ true = ground arith in rw (n, e, p) refl

ended :
    (b : List ℕ)
    → 0 < length b
    → shell_process_input 10 (record { buffer = b }) ≡ (some b, record { buffer = [] })
unfolding shell_process_input
ended b h = let e : ltb 0 (length b) ≡ true = ground arith in rw e refl

take_front : (b : List ℕ) (c : ℕ) → take (length b) (b ++ (c ∷ [])) ≡ b
take_front [] c = refl
take_front (x ∷ xs) c = ap (◌∷◌ x) (take_front xs c)

taken_back :
    (c : ℕ) (b : List ℕ)
    → shell_process_input 8 (record { buffer = b ++ (c ∷ []) }) ≡ (none, record { buffer = b })
unfolding shell_process_input
taken_back c b =
    let n : length (b ++ (c ∷ [])) - 1 ≡ length b = omega (arith, length-append b (c ∷ [])) in
    ap (λ k. (none, record { buffer = take k (b ++ (c ∷ [])) })) n
    ∙ ap (λ x. (none, record { buffer = x })) (take_front b c)

-- Printable characters, some of them taken back by a backspace at once, and a newline: what is executed is the text that
-- was meant, behind what stood in the buffer, and the line editor starts again with an empty buffer. The
-- text has at most 254 characters, and is not empty.
pub shell_inputs-text_of :
    (ks : List Key) (rest b : List ℕ)
    → ArePrintable ks
    → length b + length (text_of ks) < 255
    → 0 < length b + length (text_of ks)
    → let (lines, t) = shell_inputs rest (record { buffer = [] }) in
      shell_inputs (bytes_of ks ++ (10 ∷ rest)) (record { buffer = b })
      ≡ ((b ++ text_of ks) ∷ lines, t)
unfolding shell_inputs
shell_inputs-text_of [] rest b p room some_text = rw (ended b (omega arith), append-nil b) refl
shell_inputs-text_of (key c ∷ ks) rest b (q, p) room some_text =
    let n = length-append b (c ∷ []) in
    rw (printed c b q (omega arith)) (
      shell_inputs-text_of ks rest (b ++ (c ∷ [])) p (omega (arith, n)) (omega (arith, n))
      ∙ ap
          (λ l. (
            l ∷ (shell_inputs rest (record { buffer = [] })).0,
            (shell_inputs rest (record { buffer = [] })).1,
          ))
          (append_assoc b (c ∷ []) (text_of ks)))
shell_inputs-text_of (typo c ∷ ks) rest b (q, p) room some_text =
    rw (printed c b q (omega arith), taken_back c b)
      (shell_inputs-text_of ks rest b p room some_text)
