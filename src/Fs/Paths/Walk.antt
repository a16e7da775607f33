-- ===== src/Fs/Paths/Walk.antt =====
-- kernel/fs/fs.c: resolve_path against a walk over the list of the components.
use trade_kernel.Base.{
  ℕ, zero, suc, ◌<◌, ◌≡◌, ◌≢◌, refl, inl, inr, List, [], ◌∷◌, ◌++◌, Option, none, some, ne→==,
  length, length-append, Option-cases, arith,
}
use trade_kernel.Fs.Inodes.{Volume}
use trade_kernel.Fs.Paths.{
  resolve_path, resolve_from, find_component, until_slash, skip_slash, slash, root_inode,
}

-- The path with these components
abbrev pub path_of : List (List ℕ) → List ℕ
path_of [] = []
path_of (n ∷ ns) = slash ∷ (n ++ path_of ns)

-- Each component is looked up in the directory that the components before it lead to.
unfoldable pub walk : List ℕ → List (List ℕ) → ℕ → Volume → Option ℕ
walk stack [] current v = some current
walk stack (n ∷ ns) current v = elim (find_component stack current n v) [
  | none ↦ none
  | some e ↦ walk stack ns e.inode_num v
]

abbrev pub HasNoSlash : List ℕ → Type 0
HasNoSlash [] = Unit
HasNoSlash (c ∷ cs) = (c ≢ slash) × HasNoSlash cs

abbrev pub AreNames : List (List ℕ) → Type 0
AreNames [] = Unit
AreNames (n ∷ ns) = (0 < length n) × HasNoSlash n × AreNames ns

until_slash-name :
    (n : List ℕ) (ns : List (List ℕ))
    → HasNoSlash n
    → until_slash (n ++ path_of ns) ≡ (n, path_of ns)
unfolding until_slash
until_slash-name [] [] h = refl
until_slash-name [] (m ∷ ms) h = refl
until_slash-name (c ∷ cs) ns (ne, h) = rw (until_slash-name cs ns h, ne→== c slash ne) refl

-- One round of the loop, for a name that is not empty
resolve_name :
    (stack : List ℕ) (fuel current c : ℕ) (cs : List ℕ) (ns : List (List ℕ)) (v : Volume)
    → HasNoSlash (c ∷ cs)
    → ((d : ℕ) → resolve_from stack fuel d (skip_slash (path_of ns)) v ≡ walk stack ns d v)
    → resolve_from stack (suc fuel) current (c ∷ (cs ++ path_of ns)) v
      ≡ walk stack ((c ∷ cs) ∷ ns) current v
unfolding resolve_from walk
resolve_name stack fuel current c cs ns v p next =
    elim (Option-cases (find_component stack current (c ∷ cs) v)) [
      | inl e ↦ rw (until_slash-name (c ∷ cs) ns p, e, resolve_from, walk) refl
      | inr (d, e) ↦
          rw (until_slash-name (c ∷ cs) ns p, e, resolve_from, walk, until_slash-name (c ∷ cs) ns p)
            (next d.inode_num)
    ]

resolve_names :
    (stack : List ℕ) (fuel current : ℕ) (n : List ℕ) (ns : List (List ℕ)) (v : Volume)
    → AreNames (n ∷ ns)
    → length (n ++ path_of ns) < fuel
    → resolve_from stack fuel current (n ++ path_of ns) v ≡ walk stack (n ∷ ns) current v
resolve_names stack zero current n ns v h low = absurd (omega arith)
resolve_names stack (suc fuel) current [] ns v (s, p, h) low = absurd (omega arith)
resolve_names stack (suc zero) current (c ∷ cs) ns v (s, p, h) low = absurd (omega arith)
resolve_names stack (suc (suc fuel)) current (c ∷ cs) [] v (s, p, h) low =
    resolve_name stack (suc fuel) current c cs [] v p (λ d. unfold resolve_from walk in refl)
resolve_names stack (suc (suc fuel)) current (c ∷ cs) (m ∷ ms) v (s, p, h) low =
    resolve_name stack (suc fuel) current c cs (m ∷ ms) v p (λ d.
      resolve_names stack (suc fuel) d m ms v h
        (omega (arith, length-append cs (path_of (m ∷ ms)))))

-- The fuel is enough: a path of one or more names, each with a slash in front, resolves to what a walk over the
-- names from the root gives. Names are not empty and hold no slash.
pub resolve_path-walk :
    (stack n : List ℕ) (ns : List (List ℕ)) (v : Volume)
    → AreNames (n ∷ ns)
    → resolve_path stack (path_of (n ∷ ns)) v ≡ walk stack (n ∷ ns) root_inode v
unfolding resolve_path
resolve_path-walk stack n ns v h =
    resolve_names stack (suc (length (n ++ path_of ns))) root_inode n ns v h (omega arith)
