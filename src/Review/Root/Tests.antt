-- ===== src/Review/Root/Tests.antt =====
-- The root of a small tree, and the theorem about it.
use kurrent.Base.{
  Bool, Option, String, arith, eq_of_beq, if◌then◌else◌, subst, sym, true, as_bytes, false, length,
  none, refl, some, string_eq, ◌<◌, ◌==◌, ◌≡◌,
}
use kurrent.Review.Root.{Finds, ParentShorter, Paths, or_current_dir, root, root_ends, search}

-- The program stands in "/r/b", and "/r" is the repository.
abbrev parent_of : String → Option String
parent_of path =
    if path == "/r/b/k" then some "/r/b" else (if path == "/r/b" then some "/r" else none)

abbrev paths : Paths
paths = record {
  current_exe = some "/r/b/k";
  current_dir = some "/w";
  parent = parent_of;
  join = λ directory name. directory;
  exists = λ path. path == "/r";
}

root_run : root paths ≡ some "/r"
unfolding root search as_bytes
root_run = refl

-- Two texts of known lengths.
shorter :
    (cursor parent big small : String)
    → cursor ≡ big
    → some small ≡ some parent
    → length (as_bytes small) < length (as_bytes big)
    → length (as_bytes parent) < length (as_bytes cursor)
shorter cursor parent big small p q h =
    let same : small ≡ parent = cc in
    subst (λ s. length (as_bytes s) < length (as_bytes cursor)) same
      (subst (λ s. length (as_bytes small) < length (as_bytes s)) (sym p) h)

paths-ParentShorter : ParentShorter paths
unfolding as_bytes
paths-ParentShorter cursor parent e = by_tests (cursor == "/r/b/k") (cursor == "/r/b") refl refl e
  where
    by_tests :
        (b c : Bool)
        → (cursor == "/r/b/k") ≡ b
        → (cursor == "/r/b") ≡ c
        → (if b then some "/r/b" else (if c then some "/r" else none)) ≡ some parent
        → length (as_bytes parent) < length (as_bytes cursor)
    by_tests true c p q e = shorter cursor parent "/r/b/k" "/r/b" (eq_of_beq _ _ p) e (omega arith)
    by_tests false true p q e = shorter cursor parent "/r/b" "/r" (eq_of_beq _ _ q) e (omega arith)
    by_tests false false p q e = cc

root_ends_example :
    (found : Option String) × Finds paths "/r/b/k" found × (root paths ≡ or_current_dir paths found)
root_ends_example = root_ends paths paths-ParentShorter "/r/b/k" refl
