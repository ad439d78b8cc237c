-- ===== src/Review/Root.antt =====
-- `root` of src/bin/kurrentctl.rs: the repository's directory, above the running program.
use kurrent.Base.{
  Bool, Option, String, ap, as_bytes, arith, false, if◌then◌else◌, length, none, refl, some, suc,
  true, zero, ℕ, ◌+◌, ◌<◌, ◌&&◌, ◌≡◌, ◌≤◌,
}
mod Tests

-- What `root` asks of the machine: where the program is, the working directory, and paths.
pub record Paths : Type 0 where
  pub current_exe : Option String
  pub current_dir : Option String
  pub parent : String → Option String
  pub join : String → String → String
  pub exists : String → Bool

module _ (p : Paths) where
  abbrev pub is_root : String → Bool
  is_root directory =
      p.exists (p.join directory "Cargo.toml") && p.exists (p.join directory "scripts")

  -- The `while let` loop, for so many rounds.
  unfoldable pub search : ℕ → String → Option String
  search zero cursor = none
  search (suc fuel) cursor = elim (p.parent cursor) [
    | none ↦ none
    | some parent ↦
        let further = search fuel parent in if is_root parent then some parent else further
  ]

  -- The `and_then` on the program's path: one round for each byte of it, and one more.
  abbrev pub search_from : Option String → Option String
  search_from none = none
  search_from (some exe) = search (length (as_bytes exe) + 1) exe

  -- `or_else` with the working directory.
  abbrev pub or_current_dir : Option String → Option String
  or_current_dir none = p.current_dir
  or_current_dir (some directory) = some directory

  unfoldable pub root : Option String
  root = or_current_dir (search_from p.current_exe)

  -- How the loop ends: without a further parent, or at the first parent that is the repository.
  pub data Finds : String → Option String → Type 0 where
    at_top : (cursor : String) → p.parent cursor ≡ none → Finds cursor none
    at_root :
        (cursor parent : String)
        → p.parent cursor ≡ some parent
        → is_root parent ≡ true
        → Finds cursor (some parent)
    further :
        (cursor parent : String) (found : Option String)
        → p.parent cursor ≡ some parent
        → is_root parent ≡ false
        → Finds parent found
        → Finds cursor found

  -- A parent is a shorter path, as `Path::parent` documents.
  abbrev pub ParentShorter : Type 0
  ParentShorter =
      (cursor parent : String)
      → p.parent cursor ≡ some parent
      → length (as_bytes parent) < length (as_bytes cursor)

  step :
      (fuel : ℕ) (cursor : String) (o : Option String)
      → p.parent cursor ≡ o
      → ((parent : String) → o ≡ some parent → Finds parent (search fuel parent))
      → Finds cursor (elim o [
        | none ↦ none
        | some parent ↦ if is_root parent then some parent else search fuel parent
      ])
  step fuel cursor none e h = at_top cursor e
  step fuel cursor (some parent) e h = branch (is_root parent) refl
    where
      branch :
          (b : Bool)
          → is_root parent ≡ b
          → Finds cursor (if b then some parent else search fuel parent)
      branch true t = at_root cursor parent e t
      branch false t = further cursor parent (search fuel parent) e t (h parent refl)

  search_ends :
      ParentShorter
      → (fuel : ℕ) (cursor : String) → length (as_bytes cursor) < fuel
      → Finds cursor (search fuel cursor)
  unfolding search
  search_ends shorter zero cursor h = absurd (omega arith)
  search_ends shorter (suc fuel) cursor h =
      step fuel cursor (p.parent cursor) refl
        λ parent e. search_ends shorter fuel parent (let s = shorter cursor parent e in omega arith)

  -- Where a parent is a shorter path, the loop of `root` ends within its rounds: at the program's
  -- first ancestor that is the repository, which is then the root, or at the top, and then the
  -- working directory is the root.
  pub root_ends :
      ParentShorter
      → (exe : String) → p.current_exe ≡ some exe
      → (found : Option String) × Finds exe found × (root ≡ or_current_dir found)
  unfolding root
  root_ends shorter exe e = (
    search (length (as_bytes exe) + 1) exe,
    search_ends shorter (length (as_bytes exe) + 1) exe (omega arith),
    ap (λ o. or_current_dir (search_from o)) e,
  )
