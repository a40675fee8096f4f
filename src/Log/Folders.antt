-- ===== src/Log/Folders.antt =====
-- `Init` of src/netter/simple_log.cpp makes the folders of its path.
use netter.Common.{
  ℕ, Bool, true, List, [], ◌∷◌, ◌++◌, if◌then◌else◌, ◌==◌, All, ◌≡◌, refl, subst, Returns,
  Returns-bind, Returns-mono, Bool-cases, inl, inr, arith,
}
use netter.Http.Handlers.{same_text_refl}
use netter.Log.{has_folder, make_folder, make_folders}

-- The parts of a path that end in '/', behind `parent_path`.
unfoldable pub parents : List ℕ → List ℕ → List (List ℕ)
parents parent_path [] = []
parents parent_path (ch ∷ rest) =
    let parent = parent_path ++ (ch ∷ []) in
    let later = parents parent rest in if ch == b'/' then parent ∷ later else later

-- No folder is lost.
abbrev Keeps : List (List ℕ) → List (List ℕ) → Type 0
Keeps folders folders' = (p : List ℕ) → has_folder p folders ≡ true → has_folder p folders' ≡ true

-- What is asked for at one byte.
abbrev wanted : ℕ → List ℕ → List (List ℕ)
wanted ch parent = if ch == b'/' then parent ∷ [] else []

has_folder-cons :
    (f p : List ℕ) (folders : List (List ℕ))
    → has_folder p folders ≡ true
    → has_folder p (f ∷ folders) ≡ true
unfolding has_folder
has_folder-cons f p folders h = ground (arith, h)

has_folder_self : (f : List ℕ) (folders : List (List ℕ)) → has_folder f (f ∷ folders) ≡ true
unfolding has_folder
has_folder_self f folders = rw (same_text_refl f) refl

-- What is there in a set of folders is there in a larger one.
All-Keeps :
    (folders folders' paths : List (List ℕ))
    → Keeps folders folders'
    → All (λ p. has_folder p folders ≡ true) paths
    → All (λ p. has_folder p folders' ≡ true) paths
All-Keeps folders folders' [] keeps all = tt
All-Keeps folders folders' (p ∷ paths) keeps (h, all) =
    (keeps p h, All-Keeps folders folders' paths keeps all)

module _ (can_make : List ℕ → Bool) (makes : (p : List ℕ) → can_make p ≡ true) where
  make_folder-Keeps :
      (ch : ℕ) (parent : List ℕ) (folders : List (List ℕ))
      → Returns
          (make_folder can_make ch parent folders)
          (λ fs. Keeps folders fs × All (λ p. has_folder p fs ≡ true) (wanted ch parent))
  unfolding make_folder has_folder
  make_folder-Keeps ch parent folders = elim (Bool-cases (ch == b'/')) [
    | inr other ↦ rw (other, make_folder) ((λ p h. h), tt)
    | inl slash ↦ elim (Bool-cases (has_folder parent folders)) [
      | inl there ↦ rw (slash, make_folder, there) ((λ p h. h), (there, tt))
      | inr missing ↦
          rw (slash, make_folder, missing, makes parent)
            ((λ p h. has_folder-cons parent p folders h), (has_folder_self parent folders, tt))
    ]
  ]

  make_folders-Keeps :
      (parent path : List ℕ) (folders : List (List ℕ))
      → Returns
          (make_folders can_make parent path folders)
          (λ fs. Keeps folders fs × All (λ p. has_folder p fs ≡ true) (parents parent path))
  unfolding make_folders parents
  make_folders-Keeps parent [] folders = ((λ p h. h), tt)
  make_folders-Keeps parent (ch ∷ rest) folders =
      let here = parent ++ (ch ∷ []) in
      Returns-bind (λ fs. Keeps folders fs × All (λ p. has_folder p fs ≡ true) (wanted ch here))
        (λ fs. Keeps folders fs × All (λ p. has_folder p fs ≡ true) (parents parent (ch ∷ rest)))
        (make_folder can_make ch here folders) _ (make_folder-Keeps ch here folders)
        (λ fs (kept, made).
          Returns-mono
            (λ fs'. Keeps fs fs' × All (λ p. has_folder p fs' ≡ true) (parents here rest))
            (λ fs'.
              Keeps folders fs' × All (λ p. has_folder p fs' ≡ true) (parents parent (ch ∷ rest)))
            (make_folders can_make here rest fs)
            (λ fs' (kept', later). (
              (λ p h. kept' p (kept p h)),
              both ch here rest fs' (All-Keeps fs fs' (wanted ch here) kept' made) later,
            ))
            (make_folders-Keeps here rest fs))
    where
      both :
          (ch : ℕ) (here rest : List ℕ) (fs : List (List ℕ))
          → All (λ p. has_folder p fs ≡ true) (wanted ch here)
          → All (λ p. has_folder p fs ≡ true) (parents here rest)
          → All
              (λ p. has_folder p fs ≡ true)
              (if ch == b'/' then here ∷ parents here rest else parents here rest)
      both ch here rest fs made later = elim (Bool-cases (ch == b'/')) [
        | inl slash ↦
            let made' : All (λ p. has_folder p fs ≡ true) (here ∷ []) =
              subst (λ b. All (λ p. has_folder p fs ≡ true) (if b then here ∷ [] else [])) slash
                made in
            rw slash (made'.0, later)
        | inr other ↦ rw other later
      ]

  -- After the loop of `Init` each part of the path that ends in '/' is a folder.
  pub make_folders-parents :
      (path : List ℕ) (folders : List (List ℕ))
      → Returns
          (make_folders can_make [] path folders)
          (λ fs. All (λ p. has_folder p fs ≡ true) (parents [] path))
  make_folders-parents path folders =
      Returns-mono (λ fs. Keeps folders fs × All (λ p. has_folder p fs ≡ true) (parents [] path)) _
        (make_folders can_make [] path folders) (λ fs kept_all. kept_all.1)
        (make_folders-Keeps [] path folders)
