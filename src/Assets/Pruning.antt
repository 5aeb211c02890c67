-- ===== src/Assets/Pruning.antt =====
-- How a cache is held to its budget (prune_directory, is_temporary_name). A removal succeeds.
use mathlib.Core.Path.{subst}
use omarchy_whatsapp.Prelude.{
  Bool, Bool-cases, List, Option, [], arith, false, if◌then◌else◌, inl, inr, leb, none, refl, some,
  true, ℕ, ◌*◌, ◌+◌, ◌++◌, ◌-◌, ◌||◌, ◌∙◌, ◌∷◌, ◌≡◌, ◌≤◌, ◌⊎◌,
}
use omarchy_whatsapp.Prelude.Bytes.{starts_with}
use omarchy_whatsapp.Prelude.Int.{ltb_ℤ, ℤ}
use omarchy_whatsapp.Prelude.Table.{All, delete_where, exists_where, select_where}
use omarchy_whatsapp.Prelude.Table.Every.{All-delete}
use omarchy_whatsapp.Assets.{ascii, same_bytes}

-- MAX_MEDIA_CACHE_BYTES
abbrev pub max_media_cache_bytes : ℕ
max_media_cache_bytes = 256 * 1024 * 1024

pub record CachedFile : Type 0 where
  pub name : List ℕ
  pub size : ℕ
  pub modified : Option ℤ

-- str::contains
abbrev pub contains_bytes : List ℕ → List ℕ → Bool
contains_bytes part [] = starts_with part []
contains_bytes part (b ∷ bytes) = starts_with part (b ∷ bytes) || contains_bytes part bytes

abbrev pub is_temporary_name : List ℕ → Bool
is_temporary_name name = contains_bytes (ascii ".part-") name || contains_bytes (ascii ".tmp-") name

abbrev pub is_temporary : CachedFile → Bool
is_temporary f = is_temporary_name f.name

-- A file without a time comes first.
abbrev is_older : Option ℤ → Option ℤ → Bool
is_older a none = false
is_older none (some b) = true
is_older (some a) (some b) = ltb_ℤ a b

insert_file : CachedFile → List CachedFile → List CachedFile
insert_file f [] = f ∷ []
insert_file f (x ∷ xs) =
    let rest = insert_file f xs in if is_older x.modified f.modified then x ∷ rest else f ∷ x ∷ xs

-- sort_by_key
sort_files : List CachedFile → List CachedFile
unfolding insert_file
sort_files [] = []
sort_files (f ∷ files) = insert_file f (sort_files files)

abbrev pub total_size : List CachedFile → ℕ
total_size [] = 0
total_size (f ∷ files) = f.size + total_size files

-- The loop: what is left of the files, and the total that is left.
unfoldable pub evict_files : ℕ → List ℕ → List CachedFile → ℕ → List CachedFile
evict_files max preserve [] total = []
evict_files max preserve (f ∷ files) total =
    let preserved = same_bytes f.name preserve in
    let rest = evict_files max preserve files (if preserved then total else total - f.size) in
    if leb total max then f ∷ files else if preserved then f ∷ rest else rest

-- The total is 64 bits wide, which the files of one directory do not fill.
unfoldable pub prune_directory : ℕ → List ℕ → List CachedFile → List CachedFile
unfolding evict_files sort_files
prune_directory max preserve files =
    let others = delete_where is_temporary files in
    if leb (total_size others) max
    then files
    else select_where is_temporary files
      ++ evict_files max preserve (sort_files others) (total_size others)

abbrev pub prune_media_cache : List ℕ → List CachedFile → List CachedFile
prune_media_cache = prune_directory max_media_cache_bytes

-- What the loop leaves is within the budget, or it is the preserved file alone.
abbrev pub IsPruned : ℕ → List ℕ → List CachedFile → Type 0
IsPruned max preserve files =
    (total_size files ≤ max) ⊎ All (λ f. same_bytes f.name preserve ≡ true) files

total_size-insert_file :
    (f : CachedFile) (files : List CachedFile)
    → total_size (insert_file f files) ≡ f.size + total_size files
unfolding insert_file
total_size-insert_file f [] = refl
total_size-insert_file f (x ∷ files) = ground (arith, total_size-insert_file f files)

total_size-sort_files : (files : List CachedFile) → total_size (sort_files files) ≡ total_size files
unfolding sort_files
total_size-sort_files [] = refl
total_size-sort_files (f ∷ files) =
    omega (arith, total_size-insert_file f (sort_files files), total_size-sort_files files)

module _ (max : ℕ) (preserve : List ℕ) where
  abbrev is_preserved : CachedFile → Bool
  is_preserved f = same_bytes f.name preserve

  -- `held` is the size of the preserved files that the loop has passed.
  evict_files-settles :
      (files : List CachedFile) (held total : ℕ)
      → total ≡ held + total_size files
      → (held + total_size (evict_files max preserve files total) ≤ max)
        ⊎ All (λ f. is_preserved f ≡ true) (evict_files max preserve files total)
  unfolding evict_files
  evict_files-settles [] held total e = inr tt
  evict_files-settles (f ∷ files) held total e = elim (Bool-cases (leb total max)) [
    | inl within ↦ inl (rw within (ground arith))
    | inr over ↦ elim (Bool-cases (is_preserved f)) [
      | inl preserved ↦ elim (evict_files-settles files (held + f.size) total (omega arith)) [
        | inl small ↦ inl (rw (over, preserved) (omega arith))
        | inr all ↦ inr (rw (over, preserved) (preserved, all))
      ]
      | inr evicted ↦ elim (evict_files-settles files held (total - f.size) (omega arith)) [
        | inl small ↦ inl (rw (over, evicted) small)
        | inr all ↦ inr (rw (over, evicted) all)
      ]
    ]
  ]

  evict_files-keeps :
      (files : List CachedFile) (total : ℕ)
      → exists_where is_preserved (evict_files max preserve files total)
        ≡ exists_where is_preserved files
  unfolding evict_files
  evict_files-keeps [] total = refl
  evict_files-keeps (f ∷ files) total =
      ground (arith, evict_files-keeps files (if is_preserved f then total else total - f.size))

  exists-insert_file :
      (f : CachedFile) (files : List CachedFile)
      → exists_where is_preserved (insert_file f files)
        ≡ (is_preserved f || exists_where is_preserved files)
  unfolding insert_file
  exists-insert_file f [] = refl
  exists-insert_file f (x ∷ files) = ground (arith, exists-insert_file f files)

  exists-sort_files :
      (files : List CachedFile)
      → exists_where is_preserved (sort_files files) ≡ exists_where is_preserved files
  unfolding sort_files
  exists-sort_files [] = refl
  exists-sort_files (f ∷ files) =
      ground (arith, exists-insert_file f (sort_files files), exists-sort_files files)

  exists-append :
      (xs ys : List CachedFile)
      → exists_where is_preserved (xs ++ ys)
        ≡ (exists_where is_preserved xs || exists_where is_preserved ys)
  exists-append [] ys = refl
  exists-append (x ∷ xs) ys = ground (arith, exists-append xs ys)

  exists_split :
      (files : List CachedFile)
      → (exists_where is_preserved (select_where is_temporary files)
          || exists_where is_preserved (delete_where is_temporary files))
        ≡ exists_where is_preserved files
  exists_split [] = refl
  exists_split (f ∷ files) = ground (arith, exists_split files)

delete-select :
    (xs ys : List CachedFile)
    → delete_where is_temporary (select_where is_temporary xs ++ ys) ≡ delete_where is_temporary ys
delete-select [] ys = refl
delete-select (x ∷ xs) ys = elim (Bool-cases (is_temporary x)) [
  | inl temporary ↦ rw (temporary, temporary) (delete-select xs ys)
  | inr other ↦ rw other (delete-select xs ys)
]

total_size-delete :
    (p : CachedFile → Bool) (files : List CachedFile)
    → total_size (delete_where p files) ≤ total_size files
total_size-delete p [] = omega arith
total_size-delete p (f ∷ files) = ground (arith, total_size-delete p files)

IsPruned-delete :
    (max : ℕ) (preserve : List ℕ) (p : CachedFile → Bool) (files : List CachedFile)
    → IsPruned max preserve files
    → IsPruned max preserve (delete_where p files)
IsPruned-delete max preserve p files (inl small) = inl (omega (arith, total_size-delete p files))
IsPruned-delete max preserve p files (inr all) = inr (All-delete _ p files all)

evict_files-IsPruned :
    (max : ℕ) (preserve : List ℕ) (files : List CachedFile)
    → IsPruned max preserve (evict_files max preserve files (total_size files))
evict_files-IsPruned max preserve files =
    elim (evict_files-settles max preserve files 0 (total_size files) (omega arith)) [
      | inl small ↦ inl (omega arith)
      | inr all ↦ inr all
    ]

-- After a prune the files that are not temporary are within the budget, or each is the one to preserve; and that
-- one is there exactly if it was there before, whatever the sizes and times are.
pub prune_directory-IsPruned :
    (max : ℕ) (preserve : List ℕ) (files : List CachedFile)
    → IsPruned max preserve (delete_where is_temporary (prune_directory max preserve files))
      × (exists_where (λ f. same_bytes f.name preserve) (prune_directory max preserve files)
          ≡ exists_where (λ f. same_bytes f.name preserve) files)
unfolding prune_directory
prune_directory-IsPruned max preserve files =
    let others = delete_where is_temporary files in
    let left = evict_files max preserve (sort_files others) (total_size others) in
    elim (Bool-cases (leb (total_size others) max)) [
      | inl within ↦ rw within (inl (ground arith), refl)
      | inr over ↦ rw over (
        rw (delete-select files left) (
            IsPruned-delete max preserve is_temporary left (
              subst (λ n. IsPruned max preserve (evict_files max preserve (sort_files others) n))
                (total_size-sort_files others)
                (evict_files-IsPruned max preserve (sort_files others)))),
        exists-append max preserve (select_where is_temporary files) left
            ∙ rw
                (
                  evict_files-keeps max preserve (sort_files others) (total_size others),
                  exists-sort_files max preserve others,
                )
                (exists_split max preserve files),
      )
    ]
