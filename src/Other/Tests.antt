-- ===== src/Other/Tests.antt =====
-- Runs of the helpers, and their theorems on a disk that is a list of directories and a file size.
use sync_agent.Base.{
  ℕ, ◌≡◌, ◌∙◌, ◌⊎◌, refl, Bool, true, false, none, some, List, [], ◌∷◌, Bytes, codes, arith, take,
  if◌then◌else◌, ◌||◌, equal, equal_refl, sym, ap, Bool-cases, inl, inr,
}
use sync_agent.Other.{
  FileSystem, IsFileSystem, file_suffix, create_dir, create_file, remove_file, list_dir, get_ip,
  inet6, file_exist, file_get_length,
}
use sync_agent.Other.Suffix.{file_suffix_lem, file_suffix-Without, get_ip_v6}
use sync_agent.Other.Dir.{DirOf, create_dir_lem, create_dir-exist, Keeps, here, later, whole}
use sync_agent.Other.Files.{Ends, create_file_lem, remove_file_lem}

-- The paths that exist, and the size of every file.
abbrev Disk : Type 0
Disk = List Bytes × ℕ

unfoldable present : Bytes → List Bytes → Bool
present name [] = false
present name (p ∷ paths) = equal name p || present name paths

unfoldable without : Bytes → List Bytes → List Bytes
without name [] = []
without name (p ∷ paths) = let rest = without name paths in if equal name p then rest else p ∷ rest

abbrev disk : FileSystem Disk
disk = record {
  exists = λ p d. present p d.0;
  readable = λ p d. present p d.0;
  stat_size = λ p d. some d.1;
  mkdir = λ p d. some (p ∷ d.0, d.1);
  fopen_write = λ p d. some (p ∷ d.0, 0);
  truncate = λ p n d. some (d.0, n);
  unlink = λ p d. some (without p d.0, d.1);
  entries = λ p d. some d.0;
}

present-without : (name : Bytes) (paths : List Bytes) → present name (without name paths) ≡ false
unfolding present without
present-without name [] = refl
present-without name (p ∷ paths) = elim (Bool-cases (equal name p)) [
  | inl e ↦ rw e (present-without name paths)
  | inr n ↦ rw (n, n) (present-without name paths)
]

same_disk : {d d' : Disk} → some d ≡ some d' → d ≡ d'
same_disk e = cc

present-cons :
    (name p : Bytes) (paths : List Bytes)
    → present name paths ≡ true
    → present name (p ∷ paths) ≡ true
unfolding present
present-cons name p paths k = elim (Bool-cases (equal name p)) [ inl e ↦ rw e | inr n ↦ rw n k ]

disk-IsFileSystem : IsFileSystem disk
unfolding present
disk-IsFileSystem = record {
  mkdir_makes =
      λ p s s' e. ap (λ (d : Disk). present p d.0) (sym (same_disk e)) ∙ rw (equal_refl p);
  mkdir_keeps =
      λ p q s s' e k. ap (λ (d : Disk). present q d.0) (sym (same_disk e)) ∙ present-cons q p s.0 k;
  truncate_sets = λ p n s s' e. ap (λ (d : Disk). some d.1) (sym (same_disk e));
  unlink_removes =
      λ p s s' e. ap (λ (d : Disk). present p d.0) (sym (same_disk e)) ∙ present-without p s.0;
}

makes_dirs :
    create_dir disk (codes "/var/log/sync") ([], 0)
    ≡ (true, (codes "/var/log/sync" ∷ codes "/var/log" ∷ codes "/var" ∷ [], 0))
unfolding create_dir present equal
makes_dirs = refl

lists :
    list_dir disk (codes "/var/") (codes "." ∷ codes "log" ∷ codes ".." ∷ [], 0)
    ≡ some (codes "/var/log" ∷ [])
unfolding list_dir equal
lists = refl

file_suffix_lem_example : file_suffix (some (codes "a.tar.gz")) ≡ some (codes "gz")
file_suffix_lem_example = file_suffix_lem (codes "a.tar") (codes "gz") (cc) (omega arith)

file_suffix-Without_example : file_suffix (some (codes "README")) ≡ none
file_suffix-Without_example = file_suffix-Without (codes "README") (omega arith)

get_ip_v6_example :
    get_ip
      (λ f raw. raw)
      (record {
        ifa_name = codes "eth0";
        family = inet6;
        sockaddr =
            10 ∷ 0 ∷ 0 ∷ 0 ∷ 7 ∷ 7 ∷ 7 ∷ 7 ∷ 1 ∷ 2 ∷ 3 ∷ 4 ∷ 5 ∷ 6 ∷ 7 ∷ 8 ∷ 9 ∷ 10 ∷ 11 ∷ 12 ∷ 13
            ∷ 14 ∷ 15 ∷ 16 ∷ 0 ∷ 0 ∷ 0 ∷ 0 ∷ [];
      }
        ∷ [])
      (codes "v6")
    ≡ some (7 ∷ 7 ∷ 7 ∷ 7 ∷ 1 ∷ 2 ∷ 3 ∷ 4 ∷ 5 ∷ 6 ∷ 7 ∷ 8 ∷ 9 ∷ 10 ∷ 11 ∷ 12 ∷ [])
get_ip_v6_example =
    get_ip_v6 (λ f raw. raw) (10 ∷ 0 ∷ 0 ∷ 0 ∷ []) (7 ∷ 7 ∷ 7 ∷ 7 ∷ [])
      (1 ∷ 2 ∷ 3 ∷ 4 ∷ 5 ∷ 6 ∷ 7 ∷ 8 ∷ 9 ∷ 10 ∷ 11 ∷ 12 ∷ 13 ∷ 14 ∷ 15 ∷ 16 ∷ [])
      (0 ∷ 0 ∷ 0 ∷ 0 ∷ []) [] refl refl refl

abbrev after_var : Disk
after_var = (codes "/var/log" ∷ codes "/var" ∷ [], 0)

create_dir_lem_example :
    Keeps disk disk-IsFileSystem ([], 0) after_var
    × ((d : Bytes) → DirOf [] (take 1023 (codes "/var/log")) d → disk.exists d after_var ≡ true)
unfolding create_dir present equal
create_dir_lem_example =
    create_dir_lem disk disk-IsFileSystem (codes "/var/log") ([], 0) after_var refl

create_dir-exist_example :
    create_dir disk (codes "/") (codes "/" ∷ [], 0) ≡ (true, (codes "/" ∷ [], 0))
unfolding present equal
create_dir-exist_example = create_dir-exist disk (codes "/") (codes "/" ∷ [], 0) (λ d t. root_dir t)
  where
    root_dir : {d : Bytes} → DirOf [] (codes "/") d → disk.exists d (codes "/" ∷ [], 0) ≡ true
    root_dir (here ne) = absurd (ne refl)
    root_dir (later (whole ne)) = refl

create_file_lem_example :
    Ends
      (λ d. file_get_length disk (codes "f") d ≡ some 9)
      (λ d. (d ≡ ([], 4)) ⊎ (disk.fopen_write (codes "f") ([], 4) ≡ some d))
      (create_file disk (codes "f") 9 ([], 4))
create_file_lem_example = create_file_lem disk disk-IsFileSystem (codes "f") 9 ([], 4)

remove_file_lem_example :
    Ends
      (λ d. file_exist disk (codes "f") d ≡ false)
      (λ d. d ≡ (codes "f" ∷ [], 4))
      (remove_file disk (codes "f") (codes "f" ∷ [], 4))
remove_file_lem_example = remove_file_lem disk disk-IsFileSystem (codes "f") (codes "f" ∷ [], 4)
