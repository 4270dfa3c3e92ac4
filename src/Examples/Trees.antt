-- ===== src/Examples/Trees.antt =====
-- PrefixTree: a run, and instances of its theorems.
use pathwinder.Base.{true, List, [], ◌≡◌, ◌≢◌, refl, none, some}
use pathwinder.Text.{Text, non_empty}
use pathwinder.Infra.{ascii}
use pathwinder.PrefixTree.{find, insert, update, erase, longest_matching_prefix, find_entry}
use pathwinder.PrefixTree.Valid.{IsValid}
use pathwinder.PrefixTree.Lookup.{lookup, same_path, inits, last_some}
use pathwinder.PrefixTree.Loops.{datum}
use pathwinder.PrefixTree.Laws.{
  path, find-insert, find-erase, operations-IsValid, longest_matching_prefix_lem,
}
use pathwinder.Examples.Data.{text, two_paths, path_keys}

abbrev tokenize : Text → List Text → List Text
tokenize = ascii.tokenize

-- Components are compared without regard to case, and empty ones do not count.
found_test : datum (find ⦃e = path_keys⦄ tokenize two_paths (text "c:\\A\\\\b")) ≡ some 2
unfolding ascii find
found_test = refl

find-insert_example :
    (datum (
        find ⦃e = path_keys⦄ tokenize
          (insert ⦃e = path_keys⦄ tokenize two_paths (text "C:\\a\\c") 3).0
          (text "C:\\A\\C"))
      ≡ some 3)
    × ((insert ⦃e = path_keys⦄ tokenize two_paths (text "C:\\a\\c") 3).2 ≡ true)
unfolding ascii find same_path non_empty
find-insert_example =
    find-insert ⦃e = path_keys⦄ tokenize two_paths (text "C:\\a\\c") 3 (text "C:\\A\\C")

two_paths-IsValid : IsValid ⦃e = path_keys⦄ two_paths.root
unfolding find_entry
two_paths-IsValid = (refl, refl, (refl, refl, (refl, refl, tt, tt), tt), tt)

find-erase_example :
    (datum (
        find ⦃e = path_keys⦄ tokenize
          (erase ⦃e = path_keys⦄ tokenize two_paths (text "C:\\a\\b")).0
          (text "C:\\a\\b"))
      ≡ none)
    × ((erase ⦃e = path_keys⦄ tokenize two_paths (text "C:\\a\\b")).1 ≡ true)
unfolding ascii find same_path non_empty
find-erase_example =
    find-erase ⦃e = path_keys⦄ tokenize two_paths (text "C:\\a\\b") (text "C:\\a\\b")
      two_paths-IsValid

operations-IsValid_example :
    IsValid ⦃e = path_keys⦄ (insert ⦃e = path_keys⦄ tokenize two_paths (text "C:\\a\\b") 3).0.root
    × IsValid ⦃e = path_keys⦄ (update ⦃e = path_keys⦄ tokenize two_paths (text "C:\\a\\b") 3).0.root
    × IsValid ⦃e = path_keys⦄ (erase ⦃e = path_keys⦄ tokenize two_paths (text "C:\\a\\b")).0.root
operations-IsValid_example =
    operations-IsValid ⦃e = path_keys⦄ tokenize two_paths (text "C:\\a\\b") 3 two_paths-IsValid

longest_matching_prefix_lem_example :
    datum (longest_matching_prefix ⦃e = path_keys⦄ tokenize two_paths (text "C:\\a\\c")) ≡ some 1
unfolding ascii lookup last_some inits non_empty
longest_matching_prefix_lem_example =
    longest_matching_prefix_lem ⦃e = path_keys⦄ tokenize two_paths (text "C:\\a\\c")

drive_path : path ⦃e = path_keys⦄ tokenize two_paths (text "C:") ≢ []
unfolding ascii non_empty
drive_path = cc
