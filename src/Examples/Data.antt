-- ===== src/Examples/Data.antt =====
-- The data of the examples.
use Prim.Native.Char.{code}
use Prim.Native.String.{String}
use pathwinder.Base.{ℕ, Bool, false, [], ◌∷◌, none, some}
use pathwinder.Text.{Text}
use pathwinder.Infra.{ascii, path_delimiters}
use pathwinder.Rule.{FilesystemRule, simple, overlay}
use pathwinder.RuleContainer.{RelatedFilesystemRuleContainer}
use pathwinder.PrefixTree.{PrefixTree, KeyEq, node, nil, cons}
use pathwinder.Director.{FilesystemDirector, case_insensitive_keys}

abbrev pub text : String → Text
text String.[] = []
text (String.◌∷◌ c s) = code c ∷ text s

abbrev pub path_keys : KeyEq
path_keys = case_insensitive_keys ⦃i = ascii⦄

-- A tree with a number at C:\a and one at C:\a\b.
abbrev pub two_paths : PrefixTree ℕ
two_paths = record {
  root = node none (
      cons (text "C:")
        (node none (cons (text "a") (node (some 1) (cons (text "b") (node (some 2) nil) nil)) nil))
        nil);
  delimiters = path_delimiters;
}

abbrev pub games : Text
games = text "C:\\g"

-- Text files go to D:\t, in simple mode.
abbrev pub text_rule : FilesystemRule
text_rule = record {
  name = text "t";
  redirect_mode = simple;
  origin_directory_separator = some 2;
  target_directory_separator = some 2;
  origin_directory_full_path = games;
  target_directory_full_path = text "D:\\t";
  file_patterns = text "T*" ∷ [];
}

-- Everything goes to D:\o, in overlay mode.
abbrev pub overlay_rule : FilesystemRule
overlay_rule = record {
  name = text "o";
  redirect_mode = overlay;
  origin_directory_separator = some 2;
  target_directory_separator = some 2;
  origin_directory_full_path = games;
  target_directory_full_path = text "D:\\o";
  file_patterns = [];
}

abbrev pub two_rules : RelatedFilesystemRuleContainer
two_rules = record { filesystem_rules = text_rule ∷ overlay_rule ∷ [] }

abbrev pub director : FilesystemDirector
director = record {
  origin_directories = games ∷ [];
  target_directories = text "D:\\t" ∷ text "D:\\o" ∷ [];
  filesystem_rule_names = text "t" ∷ text "o" ∷ [];
  filesystem_rules_by_origin_directory = record {
    root =
        node none
          (cons (text "C:") (node none (cons (text "g") (node (some two_rules) nil) nil)) nil);
    delimiters = path_delimiters;
  };
  filesystem_rules_by_name = (text "t", text_rule) ∷ (text "o", overlay_rule) ∷ [];
}

-- No directory exists.
abbrev pub nowhere : Text → Bool
nowhere s = false
