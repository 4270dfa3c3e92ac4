-- ===== src/Strings/Trailing.antt =====
-- Infra::Strings::RemoveTrailing, as it is documented, takes from a path what the loop of
-- PathGetParentDirectory takes from it.
use pathwinder.Base.{ℕ, zero, suc, ◌≡◌, refl, sym, ap, ◌∙◌, false, [], ◌∷◌, ◌++◌, replicate, arith}
use pathwinder.Text.{Text, backslash, ends_with}
use pathwinder.Infra.{Infra}
use pathwinder.Strings.{trim_backslashes}

trim-replicate : (n : ℕ) → trim_backslashes (replicate n backslash) ≡ ([], n)
unfolding trim_backslashes
trim-replicate zero = refl
trim-replicate (suc n) = ground (arith, trim-replicate n)

pub trim-append :
    (u : Text) (n : ℕ)
    → ends_with backslash u ≡ false
    → trim_backslashes (u ++ replicate n backslash) ≡ (u, n)
unfolding trim_backslashes ends_with
trim-append [] n h = trim-replicate n
trim-append (x ∷ []) n h = ground (arith, h, trim-replicate n)
trim-append (x ∷ y ∷ u) n h = ground (arith, trim-append (y ∷ u) n h)

module _ ⦃i : Infra⦄ where
  -- The documented behaviour of RemoveTrailing leaves one function, for backslashes: the loop of
  -- PathGetParentDirectory.
  pub remove_trailing-trim_backslashes :
      (s : Text) → i.remove_trailing s backslash ≡ (trim_backslashes s).0
  remove_trailing-trim_backslashes s =
      let (n, split) = i.remove_trailing_split s backslash in
      sym (
        ap (λ u. (trim_backslashes u).0) split
        ∙ ap (λ t. t.0)
            (trim-append (i.remove_trailing s backslash) n (i.remove_trailing_end s backslash)))

  pub remove_trailing-append :
      (u : Text) (n : ℕ)
      → ends_with backslash u ≡ false
      → i.remove_trailing (u ++ replicate n backslash) backslash ≡ u
  remove_trailing-append u n h =
      remove_trailing-trim_backslashes (u ++ replicate n backslash)
      ∙ ap (λ t. t.0) (trim-append u n h)
