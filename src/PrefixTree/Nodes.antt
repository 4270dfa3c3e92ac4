-- ===== src/PrefixTree/Nodes.antt =====
-- What the member functions of a node say of its data.
use pathwinder.Base.{true, Option, none, some, ◌≡◌, refl, if◌then◌else◌, is_some, or_else}
use pathwinder.PrefixTree.{Node, node, Loc, data_of, children, has_data, set_data}
use pathwinder.PrefixTree.Loops.{datum}

module _ {ℓ} {D : Type ℓ} where
  pub set_data_lem : (d : D) (n : Node D) → set_data d n ≡ node (some d) (children n)
  set_data_lem d (node o cs) = refl

  node_lem : (n : Node D) → n ≡ node (data_of n) (children n)
  node_lem (node o cs) = refl

  pub or_else-some : (d : D) (o : Option D) → is_some (or_else o (some d)) ≡ true
  or_else-some d none = refl
  or_else-some d (some x) = refl

  pub or_else-none : (o : Option D) → or_else o none ≡ o
  or_else-none none = refl
  or_else-none (some x) = refl

  pub has_data_lem : (n : Node D) → has_data n ≡ is_some (data_of n)
  has_data_lem (node o cs) = refl

  pub is_some-datum :
      (o : Option (Loc D))
      → datum (elim o [ none ↦ none | some l ↦ if has_data l.here then some l else none ]) ≡ datum o
  is_some-datum none = refl
  is_some-datum (some l) = go l.here refl
    where
      go :
          (n : Node D)
          → l.here ≡ n
          → datum (if has_data l.here then some l else none) ≡ data_of l.here
      go (node none cs) h = rw h
      go (node (some d) cs) h = rw h
