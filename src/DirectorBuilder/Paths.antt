-- ===== src/DirectorBuilder/Paths.antt =====
-- PathResolveRelativeToAbsolute: what the components of a resolved path are.
use pathwinder.Base.{
  ℕ, ◌+◌, ◌-◌, ◌≤◌, ◌≡◌, refl, subst, inl, inr, ◌⊎◌, false, List, [], ◌∷◌, ◌++◌, some, ltb, ◌==◌,
  length, is_empty, arith, Bool-cases, length-append,
}
use mathlib.Core.Bool.{◌||◌}
use pathwinder.Text.{Text, backslash, text_eq}
use pathwinder.DirectorBuilder.{resolve_components, join_components, dot, dot_dot}

-- None of the components is empty, `.` or `..`.
abbrev AreResolved : List Text → Type 0
AreResolved [] = Unit
AreResolved (t ∷ ts) =
    (is_empty t ≡ false) × (text_eq t dot ≡ false) × (text_eq t dot_dot ≡ false) × AreResolved ts

-- What the loop keeps: the components are resolved and not too many, and the length is that of the
-- path that they will make.
pub record IsResolved (capacity : ℕ) (stack : List Text) (size : ℕ) : Type 0 where
  pub resolved : AreResolved stack
  pub bounded : length stack ≤ capacity
  pub sized : size ≡ length (join_components stack)

push-IsResolved :
    (capacity size : ℕ) (t : Text) (stack : List Text)
    → IsResolved capacity stack size
    → is_empty t ≡ false
    → text_eq t dot ≡ false
    → text_eq t dot_dot ≡ false
    → (length stack == capacity) ≡ false
    → IsResolved capacity (t ∷ stack) (size + (length t + 1))
unfolding join_components
push-IsResolved capacity size t stack v some_chars no_dot no_dots room = record {
  resolved = (some_chars, no_dot, no_dots, v.resolved);
  bounded = ground (arith, v.bounded, room);
  sized = omega (
    arith,
    v.sized,
    length-append (join_components stack) (t ++ (backslash ∷ [])),
    length-append t (backslash ∷ []),
  );
}

pop-IsResolved :
    (capacity size : ℕ) (c : Text) (cs : List Text)
    → IsResolved capacity (c ∷ cs) size
    → IsResolved capacity cs (size - (length c + 1)) × (ltb size (length c + 1) ≡ false)
unfolding join_components
pop-IsResolved capacity size c cs v =
    let total = length-append (join_components cs) (c ++ (backslash ∷ [])) in
    let last = length-append c (backslash ∷ []) in
    (
      record {
        resolved = v.resolved.3;
        bounded = omega (arith, v.bounded);
        sized = omega (arith, v.sized, total, last);
      },
      ground (arith, v.sized, total, last),
    )

stack-cases :
    (stack : List Text) → (stack ≡ []) ⊎ ((c : Text) × (cs : List Text) × (stack ≡ c ∷ cs))
stack-cases [] = inl refl
stack-cases (c ∷ cs) = inr (c, cs, refl)

-- The components of a resolved path are none of them empty, `.` or `..`, and at most as many as the
-- capacity; the length that the loop counts is that of the joined path.
pub resolve_components_lem :
    (capacity : ℕ) (ts stack : List Text) (size : ℕ) (stack' : List Text) (size' : ℕ)
    → IsResolved capacity stack size
    → resolve_components capacity ts stack size ≡ some (stack', size')
    → IsResolved capacity stack' size'
unfolding resolve_components
resolve_components_lem capacity [] stack size stack' size' v h =
    let same : stack ≡ stack' = ground (arith, h) in
    let same_size : size ≡ size' = ground (arith, h) in
    subst (λ n. IsResolved capacity stack' n) same_size
      (subst (λ l. IsResolved capacity l size) same v)
resolve_components_lem capacity (t ∷ ts) stack size stack' size' v h =
    elim (Bool-cases (is_empty t || text_eq t dot)) [
      | inl skip ↦
          resolve_components_lem capacity ts stack size stack' size' v (ground (arith, h, skip))
      | inr part ↦ elim (Bool-cases (text_eq t dot_dot)) [
        | inl up ↦ elim (stack-cases stack) [
          | inl e ↦ absurd (ground (arith, h, part, up, e))
          | inr (c, cs, e) ↦
              let (v', fits) =
                pop-IsResolved capacity size c cs (subst (λ l. IsResolved capacity l size) e v) in
              elim (Bool-cases (is_empty cs)) [
                | inl lone ↦ absurd (ground (arith, h, part, up, e, lone))
                | inr more ↦
                    resolve_components_lem capacity ts cs (size - (length c + 1)) stack' size' v'
                      (ground (arith, h, part, up, e, more, fits))
              ]
        ]
        | inr down ↦ elim (Bool-cases (length stack == capacity)) [
          | inl full ↦ absurd (ground (arith, h, part, down, full))
          | inr room ↦
              resolve_components_lem capacity ts (t ∷ stack) (size + (length t + 1)) stack' size'
                (push-IsResolved capacity size t stack v (ground (arith, part))
                  (ground (arith, part)) down room)
                (ground (arith, h, part, down, room))
        ]
      ]
    ]
