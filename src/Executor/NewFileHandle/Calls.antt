-- ===== src/Executor/NewFileHandle/Calls.antt =====
-- NewFileHandle's two loops make the calls of one list, up to the first that is conclusive.
use pathwinder.Base.{
  ℕ, ◌≡◌, refl, Bool, true, false, ◌||◌, ◌==◌, List, [], ◌∷◌, ◌++◌, map, Option, arith,
  if◌then◌else◌,
}
use pathwinder.Text.{Text}
use pathwinder.Windows.{value}
use pathwinder.Executor.{
  ObjectAttributes, CreateDispositionToTry, Condition, unconditional, file_must_exist,
  file_must_not_exist, System, should_try_next_filename,
}
use pathwinder.Executor.NewFileHandle.{
  SystemCall, Attempt, attempted, absolute_path, should_try, attempt, try_operations,
  try_dispositions,
}

-- Every file with every create disposition, the files first.
abbrev pub calls :
    List CreateDispositionToTry
    → List ObjectAttributes
    → List (CreateDispositionToTry × ObjectAttributes)
calls [] objects = []
calls (d ∷ ds) objects = map (λ object. (d, object)) objects ++ calls ds objects

-- Whether a call is to be made for the path, by what is there.
unfoldable pub is_met : {World : Type 0} → System World → World → Condition → Text → Bool
is_met system w unconditional path = true
is_met system w file_must_exist path = if system.exists_at w path then true else false
is_met system w file_must_not_exist path = if system.exists_at w path then false else true

-- The statuses that say that a file was not found.
unfoldable pub is_not_found : ℕ → Bool
is_not_found status =
    status == 0xc0000033 || (status == 0xc0000034 || (status == 0xc0000039 || status == 0xc000003a))

module _ {World : Type 0} (system : System World) (invoke : SystemCall World)
    (composed : Option Text) where
  -- A call, and what it leaves: the system, the status and the handle are those of the call, and
  -- the path is the one that was tried.
  abbrev pub made : World → CreateDispositionToTry → ObjectAttributes → Attempt World
  made w d object =
      let (status, handle, w') = invoke w object d.nt_param_create_disposition in
      record {
        world = w';
        system_call_result = status;
        newly_opened_handle = handle;
        last_attempted_path = absolute_path composed object;
      }

  -- The calls in turn, without those whose condition does not hold, up to the first whose status
  -- is not that a file was not found. The last call that was made stands in the result.
  pub first_conclusive :
      List (CreateDispositionToTry × ObjectAttributes) → Attempt World → Attempt World
  first_conclusive [] a = a
  first_conclusive ((d, object) ∷ rest) a =
      elim (is_met system a.world d.condition (absolute_path composed object)) [
        | false ↦ first_conclusive rest a
        | true ↦ elim (is_not_found (made a.world d object).system_call_result) [
          | true ↦ first_conclusive rest (made a.world d object)
          | false ↦ made a.world d object
        ]
      ]

  should_try-is_met :
      (w : World) (c : Condition) (path : Text)
      → should_try system w c path ≡ is_met system w c path
  unfolding should_try is_met
  should_try-is_met w unconditional path = refl
  should_try-is_met w file_must_exist path = ground arith
  should_try-is_met w file_must_not_exist path = ground arith

  should_try_next_filename-is_not_found :
      (status : ℕ) → should_try_next_filename status ≡ is_not_found status
  unfolding should_try_next_filename is_not_found
  should_try_next_filename-is_not_found status = refl

  operations-conclusive :
      (d : CreateDispositionToTry) (objects : List ObjectAttributes) (a : Attempt World)
      → try_operations system invoke composed d (map value objects) a
        ≡ attempted (first_conclusive (map (λ object. (d, object)) objects) a)
  unfolding try_operations first_conclusive attempt
  operations-conclusive d [] a = refl
  operations-conclusive d (object ∷ rest) a = ground (
    arith,
    should_try-is_met a.world d.condition (absolute_path composed object),
    should_try_next_filename-is_not_found (made a.world d object).system_call_result,
    operations-conclusive d rest a,
    operations-conclusive d rest (made a.world d object),
  )

  first_conclusive-append :
      (xs ys : List (CreateDispositionToTry × ObjectAttributes)) (a : Attempt World)
      → is_not_found a.system_call_result ≡ true
      → first_conclusive (xs ++ ys) a ≡ (
          let b = first_conclusive xs a in
          if is_not_found b.system_call_result then first_conclusive ys b else b)
  unfolding first_conclusive
  first_conclusive-append [] ys a h = ground arith
  first_conclusive-append ((d, object) ∷ xs) ys a h = ground (
    arith,
    first_conclusive-append xs ys a h,
    first_conclusive-append xs ys (made a.world d object),
  )

  -- The loops over the create dispositions and the files make the calls of all the pairs, the files
  -- of a disposition first, without those whose condition does not hold, up to the first whose
  -- status is not that a file was not found; its handle, its status and its path are the result,
  -- with the system that it left.
  pub dispositions-conclusive :
      (objects : List ObjectAttributes) (ds : List CreateDispositionToTry) (a : Attempt World)
      → is_not_found a.system_call_result ≡ true
      → try_dispositions system invoke composed (map value objects) (map value ds) a
        ≡ attempted (first_conclusive (calls ds objects) a)
  unfolding try_dispositions first_conclusive
  dispositions-conclusive objects [] a h = refl
  dispositions-conclusive objects (d ∷ ds) a h =
      let objects_of_d = map (λ object. (d, object)) objects in
      let next = first_conclusive objects_of_d a in
      ground (
        arith,
        operations-conclusive d objects a,
        should_try_next_filename-is_not_found next.system_call_result,
        first_conclusive-append objects_of_d (calls ds objects) a h,
        dispositions-conclusive objects ds next,
      )
