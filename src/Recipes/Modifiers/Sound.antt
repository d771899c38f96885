-- ===== src/Recipes/Modifiers/Sound.antt =====
-- The status and the version of every modifier, under recipes/modifiers_repo.py's operations.
use reorder_os.Prelude.{
  ℕ, ◌≡◌, refl, sym, ap, ◌∙◌, inl, inr, true, false, not, Option, none, some, is_some, List, All,
  find_first, update_where, ◌==◌, Bool-cases, Option-cases, arith, subst,
}
use reorder_os.Prelude.Finds.{find_first-update_where, All-rewritten, found-All}
use reorder_os.Prelude.Result.{raise_if-passed, raise_if, AllOk, AllOk-bind, AllOk-then}
use reorder_os.Recipes.{draft, confirmed, skipped, is_confirmed, DraftIngredient}
use reorder_os.Recipes.Confirm.{Words, has_duplicate_name, is_empty, resolve_all}
use reorder_os.Recipes.Modifiers.{
  is_skipped, modifier_confirmed, modifier_skipped, missing, ingredients_of, duplicate_ingredient,
  modifier_not_confirmed, Modifier, ModifierDraft, Bar, is_additive, is_modifier, is_locked_row,
  has_modifier_id, require_modifier, lock_modifier, with_status, with_version, update_modifier,
  upsert_modifier_draft, reopen_skipped, save_draft, skip_modifier, insert_modifier_version,
  write_version, lift_resolve, check_confirmable, confirm_ingredients, confirm_modifier,
  reopen_modifier, unconfirm_modifier,
}

-- A version is linked exactly while the modifier is confirmed, and then it is an additive one.
abbrev pub IsLinked : Modifier → Type 0
IsLinked m =
    (is_some m.current_version_id ≡ is_confirmed m.status)
    × (is_confirmed m.status ≡ true → is_additive m.modifier_type ≡ true)

-- The row is the one that its id finds, as a primary key makes it, and it is linked.
abbrev pub IsRow : List Modifier → Modifier → Type 0
IsRow rows m = (find_first (has_modifier_id m.id) rows ≡ some m) × IsLinked m

abbrev pub IsSound : Bar → Type 0
IsSound b = All (IsRow b.modifiers) b.modifiers

-- An UPDATE of the row with an id, which leaves the ids, is right if it is right for that row.
update_modifier-IsSound :
    (mod_id : ℕ) (f : Modifier → Modifier) (r : Modifier) (b : Bar)
    → ((a : Modifier) → (f a).id ≡ a.id)
    → find_first (has_modifier_id mod_id) b.modifiers ≡ some r
    → IsLinked (f r)
    → IsSound b
    → IsSound (update_modifier mod_id f b)
unfolding update_modifier
update_modifier-IsSound mod_id f r b ids found linked all =
    let p = has_modifier_id mod_id in
    All-rewritten (IsRow b.modifiers) (IsRow (update_modifier mod_id f b).modifiers) p f
      (λ a h.
        let kept =
          find_first-update_where p (has_modifier_id a.id) f (λ x. ap (λ i. i == a.id) (ids x))
            b.modifiers a h.0 in
        elim (Bool-cases (p a)) [
          | inl y ↦
              let id : a.id ≡ mod_id = ground arith in
              let same : some a ≡ some r = sym h.0 ∙ (rw id found) in
              let e : a ≡ r = cc (same) in
              let kept' : find_first (has_modifier_id a.id) (update_where p f b.modifiers)
                  ≡ some (f a) =
                (rw y at kept) in
              rw y (
                subst
                    (λ i.
                      find_first (has_modifier_id i) (update_where p f b.modifiers) ≡ some (f a))
                    (sym (ids a)) kept',
                subst (λ x. IsLinked (f x)) (sym e) linked,
              )
          | inr n ↦
              let kept' : find_first (has_modifier_id a.id) (update_where p f b.modifiers)
                  ≡ some a =
                (rw n at kept) in
              rw n (kept', h.1)
        ])
      b.modifiers all

require_modifier-IsRow :
    (tid mid mod_id : ℕ) (b : Bar)
    → IsSound b
    → AllOk
        (λ m. (find_first (has_modifier_id mod_id) b.modifiers ≡ some m) × IsLinked m)
        (require_modifier tid mid mod_id b)
unfolding require_modifier
require_modifier-IsRow tid mid mod_id b sound =
    elim (Option-cases (find_first (is_modifier tid mid mod_id) b.modifiers)) [
      | inl n ↦ rw (require_modifier, n) tt
      | inr (m, y) ↦
          let (row, passes) =
            found-All (IsRow b.modifiers) (is_modifier tid mid mod_id) b.modifiers m sound y in
          let id : m.id ≡ mod_id = ground arith in
          let found = subst (λ i. find_first (has_modifier_id i) b.modifiers ≡ some m) id row.0 in
          rw (require_modifier, y) (found, row.1)
    ]

lock_modifier-IsRow :
    (tid mod_id : ℕ) (b : Bar)
    → IsSound b
    → AllOk
        (λ m. (find_first (has_modifier_id mod_id) b.modifiers ≡ some m) × IsLinked m)
        (lock_modifier tid mod_id b)
unfolding lock_modifier
lock_modifier-IsRow tid mod_id b sound =
    elim (Option-cases (find_first (is_locked_row tid mod_id) b.modifiers)) [
      | inl n ↦ rw (lock_modifier, n) tt
      | inr (m, y) ↦
          let (row, passes) =
            found-All (IsRow b.modifiers) (is_locked_row tid mod_id) b.modifiers m sound y in
          let id : m.id ≡ mod_id = ground arith in
          let found = subst (λ i. find_first (has_modifier_id i) b.modifiers ≡ some m) id row.0 in
          rw (lock_modifier, y) (found, row.1)
    ]

-- A modifier that is not confirmed has no version, and takes another open status.
open_status-IsLinked :
    (m : Modifier)
    → IsLinked m
    → is_confirmed m.status ≡ false
    → IsLinked (with_status draft m) × IsLinked (with_status skipped m)
open_status-IsLinked m linked open_status =
    let none_yet = linked.0 ∙ open_status in
    ((none_yet, (λ h. absurd (ground arith))), (none_yet, (λ h. absurd (ground arith))))

module _ (tid mid mod_id : ℕ) where
  pub save_draft-IsSound :
      (ingredients : List DraftIngredient) (b : Bar)
      → IsSound b
      → AllOk IsSound (save_draft tid mid mod_id ingredients b)
  unfolding save_draft reopen_skipped upsert_modifier_draft update_modifier
  save_draft-IsSound ingredients b sound =
      AllOk-then _ IsSound (require_modifier tid mid mod_id b) _
        (require_modifier-IsRow tid mid mod_id b sound)
        (λ m row.
          AllOk-then _ IsSound (raise_if (is_confirmed m.status) _) _
            (raise_if-passed (is_confirmed m.status) _)
            (λ u open_status. elim (Bool-cases (is_skipped m.status)) [
              | inl y ↦
                  rw (reopen_skipped, y)
                    (update_modifier-IsSound mod_id (with_status draft) m b (λ a. refl) row.0
                      (open_status-IsLinked m row.1 open_status).0 sound)
              | inr n ↦ rw (reopen_skipped, n) sound
            ]))

  pub skip_modifier-IsSound : (b : Bar) → IsSound b → AllOk IsSound (skip_modifier tid mid mod_id b)
  unfolding skip_modifier
  skip_modifier-IsSound b sound =
      AllOk-then _ IsSound (require_modifier tid mid mod_id b) _
        (require_modifier-IsRow tid mid mod_id b sound)
        (λ m row.
          AllOk-then _ IsSound (raise_if (is_confirmed m.status) _) _
            (raise_if-passed (is_confirmed m.status) _)
            (λ u open_status.
              update_modifier-IsSound mod_id (with_status skipped) m b (λ a. refl) row.0
                (open_status-IsLinked m row.1 open_status).1 sound))

  check_confirmable-additive :
      (m : Modifier) → AllOk (λ u. is_additive m.modifier_type ≡ true) (check_confirmable m)
  unfolding check_confirmable
  check_confirmable-additive m =
      AllOk-bind _ (raise_if (is_confirmed m.status) modifier_confirmed) _ (λ u.
        AllOk-bind _ (raise_if (is_skipped m.status) modifier_skipped) _ (λ v.
          elim (Bool-cases (is_additive m.modifier_type)) [ inl y ↦ rw y refl | inr n ↦ rw n tt ]))

  confirm_ingredients-IsSound :
      (w : Words) (m : Modifier) (d : Option ModifierDraft) (b : Bar)
      → find_first (has_modifier_id mod_id) b.modifiers ≡ some m
      → is_additive m.modifier_type ≡ true
      → IsSound b
      → AllOk IsSound (confirm_ingredients w tid mod_id d b)
  unfolding confirm_ingredients write_version insert_modifier_version update_modifier
  confirm_ingredients-IsSound w m d b found adds sound =
      AllOk-bind IsSound (raise_if (is_empty (ingredients_of d)) (missing d)) _ (λ u.
        AllOk-bind IsSound
          (raise_if (has_duplicate_name w.norm (ingredients_of d)) duplicate_ingredient) _
          (λ v.
            AllOk-bind IsSound (lift_resolve (resolve_all w.texts tid (ingredients_of d) b.store)) _
              (λ x.
                update_modifier-IsSound mod_id (with_version (some x.0.ledger.next_id) confirmed) m
                  b (λ a. refl) found (refl, λ h. adds) sound)))

  pub confirm_modifier-IsSound :
      (w : Words) (b : Bar) → IsSound b → AllOk IsSound (confirm_modifier w tid mid mod_id b)
  unfolding confirm_modifier
  confirm_modifier-IsSound w b sound =
      AllOk-bind IsSound (require_modifier tid mid mod_id b) _ (λ m.
        AllOk-then _ IsSound (lock_modifier tid mod_id b) _ (lock_modifier-IsRow tid mod_id b sound)
          (λ locked row.
            AllOk-then _ IsSound (check_confirmable locked) _ (check_confirmable-additive locked)
              (λ u adds. confirm_ingredients-IsSound w locked _ b row.0 adds sound)))

  pub unconfirm_modifier-IsSound :
      (w : Words) (b : Bar) → IsSound b → AllOk IsSound (unconfirm_modifier w tid mid mod_id b)
  unfolding unconfirm_modifier reopen_modifier upsert_modifier_draft update_modifier
  unconfirm_modifier-IsSound w b sound =
      AllOk-bind IsSound (require_modifier tid mid mod_id b) _ (λ m.
        AllOk-then _ IsSound (lock_modifier tid mod_id b) _ (lock_modifier-IsRow tid mod_id b sound)
          (λ locked row.
            AllOk-bind IsSound (raise_if (not (is_confirmed locked.status)) modifier_not_confirmed)
              _
              (λ u.
                update_modifier-IsSound mod_id (with_version none draft) locked b (λ a. refl) row.0
                  (refl, λ h. absurd (ground arith)) sound)))
