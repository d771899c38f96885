-- ===== src/Recipes/Linked.antt =====
-- The pointer of a menu item and the status of its recipe, under the operations of recipes/repo.py.
use reorder_os.Prelude.{
  ℕ, String, ◌≡◌, refl, ◌∙◌, inl, inr, Bool, false, Option, none, some, List, is_some, ==_refl,
  Bool-cases, Option-cases, any,
}
use reorder_os.Prelude.Finds.{find_updated, find_rewritten}
use reorder_os.Prelude.Result.{raise_if, AllOk, AllOk-bind}
use reorder_os.Recipes.{
  RecipeStatus, draft, confirmed, skipped, MenuItem, Recipe, DraftIngredient, Kitchen, is_confirmed,
  is_menu_item, is_recipe_of, has_recipe_id, is_draft_of, find_menu_item, find_recipe, fresh_id,
  take_id, set_status, set_pointer,
}
use reorder_os.Recipes.Drafts.{
  upsert_draft, insert_recipe, put_status, is_confirmed_recipe, write_draft, save_draft,
  skip_recipe,
}
use reorder_os.Recipes.Confirm.{
  Words, write_confirmed, insert_version, confirm_draft, confirm_status, confirm_recipe, reopen,
  unconfirm_recipe, is_empty, has_duplicate_name, resolve_all, lift_resolve, draft_of,
  version_ingredients,
}

abbrev pub is_pointed : Option MenuItem → Bool
is_pointed none = false
is_pointed (some m) = is_some m.recipe_version_id

-- The menu item has a version exactly where its recipe is confirmed.
abbrev pub IsLinked : (tid mid : ℕ) → Kitchen → Type 0
IsLinked tid mid k =
    is_pointed (find_menu_item tid mid k) ≡ is_confirmed_recipe (find_recipe tid mid k)

module _ (tid mid : ℕ) where
  put_status-found :
      (st : RecipeStatus) (k : Kitchen)
      → (r : Recipe) × (find_recipe tid mid (put_status tid mid st (find_recipe tid mid k) k).0
          ≡ some r)
        × (r.status ≡ st)
  unfolding put_status insert_recipe set_status take_id
  put_status-found st k = elim (Option-cases (find_recipe tid mid k)) [
    | inl n ↦ rw (n, ==_refl tid, ==_refl mid) (_, refl, refl)
    | inr (r, y) ↦ rw y (
      _,
      find_rewritten (has_recipe_id r.id) (is_recipe_of tid mid) _ (λ a. refl) k.recipes r y
          (==_refl r.id),
      refl,
    )
  ]

  put_status-menu :
      (st : RecipeStatus) (r : Option Recipe) (k : Kitchen)
      → (put_status tid mid st r k).0.menu_items ≡ k.menu_items
  unfolding put_status insert_recipe set_status take_id
  put_status-menu st none k = refl
  put_status-menu st (some r) k = refl

  upsert_draft-kept :
      (rid : ℕ) (parent : Option ℕ → Option ℕ) (ingredients : List DraftIngredient) (k : Kitchen)
      → ((upsert_draft tid rid parent ingredients k).menu_items ≡ k.menu_items)
        × ((upsert_draft tid rid parent ingredients k).recipes ≡ k.recipes)
  unfolding upsert_draft
  upsert_draft-kept rid parent ingredients k =
      elim (Bool-cases (any (is_draft_of tid rid) k.drafts)) [
        | inl y ↦ rw y (refl, refl)
        | inr n ↦ rw n (refl, refl)
      ]

  unlinked :
      (st : RecipeStatus) (k k' : Kitchen)
      → is_confirmed st ≡ false
      → is_confirmed_recipe (find_recipe tid mid k) ≡ false
      → IsLinked tid mid k
      → k'.menu_items ≡ k.menu_items
      → k'.recipes ≡ (put_status tid mid st (find_recipe tid mid k) k).0.recipes
      → IsLinked tid mid k'
  unlinked st k k' open_status guard linked menu recipes =
      let (r, found, status) = put_status-found st k in
      let before : is_pointed (find_menu_item tid mid k) ≡ false = linked ∙ guard in
      rw (menu, recipes, found, status, open_status) before

  pub save_draft-IsLinked :
      (ingredients : List DraftIngredient) (k : Kitchen)
      → IsLinked tid mid k
      → AllOk (IsLinked tid mid) (save_draft tid mid ingredients k)
  unfolding save_draft
  save_draft-IsLinked ingredients k linked = elim (Option-cases (find_menu_item tid mid k)) [
    | inl n ↦ rw (save_draft, n) tt
    | inr (m, y) ↦ elim (Bool-cases (is_confirmed_recipe (find_recipe tid mid k))) [
      | inl c ↦ rw (save_draft, y, c) tt
      | inr c ↦
          let out = put_status tid mid draft (find_recipe tid mid k) k in
          let kept = upsert_draft-kept out.1 (λ p. p) ingredients out.0 in
          rw (save_draft, y, c)
            (unlinked draft k (write_draft tid ingredients out) refl c linked
              (kept.0 ∙ put_status-menu draft (find_recipe tid mid k) k) kept.1)
    ]
  ]

  pub skip_recipe-IsLinked :
      (k : Kitchen) → IsLinked tid mid k → AllOk (IsLinked tid mid) (skip_recipe tid mid k)
  unfolding skip_recipe
  skip_recipe-IsLinked k linked = elim (Option-cases (find_menu_item tid mid k)) [
    | inl n ↦ rw (skip_recipe, n) tt
    | inr (m, y) ↦ elim (Bool-cases (is_confirmed_recipe (find_recipe tid mid k))) [
      | inl c ↦ rw (skip_recipe, y, c) tt
      | inr c ↦
          rw (skip_recipe, y, c)
            (unlinked skipped k (put_status tid mid skipped (find_recipe tid mid k) k).0 refl c
              linked (put_status-menu skipped (find_recipe tid mid k) k) refl)
    ]
  ]

  set_both :
      (version : Option ℕ) (st : RecipeStatus) (m : MenuItem) (r : Recipe) (k k' : Kitchen)
      → find_menu_item tid mid k ≡ some m
      → find_recipe tid mid k ≡ some r
      → is_some version ≡ is_confirmed st
      → k'.menu_items ≡ (set_pointer tid mid version k).menu_items
      → k'.recipes ≡ (set_status r.id st k).recipes
      → IsLinked tid mid k'
  unfolding set_pointer set_status
  set_both version st m r k k' item row same menu recipes =
      let f =
        find_updated (is_menu_item tid mid) (λ x. record x { recipe_version_id = version })
          (λ a h. h) k.menu_items m item in
      let g =
        find_rewritten (has_recipe_id r.id) (is_recipe_of tid mid) (λ x. record x { status = st })
          (λ a. refl) k.recipes r row (==_refl r.id) in
      rw (menu, recipes, f, g) same

  write_confirmed-IsLinked :
      (name : String) (lines : List (ℕ × DraftIngredient)) (m : MenuItem) (r : Recipe) (k : Kitchen)
      → find_menu_item tid mid k ≡ some m
      → find_recipe tid mid k ≡ some r
      → IsLinked tid mid (write_confirmed tid mid r.id name lines k)
  unfolding write_confirmed insert_version take_id set_status set_pointer
  write_confirmed-IsLinked name lines m r k item row =
      set_both (some (fresh_id k)) confirmed m r k (write_confirmed tid mid r.id name lines k) item
        row refl refl refl

  confirm_draft-IsLinked :
      (w : Words) (m : MenuItem) (r : Recipe) (ingredients : List DraftIngredient) (k : Kitchen)
      → find_menu_item tid mid k ≡ some m
      → find_recipe tid mid k ≡ some r
      → AllOk (IsLinked tid mid) (confirm_draft w tid mid m r ingredients k)
  unfolding confirm_draft
  confirm_draft-IsLinked w m r ingredients k item row =
      AllOk-bind (IsLinked tid mid) (raise_if (is_empty ingredients) _) _ (λ u.
        AllOk-bind (IsLinked tid mid) (raise_if (has_duplicate_name w.norm ingredients) _) _ (λ v.
          AllOk-bind (IsLinked tid mid) (lift_resolve (resolve_all w.texts tid ingredients k.store))
            _ (λ x. write_confirmed-IsLinked m.name x.1 m r (record k { store = x.0 }) item row)))

  confirm_status-IsLinked :
      (w : Words) (m : MenuItem) (r : Recipe) (st : RecipeStatus) (k : Kitchen)
      → find_menu_item tid mid k ≡ some m
      → find_recipe tid mid k ≡ some r
      → AllOk (IsLinked tid mid) (confirm_status w tid mid m r st k)
  confirm_status-IsLinked w m r confirmed k item row = tt
  confirm_status-IsLinked w m r skipped k item row = tt
  confirm_status-IsLinked w m r draft k item row =
      confirm_draft-IsLinked w m r (draft_of tid r.id k) k item row

  pub confirm_recipe-IsLinked :
      (w : Words) (k : Kitchen) → AllOk (IsLinked tid mid) (confirm_recipe w tid mid k)
  unfolding confirm_recipe
  confirm_recipe-IsLinked w k = elim (Option-cases (find_menu_item tid mid k)) [
    | inl n ↦ rw (confirm_recipe, n) tt
    | inr (m, item) ↦ elim (Option-cases (find_recipe tid mid k)) [
      | inl n ↦ rw (confirm_recipe, item, n) tt
      | inr (r, row) ↦
          rw (confirm_recipe, item, row) (confirm_status-IsLinked w m r r.status k item row)
    ]
  ]

  reopen-IsLinked :
      (w : Words) (m : MenuItem) (r : Recipe) (k : Kitchen)
      → find_menu_item tid mid k ≡ some m
      → find_recipe tid mid k ≡ some r
      → IsLinked tid mid (reopen w tid mid m r k)
  unfolding reopen set_pointer set_status
  reopen-IsLinked w m r k item row =
      let kept =
        upsert_draft-kept r.id (λ p. m.recipe_version_id)
          (w.by_name (version_ingredients tid m.recipe_version_id k.store.items k.ingredients)) k in
      set_both none draft m r k (reopen w tid mid m r k) item row refl (rw kept.0 refl)
        (rw kept.1 refl)

  pub unconfirm_recipe-IsLinked :
      (w : Words) (k : Kitchen) → AllOk (IsLinked tid mid) (unconfirm_recipe w tid mid k)
  unfolding unconfirm_recipe
  unconfirm_recipe-IsLinked w k = elim (Option-cases (find_menu_item tid mid k)) [
    | inl n ↦ rw (unconfirm_recipe, n) tt
    | inr (m, item) ↦ elim (Option-cases (find_recipe tid mid k)) [
      | inl n ↦ rw (unconfirm_recipe, item, n) tt
      | inr (r, row) ↦ elim (Bool-cases (is_confirmed r.status)) [
        | inl y ↦ rw (unconfirm_recipe, item, row, y) (reopen-IsLinked w m r k item row)
        | inr n ↦ rw (unconfirm_recipe, item, row, n) tt
      ]
    ]
  ]
