-- ===== src/Recipes/Numbers.antt =====
-- The version that confirm_recipe (recipes/repo.py) makes.
use reorder_os.Prelude.{
  ℕ, String, ◌≡◌, refl, ◌<◌, ◌≤◌, ◌+◌, Bool, true, ◌&&◌, some, List, [], ◌∷◌, arith, All, ==_refl,
  ◌==◌,
}
use reorder_os.Prelude.Finds.{find_updated, find_rewritten}
use reorder_os.Prelude.Result.{err, raise_if, AllOk, AllOk-bind}
use reorder_os.Recipes.Versions.{All-map}
use reorder_os.Recipes.{
  RecipeStatus, draft, confirmed, skipped, DraftIngredient, MenuItem, Recipe, Version, Kitchen,
  recipe_confirmed, find_menu_item, find_recipe, has_recipe_id, is_recipe_of, is_menu_item,
  set_status, set_pointer, take_id, fresh_id,
}
use reorder_os.Recipes.Confirm.{
  Words, max_version, insert_version, write_confirmed, is_empty, has_duplicate_name, resolve_all,
  lift_resolve, draft_of, confirm_draft, confirm_status, confirm_recipe,
}

abbrev pub is_version_of : (tid rid : ℕ) → Version → Bool
is_version_of tid rid v = v.tenant_id == tid && (v.recipe_id == rid)

module _ (tid mid : ℕ) where
  max_version-All :
      (rid : ℕ) (vs : List Version) (n : ℕ)
      → max_version tid rid vs ≤ n
      → All (λ x. is_version_of tid rid x ≡ true → x.version_number ≤ n) vs
  unfolding max_version
  max_version-All rid [] n h = tt
  max_version-All rid (v ∷ vs) n h =
      ((λ k. ground (arith, h)), max_version-All rid vs n (ground (arith, h)))

  max_version-Below :
      (rid : ℕ) (vs : List Version)
      → All (λ x. is_version_of tid rid x ≡ true → x.version_number < max_version tid rid vs + 1) vs
  max_version-Below rid vs =
      All-map _ _ (λ x h k. ground (arith, h k)) vs
        (max_version-All rid vs (max_version tid rid vs) (omega arith))

  -- The new version: the next number of the recipe, what the item points to, and the last word
  -- until the recipe is re-opened.
  pub record Numbered (w : Words) (k : Kitchen) (r : Recipe) (k' : Kitchen) : Type 0 where
    pub version : Version
    pub versions : k'.versions ≡ version ∷ k.versions
    pub own : is_version_of tid r.id version ≡ true
    pub later :
        All
          (λ x. is_version_of tid r.id x ≡ true → x.version_number < version.version_number)
          k.versions
    pub item : MenuItem
    pub found : find_menu_item tid mid k' ≡ some item
    pub pointer : item.recipe_version_id ≡ some version.id
    pub again : confirm_recipe w tid mid k' ≡ err recipe_confirmed

  write_confirmed-Numbered :
      (w : Words) (name : String) (lines : List (ℕ × DraftIngredient)) (m : MenuItem) (r : Recipe)
      (k : Kitchen)
      → find_menu_item tid mid k ≡ some m
      → find_recipe tid mid k ≡ some r
      → Numbered w k r (write_confirmed tid mid r.id name lines k)
  unfolding write_confirmed insert_version take_id set_status set_pointer confirm_recipe
  write_confirmed-Numbered w name lines m r k item row =
      let f =
        find_updated (is_menu_item tid mid)
          (λ x. record x { recipe_version_id = some (fresh_id k) }) (λ a h. h) k.menu_items m
          item in
      let g =
        find_rewritten (has_recipe_id r.id) (is_recipe_of tid mid)
          (λ x. record x { status = confirmed }) (λ a. refl) k.recipes r row (==_refl r.id) in
      record {
        version = record {
          id = fresh_id k;
          tenant_id = tid;
          recipe_id = r.id;
          version_number = max_version tid r.id k.versions + 1;
          yield_quantity = 1;
          name = name;
        };
        versions = refl;
        own = rw (==_refl tid, ==_refl r.id) refl;
        later = max_version-Below r.id k.versions;
        item = record m { recipe_version_id = some (fresh_id k) };
        found = f;
        pointer = refl;
        again = rw (confirm_recipe, f, g) refl;
      }

  transfer :
      (w : Words) (k j : Kitchen) (r : Recipe) (k' : Kitchen)
      → j.versions ≡ k.versions
      → Numbered w j r k'
      → Numbered w k r k'
  transfer w k j r k' e n = record {
    version = n.version;
    versions = rw⁻¹ e n.versions;
    own = n.own;
    later = rw⁻¹ e n.later;
    item = n.item;
    found = n.found;
    pointer = n.pointer;
    again = n.again;
  }

  confirm_draft-Numbered :
      (w : Words) (m : MenuItem) (r : Recipe) (ingredients : List DraftIngredient) (k : Kitchen)
      → find_menu_item tid mid k ≡ some m
      → find_recipe tid mid k ≡ some r
      → AllOk (Numbered w k r) (confirm_draft w tid mid m r ingredients k)
  unfolding confirm_draft
  confirm_draft-Numbered w m r ingredients k item row =
      AllOk-bind (Numbered w k r) (raise_if (is_empty ingredients) _) _ (λ u.
        AllOk-bind (Numbered w k r) (raise_if (has_duplicate_name w.norm ingredients) _) _ (λ v.
          AllOk-bind (Numbered w k r) (lift_resolve (resolve_all w.texts tid ingredients k.store)) _
            (λ x.
              transfer w k (record k { store = x.0 }) r _ refl
                (write_confirmed-Numbered w m.name x.1 m r (record k { store = x.0 }) item row))))

  confirm_status-Numbered :
      (w : Words) (m : MenuItem) (r : Recipe) (st : RecipeStatus) (k : Kitchen)
      → find_menu_item tid mid k ≡ some m
      → find_recipe tid mid k ≡ some r
      → AllOk (Numbered w k r) (confirm_status w tid mid m r st k)
  confirm_status-Numbered w m r confirmed k item row = tt
  confirm_status-Numbered w m r skipped k item row = tt
  confirm_status-Numbered w m r draft k item row =
      confirm_draft-Numbered w m r (draft_of tid r.id k) k item row

  -- A confirmation that succeeds makes one version, whose number is above those of all earlier
  -- versions of the recipe, points the menu item to it, and leaves a state in which a second
  -- confirmation is refused.
  pub confirm_recipe-Numbered :
      (w : Words) (m : MenuItem) (r : Recipe) (k : Kitchen)
      → find_menu_item tid mid k ≡ some m
      → find_recipe tid mid k ≡ some r
      → AllOk (Numbered w k r) (confirm_recipe w tid mid k)
  unfolding confirm_recipe
  confirm_recipe-Numbered w m r k item row =
      rw (confirm_recipe, item, row) (confirm_status-Numbered w m r r.status k item row)
