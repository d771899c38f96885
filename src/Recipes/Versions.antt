-- ===== src/Recipes/Versions.antt =====
-- What one operation of recipes/repo.py writes into recipe_versions and recipe_ingredients.
use reorder_os.Prelude.{
  ℕ, String, ◌≡◌, refl, sym, ◌∙◌, ◌+◌, inl, inr, Bool, true, Option, none, some, List, [], ◌∷◌,
  ◌++◌, arith, All, any, ==_refl, Bool-cases, Option-cases, ◌==◌,
}
use mathlib.Core.List.{append_assoc}
use reorder_os.Prelude.Finds.{any-append, All-append}
use reorder_os.Prelude.Result.{raise_if, AllOk, AllOk-bind}
use reorder_os.Schema.{Ingredient}
use reorder_os.Recipes.{
  RecipeStatus, draft, confirmed, skipped, DraftIngredient, MenuItem, Recipe, Version, Kitchen,
  find_menu_item, find_recipe, is_confirmed, is_draft_of, set_status, set_pointer, take_id,
  fresh_id,
}
use reorder_os.Recipes.Drafts.{
  write_draft, upsert_draft, insert_recipe, put_status, is_confirmed_recipe, save_draft,
  skip_recipe,
}
use reorder_os.Recipes.Confirm.{
  Words, max_version, ingredient_rows, insert_version, write_confirmed, is_empty,
  has_duplicate_name, resolve_all, lift_resolve, draft_of, version_ingredients, confirm_draft,
  confirm_status, confirm_recipe, reopen, unconfirm_recipe,
}

-- Behind new rows all that was there, and the new ingredients are of new versions.
pub record Extends (k k' : Kitchen) : Type 0 where
  pub new_versions : List Version
  pub new_rows : List Ingredient
  pub versions : k'.versions ≡ new_versions ++ k.versions
  pub ingredients : k'.ingredients ≡ new_rows ++ k.ingredients
  pub own : All (λ i. any (λ v. v.id == i.version_id) new_versions ≡ true) new_rows

pub kept :
    (k k' : Kitchen) → k'.versions ≡ k.versions → k'.ingredients ≡ k.ingredients → Extends k k'
kept k k' v i = record { new_versions = []; new_rows = []; versions = v; ingredients = i; own = tt }

any-front : {A : Type 0} (p : A → Bool) (xs ys : List A) → any p xs ≡ true → any p (xs ++ ys) ≡ true
any-front p [] ys h = absurd (ground arith)
any-front p (x ∷ xs) ys h = ground (arith, any-front p xs ys)

pub All-map :
    {A : Type 0} (P Q : A → Type 0) → ((a : A) → P a → Q a) → (xs : List A) → All P xs → All Q xs
All-map P Q f [] h = tt
All-map P Q f (x ∷ xs) h = (f x h.0, All-map P Q f xs h.1)

pub Extends-trans : (a b c : Kitchen) → Extends a b → Extends b c → Extends a c
Extends-trans a b c f g = record {
  new_versions = g.new_versions ++ f.new_versions;
  new_rows = g.new_rows ++ f.new_rows;
  versions =
      rw (g.versions, f.versions) (sym (append_assoc g.new_versions f.new_versions a.versions));
  ingredients =
      rw (g.ingredients, f.ingredients) (sym (append_assoc g.new_rows f.new_rows a.ingredients));
  own =
      All-append _ g.new_rows f.new_rows
        (All-map _ _ (λ i h. any-front (λ v. v.id == i.version_id) g.new_versions f.new_versions h)
          g.new_rows g.own)
        (All-map _ _ (λ i h. any-append (λ v. v.id == i.version_id) g.new_versions f.new_versions h)
          f.new_rows f.own);
}

-- The rows of a version stand in front of the others.
rows_in_front :
    (tid version : ℕ) (lines : List (ℕ × DraftIngredient)) (rows : List Ingredient)
    → (new : List Ingredient) × (ingredient_rows tid version lines rows ≡ new ++ rows)
      × All (λ i. (version == i.version_id) ≡ true) new
unfolding ingredient_rows
rows_in_front tid version [] rows = ([], refl, tt)
rows_in_front tid version ((item, i) ∷ lines) rows =
    let row : Ingredient = record {
      tenant_id = tid;
      version_id = version;
      inventory_item_id = item;
      quantity = i.quantity;
      unit = i.unit;
    } in
    let (new, e, own) = rows_in_front tid version lines (row ∷ rows) in
    (
      new ++ (row ∷ []),
      e ∙ sym (append_assoc new (row ∷ []) rows),
      All-append _ new (row ∷ []) own (==_refl version, tt),
    )

module _ (w : Words) (tid mid : ℕ) where
  put_status-Extends :
      (st : RecipeStatus) (r : Option Recipe) (k : Kitchen)
      → Extends k (put_status tid mid st r k).0
  unfolding put_status insert_recipe set_status take_id
  put_status-Extends st none k = kept k _ refl refl
  put_status-Extends st (some r) k = kept k _ refl refl

  upsert_draft-Extends :
      (rid : ℕ) (parent : Option ℕ → Option ℕ) (ingredients : List DraftIngredient) (k : Kitchen)
      → Extends k (upsert_draft tid rid parent ingredients k)
  unfolding upsert_draft
  upsert_draft-Extends rid parent ingredients k =
      elim (Bool-cases (any (is_draft_of tid rid) k.drafts)) [
        | inl y ↦ rw y (kept k _ refl refl)
        | inr n ↦ rw n (kept k _ refl refl)
      ]

  pub save_draft-Extends :
      (ingredients : List DraftIngredient) (k : Kitchen)
      → AllOk (Extends k) (save_draft tid mid ingredients k)
  unfolding save_draft
  save_draft-Extends ingredients k = elim (Option-cases (find_menu_item tid mid k)) [
    | inl n ↦ rw (save_draft, n) tt
    | inr (m, y) ↦ elim (Bool-cases (is_confirmed_recipe (find_recipe tid mid k))) [
      | inl c ↦ rw (save_draft, y, c) tt
      | inr c ↦
          let out = put_status tid mid draft (find_recipe tid mid k) k in
          rw (save_draft, y, c)
            (Extends-trans k out.0 (write_draft tid ingredients out)
              (put_status-Extends draft (find_recipe tid mid k) k)
              (upsert_draft-Extends out.1 (λ p. p) ingredients out.0))
    ]
  ]

  pub skip_recipe-Extends : (k : Kitchen) → AllOk (Extends k) (skip_recipe tid mid k)
  unfolding skip_recipe
  skip_recipe-Extends k = elim (Option-cases (find_menu_item tid mid k)) [
    | inl n ↦ rw (skip_recipe, n) tt
    | inr (m, y) ↦ elim (Bool-cases (is_confirmed_recipe (find_recipe tid mid k))) [
      | inl c ↦ rw (skip_recipe, y, c) tt
      | inr c ↦ rw (skip_recipe, y, c) (put_status-Extends skipped (find_recipe tid mid k) k)
    ]
  ]

  write_confirmed-Extends :
      (rid : ℕ) (name : String) (lines : List (ℕ × DraftIngredient)) (k : Kitchen)
      → Extends k (write_confirmed tid mid rid name lines k)
  unfolding write_confirmed insert_version take_id set_status set_pointer
  write_confirmed-Extends rid name lines k =
      let (new, e, own) = rows_in_front tid (fresh_id k) lines k.ingredients in
      record {
        new_versions =
            record {
              id = fresh_id k;
              tenant_id = tid;
              recipe_id = rid;
              version_number = max_version tid rid k.versions + 1;
              yield_quantity = 1;
              name = name;
            }
            ∷ [];
        new_rows = new;
        versions = refl;
        ingredients = e;
        own = All-map _ _ (λ i h. rw h refl) new own;
      }

  confirm_status-Extends :
      (m : MenuItem) (r : Recipe) (st : RecipeStatus) (k : Kitchen)
      → AllOk (Extends k) (confirm_status w tid mid m r st k)
  unfolding confirm_draft
  confirm_status-Extends m r confirmed k = tt
  confirm_status-Extends m r skipped k = tt
  confirm_status-Extends m r draft k =
      let ingredients = draft_of tid r.id k in
      AllOk-bind (Extends k) (raise_if (is_empty ingredients) _) _ (λ u.
        AllOk-bind (Extends k) (raise_if (has_duplicate_name w.norm ingredients) _) _ (λ v.
          AllOk-bind (Extends k) (lift_resolve (resolve_all w.texts tid ingredients k.store)) _
            (λ x.
              Extends-trans k (record k { store = x.0 }) _ (kept k _ refl refl)
                (write_confirmed-Extends r.id m.name x.1 (record k { store = x.0 })))))

  pub confirm_recipe-Extends : (k : Kitchen) → AllOk (Extends k) (confirm_recipe w tid mid k)
  unfolding confirm_recipe
  confirm_recipe-Extends k = elim (Option-cases (find_menu_item tid mid k)) [
    | inl n ↦ rw (confirm_recipe, n) tt
    | inr (m, item) ↦ elim (Option-cases (find_recipe tid mid k)) [
      | inl n ↦ rw (confirm_recipe, item, n) tt
      | inr (r, row) ↦ rw (confirm_recipe, item, row) (confirm_status-Extends m r r.status k)
    ]
  ]

  reopen-Extends : (m : MenuItem) (r : Recipe) (k : Kitchen) → Extends k (reopen w tid mid m r k)
  unfolding reopen set_status set_pointer
  reopen-Extends m r k =
      let rows =
        w.by_name (version_ingredients tid m.recipe_version_id k.store.items k.ingredients) in
      let u = upsert_draft tid r.id (λ p. m.recipe_version_id) rows k in
      Extends-trans k u (reopen w tid mid m r k)
        (upsert_draft-Extends r.id (λ p. m.recipe_version_id) rows k) (kept u _ refl refl)

  pub unconfirm_recipe-Extends : (k : Kitchen) → AllOk (Extends k) (unconfirm_recipe w tid mid k)
  unfolding unconfirm_recipe
  unconfirm_recipe-Extends k = elim (Option-cases (find_menu_item tid mid k)) [
    | inl n ↦ rw (unconfirm_recipe, n) tt
    | inr (m, item) ↦ elim (Option-cases (find_recipe tid mid k)) [
      | inl n ↦ rw (unconfirm_recipe, item, n) tt
      | inr (r, row) ↦ elim (Bool-cases (is_confirmed r.status)) [
        | inl y ↦ rw (unconfirm_recipe, item, row, y) (reopen-Extends m r k)
        | inr n ↦ rw (unconfirm_recipe, item, row, n) tt
      ]
    ]
  ]
