-- ===== src/Recipes/History.antt =====
-- Sequences of operations on one menu item (recipes/repo.py).
use reorder_os.Prelude.{ℕ, refl, List, [], ◌∷◌}
use reorder_os.Prelude.Result.{Result, ok, err, AllOk}
use reorder_os.Recipes.{DraftIngredient, Kitchen, RecipeError}
use reorder_os.Recipes.Drafts.{save_draft, skip_recipe}
use reorder_os.Recipes.Confirm.{Words, confirm_recipe, unconfirm_recipe}
use reorder_os.Recipes.Linked.{
  IsLinked, save_draft-IsLinked, skip_recipe-IsLinked, confirm_recipe-IsLinked,
  unconfirm_recipe-IsLinked,
}
use reorder_os.Recipes.Versions.{
  Extends, Extends-trans, kept, save_draft-Extends, skip_recipe-Extends, confirm_recipe-Extends,
  unconfirm_recipe-Extends,
}

-- What an operator does to the recipe of one menu item.
pub data Operation : Type 0 where
  save : List DraftIngredient → Operation
  skip confirm unconfirm : Operation

abbrev pub perform : Words → (tid mid : ℕ) → Operation → Kitchen → Result RecipeError Kitchen
perform w tid mid (save ingredients) k = save_draft tid mid ingredients k
perform w tid mid skip k = skip_recipe tid mid k
perform w tid mid confirm k = confirm_recipe w tid mid k
perform w tid mid unconfirm k = unconfirm_recipe w tid mid k

-- What raises leaves no trace.
abbrev pub settle : Kitchen → Result RecipeError Kitchen → Kitchen
settle k (ok k') = k'
settle k (err e) = k

unfoldable pub perform_all : Words → (tid mid : ℕ) → List Operation → Kitchen → Kitchen
perform_all w tid mid [] k = k
perform_all w tid mid (op ∷ ops) k = perform_all w tid mid ops (settle k (perform w tid mid op k))

module _ (w : Words) (tid mid : ℕ) where
  perform-Extends : (op : Operation) (k : Kitchen) → AllOk (Extends k) (perform w tid mid op k)
  perform-Extends (save ingredients) k = save_draft-Extends w tid mid ingredients k
  perform-Extends skip k = skip_recipe-Extends w tid mid k
  perform-Extends confirm k = confirm_recipe-Extends w tid mid k
  perform-Extends unconfirm k = unconfirm_recipe-Extends w tid mid k

  perform-IsLinked :
      (op : Operation) (k : Kitchen)
      → IsLinked tid mid k
      → AllOk (IsLinked tid mid) (perform w tid mid op k)
  perform-IsLinked (save ingredients) k h = save_draft-IsLinked tid mid ingredients k h
  perform-IsLinked skip k h = skip_recipe-IsLinked tid mid k h
  perform-IsLinked confirm k h = confirm_recipe-IsLinked tid mid w k
  perform-IsLinked unconfirm k h = unconfirm_recipe-IsLinked tid mid w k

  settled :
      (P : Kitchen → Type 0) (k : Kitchen) (r : Result RecipeError Kitchen)
      → P k
      → AllOk P r
      → P (settle k r)
  settled P k (ok k') h all = all
  settled P k (err e) h all = h

  -- Whatever saves, skips, confirmations and un-confirmations are made of a menu item's recipe, in
  -- any order and with those that are refused, the item points to a version exactly while its
  -- recipe is confirmed, if it did before.
  pub perform_all-IsLinked :
      (ops : List Operation) (k : Kitchen)
      → IsLinked tid mid k
      → IsLinked tid mid (perform_all w tid mid ops k)
  unfolding perform_all
  perform_all-IsLinked [] k h = h
  perform_all-IsLinked (op ∷ ops) k h =
      perform_all-IsLinked ops _
        (settled (IsLinked tid mid) k (perform w tid mid op k) h (perform-IsLinked op k h))

  -- Such a sequence changes and removes no version and no ingredient of a version: new rows come in front of
  -- those that were there, and each new ingredient is of a new version.
  pub perform_all-Extends :
      (ops : List Operation) (k : Kitchen) → Extends k (perform_all w tid mid ops k)
  unfolding perform_all
  perform_all-Extends [] k = kept k k refl refl
  perform_all-Extends (op ∷ ops) k =
      let k' = settle k (perform w tid mid op k) in
      Extends-trans k k' _
        (settled (Extends k) k (perform w tid mid op k) (kept k k refl refl) (perform-Extends op k))
        (perform_all-Extends ops k')
