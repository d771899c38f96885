-- ===== src/Recipes/Modifiers/History.antt =====
-- Sequences of operations on modifiers (recipes/modifiers_repo.py).
use reorder_os.Prelude.{ℕ, List, [], ◌∷◌}
use reorder_os.Prelude.Result.{Result, ok, err, AllOk}
use reorder_os.Recipes.{DraftIngredient}
use reorder_os.Recipes.Confirm.{Words}
use reorder_os.Recipes.Modifiers.{
  Bar, ModifierError, save_draft, skip_modifier, confirm_modifier, unconfirm_modifier,
}
use reorder_os.Recipes.Modifiers.Sound.{
  IsSound, save_draft-IsSound, skip_modifier-IsSound, confirm_modifier-IsSound,
  unconfirm_modifier-IsSound,
}

-- What an operator does to a modifier of a menu item.
pub data Operation : Type 0 where
  save : List DraftIngredient → Operation
  skip confirm unconfirm : Operation

abbrev pub perform : Words → Operation → (tid mid mod_id : ℕ) → Bar → Result ModifierError Bar
perform w (save ingredients) tid mid mod_id b = save_draft tid mid mod_id ingredients b
perform w skip tid mid mod_id b = skip_modifier tid mid mod_id b
perform w confirm tid mid mod_id b = confirm_modifier w tid mid mod_id b
perform w unconfirm tid mid mod_id b = unconfirm_modifier w tid mid mod_id b

-- What raises leaves no trace.
abbrev pub settle : Bar → Result ModifierError Bar → Bar
settle b (ok b') = b'
settle b (err e) = b

-- Each operation with the tenant, the menu item and the modifier it names.
unfoldable pub perform_all : Words → List (Operation × (ℕ × (ℕ × ℕ))) → Bar → Bar
perform_all w [] b = b
perform_all w ((op, (tid, (mid, mod_id))) ∷ ops) b =
    perform_all w ops (settle b (perform w op tid mid mod_id b))

module _ (w : Words) where
  perform-IsSound :
      (op : Operation) (tid mid mod_id : ℕ) (b : Bar)
      → IsSound b
      → AllOk IsSound (perform w op tid mid mod_id b)
  perform-IsSound (save ingredients) tid mid mod_id b h =
      save_draft-IsSound tid mid mod_id ingredients b h
  perform-IsSound skip tid mid mod_id b h = skip_modifier-IsSound tid mid mod_id b h
  perform-IsSound confirm tid mid mod_id b h = confirm_modifier-IsSound tid mid mod_id w b h
  perform-IsSound unconfirm tid mid mod_id b h = unconfirm_modifier-IsSound tid mid mod_id w b h

  settled :
      (b : Bar) (r : Result ModifierError Bar) → IsSound b → AllOk IsSound r → IsSound (settle b r)
  settled b (ok b') h all = all
  settled b (err e) h all = h

  -- If every modifier is the row that its id finds, has a version exactly while it is confirmed,
  -- and is additive when it is confirmed, then this holds after any sequence of saves, skips,
  -- confirmations and un-confirmations of any modifiers, those that are refused included.
  pub perform_all-IsSound :
      (ops : List (Operation × (ℕ × (ℕ × ℕ)))) (b : Bar) → IsSound b → IsSound (perform_all w ops b)
  unfolding perform_all
  perform_all-IsSound [] b h = h
  perform_all-IsSound ((op, (tid, (mid, mod_id))) ∷ ops) b h =
      perform_all-IsSound ops _
        (settled b (perform w op tid mid mod_id b) h (perform-IsSound op tid mid mod_id b h))
