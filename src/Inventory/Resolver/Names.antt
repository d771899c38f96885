-- ===== src/Inventory/Resolver/Names.antt =====
-- What resolve_inventory_item (inventory/item_resolver.py) writes, and a second run of it.
use reorder_os.Prelude.{
  ℕ, ◌≡◌, refl, ◌∙◌, inl, inr, true, String, any, find_first, arith, Bool-cases, Option-cases,
}
use reorder_os.Prelude.Finds.{any-find}
use reorder_os.Prelude.Result.{ok, err, AllOk, Result-cases}
use reorder_os.Depletion.Units.{Dimension, dimension_of}
use reorder_os.Receipts.{Store}
use reorder_os.Inventory.Resolver.{
  Texts, unknown_unit, no_row, is_unit_named, is_item_named, ensure_unit, ensure_item, unit_of,
  item_id_of, resolve_known, resolve_inventory_item,
}

-- Neither the receipts nor the lines nor the clock differ.
abbrev pub IsSame : Store → Store → Type 0
IsSame s s' = (s'.lines ≡ s.lines) × (s'.receipts ≡ s.receipts) × (s'.ledger.now ≡ s.ledger.now)

ensure_unit-IsSame :
    (tid : ℕ) (unit : String) (dim : Dimension) (s : Store) → IsSame s (ensure_unit tid unit dim s)
unfolding ensure_unit
ensure_unit-IsSame tid unit dim s = elim (Bool-cases (any (is_unit_named tid unit) s.units)) [
  | inl y ↦ rw y (refl, refl, refl)
  | inr n ↦ rw n (refl, refl, refl)
]

ensure_item-IsSame :
    (t : Texts) (tid : ℕ) (name : String) (uid : ℕ) (s : Store)
    → IsSame s (ensure_item t tid name uid s)
unfolding ensure_item
ensure_item-IsSame t tid name uid s = elim (Bool-cases (any (is_item_named t tid name) s.items)) [
  | inl y ↦ rw y (refl, refl, refl)
  | inr n ↦ rw n (refl, refl, refl)
]

IsSame-trans : (a b c : Store) → IsSame a b → IsSame b c → IsSame a c
IsSame-trans a b c f g = (g.0 ∙ f.0, g.1 ∙ f.1, g.2 ∙ f.2)

resolve_known-IsSame :
    (t : Texts) (tid : ℕ) (name unit : String) (dim : Dimension) (s : Store)
    → AllOk (λ r. IsSame s r.0) (resolve_known t tid name unit dim s)
unfolding resolve_known
resolve_known-IsSame t tid name unit dim s =
    let s₁ = ensure_unit tid unit dim s in
    elim (Result-cases (unit_of tid unit dim s₁)) [
      | inl (e, u) ↦ rw u tt
      | inr (uid, u) ↦
          let s₂ = ensure_item t tid name uid s₁ in
          elim (Result-cases (item_id_of t tid name s₂)) [
            | inl (e, i) ↦ rw (u, i) tt
            | inr (id, i) ↦
                rw (u, i)
                  (IsSame-trans s s₁ s₂ (ensure_unit-IsSame tid unit dim s)
                    (ensure_item-IsSame t tid name uid s₁))
          ]
    ]

pub resolve_inventory_item-IsSame :
    (t : Texts) (tid : ℕ) (name unit : String) (s : Store)
    → AllOk (λ r. IsSame s r.0) (resolve_inventory_item t tid name unit s)
unfolding resolve_inventory_item
resolve_inventory_item-IsSame t tid name unit s = elim (Option-cases (dimension_of unit)) [
  | inl n ↦ rw (resolve_inventory_item, n) tt
  | inr (dim, y) ↦ rw (resolve_inventory_item, y) (resolve_known-IsSame t tid name unit dim s)
]

ensure_unit_there :
    (tid : ℕ) (unit : String) (dim : Dimension) (s : Store)
    → any (is_unit_named tid unit) s.units ≡ true
    → ensure_unit tid unit dim s ≡ s
unfolding ensure_unit
ensure_unit_there tid unit dim s h = rw h refl

ensure_item_there :
    (t : Texts) (tid : ℕ) (name : String) (uid : ℕ) (s : Store)
    → any (is_item_named t tid name) s.items ≡ true
    → ensure_item t tid name uid s ≡ s
unfolding ensure_item
ensure_item_there t tid name uid s h = rw h refl

ensure_item-units :
    (t : Texts) (tid : ℕ) (name : String) (uid : ℕ) (s : Store)
    → (ensure_item t tid name uid s).units ≡ s.units
unfolding ensure_item
ensure_item-units t tid name uid s = elim (Bool-cases (any (is_item_named t tid name) s.items)) [
  | inl y ↦ rw y refl
  | inr n ↦ rw n refl
]

unit_of-any :
    (tid : ℕ) (unit : String) (dim : Dimension) (s : Store) (uid : ℕ)
    → unit_of tid unit dim s ≡ ok uid
    → any (is_unit_named tid unit) s.units ≡ true
unfolding unit_of
unit_of-any tid unit dim s uid h =
    elim (Option-cases (find_first (is_unit_named tid unit) s.units)) [
      | inl n ↦ absurd (let h' : err no_row ≡ ok uid = (rw (unit_of, n) at h) in ground arith)
      | inr (u, y) ↦ any-find (is_unit_named tid unit) s.units u y
    ]

item_id_of-any :
    (t : Texts) (tid : ℕ) (name : String) (s : Store) (id : ℕ)
    → item_id_of t tid name s ≡ ok id
    → any (is_item_named t tid name) s.items ≡ true
item_id_of-any t tid name s id h =
    elim (Option-cases (find_first (is_item_named t tid name) s.items)) [
      | inl n ↦ absurd (let h' : err no_row ≡ ok id = (rw (item_id_of, n) at h) in ground arith)
      | inr (i, y) ↦ any-find (is_item_named t tid name) s.items i y
    ]

unit_of-units :
    (tid : ℕ) (unit : String) (dim : Dimension) (a b : Store)
    → a.units ≡ b.units
    → unit_of tid unit dim a ≡ unit_of tid unit dim b
unfolding unit_of
unit_of-units tid unit dim a b h = rw h refl

resolve_known_again :
    (t : Texts) (tid : ℕ) (name unit : String) (dim : Dimension) (s : Store)
    → AllOk
        (λ r. resolve_known t tid name unit dim r.0 ≡ ok r)
        (resolve_known t tid name unit dim s)
unfolding resolve_known
resolve_known_again t tid name unit dim s =
    let s₁ = ensure_unit tid unit dim s in
    elim (Result-cases (unit_of tid unit dim s₁)) [
      | inl (e, u) ↦ rw u tt
      | inr (uid, u) ↦
          let s₂ = ensure_item t tid name uid s₁ in
          elim (Result-cases (item_id_of t tid name s₂)) [
            | inl (e, i) ↦ rw (u, i) tt
            | inr (id, i) ↦
                let units =
                  unit_of-units tid unit dim s₂ s₁ (ensure_item-units t tid name uid s₁) in
                let u₂ : unit_of tid unit dim s₂ ≡ ok uid = units ∙ u in
                let there =
                  ensure_unit_there tid unit dim s₂ (unit_of-any tid unit dim s₂ uid u₂) in
                let item_there =
                  ensure_item_there t tid name uid s₂ (item_id_of-any t tid name s₂ id i) in
                rw (u, i) (rw (there, u₂, item_there, i) refl)
          ]
    ]

-- A resolution that succeeded gives, when it is run again on what it left, the same item, and
-- writes nothing: an item or a unit is created at most once for a name.
pub resolve_inventory_item_again :
    (t : Texts) (tid : ℕ) (name unit : String) (s s' : Store) (id : ℕ)
    → resolve_inventory_item t tid name unit s ≡ ok (s', id)
    → resolve_inventory_item t tid name unit s' ≡ ok (s', id)
unfolding resolve_inventory_item
resolve_inventory_item_again t tid name unit s s' id h = elim (Option-cases (dimension_of unit)) [
  | inl n ↦ absurd (
      let h' : err unknown_unit ≡ ok (s', id) = (rw (resolve_inventory_item, n) at h) in
      ground arith)
  | inr (dim, y) ↦
      let h' : resolve_known t tid name unit dim s ≡ ok (s', id) =
        (rw (resolve_inventory_item, y) at h) in
      let all = resolve_known_again t tid name unit dim s in
      let again : resolve_known t tid name unit dim s' ≡ ok (s', id) = (rw h' at all) in
      rw (resolve_inventory_item, y) again
]
