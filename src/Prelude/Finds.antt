-- ===== src/Prelude/Finds.antt =====
-- The row that a SELECT finds, before and after an UPDATE.
use mathlib.Core.Path.{◌≡◌, refl, sym, ap}
use mathlib.Core.Logic.{inl, inr}
use mathlib.Core.Bool.{Bool, true, false, not, ◌&&◌}
use mathlib.Core.Option.{some}
use mathlib.Core.List.{List, [], ◌∷◌, ◌++◌}
use native.Mathlib.Omega.{arith}
use reorder_os.Prelude.Tests.{Bool-cases, if◌then◌else◌}
use reorder_os.Prelude.Lists.{find_first, select, update_where, any, All}

-- An UPDATE that keeps the WHERE clause true rewrites the row that is found.
pub find_updated :
    {A : Type 0} (p : A → Bool) (f : A → A)
    → ((a : A) → p a ≡ true → p (f a) ≡ true)
    → (rows : List A) (row : A) → find_first p rows ≡ some row
    → find_first p (update_where p f rows) ≡ some (f row)
find_updated p f keeps [] row found = absurd (ground arith)
find_updated p f keeps (x ∷ xs) row found = elim (Bool-cases (p x)) [
  | inl y ↦
      let found' : some x ≡ some row = (rw y at found) in
      let same : x ≡ row = cc (found') in rw (y, keeps x y, same) refl
  | inr n ↦
      let found' : find_first p xs ≡ some row = (rw n at found) in
      rw (n, n) (find_updated p f keeps xs row found')
]

pub find-any :
    {A : Type 0} (p : A → Bool) (rows : List A)
    → any p rows ≡ true
    → (a : A) × (find_first p rows ≡ some a)
find-any p [] h = absurd (ground arith)
find-any p (x ∷ xs) h = elim (Bool-cases (p x)) [
  | inl y ↦ rw y (x, refl)
  | inr n ↦ let h' : any p xs ≡ true = (rw n at h) in rw n (find-any p xs h')
]

pub find_first-and :
    {A : Type 0} (p q : A → Bool) (rows : List A) (row : A)
    → find_first p rows ≡ some row
    → q row ≡ true
    → find_first (λ x. p x && q x) rows ≡ some row
find_first-and p q [] row found h = absurd (ground arith)
find_first-and p q (x ∷ xs) row found h = elim (Bool-cases (p x)) [
  | inl y ↦
      let found' : some x ≡ some row = (rw y at found) in
      let same : x ≡ row = cc (found') in let hx : q x ≡ true = rw same h in rw (y, hx, same) refl
  | inr n ↦
      let found' : find_first p xs ≡ some row = (rw n at found) in
      rw n (find_first-and p q xs row found' h)
]

-- The rows only grow, so what is present stays present.
pub any-append :
    {A : Type 0} (p : A → Bool) (new rows : List A) → any p rows ≡ true → any p (new ++ rows) ≡ true
any-append p [] rows h = h
any-append p (x ∷ new) rows h = ground (arith, any-append p new rows h)

pub All-append :
    {A : Type 0} (P : A → Type 0) (xs ys : List A) → All P xs → All P ys → All P (xs ++ ys)
All-append P [] ys a b = b
All-append P (x ∷ xs) ys a b = (a.0, All-append P xs ys a.1 b)

-- An UPDATE whose WHERE clause no row passes changes nothing.
pub update_where_none :
    {A : Type 0} (p : A → Bool) (f : A → A) (rows : List A)
    → any p rows ≡ false
    → update_where p f rows ≡ rows
update_where_none p f [] h = refl
update_where_none p f (x ∷ xs) h = elim (Bool-cases (p x)) [
  | inl y ↦ absurd (ground arith)
  | inr n ↦
      let h' : any p xs ≡ false = (rw n at h) in
      rw n (ap (λ l. x ∷ l) (update_where_none p f xs h'))
]

-- A property that the rewriting keeps holds of every row after an UPDATE.
pub update_where-All :
    {A : Type 0} (P : A → Type 0) (p : A → Bool) (f : A → A)
    → ((a : A) → p a ≡ true → P a → P (f a))
    → (rows : List A) → All P rows
    → All P (update_where p f rows)
update_where-All P p f keeps [] h = tt
update_where-All P p f keeps (x ∷ xs) h = elim (Bool-cases (p x)) [
  | inl y ↦ rw y (keeps x y h.0, update_where-All P p f keeps xs h.1)
  | inr n ↦ rw n (h.0, update_where-All P p f keeps xs h.1)
]

pub any-find :
    {A : Type 0} (p : A → Bool) (rows : List A) (row : A)
    → find_first p rows ≡ some row
    → any p rows ≡ true
any-find p [] row h = absurd (ground arith)
any-find p (x ∷ xs) row h = elim (Bool-cases (p x)) [
  | inl y ↦ rw y refl
  | inr n ↦ let h' : find_first p xs ≡ some row = (rw n at h) in rw n (any-find p xs row h')
]

-- The rows that an UPDATE does not select stay.
pub others_kept :
    {A : Type 0} (p : A → Bool) (f : A → A)
    → ((a : A) → p (f a) ≡ p a)
    → (rows : List A)
    → select (λ x. not (p x)) (update_where p f rows) ≡ select (λ x. not (p x)) rows
others_kept p f same [] = refl
others_kept p f same (x ∷ xs) = elim (Bool-cases (p x)) [
  | inl y ↦ rw (y, same x, y) (others_kept p f same xs)
  | inr n ↦ rw (n, n) (ap (λ l. x ∷ l) (others_kept p f same xs))
]

-- An UPDATE by another clause that a row passes rewrites the row that is found.
pub find_rewritten :
    {A : Type 0} (p q : A → Bool) (f : A → A)
    → ((a : A) → q (f a) ≡ q a)
    → (rows : List A) (row : A) → find_first q rows ≡ some row
    → p row ≡ true
    → find_first q (update_where p f rows) ≡ some (f row)
find_rewritten p q f same [] row found h = absurd (ground arith)
find_rewritten p q f same (x ∷ xs) row found h = elim (Bool-cases (q x)) [
  | inl y ↦
      let found' : some x ≡ some row = (rw y at found) in
      let e : x ≡ row = cc (found') in let px : p x ≡ true = rw e h in rw (px, same x, y, e) refl
  | inr n ↦
      let found' : find_first q xs ≡ some row = (rw n at found) in
      elim (Bool-cases (p x)) [
        | inl y ↦ rw (y, same x, n) (find_rewritten p q f same xs row found' h)
        | inr m ↦ rw (m, n) (find_rewritten p q f same xs row found' h)
      ]
]

-- A row after an UPDATE.
abbrev pub rewritten : {A : Type 0} → (A → Bool) → (A → A) → A → A
rewritten p f a = if p a then f a else a

-- What a clause that the UPDATE leaves alone finds after it.
pub find_first-update_where :
    {A : Type 0} (p q : A → Bool) (f : A → A)
    → ((a : A) → q (f a) ≡ q a)
    → (rows : List A) (row : A) → find_first q rows ≡ some row
    → find_first q (update_where p f rows) ≡ some (rewritten p f row)
find_first-update_where p q f same [] row h = absurd (ground arith)
find_first-update_where p q f same (x ∷ xs) row h = elim (Bool-cases (q x)) [
  | inl y ↦
      let h' : some x ≡ some row = (rw y at h) in
      let e : x ≡ row = cc (h') in
      elim (Bool-cases (p x)) [
        | inl z ↦ rw (sym e, z, same x, y) refl
        | inr z ↦ rw (sym e, z, y) refl
      ]
  | inr n ↦
      let h' : find_first q xs ≡ some row = (rw n at h) in
      elim (Bool-cases (p x)) [
        | inl z ↦ rw (z, same x, n) (find_first-update_where p q f same xs row h')
        | inr z ↦ rw (z, n) (find_first-update_where p q f same xs row h')
      ]
]

pub All-rewritten :
    {A : Type 0} (P Q : A → Type 0) (p : A → Bool) (f : A → A)
    → ((a : A) → P a → Q (rewritten p f a))
    → (rows : List A) → All P rows
    → All Q (update_where p f rows)
All-rewritten P Q p f each [] h = tt
All-rewritten P Q p f each (x ∷ xs) h = (each x h.0, All-rewritten P Q p f each xs h.1)

pub found-All :
    {A : Type 0} (P : A → Type 0) (p : A → Bool) (rows : List A) (row : A)
    → All P rows
    → find_first p rows ≡ some row
    → P row × (p row ≡ true)
found-All P p [] row all h = absurd (ground arith)
found-All P p (x ∷ xs) row all h = elim (Bool-cases (p x)) [
  | inl y ↦
      let h' : some x ≡ some row = (rw y at h) in let e : x ≡ row = cc (h') in rw (sym e) (all.0, y)
  | inr n ↦ let h' : find_first p xs ≡ some row = (rw n at h) in found-All P p xs row all.1 h'
]
