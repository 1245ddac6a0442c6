-- ===== src/Config/Order.antt =====
-- The queues array names each queue once, before a reading of the configuration and behind it.
use sisop_2012_2c.Shared.{
  suc, ◌≡◌, ◌≢◌, refl, sym, ap, ◌∙◌, inl, inr, Bool, List, [], ◌∷◌, map, length, arith, Bool-cases,
}
use sisop_2012_2c.Shared.Int.{ℤ}
use sisop_2012_2c.Sts.Queues.{Origin, entry}
use sisop_2012_2c.Sts.Order.Stable.{insert, stable_sort}
use sisop_2012_2c.System.{QueueEntry}
use sisop_2012_2c.Config.{entry_gt}

-- An entry by its queue and its priority.
abbrev pub Named : Type 0
Named = Origin × ℤ

abbrev pub entry_of : Named → QueueEntry
entry_of (o, p) = entry o p

abbrev named_gt : Named → Named → Bool
named_gt x y = entry_gt (entry_of x) (entry_of y)

abbrev pub Fresh : Origin → List Named → Type 0
Fresh o [] = Unit
Fresh o (x ∷ l) = (x.0 ≢ o) × Fresh o l

-- No queue is named twice.
abbrev pub Distinct : List Named → Type 0
Distinct [] = Unit
Distinct (x ∷ l) = Fresh x.0 l × Distinct l

insert-Fresh :
    (o : Origin) (x : Named) (l : List Named) → x.0 ≢ o → Fresh o l → Fresh o (insert named_gt x l)
unfolding insert
insert-Fresh o x [] h k = (h, k)
insert-Fresh o x (y ∷ l) h k = elim (Bool-cases (named_gt x y)) [
  | inl gr ↦ rw (gr, insert) (k.0, insert-Fresh o x l h k.1)
  | inr le ↦ rw (le, insert) (h, k)
]

insert-Distinct :
    (x : Named) (l : List Named) → Fresh x.0 l → Distinct l → Distinct (insert named_gt x l)
unfolding insert
insert-Distinct x [] h k = (h, k)
insert-Distinct x (y ∷ l) h k = elim (Bool-cases (named_gt x y)) [
  | inl gr ↦
      rw (gr, insert) (insert-Fresh y.0 x l (λ e. h.0 (sym e)) k.0, insert-Distinct x l h.1 k.1)
  | inr le ↦ rw (le, insert) (h, k)
]

insert-map :
    (x : Named) (l : List Named)
    → insert entry_gt (entry_of x) (map entry_of l) ≡ map entry_of (insert named_gt x l)
unfolding insert
insert-map x [] = refl
insert-map x (y ∷ l) = elim (Bool-cases (named_gt x y)) [
  | inl gr ↦ rw (gr, insert) (ap (λ (q : List QueueEntry). entry_of y ∷ q) (insert-map x l))
  | inr le ↦ rw (le, insert) refl
]

length-insert : (x : Named) (l : List Named) → length (insert named_gt x l) ≡ suc (length l)
unfolding insert
length-insert x [] = refl
length-insert x (y ∷ l) = elim (Bool-cases (named_gt x y)) [
  | inl gr ↦ rw (gr, insert) (ap suc (length-insert x l))
  | inr le ↦ rw (le, insert) refl
]

-- The sort of named entries is a list of as many, and it names no queue twice.
pub stable_sort-Distinct :
    (l : List Named)
    → Distinct l
    → (sorted : List Named) × (stable_sort entry_gt (map entry_of l) ≡ map entry_of sorted)
      × (length sorted ≡ length l)
      × Distinct sorted
      × ((o : Origin) → Fresh o l → Fresh o sorted)
unfolding stable_sort
stable_sort-Distinct [] h = ([], refl, refl, h, λ o k. k)
stable_sort-Distinct (x ∷ l) (fresh, h) =
    let (sorted, e, n, d, keeps) = stable_sort-Distinct l h in
    (
      insert named_gt x sorted,
      ap (insert entry_gt (entry_of x)) e ∙ insert-map x sorted,
      length-insert x sorted ∙ ap suc n,
      insert-Distinct x sorted (keeps x.0 fresh) d,
      λ o k. insert-Fresh o x sorted k.0 (keeps o k.1),
    )

pub four_of_length :
    {A : Type 0} (l : List A) → length l ≡ 4 → (a b c d : A) × (l ≡ a ∷ b ∷ c ∷ d ∷ [])
four_of_length (a ∷ b ∷ c ∷ d ∷ []) h = (a, b, c, d, refl)
four_of_length [] h = absurd (omega (arith, h))
four_of_length (a ∷ []) h = absurd (omega (arith, h))
four_of_length (a ∷ b ∷ []) h = absurd (omega (arith, h))
four_of_length (a ∷ b ∷ c ∷ []) h = absurd (omega (arith, h))
four_of_length (a ∷ b ∷ c ∷ d ∷ e ∷ l) h = absurd (omega (arith, h))
