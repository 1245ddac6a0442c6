-- ===== src/Commons.antt =====
-- The collections library of PROCER/commons/commons/collections as its clients use it: the contents
-- of a `t_list` or a `t_queue` are a list, and the calls are parameters with the behaviour that the
-- clients rely on. NULL is `none`.
pub mod Positions
use sisop_2012_2c.Shared.{
  ℕ, ◌-◌, ◌<◌, ◌≡◌, Bool, ◌&&◌, Option, none, some, List, [], ◌∷◌, ◌++◌, CString, str_eq, length,
  get_elem?, take, drop, erase_idx, insert_idx, leb,
}

pub record Collections : Type 1 where
  pub size : {A : Type 0} → List A → ℕ
  pub add : {A : Type 0} → List A → A → List A
  pub get : {A : Type 0} → List A → ℕ → Option A
  pub remove : {A : Type 0} → List A → ℕ → Option A × List A
  pub add_in_index : {A : Type 0} → List A → ℕ → A → List A
  pub push : {A : Type 0} → List A → A → List A
  pub pop : {A : Type 0} → List A → Option A × List A
  -- the documented behaviour
  pub size_law : {A : Type 0} (l : List A) → size l ≡ length l
  pub add_law : {A : Type 0} (l : List A) (x : A) → add l x ≡ l ++ x ∷ []
  pub get_law : {A : Type 0} (l : List A) (i : ℕ) → get l i ≡ get_elem? l i
  pub remove_law :
      {A : Type 0} (l : List A) (i : ℕ) → i < length l → remove l i ≡ (get_elem? l i, erase_idx l i)
  pub remove_empty : {A : Type 0} (i : ℕ) → remove {A = A} [] i ≡ (none, [])
  -- an index that is no element's adds nothing: `elements_count > index` guards the insertion
  pub add_in_index_law :
      {A : Type 0} (l : List A) (i : ℕ) (x : A) → add_in_index l i x ≡ insert_idx l i x
  pub push_law : {A : Type 0} (l : List A) (x : A) → push l x ≡ l ++ x ∷ []
  pub pop_empty : {A : Type 0} → pop {A = A} [] ≡ (none, [])
  pub pop_law : {A : Type 0} (x : A) (l : List A) → pop (x ∷ l) ≡ (some x, l)

-- The calls under the library's names, at the instance in scope.
abbrev pub list_size : {A : Type 0} ⦃c : Collections⦄ → List A → ℕ
list_size ⦃c⦄ = c.size

abbrev pub list_add : {A : Type 0} ⦃c : Collections⦄ → List A → A → List A
list_add ⦃c⦄ = c.add

abbrev pub list_get : {A : Type 0} ⦃c : Collections⦄ → List A → ℕ → Option A
list_get ⦃c⦄ = c.get

abbrev pub list_remove : {A : Type 0} ⦃c : Collections⦄ → List A → ℕ → Option A × List A
list_remove ⦃c⦄ = c.remove

abbrev pub list_add_in_index : {A : Type 0} ⦃c : Collections⦄ → List A → ℕ → A → List A
list_add_in_index ⦃c⦄ = c.add_in_index

abbrev pub queue_size : {A : Type 0} ⦃c : Collections⦄ → List A → ℕ
queue_size ⦃c⦄ = c.size

abbrev pub queue_push : {A : Type 0} ⦃c : Collections⦄ → List A → A → List A
queue_push ⦃c⦄ = c.push

abbrev pub queue_pop : {A : Type 0} ⦃c : Collections⦄ → List A → Option A × List A
queue_pop ⦃c⦄ = c.pop

-- PROCER/commons/commons/string.c: the two tests, and the removal of blanks at both ends, of which the
-- clients need no more than what it is.
pub record Strings : Type 0 where
  pub starts_with : CString → CString → Bool
  pub ends_with : CString → CString → Bool
  pub trim : CString → CString
  pub starts_with_law : (s t : CString) → starts_with s t ≡ str_eq (take (length t) s) t
  pub ends_with_law :
      (s t : CString)
      → ends_with s t ≡ (leb (length t) (length s) && str_eq (drop (length s - length t) s) t)

abbrev pub string_starts_with : ⦃s : Strings⦄ → CString → CString → Bool
string_starts_with ⦃s⦄ = s.starts_with

abbrev pub string_ends_with : ⦃s : Strings⦄ → CString → CString → Bool
string_ends_with ⦃s⦄ = s.ends_with

abbrev pub string_trim : ⦃s : Strings⦄ → CString → CString
string_trim ⦃s⦄ = s.trim
