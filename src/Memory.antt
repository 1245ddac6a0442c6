-- ===== src/Memory.antt =====
-- The data segment of a process, PROCER/PP/src/procer_defs.c: an array of variables that ends in an
-- entry named NUL. The array is the list of the entries that are allocated, and NULL is `none`. A
-- search counts in a uint16_t: where it has passed entry 65535 it starts again and never ends.
pub mod Variables
pub mod Progress
use sisop_2012_2c.Shared.{
  ℕ, zero, suc, ◌+◌, Bool, true, false, ◌||◌, List, [], ◌∷◌, ◌++◌, Option, none, some, CString,
  length, take, ltb, ◌==◌, if◌then◌else◌,
}
use sisop_2012_2c.Shared.Int.{ℤ, pos}
use sisop_2012_2c.Shared.Outcome.{Outcome, ok, fault, hang, deref, ◌>>=◌}
use sisop_2012_2c.Shared.Number.{atoi}
use sisop_2012_2c.Process.{Variable}

abbrev pub u16_last : ℕ
u16_last = 65535

-- for (i = 0; data[i].varName != '\0' && data[i].varName != varName; i++): the entry where it stops
pub find_variable : ℕ → ℕ → List Variable → Outcome Variable
find_variable name i [] = fault
find_variable name i (v ∷ vars) = elim (v.var_name == 0 || v.var_name == name) [
  | true ↦ ok v
  | false ↦ elim (i == u16_last) [ true ↦ hang | false ↦ find_variable name (i + 1) vars ]
]

-- A name that is not there is read as a number of one digit.
pub read_data : Option (List Variable) → ℕ → Outcome ℤ
unfolding find_variable atoi
read_data vars name = do
  entries ← deref vars
  found ← find_variable name 0 entries
  if found.var_name == 0 then atoi (if name == 0 then [] else name ∷ []) else ok found.var_value

-- The same search, and the write of the entry where it stops unless that is the end.
pub write_variable : ℕ → ℤ → ℕ → List Variable → Outcome (List Variable)
write_variable name value i [] = fault
write_variable name value i (v ∷ vars) = elim (v.var_name == 0) [
  | true ↦ ok (v ∷ vars)
  | false ↦ elim (v.var_name == name) [
    | true ↦ ok (record v { var_value = value } ∷ vars)
    | false ↦ elim (i == u16_last) [
      | true ↦ hang
      | false ↦ (do rest ← write_variable name value (i + 1) vars; ok (v ∷ rest))
    ]
  ]
]

pub write_data : Option (List Variable) → ℕ → ℤ → Outcome (Option (List Variable))
unfolding write_variable
write_data vars name value = do
  entries ← deref vars
  written ← write_variable name value 0 entries
  ok (some written)

pub count_variables : ℕ → List Variable → Outcome ℕ
count_variables i [] = fault
count_variables i (v ∷ vars) = elim (v.var_name == 0) [
  | true ↦ ok i
  | false ↦ elim (i == u16_last) [ true ↦ hang | false ↦ count_variables (i + 1) vars ]
]

pub data_count : Option (List Variable) → Outcome ℕ
unfolding count_variables
data_count none = ok 0
data_count (some vars) = count_variables 0 vars

-- The loop over the list of names: one name, and after it a separator that is skipped unread. A list
-- that is empty or ends in a separator is read beyond its NUL.
pub declared : CString → Outcome (List Variable)
declared [] = fault
declared (name ∷ []) = ok (record { var_name = name; var_value = pos 0 } ∷ [])
declared (name ∷ separator ∷ names) = do
  rest ← declared names
  ok (record { var_name = name; var_value = pos 0 } ∷ rest)

-- The entries before the old end.
abbrev kept : Option (List Variable) → ℕ → List Variable
kept none count = []
kept (some entries) count = take count entries

-- realloc keeps the entries before the old end, whose place the first new name takes. The value of
-- the new end is not written; it is never read. The uint16_t `varCount` comes to 0 where the entries
-- are 65536, and the write is before the array.
pub add_variables : Option (List Variable) → CString → Outcome (Option (List Variable))
unfolding data_count declared
add_variables vars var_list = do
  count ← data_count vars
  names ← declared var_list
  if ltb u16_last (count + length names + 1)
      then fault
      else ok (some ((kept vars count ++ names) ++ record { var_name = 0; var_value = pos 0 } ∷ []))
