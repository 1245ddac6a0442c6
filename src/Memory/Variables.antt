-- ===== src/Memory/Variables.antt =====
-- The data segment as a list of named variables: reading after writing, and declaring.
use native.Mathlib.Nat.{zero-add}
use sisop_2012_2c.Shared.{
  ℕ, suc, ◌+◌, ◌≤◌, ◌≡◌, refl, ap, ◌≢◌, Bool, true, false, ◌&&◌, List, [], ◌∷◌, ◌++◌, Option, none,
  some, CString, arith, length, ◌==◌, if◌then◌else◌, take-append_length, map, ge→ltb,
}
use sisop_2012_2c.Shared.Int.{ℤ, pos}
use sisop_2012_2c.Shared.Outcome.{ok}
use sisop_2012_2c.Process.{Variable}
use sisop_2012_2c.Memory.{
  find_variable, read_data, write_variable, write_data, count_variables, data_count, declared,
  add_variables, u16_last,
}

-- No name is NUL.
abbrev pub AllNamed : List Variable → Type 0
AllNamed [] = Unit
AllNamed (v ∷ named) = (v.var_name ≢ 0) × AllNamed named

abbrev pub end_entry : Variable
end_entry = record { var_name = 0; var_value = pos 0 }

-- The array of a process that has declared these variables.
abbrev pub segment : List Variable → List Variable
segment named = named ++ end_entry ∷ []

abbrev pub is_declared : ℕ → List Variable → Bool
is_declared name [] = false
is_declared name (v ∷ named) = if v.var_name == name then true else is_declared name named

-- The first variable of that name gets the value.
abbrev pub assign : ℕ → ℤ → List Variable → List Variable
assign name value [] = []
assign name value (v ∷ named) =
    if v.var_name == name
    then record v { var_value = value } ∷ named
    else v ∷ assign name value named

first : ℕ → List Variable → Variable
first name [] = end_entry
first name (v ∷ named) = if v.var_name == name then v else first name named

find_variable-first :
    (name i : ℕ) (named : List Variable)
    → AllNamed named
    → i + length named ≤ u16_last
    → find_variable name i (segment named) ≡ ok (first name named)
unfolding find_variable first
find_variable-first name i [] a h = refl
find_variable-first name i (v ∷ named) a h =
    ground (arith, find_variable-first name (i + 1) named a.1)

write_variable-assign :
    (name : ℕ) (value : ℤ) (i : ℕ) (named : List Variable)
    → AllNamed named
    → i + length named ≤ u16_last
    → write_variable name value i (segment named) ≡ ok (segment (assign name value named))
unfolding write_variable
write_variable-assign name value i [] a h = refl
write_variable-assign name value i (v ∷ named) a h =
    ground (arith, write_variable-assign name value (i + 1) named a.1)

first-assign :
    (name j : ℕ) (value : ℤ) (named : List Variable)
    → first j (assign name value named) ≡ (
        if (j == name) && is_declared name named
        then record (first j named) { var_value = value }
        else first j named)
unfolding first
first-assign name j value [] = ground arith
first-assign name j value (v ∷ named) = ground (arith, first-assign name j value named)

length-assign :
    (name : ℕ) (value : ℤ) (named : List Variable) → length (assign name value named) ≡ length named
length-assign name value [] = refl
length-assign name value (v ∷ named) = ground (arith, length-assign name value named)

assign-AllNamed :
    (name : ℕ) (value : ℤ) (named : List Variable)
    → AllNamed named
    → AllNamed (assign name value named)
assign-AllNamed name value [] a = tt
assign-AllNamed name value (v ∷ named) a = ground (arith, assign-AllNamed name value named a.1)

first-named :
    (name : ℕ) (named : List Variable)
    → AllNamed named
    → is_declared name named ≡ true
    → (first name named).var_name ≢ 0
unfolding first
first-named name [] a h = λ e. cc
first-named name (v ∷ named) a h = ground (arith, first-named name named a.1)

-- Writing a variable of a segment of at most 65535 succeeds; afterwards the declared name that was
-- written reads as the value, and every other name as before.
pub read_data-write_data :
    (name j : ℕ) (value : ℤ) (named : List Variable)
    → AllNamed named
    → length named ≤ u16_last
    → (vars : Option (List Variable)) × (write_data (some (segment named)) name value ≡ ok vars)
      × (read_data vars j ≡ (
          if (j == name) && is_declared name named
          then ok value
          else read_data (some (segment named)) j))
unfolding read_data write_data
read_data-write_data name j value named a h = (
  some (segment (assign name value named)),
  rw (write_variable-assign name value 0 named a (omega arith)),
  rw
      (
        find_variable-first j 0 named a (omega arith),
        find_variable-first j 0 (assign name value named) (assign-AllNamed name value named a)
            (omega (arith, length-assign name value named)),
        read_data,
      )
      (rw (first-assign name j value named) (ground (arith, first-named j named a))),
)

count_variables-segment :
    (i : ℕ) (named : List Variable)
    → AllNamed named
    → i + length named ≤ u16_last
    → count_variables i (segment named) ≡ ok (i + length named)
unfolding count_variables
count_variables-segment i [] a h = ground arith
count_variables-segment i (v ∷ named) a h =
    ground (arith, count_variables-segment (i + 1) named a.1)

-- The text of a declaration: the names with a comma between them.
abbrev pub join_names : ℕ → List ℕ → CString
join_names name [] = name ∷ []
join_names name (next ∷ names) = name ∷ b',' ∷ join_names next names

-- New variables, all zero.
abbrev pub zeros : List ℕ → List Variable
zeros = map (λ name. record { var_name = name; var_value = pos 0 })

declared-join_names :
    (name : ℕ) (names : List ℕ) → declared (join_names name names) ≡ ok (zeros (name ∷ names))
unfolding declared
declared-join_names name [] = refl
declared-join_names name (next ∷ names) = rw (declared-join_names next names, declared)

length-zeros : (names : List ℕ) → length (zeros names) ≡ length names
length-zeros [] = refl
length-zeros (name ∷ names) = ap suc (length-zeros names)

-- Declaring names puts them behind the variables that are there, which keep their values, and the
-- new ones are zero; a process without a data segment gets one.
pub add_variables-segment :
    (named : List Variable) (name : ℕ) (names : List ℕ)
    → AllNamed named
    → length named + length names + 2 ≤ u16_last
    → (add_variables (some (segment named)) (join_names name names)
        ≡ ok (some (segment (named ++ zeros (name ∷ names)))))
      × (add_variables none (join_names name names) ≡ ok (some (segment (zeros (name ∷ names)))))
unfolding add_variables data_count
add_variables-segment named name names a h = (
  rw
      (
        count_variables-segment 0 named a (omega arith),
        declared-join_names name names,
        add_variables,
      )
      (rw
        (ge→ltb u16_last (0 + length named + length (zeros (name ∷ names)) + 1)
          (omega (arith, length-zeros names)))
        (rw zero-add (rw (take-append_length named (end_entry ∷ []))))),
  rw (declared-join_names name names, add_variables)
      (rw (
        ge→ltb u16_last (0 + length (zeros (name ∷ names)) + 1)
          (omega (arith, length-zeros names)))),
)
