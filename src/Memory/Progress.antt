-- ===== src/Memory/Progress.antt =====
-- The searches of the data segment come to an end where it is short enough for a uint16_t, and the writes
-- keep it so.
use sisop_2012_2c.Shared.{
  ℕ, zero, suc, ◌+◌, ◌≤◌, ◌≡◌, refl, ap, false, ◌||◌, List, [], ◌∷◌, ◌++◌, Option, none, some,
  CString, length, length-append, take, ltb, ◌==◌, if◌then◌else◌, arith, ==-eq,
}
use sisop_2012_2c.Shared.Int.{ℤ, pos}
use sisop_2012_2c.Shared.Outcome.{
  Any, Settles, Settles-ok, Settles-fault, Settles-if, Settles-elim, Settles->>=,
}
use sisop_2012_2c.Shared.Number.{atoi-Settles}
use sisop_2012_2c.Process.{Variable}
use sisop_2012_2c.Memory.{
  u16_last, find_variable, read_data, write_variable, write_data, count_variables, data_count,
  declared, add_variables, kept,
}

-- The data segment is short enough for the searches that count in a uint16_t.
abbrev pub IsSized : Option (List Variable) → Type 0
IsSized none = Unit
IsSized (some vars) = length vars ≤ 65535

find_variable-Settles :
    (name i : ℕ) (vars : List Variable)
    → i + length vars ≤ 65535
    → Settles Any (find_variable name i vars)
unfolding find_variable
find_variable-Settles name i [] h = Settles-fault
find_variable-Settles name i (v ∷ vars) h =
    Settles-elim (v.var_name == 0 || v.var_name == name) (λ hit. Settles-ok _ _)
      (λ e.
        Settles-elim (i == u16_last) (λ last. absurd (omega (arith, h, ==-eq i u16_last last)))
          (λ f. find_variable-Settles name (i + 1) vars (omega (arith, h))))

pub read_data-Settles :
    (vars : Option (List Variable)) (name : ℕ) → IsSized vars → Settles Any (read_data vars name)
unfolding read_data
read_data-Settles none name h = Settles-fault
read_data-Settles (some vars) name h =
    Settles->>= Any (find_variable name 0 vars)
      (find_variable-Settles name 0 vars (omega (arith, h)))
      λ v e u.
        Settles-if (v.var_name == 0) (λ f. atoi-Settles (if name == 0 then [] else name ∷ []))
          (λ f. Settles-ok _ _)

write_variable-Settles :
    (name : ℕ) (value : ℤ) (i : ℕ) (vars : List Variable)
    → i + length vars ≤ 65535
    → Settles (λ l. length l ≡ length vars) (write_variable name value i vars)
unfolding write_variable
write_variable-Settles name value i [] h = Settles-fault
write_variable-Settles name value i (v ∷ vars) h =
    Settles-elim (v.var_name == 0) (λ end. Settles-ok _ refl)
      (λ e.
        Settles-elim (v.var_name == name) (λ hit. Settles-ok _ refl)
          (λ f.
            Settles-elim (i == u16_last) (λ last. absurd (omega (arith, h, ==-eq i u16_last last)))
              (λ g.
                Settles->>= (λ l. length l ≡ length vars) (write_variable name value (i + 1) vars)
                  (write_variable-Settles name value (i + 1) vars (omega (arith, h)))
                  λ rest k same. Settles-ok _ (ap suc same))))

pub write_data-Settles :
    (vars : Option (List Variable)) (name : ℕ) (value : ℤ)
    → IsSized vars
    → Settles IsSized (write_data vars name value)
unfolding write_data
write_data-Settles none name value h = Settles-fault
write_data-Settles (some vars) name value h =
    Settles->>= (λ l. length l ≡ length vars) (write_variable name value 0 vars)
      (write_variable-Settles name value 0 vars (omega (arith, h)))
      λ l e same. Settles-ok _ (omega (arith, h, same))

count_variables-Settles :
    (i : ℕ) (vars : List Variable) → i + length vars ≤ 65535 → Settles Any (count_variables i vars)
unfolding count_variables
count_variables-Settles i [] h = Settles-fault
count_variables-Settles i (v ∷ vars) h =
    Settles-elim (v.var_name == 0) (λ end. Settles-ok _ _)
      (λ e.
        Settles-elim (i == u16_last) (λ last. absurd (omega (arith, h, ==-eq i u16_last last)))
          (λ f. count_variables-Settles (i + 1) vars (omega (arith, h))))

data_count-Settles : (vars : Option (List Variable)) → IsSized vars → Settles Any (data_count vars)
unfolding data_count
data_count-Settles none h = Settles-ok 0 _
data_count-Settles (some vars) h = count_variables-Settles 0 vars (omega (arith, h))

declared-Settles : (names : CString) → Settles Any (declared names)
unfolding declared
declared-Settles [] = Settles-fault
declared-Settles (name ∷ []) = Settles-ok _ _
declared-Settles (name ∷ separator ∷ names) =
    Settles->>= Any (declared names) (declared-Settles names) λ rest e u. Settles-ok _ _

length-take_le : {A : Type 0} (n : ℕ) (l : List A) → length (take n l) ≤ n
length-take_le zero l = omega arith
length-take_le (suc n) [] = omega arith
length-take_le (suc n) (x ∷ l) = omega (arith, length-take_le n l)

length-kept : (vars : Option (List Variable)) (n : ℕ) → length (kept vars n) ≤ n
length-kept none n = omega arith
length-kept (some l) n = length-take_le n l

pub add_variables-Settles :
    (vars : Option (List Variable)) (names : CString)
    → IsSized vars
    → Settles IsSized (add_variables vars names)
unfolding add_variables
add_variables-Settles vars names h =
    Settles->>= Any (data_count vars) (data_count-Settles vars h) λ count e u.
      Settles->>= Any (declared names) (declared-Settles names) λ news f v.
        Settles-if (ltb u16_last (count + length news + 1)) (λ g. Settles-fault)
          (λ fits.
            let end : Variable = record { var_name = 0; var_value = pos 0 } in
            Settles-ok _ (
              omega (
                arith,
                ltb-le u16_last (count + length news + 1) fits,
                length-kept vars count,
                length-append (kept vars count ++ news) (end ∷ []),
                length-append (kept vars count) news,
              )))
  where
    ltb-le : (a b : ℕ) → ltb a b ≡ false → b ≤ a
    ltb-le a b h = ground arith
