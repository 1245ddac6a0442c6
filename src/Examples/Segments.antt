-- ===== src/Examples/Segments.antt =====
-- The theorems on messages, scripts and data segments at concrete texts.
use sisop_2012_2c.Shared.{
  ℕ, zero, suc, ◌≡◌, refl, ◌&&◌, List, [], ◌∷◌, ◌++◌, Option, some, none, codes, length, map, arith,
  ◌==◌, if◌then◌else◌,
}
use sisop_2012_2c.Shared.Int.{pos, negsuc}
use sisop_2012_2c.Shared.Outcome.{ok, fault}
use sisop_2012_2c.Process.{Variable}
use sisop_2012_2c.Wire.{
  Stream, serialization, serialization_pri, read_stream, read_stream_pri, c_string,
}
use sisop_2012_2c.Wire.RoundTrip.{
  read_stream-serialization, read_stream_pri-serialization_pri, serialization-overflow,
}
use sisop_2012_2c.Script.{code_segment_creator}
use sisop_2012_2c.Script.Lines.{code_segment_creator-split, comment_at_end, split_lines, clean_line}
use sisop_2012_2c.Memory.{read_data, write_data, add_variables}
use sisop_2012_2c.Memory.Variables.{
  AllNamed, segment, is_declared, zeros, join_names, read_data-write_data, add_variables-segment,
}
use sisop_2012_2c.Examples.Values.{strings, script}

read_stream-serialization_example :
    (st : Stream) × (serialization b'N' (codes "MPS") ≡ ok st)
    × (st.length ≡ length st.bytes)
    × (buffer : List ℕ) × (read_stream (some (st.bytes ++ 7 ∷ []))
        ≡ ok (some (record { type = b'N'; payload = buffer }), some (7 ∷ [])))
    × (c_string buffer ≡ ok (codes "MPS"))
read_stream-serialization_example =
    read_stream-serialization b'N' (codes "MPS") (7 ∷ []) (omega arith)
      ((λ e. omega arith), ((λ e. omega arith), ((λ e. omega arith), _)))

read_stream_pri-serialization_pri_example :
    (st : Stream) × (serialization_pri b'N' (codes "x") (negsuc 4) ≡ ok st)
    × (st.length ≡ length st.bytes)
    × (buffer : List ℕ) × (read_stream_pri (some (st.bytes ++ []))
        ≡ ok (some (record { type = b'N'; payload = buffer }, negsuc 4), some []))
    × (c_string buffer ≡ ok (codes "x"))
read_stream_pri-serialization_pri_example =
    read_stream_pri-serialization_pri b'N' (codes "x") (negsuc 4) [] (omega arith)
      ((λ e. omega arith), _) (omega arith)

-- Texts of a given length.
abbrev blanks : ℕ → List ℕ
blanks zero = []
blanks (suc n) = b' ' ∷ blanks n

length-blanks : (n : ℕ) → length (blanks n) ≡ n
length-blanks zero = refl
length-blanks (suc n) = omega (arith, length-blanks n)

serialization-overflow_example : serialization b'N' (blanks 65532) ≡ fault
serialization-overflow_example =
    serialization-overflow b'N' (blanks 65532) (omega (arith, length-blanks 65532))

code_segment_creator-split_example : code_segment_creator script ≡ (
    if comment_at_end (split_lines script) then fault else ok (map clean_line (split_lines script)))
code_segment_creator-split_example = code_segment_creator-split script (omega arith)

abbrev two_variables : List Variable
two_variables =
    record { var_name = b'x'; var_value = pos 4 }
    ∷ record { var_name = b'y'; var_value = pos 5 }
    ∷ []

two_variables-AllNamed : AllNamed two_variables
two_variables-AllNamed = ((λ e. omega arith), ((λ e. omega arith), _))

read_data-write_data_example :
    (vars : Option (List Variable)) × (write_data (some (segment two_variables)) b'y' (pos 9)
      ≡ ok vars)
    × (read_data vars b'y' ≡ (
        if (b'y' == b'y') && is_declared b'y' two_variables
        then ok (pos 9)
        else read_data (some (segment two_variables)) b'y'))
read_data-write_data_example =
    read_data-write_data b'y' b'y' (pos 9) two_variables two_variables-AllNamed (omega arith)

add_variables-segment_example :
    (add_variables (some (segment two_variables)) (join_names b'a' (b'b' ∷ []))
      ≡ ok (some (segment (two_variables ++ zeros (b'a' ∷ b'b' ∷ [])))))
    × (add_variables none (join_names b'a' (b'b' ∷ []))
        ≡ ok (some (segment (zeros (b'a' ∷ b'b' ∷ [])))))
add_variables-segment_example =
    add_variables-segment two_variables b'a' (b'b' ∷ []) two_variables-AllNamed (omega arith)
