-- ===== src/Message.antt =====
-- The report on a process that PP sends to its client when it ends or is suspended: `prepareMessage`,
-- `dataStructureMsg` and `stackStructureMsg` of PROCER/PP/src/procer_defs.c, with the sizes of their
-- buffers, which are uint16_t.
pub mod Frames
use sisop_2012_2c.Shared.{
  ℕ, ◌+◌, ◌-◌, ◌%◌, List, [], ◌∷◌, ◌++◌, Option, none, some, CString, codes, length, ltb, ◌==◌,
  if◌then◌else◌,
}
use sisop_2012_2c.Shared.Outcome.{Outcome, ok, fault, ◌>>=◌}
use sisop_2012_2c.Shared.Number.{print_int, print_nat}
use sisop_2012_2c.Process.{Variable, Frame, ProcessImage}

-- One round of `dataStructureMsg`: "%c=%d\n" is appended by strcat to a buffer of offset + tmp_size
-- bytes, which starts as the empty string where `offset` is 0.
pub data_msg_loop : List Variable → ℕ → ℕ → CString → Outcome CString
data_msg_loop [] offset tmp_size msg = fault
data_msg_loop (v ∷ vars) offset tmp_size msg =
    let aux = v.var_name ∷ b'=' ∷ (print_int v.var_value ++ 10 ∷ []) in
    let tmp_size' = (tmp_size + (length aux + 1)) % 65536 in
    let start = (if offset == 0 then [] else msg) in
    let rest = data_msg_loop vars ((offset + tmp_size' + 65535) % 65536) tmp_size' (start ++ aux) in
    if v.var_name == 0
    then ok msg
    else if ltb (offset + tmp_size') (length start + length aux + 1)
    then fault
    else rest

-- A segment that ends at once leaves NULL, which `prepareMessage` prints.
unfoldable pub data_structure_msg : Option (List Variable) → Outcome CString
unfolding data_msg_loop
data_structure_msg none = ok []
data_structure_msg (some []) = fault
data_structure_msg (some (v ∷ vars)) =
    if v.var_name == 0 then fault else data_msg_loop (v ∷ vars) 0 0 []

-- "%u,%s\n" of the line of the call, counted from 1, and the name of the function.
abbrev pub frame_text : Frame → CString
frame_text f = print_nat (f.linecall + 1) ++ (b',' ∷ f.function_name ++ 10 ∷ [])

-- One round of `stackStructureMsg`: memcpy takes tmp_size bytes, which adds up over the rounds, out
-- of the text with its NUL.
unfoldable pub stack_msg_loop : List Frame → ℕ → ℕ → CString → Outcome CString
stack_msg_loop [] offset tmp_size msg = ok msg
stack_msg_loop (f ∷ stack) offset tmp_size msg =
    let aux = frame_text f in
    let tmp_size' = (tmp_size + (length aux + 1)) % 65536 in
    let rest = stack_msg_loop stack ((offset + tmp_size' + 65535) % 65536) tmp_size' (msg ++ aux) in
    if ltb (length aux + 1) tmp_size' then fault else rest

unfoldable pub stack_structure_msg : List Frame → Outcome CString
unfolding stack_msg_loop
stack_structure_msg stack = stack_msg_loop stack 0 0 []

abbrev pub rule_text : CString
rule_text = codes "-------------------------\n"

abbrev pub long_rule_text : CString
long_rule_text = codes "------------------------------------------\n"

unfoldable pub prepare_message : {D : Type 0} → ProcessImage D → Outcome CString
unfolding data_structure_msg stack_structure_msg
prepare_message p = do
  data_text ← data_structure_msg p.vars
  stack_text ← stack_structure_msg p.stack
  ok (
      10 ∷ long_rule_text
      ++ (codes "\nID="
          ++ (print_nat p.pid
              ++ (codes "\nPC="
                  ++ (print_nat (p.pc + 1)
                      ++ (codes "\n\n- Estructura de c"
                          ++ (0xc3 ∷ 0xb3 ∷ codes "digo ----\n"
                              ++ (p.code
                                  ++ (10 ∷ rule_text
                                      ++ (codes "\n- Estructura de Datos ----\n"
                                          ++ (data_text
                                              ++ (10 ∷ rule_text
                                                  ++ (codes "\n- Estructura de Stack ----\n"
                                                      ++ (stack_text
                                                          ++ (10 ∷ long_rule_text
                                                            ++ 10 ∷ 10 ∷ [])))))))))))))))
