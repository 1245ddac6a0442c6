-- ===== src/Machine/Preserve.antt =====
-- What the instructions keep: a property `P` of the machine between two instructions and a property
-- `Q` inside one, which the changes that an instruction makes of the machine keep one by one.
use sisop_2012_2c.Shared.{ℕ, Bool, true, false, List, CString, if◌then◌else◌}
use sisop_2012_2c.Shared.Int.{ℤ, pos, eqb_ℤ, to_u32, to_u16}
use sisop_2012_2c.Shared.Outcome.{
  ok, ◌>>=◌, Holds, Holds-ok, Holds-hang, Holds-if, Holds->>=, Holds-after,
}
use sisop_2012_2c.Commons.{Collections, Strings}
use sisop_2012_2c.Process.{ProcessImage}
use sisop_2012_2c.Doubles.{Doubles}
use sisop_2012_2c.Memory.{read_data, write_data, add_variables}
use sisop_2012_2c.Script.{advance, change_pc}
use sisop_2012_2c.Machine.Expression.{evaluate}
use sisop_2012_2c.Machine.{
  char_at, line_time, from_semicolon, io_arguments, Machine, sleep, say, request_io, charge,
  write_step, variables_step, imprimir_step, ssc_step, snc_step, assign_step, assign_io_step,
  assign_io_function_step, io_step, threads_free,
}

pub record IsKept {D : Type 0} ⦃c : Collections⦄ ⦃d : Doubles D⦄ (P Q : Machine D → Type 0)
    : Type 0 where
  pub set_image : (m : Machine D) (p : ProcessImage D) → Q m → Q (record m { image = p })
  pub sleep_kept : (seconds : ℤ) (m : Machine D) → Q m → Q (sleep seconds m)
  pub say_kept : (text : CString) (m : Machine D) → Q m → Q (say text m)
  pub request_kept : (flag : Bool) (time : ℕ) (m : Machine D) → Q m → Q (request_io flag time m)
  pub block_kept : (m : Machine D) → Q m → Q (record m { io_block = true })
  pub leave : (m : Machine D) → Q m → P m
  pub charge_kept : (m : Machine D) → Q m → P (charge m)

module _ {D : Type 0} ⦃c : Collections⦄ ⦃s : Strings⦄ ⦃d : Doubles D⦄ (P Q : Machine D → Type 0)
    (k : IsKept P Q) where
  write_step-kept : (name : ℕ) (value : ℤ) (m : Machine D) → Q m → Holds Q (write_step name value m)
  unfolding write_step
  write_step-kept name value m q =
      Holds-after (write_data m.image.vars name value) λ vars e. Holds-ok _ (k.set_image m _ q)

  pub variables_step-kept : (line : CString) (m : Machine D) → Q m → Holds P (variables_step line m)
  unfolding variables_step
  variables_step-kept line m q = Holds-after (advance 10 line) λ names e.
      Holds-after (add_variables m.image.vars names)
        λ vars f. Holds-ok _ (k.leave _ (k.set_image m _ q))

  pub imprimir_step-kept : (line : CString) (m : Machine D) → Q m → Holds P (imprimir_step line m)
  unfolding imprimir_step
  imprimir_step-kept line m q = Holds-after (char_at line 9) λ name e.
      Holds-after (read_data m.image.vars name) λ value f. Holds-ok _ (k.leave _ (k.say_kept _ m q))

  pub ssc_step-kept :
      (code : List CString) (line : CString) (m : Machine D) → Q m → Holds P (ssc_step code line m)
  unfolding ssc_step
  ssc_step-kept code line m q = Holds-after (char_at line 4) λ name e.
      Holds-after (read_data m.image.vars name) λ value f.
        Holds-after
          (if eqb_ℤ value (pos 0)
            then (do tag ← advance 6 line; change_pc code tag)
            else ok m.image.pc)
          λ target g. Holds-after (line_time (from_semicolon line) m) λ seconds h.
            Holds-ok _ (k.charge_kept _ (k.sleep_kept _ _ (k.sleep_kept _ _ (k.set_image m _ q))))

  pub snc_step-kept :
      (code : List CString) (line : CString) (m : Machine D) → Q m → Holds P (snc_step code line m)
  unfolding snc_step
  snc_step-kept code line m q = Holds-after (char_at line 4) λ name e.
      Holds-after (read_data m.image.vars name) λ value f.
        Holds-after
          (if eqb_ℤ value (pos 0)
            then ok m.image.pc
            else (do tag ← advance 6 line; change_pc code tag))
          λ target g.
            Holds-after (line_time (from_semicolon line) m)
              λ seconds h. Holds-ok _ (k.charge_kept _ (k.sleep_kept _ _ (k.set_image m _ q)))

  pub assign_step-kept : (line : CString) (m : Machine D) → Q m → Holds P (assign_step line m)
  unfolding assign_step
  assign_step-kept line m q = Holds-after (advance 1 line) λ text e.
      Holds-after (evaluate m.image.vars text) λ value f. Holds-after (char_at line 0) λ name g.
        Holds->>= Q (write_step name value.0 m) (write_step-kept name value.0 m q) λ written w.
          Holds-after (line_time value.1 m)
            λ seconds h. Holds-ok _ (k.charge_kept _ (k.sleep_kept _ written w))

  pub io_step-kept :
      (width : ℤ → ℕ) (pc : ℕ) (line : CString) (m : Machine D)
      → Q m
      → Holds P (io_step width pc line m)
  unfolding io_step
  io_step-kept width pc line m q = Holds-after (advance 3 line) λ text e.
      Holds-after (io_arguments text) λ arguments f.
        Holds-if arguments.1
          (λ at_once.
            Holds-if (threads_free m) (λ free. Holds-ok _ (k.leave _ (k.request_kept true _ m q)))
              (λ busy. Holds-ok _ (k.leave _ (k.say_kept _ m q))))
          (λ waits. Holds-ok _ (k.leave _ (k.block_kept _ (k.request_kept false _ m q))))

  pub assign_io_step-kept :
      (pc : ℕ) (line : CString) (m : Machine D) → Q m → Holds P (assign_io_step pc line m)
  unfolding assign_io_step
  assign_io_step-kept pc line m q = Holds-after (char_at line 0) λ name e.
      Holds-after (advance 5 line) λ text f. Holds-after (io_arguments text) λ arguments g.
        Holds-if arguments.1
          (λ at_once.
            Holds-if (threads_free m) (λ free. Holds-hang)
              (λ busy.
                Holds->>= Q (write_step name (pos 0) m) (write_step-kept name (pos 0) m q)
                  λ written w.
                    Holds-ok _ (k.charge_kept _ (k.sleep_kept _ _ (k.say_kept _ written w)))))
          (λ waits.
            Holds->>= Q (write_step name (pos 1) (request_io false (to_u32 arguments.0) m))
              (write_step-kept name (pos 1) _ (k.request_kept false _ m q))
              λ written w. Holds-ok _ (k.charge_kept _ (k.sleep_kept _ _ (k.block_kept written w))))

  pub assign_io_function_step-kept :
      (pc : ℕ) (line : CString) (m : Machine D) → Q m → Holds P (assign_io_function_step pc line m)
  unfolding assign_io_function_step
  assign_io_function_step-kept pc line m q = Holds-after (char_at line 0) λ name e.
      Holds-after (advance 5 line) λ text f. Holds-after (io_arguments text) λ arguments g.
        Holds-if arguments.1
          (λ at_once.
            Holds-if (threads_free m)
              (λ free.
                Holds->>= Q (write_step name (pos 1) (request_io true (to_u16 arguments.0) m))
                  (write_step-kept name (pos 1) _ (k.request_kept true _ m q))
                  λ written w. Holds-ok _ (k.charge_kept _ (k.sleep_kept _ written w)))
              (λ busy.
                Holds->>= Q (write_step name (pos 0) m) (write_step-kept name (pos 0) m q)
                  λ written w.
                    Holds-ok _ (k.charge_kept _ (k.sleep_kept _ _ (k.say_kept _ written w)))))
          (λ waits.
            Holds->>= Q (write_step name (pos 1) (request_io false (to_u16 arguments.0) m))
              (write_step-kept name (pos 1) _ (k.request_kept false _ m q))
              λ written w. Holds-ok _ (k.charge_kept _ (k.sleep_kept _ _ (k.block_kept written w))))
